-- ===== src/Jobs/Keeps.antt =====
-- The job methods of app/dal/db/store.py keep the table valid.
use network_gateway_api.Prelude.{
  ℕ, ◌≡◌, refl, Bool, true, false, none, some, List, [], ◌∷◌, String, arith, Outcome, ok,
  Bool-cases, Option-cases, inl, inr,
}
use network_gateway_api.Value.{Value, Fields, str, dict}
use network_gateway_api.Secrets.Vault.{Vault}
use network_gateway_api.Storage.Tables.{find}
use network_gateway_api.Storage.Errors.{StoreError, not_found, cannot_decrypt}
use network_gateway_api.Storage.Post.{
  Post, Post-or_raise, Post-lift, Post-require, transaction-keeps,
}
use network_gateway_api.Storage.Rows.{All-find, IsKeyed-append}
use network_gateway_api.Jobs.Rows.{
  Status, queued, running, completed, failed, is_active, SnapshotItem, JobResult, Job, job_id,
  satisfies_checks,
}
use network_gateway_api.Jobs.Payload.{has_result, profile_of, credentials}
use network_gateway_api.Jobs.Operations.{
  entry, checked, clean_for, clean, record_block, record_job_result, with_result,
}
use network_gateway_api.Jobs.Invariant.{
  result_id, IsFinished, JobIsValid, IsValid, update_job-IsValid,
}

find-none_of_has_result :
    (id : String) (results : List JobResult)
    → has_result id results ≡ false
    → find result_id id results ≡ none
unfolding find
find-none_of_has_result id [] h = refl
find-none_of_has_result id (r ∷ results) h = ground (arith, find-none_of_has_result id results)

IsFinished-active :
    (status : Status) (done total : ℕ) → is_active status ≡ true → IsFinished status done total
IsFinished-active queued done total h = tt
IsFinished-active running done total h = tt
IsFinished-active completed done total h = cc
IsFinished-active failed done total h = cc

module _ (vault : Vault (List SnapshotItem)) (resolve : String → Outcome StoreError Fields)
    (text_of : Value → String) where
  entry-ok :
      (secrets : List String) (id : String) (profile result : Fields) (success : Bool)
      {cleaned : JobResult}
      → entry vault resolve text_of secrets id profile result success ≡ ok cleaned
      → cleaned.connection_id ≡ id
  unfolding entry
  entry-ok secrets id profile result success h = ground arith

  checked-ok :
      (secrets : List String) (id : String) (profile result : Fields) {cleaned : JobResult}
      → checked vault resolve text_of secrets id profile result ≡ ok cleaned
      → cleaned.connection_id ≡ id
  unfolding checked
  checked-ok secrets id profile result h =
      ground
        (arith, entry-ok secrets id profile result true, entry-ok secrets id profile result false)

  clean_for-ok :
      (snapshot : List SnapshotItem) (results : List JobResult) (result : Fields) (id : Value)
      {cleaned : JobResult}
      → clean_for vault resolve text_of snapshot results result id ≡ ok cleaned
      → (has_result cleaned.connection_id results ≡ false)
        × ((profile : Fields) × (profile_of cleaned.connection_id snapshot ≡ some profile))
  unfolding clean_for
  clean_for-ok snapshot results result (str id) {cleaned} h =
      elim (Option-cases (profile_of id snapshot)) [
        | inl e ↦ let h' = rw (e, clean_for) at h in cc
        | inr (profile, e) ↦ elim (Bool-cases (has_result id results)) [
          | inl g ↦ let h' = rw (e, g, clean_for) at h in cc
          | inr g ↦
              let same : cleaned.connection_id ≡ id =
                checked-ok (credentials snapshot) id profile result (rw (e, g, clean_for) at h) in
              (rw same g, (profile, rw same e))
        ]
      ]
  clean_for-ok snapshot results result _ h = cc

  -- An accepted entry is for a connection of the snapshot that has no result yet.
  pub clean-ok :
      (snapshot : List SnapshotItem) (results : List JobResult) (result : Fields)
      {cleaned : JobResult}
      → clean vault resolve text_of snapshot results result ≡ ok cleaned
      → (has_result cleaned.connection_id results ≡ false)
        × ((profile : Fields) × (profile_of cleaned.connection_id snapshot ≡ some profile))
  unfolding clean
  clean-ok snapshot results result h = clean_for-ok snapshot results result _ h

  with_result-JobIsValid :
      (row : Job) (cleaned : JobResult)
      → JobIsValid row
      → is_active row.status ≡ true
      → has_result cleaned.connection_id row.results ≡ false
      → satisfies_checks (with_result vault resolve text_of cleaned row row) ≡ true
      → JobIsValid (with_result vault resolve text_of cleaned row row)
  unfolding satisfies_checks
  with_result-JobIsValid row cleaned v active fresh fits = record {
    counted = refl;
    bounded = ground arith;
    nonempty = v.nonempty;
    slot = v.slot;
    finished = IsFinished-active row.status _ row.total active;
    distinct =
        IsKeyed-append result_id row.results cleaned v.distinct
          (find-none_of_has_result cleaned.connection_id row.results fresh);
  }

  record_block-IsValid :
      (id : String) (result : Fields) (jobs : List Job)
      → IsValid jobs
      → Post (λ _ jobs'. IsValid jobs') (record_block vault resolve text_of id result jobs)
  unfolding record_block
  record_block-IsValid id result jobs v =
      Post-or_raise _ not_found (find job_id id jobs) _ jobs λ row found.
        Post-require _ (is_active row.status) _ _ jobs λ active.
          Post-or_raise _ cannot_decrypt (vault.decrypt row.snapshot) _ jobs λ snapshot opened.
            Post-lift _ (clean vault resolve text_of snapshot row.results result) _ jobs
              λ cleaned accepted.
                update_job-IsValid id (with_result vault resolve text_of cleaned row) row jobs v
                  found (λ _. refl)
                  (with_result-JobIsValid row cleaned
                    (All-find job_id JobIsValid id jobs found v.rows) active
                    (clean-ok snapshot row.results result accepted).0)
                  (omega arith)

  -- Whatever result is handed in, accepted or refused, the table stays valid.
  pub record_job_result-IsValid :
      (id : String) (result : Value) (jobs : List Job)
      → IsValid jobs
      → IsValid (record_job_result vault resolve text_of id result jobs).1
  unfolding record_job_result
  record_job_result-IsValid id (dict result) jobs v =
      transaction-keeps IsValid (record_block vault resolve text_of id result) jobs v
        (record_block-IsValid id result jobs v)
  record_job_result-IsValid id _ jobs v = v
