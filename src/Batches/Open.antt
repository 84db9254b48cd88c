-- ===== src/Batches/Open.antt =====
-- A job that is active and whose snapshot opens stays so while results are recorded.
use network_gateway_api.Prelude.{
  ◌≡◌, refl, ◌∙◌, true, not, ◌&&◌, Option, some, List, String, arith, Outcome, ok, err, Bool-cases,
  inl, inr, eq_iff,
}
use network_gateway_api.Value.{Value, Fields, dict}
use network_gateway_api.Secrets.Vault.{Vault}
use network_gateway_api.Storage.Tables.{find, find-update}
use network_gateway_api.Storage.Errors.{StoreError, not_found, cannot_decrypt}
use network_gateway_api.Storage.Post.{
  Post, Post-or_raise, Post-lift, Post-require, transaction-keeps,
}
use network_gateway_api.Jobs.Rows.{
  Status, running, is_active, SnapshotItem, Job, job_id, holds_slot, satisfies_checks, slot_taken,
  update_job,
}
use network_gateway_api.Jobs.Operations.{
  clean, record_block, record_job_result, with_result, allows, is_incomplete, with_status,
  clean_error, status_block, set_job_status,
}

module _ (vault : Vault (List SnapshotItem)) (resolve : String → Outcome StoreError Fields)
    (text_of : Value → String) (id : String) where
  pub record IsOpen (jobs : List Job) : Type 0 where
    pub row : Job
    pub found : find job_id id jobs ≡ some row
    pub active : is_active row.status ≡ true
    pub snapshot : List SnapshotItem
    pub opened : vault.decrypt row.snapshot ≡ some snapshot

  -- An accepted update puts the changed row in place of the one that was read.
  pub update_job-find :
      (change : Job → Job) (row : Job) (jobs : List Job)
      → find job_id id jobs ≡ some row
      → ((job : Job) → (change job).id ≡ job.id)
      → Post (λ _ jobs'. find job_id id jobs' ≡ some (change row)) (update_job id change row jobs)
  unfolding update_job
  update_job-find change row jobs h keeps = elim (Bool-cases (satisfies_checks (change row))) [
    | inr g ↦ rw g tt
    | inl g ↦ elim (Bool-cases (holds_slot (change row) && slot_taken id jobs)) [
      | inl t ↦ rw (g, t) tt
      | inr t ↦
          rw (g, t)
            (find-update job_id id id change keeps jobs ∙ rw h (ground (arith, eq_iff id id)))
    ]
  ]

  pub Post-weaken :
      {A S : Type 0} {P Q : A → S → Type 0} (r : Outcome StoreError (A × S))
      → ((a : A) (s : S) → P a s → Q a s)
      → Post P r
      → Post Q r
  Post-weaken (ok (a, s)) f h = f a s h
  Post-weaken (err e) f h = tt

  IsOpen-change :
      (change : Job → Job) (row : Job) (snapshot : List SnapshotItem) (jobs : List Job)
      → find job_id id jobs ≡ some row
      → ((job : Job) → (change job).id ≡ job.id)
      → is_active (change row).status ≡ true
      → vault.decrypt (change row).snapshot ≡ some snapshot
      → Post (λ _ jobs'. IsOpen jobs') (update_job id change row jobs)
  IsOpen-change change row snapshot jobs h keeps active opened =
      Post-weaken (update_job id change row jobs)
        (λ _ jobs' found. record {
          row = change row;
          found = found;
          active = active;
          snapshot = snapshot;
          opened = opened;
        })
        (update_job-find change row jobs h keeps)

  record_block-IsOpen :
      (result : Fields) (jobs : List Job)
      → Post (λ _ jobs'. IsOpen jobs') (record_block vault resolve text_of id result jobs)
  unfolding record_block
  record_block-IsOpen result jobs =
      Post-or_raise _ not_found (find job_id id jobs) _ jobs λ row found.
        Post-require _ (is_active row.status) _ _ jobs λ active.
          Post-or_raise _ cannot_decrypt (vault.decrypt row.snapshot) _ jobs λ snapshot opened.
            Post-lift _ (clean vault resolve text_of snapshot row.results result) _ jobs
              λ cleaned accepted.
                IsOpen-change (with_result vault resolve text_of cleaned row) row snapshot jobs
                  found (λ _. refl) active opened

  pub record_job_result-IsOpen :
      (result : Fields) (jobs : List Job)
      → IsOpen jobs
      → IsOpen (record_job_result vault resolve text_of id (dict result) jobs).1
  unfolding record_job_result
  record_job_result-IsOpen result jobs o =
      transaction-keeps IsOpen (record_block vault resolve text_of id result) jobs o
        (record_block-IsOpen result jobs)

  active_block-IsOpen :
      (status : Status) (error : Option String) (jobs : List Job)
      → is_active status ≡ true
      → Post (λ _ jobs'. IsOpen jobs') (status_block vault resolve text_of id status error jobs)
  unfolding status_block
  active_block-IsOpen status error jobs active =
      Post-or_raise _ not_found (find job_id id jobs) _ jobs λ row found.
        Post-require _ (allows row.status status) _ _ jobs λ allowed.
          Post-require _ (not (is_incomplete vault resolve text_of status row)) _ _ jobs λ complete.
            Post-or_raise _ cannot_decrypt (vault.decrypt row.snapshot) _ jobs λ snapshot opened.
              IsOpen-change
                (with_status vault resolve text_of status
                  (clean_error vault resolve text_of error snapshot))
                row snapshot jobs found (λ _. refl) active opened

  pub set_running-IsOpen :
      (error : Option String) (jobs : List Job)
      → IsOpen jobs
      → IsOpen (set_job_status vault resolve text_of id "running" error jobs).1
  unfolding set_job_status
  set_running-IsOpen error jobs o =
      transaction-keeps IsOpen (status_block vault resolve text_of id running error) jobs o
        (active_block-IsOpen running error jobs refl)
