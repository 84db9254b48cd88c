-- ===== src/Jobs/Lifecycle.antt =====
-- Creation, change of status and recovery in app/dal/db/store.py.

use network_gateway_api.Prelude.{
  ◌≤◌, ◌≡◌, refl, true, not, Option, List, String, arith, any, Outcome, Option-cases, Outcome-cases,
  eq-false_of_not, inl, inr,
}
use network_gateway_api.Value.{Value, Fields}
use network_gateway_api.Secrets.Vault.{Vault}
use network_gateway_api.Storage.Tables.{find}
use network_gateway_api.Storage.Errors.{StoreError, not_found, cannot_decrypt}
use network_gateway_api.Storage.Post.{
  Post, Post-bind, Post-or_raise, Post-lift, Post-require, transaction-keeps,
}
use network_gateway_api.Storage.Rows.{All-find, bit}
use network_gateway_api.Jobs.Rows.{
  Status, queued, running, completed, failed, SnapshotItem, Job, job_id, holds_slot, slot_matches,
  satisfies_checks, insert_job,
}
use network_gateway_api.Jobs.Payload.{check_selection}
use network_gateway_api.Jobs.Operations.{
  allows, is_incomplete, with_status, clean_error, status_block, set_job_status, status_of, new_job,
  create_block, create_job, resolve_all,
}
use network_gateway_api.Jobs.Invariant.{
  IsFinished, JobIsValid, IsValid, none_held, insert_job-IsValid, update_job-IsValid,
}

module _ (vault : Vault (List SnapshotItem)) (resolve : String → Outcome StoreError Fields)
    (text_of : Value → String) where
  IsFinished-of_complete :
      (status : Status) (row : Job)
      → not (is_incomplete vault resolve text_of status row) ≡ true
      → IsFinished status row.completed row.total
  IsFinished-of_complete queued row h = tt
  IsFinished-of_complete running row h = tt
  IsFinished-of_complete completed row h = ground arith
  IsFinished-of_complete failed row h = tt

  with_status-JobIsValid :
      (status : Status) (error : Option String) (row : Job)
      → JobIsValid row
      → not (is_incomplete vault resolve text_of status row) ≡ true
      → satisfies_checks (with_status vault resolve text_of status error row) ≡ true
      → JobIsValid (with_status vault resolve text_of status error row)
  unfolding satisfies_checks
  with_status-JobIsValid status error row v complete fits = record {
    counted = v.counted;
    bounded = v.bounded;
    nonempty = v.nonempty;
    slot = ground arith;
    finished = IsFinished-of_complete status row complete;
    distinct = v.distinct;
  }

  -- An allowed change of status takes no slot that the job does not hold.
  takes_no_slot :
      (old new : Status) (error : Option String) (row : Job)
      → row.status ≡ old
      → slot_matches row.status row.active_slot ≡ true
      → allows row.status new ≡ true
      → bit (holds_slot (with_status vault resolve text_of new error row)) ≤ bit (holds_slot row)
  takes_no_slot old new error row e m a = ground arith

  status_block-IsValid :
      (id : String) (status : Status) (error : Option String) (jobs : List Job)
      → IsValid jobs
      → Post (λ _ jobs'. IsValid jobs') (status_block vault resolve text_of id status error jobs)
  unfolding status_block
  status_block-IsValid id status error jobs v =
      Post-or_raise _ not_found (find job_id id jobs) _ jobs λ row found.
        let old = All-find job_id JobIsValid id jobs found v.rows in
        Post-require _ (allows row.status status) _ _ jobs λ allowed.
          Post-require _ (not (is_incomplete vault resolve text_of status row)) _ _ jobs λ complete.
            Post-or_raise _ cannot_decrypt (vault.decrypt row.snapshot) _ jobs λ snapshot opened.
              update_job-IsValid id
                (with_status vault resolve text_of status
                  (clean_error vault resolve text_of error snapshot))
                row jobs v found (λ _. refl)
                (with_status-JobIsValid status (clean_error vault resolve text_of error snapshot)
                  row old complete)
                (takes_no_slot row.status status (clean_error vault resolve text_of error snapshot)
                  row refl old.slot allowed)

  -- Whatever status is asked for, the table stays valid.
  pub set_job_status-IsValid :
      (id status : String) (error : Option String) (jobs : List Job)
      → IsValid jobs
      → IsValid (set_job_status vault resolve text_of id status error jobs).1
  unfolding set_job_status
  set_job_status-IsValid id status error jobs v = elim (Option-cases (status_of status)) [
    | inl e ↦ rw (e, set_job_status) v
    | inr (wanted, e) ↦
        rw (e, set_job_status)
          (transaction-keeps IsValid (status_block vault resolve text_of id wanted error) jobs v
            (status_block-IsValid id wanted error jobs v))
  ]

  new_job-JobIsValid :
      (new_id : String) (snapshot : List SnapshotItem)
      → satisfies_checks (new_job vault resolve text_of new_id snapshot) ≡ true
      → JobIsValid (new_job vault resolve text_of new_id snapshot)
  unfolding satisfies_checks
  new_job-JobIsValid new_id snapshot h = record {
    counted = refl;
    bounded = omega arith;
    nonempty = ground arith;
    slot = refl;
    finished = tt;
    distinct = tt;
  }

  create_block-IsValid :
      (new_id : String) (ids : List String) (jobs : List Job)
      → IsValid jobs
      → Post (λ _ jobs'. IsValid jobs') (create_block vault resolve text_of new_id ids jobs)
  unfolding create_block
  create_block-IsValid new_id ids jobs v =
      Post-require _ (not (any holds_slot jobs)) _ _ jobs λ free.
        Post-lift _ (resolve_all vault resolve text_of ids) _ jobs λ snapshot resolved.
          Post-bind _ (insert_job (new_job vault resolve text_of new_id snapshot)) _ jobs
            λ _ jobs' inserted.
              Post-or_raise _ not_found (find job_id new_id jobs') _ jobs' λ row found.
                rw inserted at (
                  insert_job-IsValid (new_job vault resolve text_of new_id snapshot) jobs
                    (new_job-JobIsValid new_id snapshot) (none_held jobs (eq-false_of_not _ free))
                    v)

  -- Whatever the selection and the new key, the table stays valid.
  pub create_job-IsValid :
      (new_id : String) (connection_ids : Value) (jobs : List Job)
      → IsValid jobs
      → IsValid (create_job vault resolve text_of new_id connection_ids jobs).1
  unfolding create_job
  create_job-IsValid new_id connection_ids jobs v =
      elim (Outcome-cases (check_selection connection_ids)) [
        | inr (e, h) ↦ rw (h, create_job) v
        | inl (ids, h) ↦
            rw (h, create_job)
              (transaction-keeps IsValid (create_block vault resolve text_of new_id ids) jobs v
                (create_block-IsValid new_id ids jobs v))
      ]
