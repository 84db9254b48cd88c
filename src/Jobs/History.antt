-- ===== src/Jobs/History.antt =====
-- Runs of the job methods of app/dal/db/store.py, one after the other and with restarts between.
use network_gateway_api.Prelude.{
  ◌≡◌, refl, true, false, not, Option, List, String, arith, Outcome, Option-cases, Outcome-cases,
  inl, inr, any,
}
use network_gateway_api.Value.{Value, Fields, dict}
use network_gateway_api.Secrets.Vault.{Vault}
use network_gateway_api.Storage.Tables.{find}
use network_gateway_api.Storage.Errors.{StoreError, not_found, cannot_decrypt}
use network_gateway_api.Storage.Post.{
  Post-bind, Post-or_raise, Post-lift, Post-require, transaction-keeps,
}
use network_gateway_api.Storage.Rows.{All-find}
use network_gateway_api.Jobs.Rows.{
  Status, is_active, SnapshotItem, JobResult, Job, job_id, holds_slot, slot_matches, insert_job,
}
use network_gateway_api.Jobs.Payload.{check_selection}
use network_gateway_api.Jobs.Operations.{
  allows, is_incomplete, with_status, with_result, clean_error, clean, status_block, set_job_status,
  status_of, new_job, create_block, create_job, record_block, record_job_result, recover,
  resolve_all,
}
use network_gateway_api.Jobs.Invariant.{JobIsValid, IsValid}
use network_gateway_api.Jobs.Keeps.{record_job_result-IsValid}
use network_gateway_api.Jobs.Lifecycle.{create_job-IsValid, set_job_status-IsValid}
use network_gateway_api.Jobs.Recovery.{find-recover, recover-IsValid}
use network_gateway_api.Jobs.Settled.{IsSettled, update_job-Settled, insert_job-Settled}

module _ (vault : Vault (List SnapshotItem)) (resolve : String → Outcome StoreError Fields)
    (text_of : Value → String) where
  -- A call of a job method, whatever it returns, or a restart of the gateway.
  pub data Step (jobs : List Job) : List Job → Type 0 where
    create :
        (new_id : String) (ids : Value)
        → Step jobs (create_job vault resolve text_of new_id ids jobs).1
    record_result :
        (id : String) (result : Value)
        → Step jobs (record_job_result vault resolve text_of id result jobs).1
    set_status :
        (id status : String) (error : Option String)
        → Step jobs (set_job_status vault resolve text_of id status error jobs).1
    restart : Step jobs (recover jobs)

  pub data Reach (jobs : List Job) : List Job → Type 0 where
    here : Reach jobs jobs
    next : {middle last : List Job} → Reach jobs middle → Step middle last → Reach jobs last

  Step-IsValid : {jobs jobs' : List Job} → Step jobs jobs' → IsValid jobs → IsValid jobs'
  Step-IsValid {jobs} (create new_id ids) v =
      create_job-IsValid vault resolve text_of new_id ids jobs v
  Step-IsValid {jobs} (record_result id result) v =
      record_job_result-IsValid vault resolve text_of id result jobs v
  Step-IsValid {jobs} (set_status id status error) v =
      set_job_status-IsValid vault resolve text_of id status error jobs v
  Step-IsValid {jobs} restart v = recover-IsValid jobs v

  -- After any calls and restarts from a valid table (the empty one is), the table is valid: keys
  -- are distinct, at most one job is active, each job counts its results, has no two for one
  -- connection and no more than its total, holds the slot exactly while it is active, and has all
  -- its results if it is completed.
  pub Reach-IsValid : {jobs jobs' : List Job} → IsValid jobs → Reach jobs jobs' → IsValid jobs'
  Reach-IsValid v here = v
  Reach-IsValid v (next r s) = Step-IsValid s (Reach-IsValid v r)

  module _ (id : String) (status : Status) (results : List JobResult) where
    abbrev Settled : List Job → Type 0
    Settled = IsSettled id status results

    create-Settled :
        (new_id : String) (ids : Value) (jobs : List Job)
        → Settled jobs
        → Settled (create_job vault resolve text_of new_id ids jobs).1
    unfolding create_job create_block
    create-Settled new_id ids jobs s = elim (Outcome-cases (check_selection ids)) [
      | inr (e, h) ↦ rw (h, create_job) s
      | inl (chosen, h) ↦
          rw (h, create_job)
            (transaction-keeps Settled (create_block vault resolve text_of new_id chosen) jobs s (
              Post-require _ (not (any holds_slot jobs)) _ _ jobs λ free.
                Post-lift _ (resolve_all vault resolve text_of chosen) _ jobs λ snapshot resolved.
                  Post-bind _ (insert_job (new_job vault resolve text_of new_id snapshot)) _ jobs
                    λ _ jobs' inserted.
                      Post-or_raise _ not_found (find job_id new_id jobs') _ jobs' λ row found.
                        rw inserted at (
                          insert_job-Settled id status results
                            (new_job vault resolve text_of new_id snapshot) jobs s)))
    ]

    record-Settled :
        (other : String) (result : Value) (jobs : List Job)
        → Settled jobs
        → Settled (record_job_result vault resolve text_of other result jobs).1
    unfolding record_job_result record_block
    record-Settled other (dict result) jobs s =
        transaction-keeps Settled (record_block vault resolve text_of other result) jobs s (
          Post-or_raise _ not_found (find job_id other jobs) _ jobs λ row found.
            Post-require _ (is_active row.status) _ _ jobs λ active.
              Post-or_raise _ cannot_decrypt (vault.decrypt row.snapshot) _ jobs λ snapshot opened.
                Post-lift _ (clean vault resolve text_of snapshot row.results result) _ jobs
                  λ cleaned accepted.
                    update_job-Settled id status results other
                      (with_result vault resolve text_of cleaned row) row jobs found (λ _. refl)
                      (λ finished. cc) s)
    record-Settled other _ jobs s = s

    allows-same : (old new : Status) → is_active old ≡ false → allows old new ≡ true → new ≡ old
    allows-same old new h a = ground arith

    status-Settled :
        (other wanted : String) (error : Option String) (jobs : List Job)
        → Settled jobs
        → Settled (set_job_status vault resolve text_of other wanted error jobs).1
    unfolding set_job_status status_block
    status-Settled other wanted error jobs s = elim (Option-cases (status_of wanted)) [
      | inl e ↦ rw (e, set_job_status) s
      | inr (new, e) ↦
          rw (e, set_job_status)
            (transaction-keeps Settled (status_block vault resolve text_of other new error) jobs s (
              Post-or_raise _ not_found (find job_id other jobs) _ jobs λ row found.
                Post-require _ (allows row.status new) _ _ jobs λ allowed.
                  Post-require _ (not (is_incomplete vault resolve text_of new row)) _ _ jobs
                    λ complete.
                      Post-or_raise _ cannot_decrypt (vault.decrypt row.snapshot) _ jobs
                        λ snapshot opened.
                          update_job-Settled id status results other
                            (with_status vault resolve text_of new
                              (clean_error vault resolve text_of error snapshot))
                            row jobs found (λ _. refl)
                            (λ finished. (allows-same row.status new finished allowed, refl)) s))
    ]

    slot_free :
        (job : Job)
        → slot_matches job.status job.active_slot ≡ true
        → is_active job.status ≡ false
        → holds_slot job ≡ false
    slot_free job m h = ground arith

    restart-Settled : (jobs : List Job) → IsValid jobs → Settled jobs → Settled (recover jobs)
    restart-Settled jobs v s =
        let old = All-find job_id JobIsValid id jobs s.found v.rows in
        record {
          row = s.row;
          found = rw (find-recover id jobs, s.found, slot_free s.row old.slot s.finished);
          finished = s.finished;
          has_status = s.has_status;
          has_results = s.has_results;
        }

    Step-Settled :
        {jobs jobs' : List Job} → Step jobs jobs' → IsValid jobs → Settled jobs → Settled jobs'
    Step-Settled {jobs} (create new_id ids) v s = create-Settled new_id ids jobs s
    Step-Settled {jobs} (record_result other result) v s = record-Settled other result jobs s
    Step-Settled {jobs} (set_status other wanted error) v s =
        status-Settled other wanted error jobs s
    Step-Settled {jobs} restart v s = restart-Settled jobs v s

    -- A job that is completed or failed keeps its status and its results through whatever calls
    -- and restarts follow, from a valid table.
    pub Reach-IsSettled :
        {jobs jobs' : List Job}
        → IsValid jobs
        → Reach jobs jobs'
        → IsSettled id status results jobs
        → IsSettled id status results jobs'
    Reach-IsSettled v here s = s
    Reach-IsSettled v (next r st) s = Step-Settled st (Reach-IsValid v r) (Reach-IsSettled v r s)
