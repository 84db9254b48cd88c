-- ===== src/Jobs/Settled.antt =====
-- A finished job of app/dal/db/store.py keeps its status and results.

use network_gateway_api.Prelude.{
  ◌≡◌, ◌∙◌, false, ◌&&◌, some, List, String, str_eq, eq_iff, arith, Bool-cases, Option-cases, inl,
  inr,
}
use network_gateway_api.Storage.Tables.{find, update, find-update, find-append}
use network_gateway_api.Storage.Post.{Post}
use network_gateway_api.Jobs.Rows.{
  Status, is_active, JobResult, Job, job_id, holds_slot, satisfies_checks, slot_taken, insert_job,
  update_job,
}

-- The job is there, finished, with this status and these results.
pub record IsSettled (id : String) (status : Status) (results : List JobResult) (jobs : List Job)
    : Type 0 where
  pub row : Job
  pub found : find job_id id jobs ≡ some row
  pub finished : is_active row.status ≡ false
  pub has_status : row.status ≡ status
  pub has_results : row.results ≡ results

module _ (id : String) (status : Status) (results : List JobResult) where
  abbrev Settled : List Job → Type 0
  Settled = IsSettled id status results

  update-Settled :
      (other : String) (change : Job → Job) (jobs : List Job) {row : Job}
      → find job_id other jobs ≡ some row
      → ((job : Job) → (change job).id ≡ job.id)
      → (is_active row.status ≡ false
          → ((change row).status ≡ row.status) × ((change row).results ≡ row.results))
      → Settled jobs
      → Settled (update job_id other change jobs)
  update-Settled other change jobs {row} h keeps same s = elim (Bool-cases (str_eq other id)) [
    | inr e ↦ record {
      row = s.row;
      found = rw (find-update job_id other id change keeps jobs, e) s.found;
      finished = s.finished;
      has_status = s.has_status;
      has_results = s.has_results;
    }
    | inl e ↦
        let same_row : row ≡ s.row = ground (arith, eq_iff other id, h, s.found) in
        let fixed = same (rw same_row s.finished) in
        record {
          row = change row;
          found = rw (find-update job_id other id change keeps jobs, e, s.found, same_row);
          finished = rw (fixed.0, same_row) s.finished;
          has_status = fixed.0 ∙ rw same_row s.has_status;
          has_results = fixed.1 ∙ rw same_row s.has_results;
        }
  ]

  pub update_job-Settled :
      (other : String) (change : Job → Job) (row : Job) (jobs : List Job)
      → find job_id other jobs ≡ some row
      → ((job : Job) → (change job).id ≡ job.id)
      → (is_active row.status ≡ false
          → ((change row).status ≡ row.status) × ((change row).results ≡ row.results))
      → Settled jobs
      → Post (λ _ jobs'. Settled jobs') (update_job other change row jobs)
  unfolding update_job
  update_job-Settled other change row jobs h keeps same s =
      elim (Bool-cases (satisfies_checks (change row))) [
        | inr g ↦ rw g tt
        | inl g ↦ elim (Bool-cases (holds_slot (change row) && slot_taken other jobs)) [
          | inl t ↦ rw (g, t) tt
          | inr t ↦ rw (g, t) (update-Settled other change jobs h keeps same s)
        ]
      ]

  pub insert_job-Settled :
      (job : Job) (jobs : List Job)
      → Settled jobs
      → Post (λ _ jobs'. Settled jobs') (insert_job job jobs)
  unfolding insert_job
  insert_job-Settled job jobs s = elim (Option-cases (find job_id job.id jobs)) [
    | inr (row, e) ↦ rw e tt
    | inl e ↦ elim (Bool-cases (satisfies_checks job)) [
      | inr g ↦ rw (e, g) tt
      | inl g ↦ elim (Bool-cases (holds_slot job && slot_taken job.id jobs)) [
        | inl t ↦ rw (e, g, t) tt
        | inr t ↦
            rw (e, g, t)
              (record {
                row = s.row;
                found = rw (find-append job_id id jobs job, s.found);
                finished = s.finished;
                has_status = s.has_status;
                has_results = s.has_results;
              })
      ]
    ]
  ]
