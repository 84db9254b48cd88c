-- ===== src/Jobs/Invariant.antt =====
-- What the table of jobs keeps, through every operation.
use network_gateway_api.Prelude.{
  ℕ, ◌≤◌, ◌<◌, ◌≡◌, refl, true, false, ◌&&◌, some, List, [], ◌∷◌, String, arith, length, any, All,
  All-append, Bool-cases, Option-cases, inl, inr,
}
use network_gateway_api.Storage.Tables.{find, update}
use network_gateway_api.Storage.Post.{Post}
use network_gateway_api.Storage.Rows.{
  IsKeyed, All-update, IsKeyed-update, IsKeyed-append, bit, bit-le, count_where, count_where-update,
  count_where-append,
}
use network_gateway_api.Jobs.Rows.{
  Status, completed, JobResult, Job, job_id, holds_slot, slot_matches, satisfies_checks, slot_taken,
  insert_job, update_job,
}

abbrev pub result_id : JobResult → String
result_id result = result.connection_id

-- A completed job has all its results.
abbrev pub IsFinished : Status → ℕ → ℕ → Type 0
IsFinished completed done total = done ≡ total
IsFinished _ done total = Unit

pub record JobIsValid (job : Job) : Type 0 where
  pub counted : job.completed ≡ length job.results
  pub bounded : job.completed ≤ job.total
  pub nonempty : 0 < job.total
  pub slot : slot_matches job.status job.active_slot ≡ true
  pub finished : IsFinished job.status job.completed job.total
  pub distinct : IsKeyed result_id job.results

pub record IsValid (jobs : List Job) : Type 0 where
  pub keyed : IsKeyed job_id jobs
  pub rows : All JobIsValid jobs
  pub one_active : count_where holds_slot jobs ≤ 1

-- An update of the found row that keeps the key, is valid, and takes no slot that it had not.
update-IsValid :
    (id : String) (change : Job → Job) (jobs : List Job) {row : Job}
    → IsValid jobs
    → find job_id id jobs ≡ some row
    → ((job : Job) → (change job).id ≡ job.id)
    → JobIsValid (change row)
    → bit (holds_slot (change row)) ≤ bit (holds_slot row)
    → IsValid (update job_id id change jobs)
update-IsValid id change jobs {row} v h keeps new less = record {
  keyed = IsKeyed-update job_id id change keeps jobs v.keyed;
  rows = All-update job_id JobIsValid id change jobs row v.keyed h new v.rows;
  one_active = omega (arith, count_where-update holds_slot job_id id change jobs v.keyed h);
}

pub none_held : (jobs : List Job) → any holds_slot jobs ≡ false → count_where holds_slot jobs ≡ 0
none_held [] h = refl
none_held (job ∷ jobs) h = ground (arith, none_held jobs)

-- An insertion, as far as the table's constraints let it through, where no row holds the slot.
pub insert_job-IsValid :
    (job : Job) (jobs : List Job)
    → (satisfies_checks job ≡ true → JobIsValid job)
    → count_where holds_slot jobs ≡ 0
    → IsValid jobs
    → Post (λ _ jobs'. IsValid jobs') (insert_job job jobs)
unfolding insert_job
insert_job-IsValid job jobs new free v = elim (Option-cases (find job_id job.id jobs)) [
  | inr (row, e) ↦ rw e tt
  | inl e ↦ elim (Bool-cases (satisfies_checks job)) [
    | inr g ↦ rw (e, g) tt
    | inl g ↦ elim (Bool-cases (holds_slot job && slot_taken job.id jobs)) [
      | inl t ↦ rw (e, g, t) tt
      | inr t ↦
          rw (e, g, t)
            (record {
              keyed = IsKeyed-append job_id jobs job v.keyed e;
              rows = All-append JobIsValid jobs (job ∷ []) v.rows (new g, tt);
              one_active =
                  rw (count_where-append holds_slot jobs (job ∷ []))
                    (omega (arith, bit-le (holds_slot job)));
            })
    ]
  ]
]

-- An update of the row that was read, as far as the table's constraints let it through.
pub update_job-IsValid :
    (id : String) (change : Job → Job) (row : Job) (jobs : List Job)
    → IsValid jobs
    → find job_id id jobs ≡ some row
    → ((job : Job) → (change job).id ≡ job.id)
    → (satisfies_checks (change row) ≡ true → JobIsValid (change row))
    → bit (holds_slot (change row)) ≤ bit (holds_slot row)
    → Post (λ _ jobs'. IsValid jobs') (update_job id change row jobs)
unfolding update_job
update_job-IsValid id change row jobs v h keeps new less =
    elim (Bool-cases (satisfies_checks (change row))) [
      | inr g ↦ rw g tt
      | inl g ↦ elim (Bool-cases (holds_slot (change row) && slot_taken id jobs)) [
        | inl t ↦ rw (g, t) tt
        | inr t ↦ rw (g, t) (update-IsValid id change jobs v h keeps (new g) less)
      ]
    ]
