-- ===== src/Batches/Finish.antt =====
-- How a run of the worker leaves its job.
use network_gateway_api.Prelude.{
  ◌≡◌, ◌⊎◌, refl, ◌∙◌, true, false, not, Option, none, some, List, [], ◌∷◌, String, arith, Outcome,
  ok, err, Bool-cases, Option-cases, Outcome-cases, inl, inr, eq_iff, le→leb, lt→ltb,
}
use network_gateway_api.Value.{Value, Fields, dict, merge}
use network_gateway_api.Secrets.Vault.{Vault}
use network_gateway_api.Storage.Tables.{find, update, find-update}
use network_gateway_api.Storage.Errors.{StoreError, not_found, cannot_decrypt}
use network_gateway_api.Storage.Transaction.{
  Condition, working, closed, failing, calling, ◌>>=◌, commit, transaction,
}
use network_gateway_api.Storage.Post.{Post, Post-or_raise, Post-require}
use network_gateway_api.Storage.Rows.{All-find}
use network_gateway_api.Jobs.Rows.{
  Status, completed, failed, is_active, SnapshotItem, Job, job_id, satisfies_checks, update_job,
}
use network_gateway_api.Jobs.Operations.{
  record_job_result, allows, is_incomplete, with_status, clean_error, status_block, set_job_status,
  get_job_connections,
}
use network_gateway_api.Jobs.Invariant.{IsValid, JobIsValid}
use network_gateway_api.Jobs.Keeps.{record_job_result-IsValid}
use network_gateway_api.Jobs.Lifecycle.{set_job_status-IsValid}
use network_gateway_api.Batches.Worker.{
  Weather, Turn, Ending, finished, interrupted, broken, described, fail_job, run_loop, run_all,
  conclude, run_job,
}
use network_gateway_api.Batches.Open.{
  IsOpen, Post-weaken, update_job-find, record_job_result-IsOpen, set_running-IsOpen,
}

-- The job is there, and completed or failed.
pub record HasEnded (id : String) (jobs : List Job) : Type 0 where
  pub row : Job
  pub found : find job_id id jobs ≡ some row
  pub ended : is_active row.status ≡ false

module _ (vault : Vault (List SnapshotItem)) (resolve : String → Outcome StoreError Fields)
    (text_of : Value → String) (id : String) where
  abbrev Open : List Job → Type 0
  Open = IsOpen vault resolve text_of id

  satisfies_checks-failed :
      (row : Job) (error : Option String)
      → JobIsValid row
      → satisfies_checks (with_status vault resolve text_of failed error row) ≡ true
  unfolding satisfies_checks
  satisfies_checks-failed row error v =
      rw (lt→ltb 0 row.total v.nonempty, le→leb row.completed row.total v.bounded)

  allows-failed : (status : Status) → is_active status ≡ true → allows status failed ≡ true
  allows-failed status h = ground arith

  status_block-failed :
      (message : String) (jobs : List Job) (v : IsValid jobs) (o : Open jobs)
      → status_block vault resolve text_of id failed (some message) jobs
        ≡ ok (
          tt,
          update job_id id
              (with_status vault resolve text_of failed
                (clean_error vault resolve text_of (some message) o.snapshot))
              jobs,
        )
  unfolding status_block update_job
  status_block-failed message jobs v o =
      let allowed : allows o.row.status failed ≡ true = allows-failed o.row.status o.active in
      let fits =
        satisfies_checks-failed o.row (clean_error vault resolve text_of (some message) o.snapshot)
          (All-find job_id JobIsValid id jobs o.found v.rows) in
      rw (o.found, ◌>>=◌, allowed, o.opened, fits)

  -- `_fail` ends a job that is still active.
  fail_job-HasEnded :
      (message : String) (jobs : List Job)
      → IsValid jobs
      → Open jobs
      → HasEnded id (fail_job vault resolve text_of id working message jobs)
  unfolding fail_job set_job_status transaction calling
  fail_job-HasEnded message jobs v o = record {
    row =
        with_status vault resolve text_of failed
          (clean_error vault resolve text_of (some message) o.snapshot) o.row;
    found =
        rw (status_block-failed message jobs v o, fail_job)
          (find-update job_id id id
              (with_status vault resolve text_of failed
                (clean_error vault resolve text_of (some message) o.snapshot))
              (λ _. refl) jobs
            ∙ rw o.found (ground (arith, eq_iff id id)));
    ended = refl;
  }

  ending_block-HasEnded :
      (status : Status) (error : Option String) (jobs : List Job)
      → is_active status ≡ false
      → Post
          (λ _ jobs'. HasEnded id jobs')
          (status_block vault resolve text_of id status error jobs)
  unfolding status_block
  ending_block-HasEnded status error jobs ended =
      Post-or_raise _ not_found (find job_id id jobs) _ jobs λ row found.
        Post-require _ (allows row.status status) _ _ jobs λ allowed.
          Post-require _ (not (is_incomplete vault resolve text_of status row)) _ _ jobs λ complete.
            Post-or_raise _ cannot_decrypt (vault.decrypt row.snapshot) _ jobs λ snapshot opened.
              Post-weaken vault resolve text_of id
                (update_job id
                  (with_status vault resolve text_of status
                    (clean_error vault resolve text_of error snapshot))
                  row jobs)
                (λ _ jobs' found'. record {
                  row =
                      with_status vault resolve text_of status
                        (clean_error vault resolve text_of error snapshot) row;
                  found = found';
                  ended = ended;
                })
                (update_job-find vault resolve text_of id
                  (with_status vault resolve text_of status
                    (clean_error vault resolve text_of error snapshot))
                  row jobs found (λ _. refl))

  -- What the loop leaves: an ended job, or one that `_fail` can still end.
  abbrev Fits : Ending × List Job → Type 0
  Fits (finished, jobs) = HasEnded id jobs
  Fits (interrupted, jobs) = IsValid jobs × Open jobs
  Fits (broken, jobs) = IsValid jobs × Open jobs

  get_job_connections-keeps :
      (P : List Job → Type 0) (jobs : List Job)
      → P jobs
      → P (get_job_connections vault resolve text_of id jobs).1
  unfolding get_job_connections transaction
  get_job_connections-keeps P jobs p = elim (Option-cases (find job_id id jobs)) [
    | inl e ↦ rw (e, get_job_connections, ◌>>=◌) p
    | inr (row, e) ↦ elim (Option-cases (vault.decrypt row.snapshot)) [
      | inl g ↦ rw (e, g, get_job_connections, ◌>>=◌) p
      | inr (snapshot, g) ↦ rw (e, g, get_job_connections, ◌>>=◌) p
    ]
  ]

  -- `_fail` ends the job, or the store could not be asked and the job is as it was.
  end_or_wait :
      (condition : Condition) (message : String) (jobs : List Job)
      → IsValid jobs
      → Open jobs
      → HasEnded id (fail_job vault resolve text_of id condition message jobs)
        ⊎ (¬ (condition ≡ working)
            × IsValid (fail_job vault resolve text_of id condition message jobs)
            × Open (fail_job vault resolve text_of id condition message jobs))
  unfolding fail_job calling
  end_or_wait working message jobs v o = inl (fail_job-HasEnded message jobs v o)
  end_or_wait closed message jobs v o = inr (λ same. cc, v, o)
  end_or_wait failing message jobs v o = inr (λ same. cc, v, o)

  -- A call keeps what the operation keeps, however the store is.
  calling-keeps :
      {A : Type 0} (P : List Job → Type 0) (condition : Condition) (jobs : List Job)
      (r : Outcome StoreError A × List Job)
      → P jobs
      → P r.1
      → P (calling condition jobs r).1
  unfolding calling
  calling-keeps P working jobs r p q = q
  calling-keeps P closed jobs r p q = p
  calling-keeps P failing jobs r p q = p

  module _ (weather : Weather) (turn : String → Turn) where
    complete-Fits :
        (jobs : List Job)
        → IsValid jobs
        → Open jobs
        → Fits (run_loop vault resolve text_of id weather turn [] jobs)
    unfolding run_loop set_job_status calling
    complete-Fits jobs v o =
        go weather.at_end (status_block vault resolve text_of id completed none jobs)
          (ending_block-HasEnded completed none jobs refl)
      where
        go :
            (condition : Condition) (r : Outcome StoreError (Unit {0} × List Job))
            → Post (λ _ jobs'. HasEnded id jobs') r
            → Fits (elim (calling condition jobs (commit r jobs)).0 [
              | ok _ ↦ (finished, (calling condition jobs (commit r jobs)).1)
              | err e ↦ (broken, (calling condition jobs (commit r jobs)).1)
            ])
        go working (ok (a, s)) q = q
        go working (err e) q = (v, o)
        go closed r q = (v, o)
        go failing r q = (v, o)

    run_loop-Fits :
        (profiles : List (String × Fields)) (jobs : List Job)
        → IsValid jobs
        → Open jobs
        → Fits (run_loop vault resolve text_of id weather turn profiles jobs)
    unfolding run_loop
    run_loop-Fits [] jobs v o = complete-Fits jobs v o
    run_loop-Fits ((connection, profile) ∷ rest) jobs v o =
        elim (Bool-cases (turn connection).stopping) [
          | inl e ↦ rw (e, run_loop) (v, o)
          | inr e ↦ elim (Option-cases (turn connection).outcome) [
            | inl f ↦ rw (e, f, run_loop) (v, o)
            | inr (result, f) ↦ elim (Option-cases (described connection profile)) [
              | inl g ↦ rw (e, f, g, run_loop) (v, o)
              | inr (more, g) ↦
                  let condition = weather.at_result connection in
                  let r =
                    record_job_result vault resolve text_of id (dict (merge result more)) jobs in
                  let v' = calling-keeps IsValid condition jobs r v (
                    record_job_result-IsValid vault resolve text_of id (dict (merge result more))
                      jobs v) in
                  let o' = calling-keeps Open condition jobs r o (
                    record_job_result-IsOpen vault resolve text_of id (merge result more) jobs o) in
                  elim (Outcome-cases (calling condition jobs r).0) [
                    | inl (_, h) ↦ rw (e, f, g, h, run_loop) (run_loop-Fits rest _ v' o')
                    | inr (_, h) ↦ rw (e, f, g, h, run_loop) (v', o')
                  ]
            ]
          ]
        ]

    run_all-Fits :
        (jobs : List Job)
        → IsValid jobs
        → Open jobs
        → Fits (run_all vault resolve text_of id weather turn jobs)
    unfolding run_all
    run_all-Fits jobs v o =
        let start = set_job_status vault resolve text_of id "running" none jobs in
        let v' =
          calling-keeps IsValid weather.at_start jobs start v
            (set_job_status-IsValid vault resolve text_of id "running" none jobs v) in
        let o' =
          calling-keeps Open weather.at_start jobs start o
            (set_running-IsOpen vault resolve text_of id none jobs o) in
        elim (Outcome-cases (calling weather.at_start jobs start).0) [
          | inr (_, h) ↦ rw (h, run_all) (v', o')
          | inl (_, h) ↦
              let jobs' = (calling weather.at_start jobs start).1 in
              let read = get_job_connections vault resolve text_of id jobs' in
              let v'' =
                calling-keeps IsValid weather.at_read jobs' read v'
                  (get_job_connections-keeps IsValid jobs' v') in
              let o'' =
                calling-keeps Open weather.at_read jobs' read o'
                  (get_job_connections-keeps Open jobs' o') in
              elim (Outcome-cases (calling weather.at_read jobs' read).0) [
                | inr (_, g) ↦ rw (h, g, run_all) (v'', o'')
                | inl (profiles, g) ↦ rw (h, g, run_all) (run_loop-Fits profiles _ v'' o'')
              ]
        ]

    -- However the tests of the connections turn out, whether shutdown interrupts the run, whatever
    -- the store refuses and at whichever of its calls it is closed or its database fails, the
    -- worker leaves the job completed or failed, if the table was valid and the job was active
    -- with a snapshot that the vault opens. The one exception is a run whose `_fail` meets a closed
    -- store or a failing database: the job then has ended all the same, or it is still active, in a
    -- valid table, for the recovery at the next start.
    pub run_job-HasEnded :
        (jobs : List Job)
        → IsValid jobs
        → Open jobs
        → HasEnded id (run_job vault resolve text_of id weather turn jobs)
          ⊎ (¬ (weather.at_fail ≡ working)
              × IsValid (run_job vault resolve text_of id weather turn jobs)
              × Open (run_job vault resolve text_of id weather turn jobs))
    unfolding run_job
    run_job-HasEnded jobs v o =
        go (run_all vault resolve text_of id weather turn jobs) (run_all-Fits jobs v o)
      where
        go :
            (r : Ending × List Job)
            → Fits r
            → HasEnded id (conclude vault resolve text_of id weather.at_fail r)
              ⊎ (¬ (weather.at_fail ≡ working)
                  × IsValid (conclude vault resolve text_of id weather.at_fail r)
                  × Open (conclude vault resolve text_of id weather.at_fail r))
        go (finished, jobs') q = inl q
        go (interrupted, jobs') q =
            end_or_wait weather.at_fail "Batch interrupted by application shutdown." jobs' q.0 q.1
        go (broken, jobs') q = end_or_wait weather.at_fail "Batch processing failed." jobs' q.0 q.1
