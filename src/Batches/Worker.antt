-- ===== src/Batches/Worker.antt =====
-- `_run` and `_fail` of app/bl/services/batches.py, over the jobs of the store.
use network_gateway_api.Prelude.{
  Bool, Option, none, some, List, [], ◌∷◌, String, if◌then◌else◌, Outcome, ok, err,
}
use network_gateway_api.Value.{
  Value, Fields, str, dict, field, end, get, get_or, get_value, merge, truthy,
}
use network_gateway_api.Secrets.Vault.{Vault}
use network_gateway_api.Storage.Errors.{StoreError}
use network_gateway_api.Storage.Transaction.{Condition, calling}
use network_gateway_api.Jobs.Rows.{SnapshotItem, Job}
use network_gateway_api.Jobs.Operations.{record_job_result, set_job_status, get_job_connections}

-- How the store is at each of its calls in a run
pub record Weather : Type 0 where
  pub at_start : Condition
  pub at_read : Condition
  pub at_result : String → Condition
  pub at_end : Condition
  pub at_fail : Condition

-- What the loop meets at a connection: whether shutdown was asked for by then, and what
-- `test_profile` returned, or `none` where it raised.
pub record Turn : Type 0 where
  pub stopping : Bool
  pub outcome : Option Fields

-- How `_run` came to its end.
pub data Ending : Type 0 where
  finished interrupted broken : Ending

-- `(profile.get("connector") or {}).get("type", "direct")`; `none` where that raises
abbrev pub connector_kind : Fields → Option Value
connector_kind profile = elim (get_value "connector" profile) [
  | dict connector ↦ some (get_or "type" (str "direct") connector)
  | other ↦ if truthy other then none else some (str "direct")
]

-- The fields that `result.update` sets; `none` where `profile[...]` raises
unfoldable pub described : String → Fields → Option Fields
described id profile = elim (get "protocol" profile) [
  | none ↦ none
  | some protocol ↦ elim (get "host" profile) [
    | none ↦ none
    | some host ↦ elim (get "port" profile) [
      | none ↦ none
      | some port ↦ elim (connector_kind profile) [
        | none ↦ none
        | some kind ↦ some (
            field "connection_id" (str id) (
              field "name" (get_or "name" (str "") profile) (
                field "protocol" protocol
                  (field "host" host (field "port" port (field "connector_type" kind end))))))
      ]
    ]
  ]
]

module _ (vault : Vault (List SnapshotItem)) (resolve : String → Outcome StoreError Fields)
    (text_of : Value → String) where
  -- An error that keeps the status from being written is only logged.
  unfoldable pub fail_job : String → Condition → String → List Job → List Job
  unfolding set_job_status calling
  fail_job id condition message jobs =
      (calling condition jobs
        (set_job_status vault resolve text_of id "failed" (some message) jobs)).1

  -- The loop over the profiles, up to the last `set_job_status`.
  unfoldable pub run_loop :
      String → Weather → (String → Turn) → List (String × Fields) → List Job → Ending × List Job
  unfolding described record_job_result set_job_status calling
  run_loop id weather turn [] jobs =
      let (r, jobs') =
        calling weather.at_end jobs
          (set_job_status vault resolve text_of id "completed" none jobs) in
      elim r [ ok _ ↦ (finished, jobs') | err e ↦ (broken, jobs') ]
  run_loop id weather turn ((connection, profile) ∷ rest) jobs =
      if (turn connection).stopping then (interrupted, jobs) else elim (turn connection).outcome [
        | none ↦ (broken, jobs)
        | some result ↦ elim (described connection profile) [
          | none ↦ (broken, jobs)
          | some more ↦
              let (r, jobs') =
                calling (weather.at_result connection) jobs
                  (record_job_result vault resolve text_of id (dict (merge result more)) jobs) in
              elim r [ ok _ ↦ run_loop id weather turn rest jobs' | err e ↦ (broken, jobs') ]
        ]
      ]

  -- The calls of `_fail` in `_run`
  abbrev pub conclude : String → Condition → Ending × List Job → List Job
  conclude id condition (finished, jobs) = jobs
  conclude id condition (interrupted, jobs) =
      fail_job id condition "Batch interrupted by application shutdown." jobs
  conclude id condition (broken, jobs) = fail_job id condition "Batch processing failed." jobs

  -- What happens up to the end of the loop: any exception of the store breaks the run.
  unfoldable pub run_all : String → Weather → (String → Turn) → List Job → Ending × List Job
  unfolding run_loop set_job_status get_job_connections calling
  run_all id weather turn jobs =
      let (r, jobs') =
        calling weather.at_start jobs
          (set_job_status vault resolve text_of id "running" none jobs) in
      elim r [
        | err e ↦ (broken, jobs')
        | ok _ ↦
            let (q, jobs'') =
              calling weather.at_read jobs' (get_job_connections vault resolve text_of id jobs') in
            elim q [
              | err e ↦ (broken, jobs'')
              | ok profiles ↦ run_loop id weather turn profiles jobs''
            ]
      ]

  -- `_run`
  unfoldable pub run_job : String → Weather → (String → Turn) → List Job → List Job
  unfolding run_all fail_job
  run_job id weather turn jobs = conclude id weather.at_fail (run_all id weather turn jobs)
