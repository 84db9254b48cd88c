-- ===== src/Batches/Service.antt =====
-- `BatchService.start`, `get` and `shutdown` of app/bl/services/batches.py.
use network_gateway_api.Prelude.{
  ◌≡◌, refl, Bool, true, false, ◌||◌, List, [], ◌∷◌, String, ltb, ◌==◌, if◌then◌else◌, Outcome, ok,
  err, length, Bool-cases, inl, inr,
}
use network_gateway_api.Value.{Value, Items, Fields, str, list, nil, cons}
use network_gateway_api.Secrets.Vault.{Vault}
use network_gateway_api.Storage.Errors.{StoreError}
use network_gateway_api.Jobs.Rows.{SnapshotItem, Job}
use network_gateway_api.Jobs.Payload.{PublicJob, has_repeats}
use network_gateway_api.Jobs.Operations.{create_job, get_job}
use network_gateway_api.Storage.Transaction.{working}
use network_gateway_api.Batches.Worker.{fail_job}
use network_gateway_api.Management.Calls.{
  ManagementError, provider_error, store_call, check_test_provider,
}

-- `_closed`, `_stop`, and `_future` as whether there is one that is not done.
pub record BatchService : Type 0 where
  pub closed : Bool
  pub stopping : Bool
  pub busy : Bool
  pub jobs : List Job

abbrev items_of : List String → Items
items_of [] = nil
items_of (id ∷ ids) = cons (str id) (items_of ids)

abbrev with_jobs : BatchService → List Job → BatchService
with_jobs service jobs = record service { jobs = jobs }

-- `shutdown`, up to the wait for the worker
abbrev pub shutdown : BatchService → BatchService
shutdown service = record service { closed = true; stopping = true }

module _ (vault : Vault (List SnapshotItem)) (resolve : String → Outcome StoreError Fields)
    (text_of : Value → String) (provider : String)
    (get_connection : String → Outcome StoreError Fields) where
  -- The loop that looks at each selected connection
  unfoldable pub check_connections : List String → Outcome ManagementError (Unit {0})
  unfolding store_call check_test_provider
  check_connections [] = ok tt
  check_connections (id ∷ ids) = elim (store_call (get_connection id)) [
    | err e ↦ err e
    | ok profile ↦ elim (check_test_provider provider profile) [
      | err e ↦ err e
      | ok _ ↦ check_connections ids
    ]
  ]

  -- After `create_job`; `scheduled` is false where `submit` raises.
  unfoldable pub schedule :
      Bool
      → BatchService
      → Outcome StoreError PublicJob × List Job
      → Outcome ManagementError PublicJob × BatchService
  unfolding store_call fail_job
  schedule scheduled service (err e, jobs) = (store_call (err e), with_jobs service jobs)
  schedule true service (ok job, jobs) = (ok job, record service { busy = true; jobs = jobs })
  schedule false service (ok job, jobs) = (
    err (provider_error "The batch could not be scheduled." 503),
    with_jobs service
        (fail_job vault resolve text_of job.id working "The batch could not be scheduled." jobs),
  )

  -- `start`; `new_id` is the key that `create_job` draws.
  unfoldable pub start :
      String → Bool → List String → BatchService → Outcome ManagementError PublicJob × BatchService
  unfolding check_connections schedule create_job
  start new_id scheduled ids service =
      if length ids == 0 || ltb 1000 (length ids) || has_repeats ids
      then (err (provider_error "Select unique device identifiers." 422), service)
      else if service.closed
      then (err (provider_error "The batch worker is shutting down." 503), service)
      else if service.busy
      then (err (provider_error "A batch is already active." 409), service)
      else elim (check_connections ids) [
        | err e ↦ (err e, service)
        | ok _ ↦
            schedule scheduled service
              (create_job vault resolve text_of new_id (list (items_of ids)) service.jobs)
      ]

  -- `get`
  abbrev pub get_batch : String → BatchService → Outcome ManagementError PublicJob
  get_batch id service = store_call (get_job vault resolve text_of id service.jobs).0

  -- After a shutdown, and while a batch is running, no selection starts another: the service stays
  -- as it is, and the caller gets an error.
  pub start-refused :
      (new_id : String) (scheduled : Bool) (ids : List String) (service : BatchService)
      → service.closed || service.busy ≡ true
      → (e : ManagementError) × (start new_id scheduled ids service ≡ (err e, service))
  unfolding start
  start-refused new_id scheduled ids service h =
      elim (Bool-cases (length ids == 0 || ltb 1000 (length ids) || has_repeats ids)) [
        | inl a ↦ (provider_error "Select unique device identifiers." 422, rw (a, start) refl)
        | inr a ↦ elim (Bool-cases service.closed) [
          | inl b ↦ (provider_error "The batch worker is shutting down." 503, rw (a, b, start) refl)
          | inr b ↦
              let c : service.busy ≡ true = rw b at h in
              (provider_error "A batch is already active." 409, rw (a, b, c, start) refl)
        ]
      ]
