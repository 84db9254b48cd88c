-- ===== src/Jobs/Operations.antt =====
-- `create_job`, `get_job`, `get_job_connections`, `record_job_result`, `set_job_status` and the
-- recovery at start of app/dal/db/store.py. The vault, the resolution of a saved connection and
-- Python's `str` of a value that is no text are parameters.
use network_gateway_api.Prelude.{
  ◌>>=◌ as ◌>>=ₒ◌, ℕ, Bool, true, false, not, ◌&&◌, Option, none, some, List, [], ◌∷◌, ◌++◌, String,
  str_eq, ◌==◌, if◌then◌else◌, length, any, map, Outcome, ok, err,
}
use network_gateway_api.Value.{
  Value, Fields, bool, int, str, dict, get, get_or, get_value, is_empty, merge, field, end,
}
use network_gateway_api.Prelude.Int.{pos}
use network_gateway_api.Secrets.Redact.{redact}
use network_gateway_api.Secrets.Vault.{Vault}
use network_gateway_api.Storage.Tables.{find}
use network_gateway_api.Storage.Errors.{
  StoreError, store_error, store_error_code, cannot_decrypt, not_found,
}
use network_gateway_api.Storage.Transaction.{
  Tx, pure, lift, gets, or_raise, transaction, require, uncaught, ◌>>=◌, ◌>>◌,
}
use network_gateway_api.Jobs.Rows.{
  Status, queued, running, completed, failed, is_active, SnapshotItem, JobResult, Job, job_id,
  holds_slot, insert_job, update_job,
}
use network_gateway_api.Jobs.Payload.{
  check_selection, PublicJob, public_job, profile_of, has_result, credentials, is_duration, is_fake,
  simulated_mismatch,
}

abbrev pub row_of : String → Tx (List Job) Job
row_of id jobs = or_raise not_found (find job_id id jobs) jobs

-- `status in ("queued", "running", "completed", "failed")`
abbrev pub status_of : String → Option Status
status_of text =
    if str_eq text "queued"
    then some queued
    else if str_eq text "running"
    then some running
    else if str_eq text "completed"
    then some completed
    else if str_eq text "failed"
    then some failed
    else none

-- The table `allowed` of `set_job_status`
abbrev pub allows : Status → Status → Bool
allows queued queued = true
allows queued running = true
allows queued failed = true
allows running running = true
allows running completed = true
allows running failed = true
allows completed completed = true
allows failed failed = true
allows _ _ = false

abbrev is_completed : Status → Bool
is_completed completed = true
is_completed _ = false

-- What a missing key of a dict that is read by `d[key]` raises
abbrev key_of : String → Fields → Outcome StoreError Value
key_of key d = elim (get key d) [ none ↦ err uncaught | some v ↦ ok v ]

abbrev fields_of : Value → Outcome StoreError Fields
fields_of (dict fields) = ok fields
fields_of _ = err uncaught

module _ (vault : Vault (List SnapshotItem)) (resolve : String → Outcome StoreError Fields)
    (text_of : Value → String) where
  -- The list comprehension over `_resolve_connection`: the first that raises ends it.
  unfoldable pub resolve_all : List String → Outcome StoreError (List SnapshotItem)
  resolve_all [] = ok []
  resolve_all (id ∷ ids) = elim (resolve id) [
    | err e ↦ err e
    | ok profile ↦ elim (resolve_all ids) [
      | err e ↦ err e
      | ok items ↦ ok (record { id = id; profile = profile } ∷ items)
    ]
  ]

  -- The row that `create_job` inserts; `new_id` is what `uuid.uuid4` returned.
  abbrev pub new_job : String → List SnapshotItem → Job
  new_job new_id snapshot = record {
    id = new_id;
    status = queued;
    total = length snapshot;
    completed = 0;
    snapshot = vault.encrypt snapshot;
    results = [];
    error = none;
    active_slot = some 1;
  }

  unfoldable pub create_block : String → List String → Tx (List Job) PublicJob
  unfolding resolve_all insert_job public_job
  create_block new_id ids = do
    free ← gets (λ jobs. not (any holds_slot jobs))
    require free (store_error_code "A connection-test job is already active." 409)
    snapshot ← lift (resolve_all ids)
    insert_job (new_job new_id snapshot)
    row ← row_of new_id
    pure (public_job row)

  unfoldable pub create_job : String → Value → List Job → Outcome StoreError PublicJob × List Job
  unfolding create_block check_selection transaction
  create_job new_id connection_ids jobs = elim (check_selection connection_ids) [
    | err e ↦ (err e, jobs)
    | ok ids ↦ transaction (create_block new_id ids) jobs
  ]

  unfoldable pub get_job : String → List Job → Outcome StoreError PublicJob × List Job
  unfolding public_job transaction
  get_job id = transaction do row ← row_of id; pure (public_job row)

  abbrev opened : Job → Tx (List Job) (List SnapshotItem)
  opened row jobs = or_raise cannot_decrypt (vault.decrypt row.snapshot) jobs

  -- `{"client_type": "network", **item["profile"]}`: the default shows only if the key is missing.
  abbrev with_client_type : SnapshotItem → String × Fields
  with_client_type item = (item.id, merge (field "client_type" (str "network") end) item.profile)

  unfoldable pub get_job_connections :
      String → List Job → Outcome StoreError (List (String × Fields)) × List Job
  unfolding transaction
  get_job_connections id =
      transaction do row ← row_of id; snapshot ← opened row; pure (map with_client_type snapshot)

  -- `redact(value, secrets)`, which begins with `str(value)`
  abbrev redacted : Value → List String → String
  redacted (str s) secrets = redact s secrets
  redacted v secrets = redact (text_of v) secrets

  -- The reads by `profile[...]` of `record_job_result`, and the entry that is stored.
  unfoldable pub entry :
      List String → String → Fields → Fields → Bool → Outcome StoreError JobResult
  unfolding redact
  entry secrets id profile result success = key_of "name" profile >>=ₒ λ name.
      key_of "protocol" profile >>=ₒ λ protocol. key_of "host" profile >>=ₒ λ host.
      key_of "port" profile >>=ₒ λ port.
      (key_of "connector" profile >>=ₒ fields_of) >>=ₒ λ connector.
      key_of "type" connector >>=ₒ λ kind. ok (record {
        connection_id = id;
        name = redacted name secrets;
        protocol = protocol;
        host = redacted host secrets;
        port = port;
        connector_type = kind;
        success = success;
        simulated = some (is_fake profile);
        stage = redacted (get_or "stage" (str "unknown") result) secrets;
        detail = redacted (get_or "detail" (str "") result) secrets;
        duration_ms = get_or "duration_ms" (int (pos 0)) result;
      })

  -- The checks of `record_job_result` on the fields of the result, in their order.
  unfoldable pub checked : List String → String → Fields → Fields → Outcome StoreError JobResult
  unfolding entry
  checked secrets id profile result =
      if not (is_duration (get_or "duration_ms" (int (pos 0)) result))
      then err (store_error "Invalid result duration.")
      else elim (get_value "success" result) [
        | bool success ↦
            if simulated_mismatch (get "simulated" result) (is_fake profile)
            then err (store_error "Result simulation flag does not match the stored connection.")
            else entry secrets id profile result success
        | _ ↦ err (store_error "Invalid result success value.")
      ]

  abbrev pub not_in_job : StoreError
  not_in_job = store_error "Result connection does not belong to this job."

  -- With the claimed connection
  unfoldable pub clean_for :
      List SnapshotItem → List JobResult → Fields → Value → Outcome StoreError JobResult
  unfolding profile_of checked
  clean_for snapshot results result (str id) = elim (profile_of id snapshot) [
    | none ↦ err not_in_job
    | some profile ↦
        if has_result id results
        then err (store_error_code "A result already exists for this connection." 409)
        else checked (credentials snapshot) id profile result
  ]
  clean_for snapshot results result _ = err not_in_job

  unfoldable pub clean : List SnapshotItem → List JobResult → Fields → Outcome StoreError JobResult
  unfolding clean_for
  clean snapshot results result =
      clean_for snapshot results result (get_value "connection_id" result)

  abbrev pub with_result : JobResult → Job → Job → Job
  with_result cleaned row job = record job {
    results = row.results ++ cleaned ∷ [];
    completed = length (row.results ++ cleaned ∷ []);
  }

  unfoldable pub record_block : String → Fields → Tx (List Job) (Unit {0})
  unfolding clean update_job
  record_block id result = do
    row ← row_of id
    require (is_active row.status) (store_error_code "Job is not active." 409)
    snapshot ← opened row
    cleaned ← lift (clean snapshot row.results result)
    update_job id (with_result cleaned row) row

  unfoldable pub record_job_result :
      String → Value → List Job → Outcome StoreError (Unit {0}) × List Job
  unfolding record_block transaction
  record_job_result id (dict result) jobs = transaction (record_block id result) jobs
  record_job_result id _ jobs = (err (store_error "Invalid job result."), jobs)

  abbrev pub slot_for : Status → Option ℕ
  slot_for status = if is_active status then some 1 else none

  -- `redact(error, ...) if error else None`
  abbrev pub clean_error : Option String → List SnapshotItem → Option String
  clean_error none snapshot = none
  clean_error (some text) snapshot =
      if is_empty text then none else some (redact text (credentials snapshot))

  abbrev pub with_status : Status → Option String → Job → Job
  with_status status error job = record job {
    status = status;
    active_slot = slot_for status;
    error = error;
  }

  abbrev pub is_incomplete : Status → Job → Bool
  is_incomplete status row = is_completed status && not (row.completed == row.total)

  unfoldable pub status_block : String → Status → Option String → Tx (List Job) (Unit {0})
  unfolding update_job
  status_block id status error = do
    row ← row_of id
    require (allows row.status status) (store_error_code "Invalid job status transition." 409)
    require (not (is_incomplete status row))
        (store_error_code "Cannot complete a job with missing results." 409)
    snapshot ← opened row
    update_job id (with_status status (clean_error error snapshot)) row

  unfoldable pub set_job_status :
      String → String → Option String → List Job → Outcome StoreError (Unit {0}) × List Job
  unfolding status_block transaction
  set_job_status id status error jobs = elim (status_of status) [
    | none ↦ (err (store_error "Invalid job status."), jobs)
    | some wanted ↦ transaction (status_block id wanted error) jobs
  ]

-- `update(jobs).where(jobs.c.active_slot == 1)` of `__init__`
abbrev pub interrupt : Job → Job
interrupt job =
    if holds_slot job
    then record job {
      status = failed;
      active_slot = none;
      error = some "Interrupted by gateway restart.";
    }
    else job

unfoldable pub recover : List Job → List Job
recover [] = []
recover (job ∷ jobs) = interrupt job ∷ recover jobs
