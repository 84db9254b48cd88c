-- ===== src/Jobs/Rows.antt =====
-- `gateway_jobs` of app/dal/db/storage.py: a job's row, its results, and the table's constraints.
use network_gateway_api.Prelude.{
  ℕ, Bool, true, false, not, ◌&&◌, Option, is_some, ok, err, none, some, List, [], ◌∷◌, ◌++◌,
  String, str_eq, ltb, leb, ◌==◌, if◌then◌else◌, any,
}
use network_gateway_api.Value.{Value, Fields}
use network_gateway_api.Storage.Tables.{find, update}
use network_gateway_api.Storage.Errors.{conflict}
use network_gateway_api.Storage.Transaction.{Tx}

pub data Status : Type 0 where
  queued running completed failed : Status

abbrev pub is_active : Status → Bool
is_active queued = true
is_active running = true
is_active _ = false

-- One item of the encrypted snapshot, `{"id": ..., "profile": ...}`.
pub record SnapshotItem : Type 0 where
  pub id : String
  pub profile : Fields

-- `simulated` is missing from the results of old rows.
pub record JobResult : Type 0 where
  pub connection_id : String
  pub name : String
  pub protocol : Value
  pub host : String
  pub port : Value
  pub connector_type : Value
  pub success : Bool
  pub simulated : Option Bool
  pub stage : String
  pub detail : String
  pub duration_ms : Value

pub record Job : Type 0 where
  pub id : String
  pub status : Status
  pub total : ℕ
  pub completed : ℕ
  pub snapshot : String
  pub results : List JobResult
  pub error : Option String
  pub active_slot : Option ℕ

abbrev pub job_id : Job → String
job_id job = job.id

abbrev pub holds_slot : Job → Bool
holds_slot job = elim job.active_slot [ none ↦ false | some slot ↦ slot == 1 ]

-- CHECK job_progress and job_active_slot; job_status holds by the type.
abbrev pub slot_matches : Status → Option ℕ → Bool
slot_matches queued (some slot) = slot == 1
slot_matches running (some slot) = slot == 1
slot_matches completed none = true
slot_matches failed none = true
slot_matches _ _ = false

unfoldable pub satisfies_checks : Job → Bool
satisfies_checks job =
    ltb 0 job.total && leb job.completed job.total && slot_matches job.status job.active_slot

-- UNIQUE one_active_gateway_job: no other row has the slot.
abbrev pub slot_taken : String → List Job → Bool
slot_taken id jobs = any (λ other. not (str_eq other.id id) && holds_slot other) jobs

-- `insert(jobs).values(...)`; the key must be new.
unfoldable pub insert_job : Job → Tx (List Job) (Unit {0})
unfolding satisfies_checks find
insert_job job jobs =
    if is_some (find job_id job.id jobs)
    then err conflict
    else if satisfies_checks job && not (holds_slot job && slot_taken job.id jobs)
    then ok (tt, jobs ++ job ∷ [])
    else err conflict

-- `update(jobs).where(jobs.c.id == id).values(...)`, of a row that is there
unfoldable pub update_job : String → (Job → Job) → Job → Tx (List Job) (Unit {0})
unfolding satisfies_checks update
update_job id change job jobs =
    let job' = change job in
    if satisfies_checks job' && not (holds_slot job' && slot_taken id jobs)
    then ok (tt, update job_id id change jobs)
    else err conflict
