-- ===== src/Batches/Tests.antt =====
-- The worker and its service at concrete inputs.
use network_gateway_api.Prelude.{◌⊎◌}
use network_gateway_api.Prelude.{
  ◌≡◌, refl, true, false, none, some, List, [], ◌∷◌, String, Outcome, ok, err, arith,
}
use network_gateway_api.Prelude.Int.{pos}
use network_gateway_api.Value.{Value, Fields, bool, int, str, dict, field, end}
use network_gateway_api.Secrets.Vault.{Vault}
use network_gateway_api.Storage.Tables.{find}
use network_gateway_api.Storage.Errors.{StoreError}
use network_gateway_api.Jobs.Rows.{queued, SnapshotItem, Job}
use network_gateway_api.Jobs.Invariant.{IsValid}
use network_gateway_api.Management.Calls.{ManagementError}
use network_gateway_api.Batches.Worker.{Weather, Turn, run_job}
use network_gateway_api.Storage.Transaction.{working, closed}
use network_gateway_api.Batches.Open.{IsOpen}
use network_gateway_api.Batches.Finish.{HasEnded, run_job-HasEnded}
use network_gateway_api.Batches.Service.{BatchService, start, start-refused}
use network_gateway_api.Batches.Cells.{spreadsheet_cell, IsInert, spreadsheet_cell-safe}
use network_gateway_api.Text.{append}

abbrev profile : Fields
profile = field "name" (str "core") (
    field "protocol" (str "ssh") (
      field "host" (str "10.0.0.1") (
        field "port" (int (pos 22))
          (field "connector" (dict (field "type" (str "direct") end)) end))))

abbrev snapshot : List SnapshotItem
snapshot = record { id = "c1"; profile = profile } ∷ []

abbrev vault : Vault (List SnapshotItem)
vault = record { encrypt = λ _. "token"; decrypt = λ _. some snapshot }

abbrev resolve : String → Outcome StoreError Fields
resolve id = ok profile

abbrev text_of : Value → String
text_of v = ""

abbrev job : Job
job = record {
  id = "j1";
  status = queued;
  total = 1;
  completed = 0;
  snapshot = "token";
  results = [];
  error = none;
  active_slot = some 1;
}

IsValid-job : IsValid (job ∷ [])
unfolding find
IsValid-job = record {
  keyed = (refl, tt);
  rows = (
    record {
      counted = refl;
      bounded = omega arith;
      nonempty = omega arith;
      slot = refl;
      finished = tt;
      distinct = tt;
    },
    tt,
  );
  one_active = omega arith;
}

abbrev turn : String → Turn
turn id = record {
  stopping = false;
  outcome = some (field "success" (bool true) (field "duration_ms" (int (pos 3)) end));
}

-- The store is closed between the result of a connection and the end of the run.
abbrev weather : Weather
weather = record {
  at_start = working;
  at_read = working;
  at_result = λ connection. working;
  at_end = closed;
  at_fail = closed;
}

run_job-HasEnded_example :
    HasEnded "j1" (run_job vault resolve text_of "j1" weather turn (job ∷ []))
    ⊎ (¬ (closed ≡ working)
        × IsValid (run_job vault resolve text_of "j1" weather turn (job ∷ []))
        × IsOpen vault resolve text_of "j1"
            (run_job vault resolve text_of "j1" weather turn (job ∷ [])))
unfolding find
run_job-HasEnded_example =
    run_job-HasEnded vault resolve text_of "j1" weather turn (job ∷ []) IsValid-job
      (record { row = job; found = refl; active = refl; snapshot = snapshot; opened = refl })

abbrev service : BatchService
service = record { closed = false; stopping = false; busy = true; jobs = job ∷ [] }

start-refused_example :
    (e : ManagementError) × (start vault resolve text_of "fake" resolve "j2" true
        ("c1" ∷ [])
        service
      ≡ (err e, service))
start-refused_example =
    start-refused vault resolve text_of "fake" resolve "j2" true ("c1" ∷ []) service refl

spreadsheet_cell-safe_example :
    IsInert (spreadsheet_cell " =1+2")
    × ((spreadsheet_cell " =1+2" ≡ " =1+2") ⊎ (spreadsheet_cell " =1+2" ≡ append "'" " =1+2"))
spreadsheet_cell-safe_example = spreadsheet_cell-safe " =1+2"
