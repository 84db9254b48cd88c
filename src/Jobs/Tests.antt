-- ===== src/Jobs/Tests.antt =====
-- The jobs at concrete inputs, with a vault whose one token opens to a known snapshot.
use network_gateway_api.Prelude.{
  ◌≡◌, refl, true, none, some, List, [], ◌∷◌, ◌++◌, String, Outcome, ok, err, any, arith,
  if◌then◌else◌,
}
use network_gateway_api.Prelude.Int.{pos}
use network_gateway_api.Value.{Value, Fields, bool, int, str, list, dict, cons, nil, field, end}
use network_gateway_api.Secrets.Vault.{Vault}
use network_gateway_api.Storage.Tables.{find}
use network_gateway_api.Storage.Errors.{StoreError, store_error_code}
use network_gateway_api.Jobs.Rows.{failed, SnapshotItem, Job, holds_slot}
use network_gateway_api.Jobs.Payload.{check_selection, public_job}
use network_gateway_api.Jobs.Operations.{create_job, record_job_result, resolve_all}
use network_gateway_api.Jobs.Invariant.{IsValid}
use network_gateway_api.Jobs.Settled.{IsSettled}
use network_gateway_api.Jobs.History.{
  create, record_result, here, next, Reach-IsValid, Reach-IsSettled,
}
use network_gateway_api.Jobs.Creation.{queued_job, create_job-free}

abbrev profile : Fields
profile = field "name" (str "core") (
    field "protocol" (str "ssh") (
      field "host" (str "10.0.0.1") (
        field "port" (int (pos 22))
          (field "connector" (dict (field "type" (str "direct") end)) end))))

abbrev snapshot : List SnapshotItem
snapshot = record { id = "c1"; profile = profile } ∷ []

abbrev vault : Vault (List SnapshotItem)
vault = record { encrypt = λ _. "token"; decrypt = λ _. some snapshot }

abbrev resolve : String → Outcome StoreError Fields
resolve id = ok profile

abbrev text_of : Value → String
text_of v = ""

abbrev selection : Value
selection = list (cons (str "c1") nil)

abbrev passed : Fields
passed = field "connection_id" (str "c1") (field "success" (bool true) end)

IsValid-empty : IsValid []
IsValid-empty = record { keyed = tt; rows = tt; one_active = omega arith }

Reach-IsValid_example :
    IsValid
      (record_job_result vault resolve text_of "j1"
        (dict passed)
        (create_job vault resolve text_of "j1" selection []).1).1
Reach-IsValid_example =
    Reach-IsValid vault resolve text_of IsValid-empty
      (next (next here (create "j1" selection)) (record_result "j1" (dict passed)))

abbrev old_job : Job
old_job = record {
  id = "j0";
  status = failed;
  total = 1;
  completed = 0;
  snapshot = "token";
  results = [];
  error = none;
  active_slot = none;
}

IsValid-old_job : IsValid (old_job ∷ [])
unfolding find
IsValid-old_job = record {
  keyed = (refl, tt);
  rows = (
    record {
      counted = refl;
      bounded = omega arith;
      nonempty = omega arith;
      slot = refl;
      finished = tt;
      distinct = tt;
    },
    tt,
  );
  one_active = omega arith;
}

Reach-IsSettled_example :
    IsSettled "j0" failed [] (create_job vault resolve text_of "j1" selection (old_job ∷ [])).1
unfolding find
Reach-IsSettled_example =
    Reach-IsSettled vault resolve text_of "j0" failed [] IsValid-old_job
      (next here (create "j1" selection))
      (record {
        row = old_job;
        found = refl;
        finished = refl;
        has_status = refl;
        has_results = refl;
      })

create_job-free_example : create_job vault resolve text_of "j1" selection (old_job ∷ []) ≡ (
    if any holds_slot (old_job ∷ [])
    then (err (store_error_code "A connection-test job is already active." 409), old_job ∷ [])
    else (
      ok (public_job (queued_job vault resolve text_of "j1" snapshot)),
      (old_job ∷ []) ++ queued_job vault resolve text_of "j1" snapshot ∷ [],
    ))
unfolding find check_selection resolve_all
create_job-free_example =
    create_job-free vault resolve text_of "j1" selection (old_job ∷ []) refl refl refl
