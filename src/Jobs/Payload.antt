-- ===== src/Jobs/Payload.antt =====
-- What the job methods of app/dal/db/store.py check in their arguments, and what they show.
use network_gateway_api.Prelude.{
  ℕ, Bool, true, false, not, ◌||◌, Option, none, some, List, [], ◌∷◌, String, str_eq, ltb, ◌==◌,
  if◌then◌else◌, length, any, Outcome, ok, err,
}
use network_gateway_api.Prelude.Int.{pos, float_nonneg}
use network_gateway_api.Value.{
  Value, Items, Fields, bool, int, float, str, list, dict, nil, cons, end, field, get_or, is_empty,
}
use network_gateway_api.Secrets.{credential_values}
use network_gateway_api.Storage.Errors.{StoreError, store_error}
use network_gateway_api.Jobs.Rows.{Status, SnapshotItem, JobResult, Job}

-- The texts of a list, if it holds nothing else.
unfoldable pub texts : Items → Option (List String)
texts nil = some []
texts (cons (str s) items) = elim (texts items) [ none ↦ none | some ss ↦ some (s ∷ ss) ]
texts (cons _ items) = none

abbrev pub member : String → List String → Bool
member s ss = any (λ t. str_eq s t) ss

-- `len(set(ids)) != len(ids)`
abbrev pub has_repeats : List String → Bool
has_repeats [] = false
has_repeats (s ∷ ss) = member s ss || has_repeats ss

-- The first two guards of `create_job`
unfoldable pub check_selection : Value → Outcome StoreError (List String)
unfolding texts
check_selection (list items) = elim (texts items) [
  | none ↦ err (store_error "Select between 1 and 1000 connections.")
  | some ids ↦
      if length ids == 0 || ltb 1000 (length ids)
      then err (store_error "Select between 1 and 1000 connections.")
      else if has_repeats ids
      then err (store_error "Connection IDs must be unique.")
      else ok ids
]
check_selection _ = err (store_error "Select between 1 and 1000 connections.")

-- `_public_job`
pub record PublicJob : Type 0 where
  pub id : String
  pub status : Status
  pub total : ℕ
  pub completed : ℕ
  pub results : List JobResult
  pub error : Option String

abbrev with_simulated : JobResult → JobResult
with_simulated result = record result {
  simulated = elim result.simulated [ none ↦ some false | some b ↦ some b ];
}

abbrev with_all_simulated : List JobResult → List JobResult
with_all_simulated [] = []
with_all_simulated (r ∷ rs) = with_simulated r ∷ with_all_simulated rs

unfoldable pub public_job : Job → PublicJob
public_job job = record {
  id = job.id;
  status = job.status;
  total = job.total;
  completed = job.completed;
  results = with_all_simulated job.results;
  error = elim job.error [ none ↦ none | some text ↦ if is_empty text then none else some text ];
}

-- `{item["id"]: item["profile"] for item in snapshot}`, at a key: the last item wins.
unfoldable pub profile_of : String → List SnapshotItem → Option Fields
profile_of id [] = none
profile_of id (item ∷ items) = elim (profile_of id items) [
  | some profile ↦ some profile
  | none ↦ if str_eq item.id id then some item.profile else none
]

abbrev pub has_result : String → List JobResult → Bool
has_result id results = any (λ r. str_eq r.connection_id id) results

-- The snapshot as the JSON value in which `credential_values` looks.
abbrev pub snapshot_value : List SnapshotItem → Items
snapshot_value [] = nil
snapshot_value (item ∷ items) =
    cons (dict (field "id" (str item.id) (field "profile" (dict item.profile) end)))
      (snapshot_value items)

abbrev pub credentials : List SnapshotItem → List String
credentials items = credential_values (list (snapshot_value items))

-- An int or a finite float that is not negative; a bool is refused.
abbrev pub is_duration : Value → Bool
is_duration (int (pos n)) = true
is_duration (float x) = float_nonneg x
is_duration _ = false

-- `profile.get("client_type", "network") == "fake"`
abbrev pub is_fake : Fields → Bool
is_fake profile = elim (get_or "client_type" (str "network") profile) [
  | str kind ↦ str_eq kind "fake"
  | _ ↦ false
]

abbrev pub simulated_mismatch : Option Value → Bool → Bool
simulated_mismatch none simulated = false
simulated_mismatch (some (bool true)) simulated = not simulated
simulated_mismatch (some (bool false)) simulated = simulated
simulated_mismatch (some _) simulated = true
