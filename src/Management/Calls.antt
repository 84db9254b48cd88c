-- ===== src/Management/Calls.antt =====
-- `ManagementError`, `store_call` and `check_test_provider` of app/bl/services/management.py.
use network_gateway_api.Prelude.{
  ℕ, ◌≡◌, not, ◌&&◌, ◌||◌, Option, none, some, List, [], ◌∷◌, String, str_eq, ◌==◌, if◌then◌else◌,
  Outcome, ok, err,
}
use network_gateway_api.Value.{Fields, str, get_or}
use network_gateway_api.Storage.Errors.{StoreError}

pub record ManagementError : Type 0 where
  pub message : String
  pub status_code : ℕ

-- ERROR_MESSAGES
abbrev pub error_messages : List (ℕ × String)
error_messages =
    (400, "Invalid management operation.")
    ∷ (401, "Device authentication failed.")
    ∷ (403, "Device access was rejected.")
    ∷ (404, "The requested resource was not found.")
    ∷ (409, "The resource is referenced or conflicts with the current operation.")
    ∷ (422, "Invalid resource configuration.")
    ∷ (501, "The requested device operation is unsupported.")
    ∷ (503, "Management storage is unavailable.")
    ∷ []

abbrev pub message_for : ℕ → List (ℕ × String) → Option String
message_for code [] = none
message_for code ((c, message) ∷ rest) = if c == code then some message else message_for code rest

-- What `store_call` raises for a status code: a code without a message becomes 500.
unfoldable pub management_error : ℕ → ManagementError
management_error code = elim (message_for code error_messages) [
  | some message ↦ record { message = message; status_code = code }
  | none ↦ record { message = "The management operation failed."; status_code = 500 }
]

unfoldable pub store_call : {A : Type 0} → Outcome StoreError A → Outcome ManagementError A
unfolding management_error
store_call (ok a) = ok a
store_call (err e) = err (management_error e.status_code)

-- The error that a caller sees is fixed by the status code of the store's error: two errors with
-- the same code are shown alike, so that no text of them, which may hold a credential or a
-- database URL, gets through.
pub store_call-eq :
    {A : Type 0} (e f : StoreError)
    → e.status_code ≡ f.status_code
    → store_call {A = A} (err e) ≡ store_call (err f)
unfolding store_call
store_call-eq e f h = rw h

abbrev pub provider_error : String → ℕ → ManagementError
provider_error message code = record { message = message; status_code = code }

-- `profile.get("client_type", "network")` when it is a text
abbrev pub client_type : Fields → Option String
client_type profile = elim (get_or "client_type" (str "network") profile) [
  | str kind ↦ some kind
  | _ ↦ none
]

-- `check_test_provider`: the provider of device data is a setting.
unfoldable pub check_test_provider : String → Fields → Outcome ManagementError (Unit {0})
check_test_provider provider profile = elim (client_type profile) [
  | none ↦ err (provider_error "Invalid device client type." 422)
  | some kind ↦
      if not (str_eq kind "network" || str_eq kind "fake")
      then err (provider_error "Invalid device client type." 422)
      else if str_eq kind "fake" && not (str_eq provider "fake")
      then err (provider_error "Simulated device access is disabled." 503)
      else ok tt
]
