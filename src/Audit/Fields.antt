-- ===== src/Audit/Fields.antt =====
-- The checks of texts, `_text` of app/dal/db/store.py, and of an audit record,
-- `_validate_transaction`. UUIDs are parsed by a parameter; the key, the correlation and the time
-- that the code draws are arguments.
use network_gateway_api.Prelude.{
  ◌>>=◌, ℕ, Bool, true, false, not, ◌&&◌, ◌||◌, Option, none, some, String, str_eq, leb,
  if◌then◌else◌, Outcome, ok, err,
}
use network_gateway_api.Value.{
  Value, Items, Fields, null, str, list, dict, nil, cons, get, get_value, truthy, is_empty, is_null,
}
use network_gateway_api.Text.{count, strip, append, any_char}
use network_gateway_api.Storage.Errors.{StoreError, store_error}
use network_gateway_api.Storage.Transaction.{uncaught}
use network_gateway_api.Identity.{Roles, no_roles, with_role}
use network_gateway_api.Auth.Settings.{role_of}
use network_gateway_api.Audit.Redaction.{redact_recursive}

abbrev has_nul : String → Bool
has_nul text = any_char (λ c. leb c 0) text

-- `_text`; `capital` is the label with a capital letter.
unfoldable pub text :
    Value → (label capital : String) → (required : Bool) → ℕ → Outcome StoreError String
unfolding strip
text (str s) label capital required limit =
    if not (leb (count s) limit) || has_nul s
    then err (store_error (append "Invalid " (append label ".")))
    else if required && is_empty (strip s)
    then err (store_error (append capital " is required."))
    else ok (if required then strip s else s)
text _ label capital required limit = err (store_error (append "Invalid " (append label ".")))

-- A text that may be missing
abbrev pub optional_text : Value → String → ℕ → Outcome StoreError (Option String)
optional_text value label limit =
    if is_null value then ok none else (text value label label false limit >>= λ s. ok (some s))

-- One row of `gateway_transactions`
pub record Transaction : Type 0 where
  pub id : String
  pub timestamp_utc : String
  pub correlation_id : String
  pub actor_subject : String
  pub actor_tenant_id : Option String
  pub actor_name : String
  pub actor_email : Option String
  pub actor_roles : Roles
  pub auth_mode : String
  pub action : String
  pub resource_type : String
  pub resource_id : Option String
  pub connection_id : Option String
  pub outcome : String
  pub before_state : Value
  pub after_state : Value
  pub detail : Value
  pub request_method : Option String
  pub request_path : Option String

abbrev bad_roles : StoreError
bad_roles = store_error "actor_roles must be a list of role names."

-- `all(isinstance(role, str) for role in actor_roles)`
abbrev are_texts : Items → Bool
are_texts nil = true
are_texts (cons (str _) items) = are_texts items
are_texts (cons _ items) = false

-- The set of the roles, if all are roles of the gateway
unfoldable pub role_set : Items → Option Roles
role_set nil = some no_roles
role_set (cons (str s) items) = elim (role_of s) [
  | none ↦ none
  | some role ↦ elim (role_set items) [ none ↦ none | some roles ↦ some (with_role role roles) ]
]
role_set (cons _ items) = none

unfoldable pub roles : Value → Outcome StoreError Roles
unfolding role_set
roles (list items) =
    if are_texts items
    then elim (role_set items) [
      | none ↦ err (store_error "actor_roles must only contain Viewer, Operator, or Administrator.")
      | some found ↦ ok found
    ]
    else err bad_roles
roles _ = err bad_roles

-- `value not in {first, second}`: a list or a dict has no hash.
abbrev pub one_of : (first second : String) → StoreError → Value → Outcome StoreError String
one_of first second e (str s) = if str_eq s first || str_eq s second then ok s else err e
one_of first second e (list _) = err uncaught
one_of first second e (dict _) = err uncaught
one_of first second e _ = err e

abbrev pub state : Value → String → Outcome StoreError Value
state null message = ok null
state (list items) message = ok (list items)
state (dict fields) message = ok (dict fields)
state _ message = err (store_error message)

abbrev detail_of : Option String → Value
detail_of none = null
detail_of (some s) = redact_recursive (str s)

module _ (uuid : String → Option String) where
  -- `_validate_uuid`
  unfoldable pub validate_uuid : Value → String → Outcome StoreError String
  validate_uuid (str s) label = elim (uuid s) [
    | none ↦ err (store_error (append "Invalid " (append label "; must be a UUID string.")))
    | some parsed ↦ ok parsed
  ]
  validate_uuid _ label =
      err (store_error (append "Invalid " (append label "; must be a UUID string.")))

  abbrev pub optional_uuid : Value → String → Outcome StoreError (Option String)
  optional_uuid value label =
      if is_null value then ok none else (validate_uuid value label >>= λ s. ok (some s))

  -- `_validate_transaction` of a dict
  unfoldable pub validate_transaction :
      (id drawn now : String) → Fields → Outcome StoreError Transaction
  unfolding validate_uuid text roles truthy get redact_recursive
  validate_transaction id drawn now payload =
      (if truthy (get_value "correlation_id" payload)
        then validate_uuid (get_value "correlation_id" payload) "correlation_id"
        else ok drawn)
      >>= λ correlation.
          text (get_value "actor_subject" payload) "actor_subject" "Actor_subject" true 255
          >>= λ subject.
              optional_uuid (get_value "actor_tenant_id" payload) "actor_tenant_id" >>= λ tenant.
              text (get_value "actor_name" payload) "actor_name" "Actor_name" true 200 >>= λ name.
              optional_text (get_value "actor_email" payload) "actor_email" 320 >>= λ email.
              roles (get_value "actor_roles" payload) >>= λ the_roles.
              one_of "entra" "demo" (store_error "auth_mode must be entra or demo.")
                (get_value "auth_mode" payload)
              >>= λ mode. text (get_value "action" payload) "action" "Action" true 100 >>= λ action.
                  text (get_value "resource_type" payload) "resource_type" "Resource_type" true 64
                  >>= λ kind.
                      optional_text (get_value "resource_id" payload) "resource_id" 64
                      >>= λ resource.
                          optional_uuid (get_value "connection_id" payload) "connection_id"
                          >>= λ connection.
                              one_of "succeeded" "failed"
                                (store_error "outcome must be succeeded or failed.")
                                (get_value "outcome" payload)
                              >>= λ outcome.
                                  state (get_value "before_state" payload)
                                    "before_state must be an object, array, or null."
                                  >>= λ before.
                                      state (get_value "after_state" payload)
                                        "after_state must be an object, array, or null."
                                      >>= λ after.
                                          optional_text (get_value "detail" payload) "detail" 4000
                                          >>= λ detail.
                                              optional_text (get_value "request_method" payload)
                                                "request_method" 10
                                              >>= λ method.
                                                  optional_text (get_value "request_path" payload)
                                                    "request_path" 2048
                                                  >>= λ path. ok (record {
                                                    id = id;
                                                    timestamp_utc = now;
                                                    correlation_id = correlation;
                                                    actor_subject = subject;
                                                    actor_tenant_id = tenant;
                                                    actor_name = name;
                                                    actor_email = email;
                                                    actor_roles = the_roles;
                                                    auth_mode = mode;
                                                    action = action;
                                                    resource_type = kind;
                                                    resource_id = resource;
                                                    connection_id = connection;
                                                    outcome = outcome;
                                                    before_state = redact_recursive before;
                                                    after_state = redact_recursive after;
                                                    detail = detail_of detail;
                                                    request_method = method;
                                                    request_path = path;
                                                  })
