-- ===== src/Auth/Claims.antt =====
-- The claims of `_verify_token`, and `_user_from_claims`, of app/bl/services/auth.py.
use network_gateway_api.Prelude.{
  Bool, true, false, not, ◌&&◌, ◌||◌, Option, none, some, String, str_eq, if◌then◌else◌, Outcome,
  ok, err,
}
use network_gateway_api.Prelude.Int.{Float}
use network_gateway_api.Value.{
  Value, Items, Fields, str, list, dict, nil, cons, get_value, truthy, is_empty, is_null,
}
use network_gateway_api.Text.{append}
use network_gateway_api.Identity.{
  GatewayRole, Roles, no_roles, with_role, AuthenticatedUser, entra, AuthError, http, unexpected,
}
use network_gateway_api.Auth.Settings.{AuthSettings, role_of}
use network_gateway_api.Auth.Numbers.{number, no_number, as_number, float_leb, float_ltb}

abbrev pub invalid_token : AuthError
invalid_token = http 401 "Invalid bearer token."

abbrev pub invalid_roles : AuthError
invalid_roles = http 401 "Token does not contain valid application roles."

-- `value == text`
abbrev pub is_str : String → Value → Bool
is_str text (str s) = str_eq s text
is_str text _ = false

abbrev pub is_optional : Option String → Value → Bool
is_optional (some text) value = is_str text value
is_optional none value = is_null value

abbrev pub contains : String → Items → Bool
contains text nil = false
contains text (cons v items) = is_str text v || contains text items

-- `audience in audiences` of a list, and `audiences == audience` otherwise
abbrev pub has_audience : String → Value → Bool
has_audience audience (list items) = contains audience items
has_audience audience value = is_str audience value

-- `exp` is a number and not `exp <= now`
abbrev pub is_unexpired : Float → Value → Bool
is_unexpired now value = elim (as_number value) [
  | number t ↦ not (float_leb t now)
  | no_number ↦ false
]

-- Not both a number and `nbf > now`
abbrev pub is_begun : Float → Value → Bool
is_begun now value = elim (as_number value) [ number t ↦ not (float_ltb now t) | no_number ↦ true ]

abbrev pub has_nonce : Option String → Value → Bool
has_nonce none value = true
has_nonce (some nonce) value = is_str nonce value

abbrev pub text_of_optional : Option String → String
text_of_optional none = "None"
text_of_optional (some text) = text

abbrev pub issuer_of : AuthSettings → String
issuer_of settings =
    append "https://login.microsoftonline.com/"
      (append (text_of_optional settings.tenant_id) "/v2.0")

-- The condition at the end of `_verify_token`, negated
unfoldable pub claims_hold : AuthSettings → String → Option String → Float → Fields → Bool
claims_hold settings audience nonce now claims =
    is_str (issuer_of settings) (get_value "iss" claims)
    && is_optional settings.tenant_id (get_value "tid" claims)
    && has_audience audience (get_value "aud" claims)
    && is_unexpired now (get_value "exp" claims)
    && is_begun now (get_value "nbf" claims)
    && has_nonce nonce (get_value "nonce" claims)

-- Whether `role not in {...}` can tell: a list or a dict has no hash.
abbrev pub is_hashable : Value → Bool
is_hashable (list _) = false
is_hashable (dict _) = false
is_hashable _ = true

abbrev pub role_value : Value → Option GatewayRole
role_value (str text) = role_of text
role_value _ = none

-- The roles of a list, if all are roles; the first item that is none ends the search.
unfoldable pub roles_of : Items → Outcome AuthError Roles
roles_of nil = ok no_roles
roles_of (cons v items) = elim (role_value v) [
  | none ↦ if is_hashable v then err invalid_roles else err unexpected
  | some role ↦ elim (roles_of items) [ err e ↦ err e | ok roles ↦ ok (with_role role roles) ]
]

-- `a or b`
abbrev pub or_else : Value → Value → Value
or_else a b = if truthy a then a else b

-- `_user_from_claims`, with Python's `str` of a value that is no text
module _ (text_of : Value → String) (settings : AuthSettings) where
  abbrev as_text : Value → String
  as_text (str s) = s
  as_text v = text_of v

  abbrev email_of : Value → Option String
  email_of (str s) = some s
  email_of _ = none

  abbrev pub user_of : Fields → String → Roles → AuthenticatedUser
  user_of claims subject roles = record {
    subject = subject;
    tenant_id = settings.tenant_id;
    name = as_text (
        or_else (or_else (get_value "name" claims) (get_value "preferred_username" claims))
          (str subject));
    email = email_of (or_else (get_value "email" claims) (get_value "preferred_username" claims));
    roles = roles;
    auth_mode = entra;
  }

  -- With the subject that was found
  unfoldable pub user_with : Fields → Roles → Value → Outcome AuthError AuthenticatedUser
  user_with claims roles (str subject) =
      if is_empty subject then err invalid_token else ok (user_of claims subject roles)
  user_with claims roles _ = err invalid_token

  unfoldable pub user_from_roles : Fields → Value → Outcome AuthError AuthenticatedUser
  unfolding roles_of user_with
  user_from_roles claims (list (cons v items)) = elim (roles_of (cons v items)) [
    | err e ↦ err e
    | ok roles ↦ user_with claims roles (or_else (get_value "oid" claims) (get_value "sub" claims))
  ]
  user_from_roles claims _ = err invalid_roles

  unfoldable pub user_from_claims : Fields → Outcome AuthError AuthenticatedUser
  unfolding user_from_roles
  user_from_claims claims = user_from_roles claims (get_value "roles" claims)
