-- ===== src/Auth/Request.antt =====
-- `authenticate_request`, `complete_login` and `session_cookie` of app/bl/services/auth.py.
use network_gateway_api.Prelude.{
  ℕ, Bool, Option, none, some, String, ◌==◌, if◌then◌else◌, Outcome, ok, err,
}
use network_gateway_api.Prelude.Int.{Float}
use network_gateway_api.Value.{Value, Fields, float, get_value, set, is_empty}
use network_gateway_api.Text.{same, after_prefix, any_char}
use network_gateway_api.Identity.{
  AuthenticatedUser, entra, demo, disabled, GatewayRole, Roles, no_roles, with_role, AuthError,
  http, value_error, public_user,
}
use network_gateway_api.Auth.Settings.{AuthSettings}
use network_gateway_api.Auth.Signed.{Codec, sign, unsign}
use network_gateway_api.Auth.Keys.{Cache}
use network_gateway_api.Auth.Claims.{user_from_claims, is_unexpired}
use network_gateway_api.Auth.Token.{verify_token}

abbrev pub sign_in_required : AuthError
sign_in_required = http 401 "Authentication is required."

abbrev pub empty_default : Option String → String
empty_default none = ""
empty_default (some text) = text

-- `authorization[7:]`, if it is a bearer authorization with one space
abbrev pub bearer_of : String → Option String
bearer_of authorization = elim (after_prefix same "Bearer " authorization) [
  | none ↦ none
  | some token ↦ if any_char (λ c. c == 32) token then none else some token
]

-- `_cookie_secret`
unfoldable pub cookie_secret : AuthSettings → Option String
cookie_secret settings = elim settings.mode [
  | entra ↦ elim settings.client_secret [
    | none ↦ none
    | some secret ↦ if is_empty secret then none else some secret
  ]
  | _ ↦ none
]

-- `frozenset({role})` of the role in the settings, which `auth_settings` sets in this mode
abbrev pub demo_roles : Option GatewayRole → Roles
demo_roles none = no_roles
demo_roles (some role) = with_role role no_roles

abbrev pub demo_user : AuthSettings → AuthenticatedUser
demo_user settings = record {
  subject = empty_default settings.demo_user_id;
  tenant_id = none;
  name = empty_default settings.demo_user_name;
  email = settings.demo_user_email;
  roles = demo_roles settings.demo_user_role;
  auth_mode = demo;
}

-- A request as far as authentication looks at it.
pub record Request : Type 0 where
  pub demo_mode : Bool
  pub authorization : String
  pub gateway_session : Option String

module _ (codec : Codec) (fetch : String → Option Value)
    (signature_ok : Fields → (header claims signature : String) → Bool) (text_of : Value → String)
    (settings : AuthSettings) (clock : ℕ) (now : Float) where
  -- `_user_from_claims` after a token
  abbrev pub user_of_token :
      Outcome AuthError Fields × Cache → Outcome AuthError AuthenticatedUser × Cache
  user_of_token (err e, cache) = (err e, cache)
  user_of_token (ok claims, cache) = (user_from_claims text_of settings claims, cache)

  -- The session cookie with its expiry
  unfoldable pub from_session : Option Fields → Outcome AuthError AuthenticatedUser
  unfolding user_from_claims
  from_session none = err value_error
  from_session (some claims) =
      if is_unexpired now (get_value "expires_at" claims)
      then user_from_claims text_of settings claims
      else err sign_in_required

  abbrev pub open_session : Option String → Option String → Option Fields
  open_session (some cookie) (some secret) = unsign codec cookie secret
  open_session _ _ = none

  -- The branch for the mode `entra`
  unfoldable pub authenticate_entra : Request → Cache → Outcome AuthError AuthenticatedUser × Cache
  unfolding after_prefix verify_token user_from_claims from_session unsign cookie_secret
  authenticate_entra request cache = elim (bearer_of request.authorization) [
    | some token ↦ user_of_token (
        verify_token codec fetch signature_ok settings clock now token
          (empty_default settings.api_client_id) none cache)
    | none ↦ (from_session (open_session request.gateway_session (cookie_secret settings)), cache)
  ]

  -- `authenticate_request`
  unfoldable pub authenticate_request :
      Request → Cache → Outcome AuthError AuthenticatedUser × Cache
  unfolding authenticate_entra
  authenticate_request request cache = elim settings.mode [
    | demo ↦ (
      if request.demo_mode
          then ok (demo_user settings)
          else err (http 401 "Demo authentication is disabled."),
      cache,
    )
    | disabled ↦ (err sign_in_required, cache)
    | entra ↦ authenticate_entra request cache
  ]

  -- `session_cookie`; `none` where `_cookie_secret` raises
  unfoldable pub session_cookie : AuthenticatedUser → Float → Option String
  unfolding public_user set sign cookie_secret
  session_cookie user expires_at = elim (cookie_secret settings) [
    | none ↦ none
    | some secret ↦
        some (sign codec (set "expires_at" (float expires_at) (public_user user)) secret)
  ]
