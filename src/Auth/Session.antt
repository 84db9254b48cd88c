-- ===== src/Auth/Session.antt =====
-- What becomes of the session that app/api/routes/auth.py sets after a login.
use network_gateway_api.Prelude.{
  ℕ, ◌≡◌, refl, ◌∙◌, Bool, true, false, ◌||◌, Option, none, some, String, err, arith,
}
use network_gateway_api.Prelude.Int.{Float}
use network_gateway_api.Value.{Value, Fields, float, list, get, set, truthy}
use network_gateway_api.Identity.{
  AuthenticatedUser, viewer, entra, public_user, has_role, sorted_roles,
}
use network_gateway_api.Audit.Timestamps.{text_le}
use network_gateway_api.Auth.Settings.{AuthSettings}
use network_gateway_api.Auth.Signed.{Codec, IsFaithful, sign, sort_value, sort_fields, put_key}
use network_gateway_api.Auth.Signed.Laws.{unsign-signed_value}
use network_gateway_api.Auth.Keys.{Cache}
use network_gateway_api.Auth.Claims.{
  invalid_token, is_unexpired, roles_of, user_with, user_from_roles, user_from_claims,
}
use network_gateway_api.Auth.Request.{
  Request, cookie_secret, bearer_of, from_session, open_session, authenticate_entra,
  authenticate_request, session_cookie,
}

-- The payload of the cookie
abbrev pub payload_of : AuthenticatedUser → Float → Fields
payload_of user expires_at = set "expires_at" (float expires_at) (public_user user)

user_from_roles-sorted :
    (text_of : Value → String) (settings : AuthSettings) (user : AuthenticatedUser)
    (expires_at : Float) (v o a : Bool)
    → (v || o || a) ≡ true
    → user_from_roles text_of settings
        (sort_fields (payload_of user expires_at))
        (sort_value (list (sorted_roles (record { viewer = v; operator = o; administrator = a }))))
      ≡ err invalid_token
unfolding user_from_roles roles_of user_with public_user set get truthy sort_fields sort_value
    put_key text_le
user_from_roles-sorted text_of settings user expires_at false false false h = cc
user_from_roles-sorted text_of settings user expires_at true false false h = refl
user_from_roles-sorted text_of settings user expires_at false true false h = refl
user_from_roles-sorted text_of settings user expires_at true true false h = refl
user_from_roles-sorted text_of settings user expires_at false false true h = refl
user_from_roles-sorted text_of settings user expires_at true false true h = refl
user_from_roles-sorted text_of settings user expires_at false true true h = refl
user_from_roles-sorted text_of settings user expires_at true true true h = refl

has_some_role :
    (user : AuthenticatedUser)
    → has_role user viewer ≡ true
    → (user.roles.viewer || user.roles.operator || user.roles.administrator) ≡ true
unfolding has_role
has_some_role user h = ground arith

module _ (codec : Codec) (fetch : String → Option Value)
    (signature_ok : Fields → (header claims signature : String) → Bool) (text_of : Value → String)
    (settings : AuthSettings) (clock : ℕ) (now : Float) where
  from_session-payload :
      (user : AuthenticatedUser) (expires_at : Float)
      → has_role user viewer ≡ true
      → is_unexpired now (float expires_at) ≡ true
      → from_session codec fetch signature_ok text_of settings clock now
          (some (sort_fields (payload_of user expires_at)))
        ≡ err invalid_token
  unfolding from_session user_from_claims public_user set get sort_fields sort_value put_key text_le
  from_session-payload user expires_at h fresh = rw fresh (
      user_from_roles-sorted text_of settings user expires_at user.roles.viewer user.roles.operator
        user.roles.administrator (has_some_role user h))

  -- A request that has no bearer token, with the session cookie that a login has just set, not
  -- expired and for a user with a role, is not authenticated: it ends with status 401, since
  -- `session_cookie` writes the key `subject` and `_user_from_claims` reads `oid` or `sub`. It is
  -- assumed that base64 reads back what it wrote, and JSON the same with its keys in order.
  pub session_cookie-refused :
      (user : AuthenticatedUser) (expires_at : Float) (secret : String) (request : Request)
      (cache : Cache)
      → settings.mode ≡ entra
      → cookie_secret settings ≡ some secret
      → IsFaithful codec (payload_of user expires_at) secret
      → request.gateway_session
        ≡ session_cookie codec fetch signature_ok text_of settings clock now user expires_at
      → bearer_of request.authorization ≡ none
      → has_role user viewer ≡ true
      → is_unexpired now (float expires_at) ≡ true
      → authenticate_request codec fetch signature_ok text_of settings clock now request cache
        ≡ (err invalid_token, cache)
  unfolding authenticate_request authenticate_entra session_cookie
  session_cookie-refused user expires_at secret request cache mode key faithful cookie bearer h
        fresh =
      let sent : request.gateway_session ≡ some (sign codec (payload_of user expires_at) secret) =
        cookie ∙ rw (key, session_cookie) refl in
      let opened : open_session codec fetch signature_ok text_of settings clock now
            request.gateway_session (cookie_secret settings)
          ≡ some (sort_fields (payload_of user expires_at)) =
        rw (sent, key, open_session)
          (unsign-signed_value codec (payload_of user expires_at) secret faithful) in
      rw (mode, authenticate_request, bearer, authenticate_entra, opened)
        (rw (from_session-payload user expires_at h fresh) refl)
