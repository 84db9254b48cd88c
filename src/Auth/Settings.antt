-- ===== src/Auth/Settings.antt =====
-- `auth_settings` of config/settings.py and what it reads. The environment is a function; the
-- parsers `UUID` and `urlsplit` of Python are parameters.
use network_gateway_api.Prelude.{
  ◌>>=◌, ◌>>◌, raise_if, Bool, false, not, ◌&&◌, ◌||◌, Option, none, some, List, [], ◌∷◌, String,
  str_eq, if◌then◌else◌, Outcome, ok, err,
}
use network_gateway_api.Value.{is_empty, among}
use network_gateway_api.Text.{strip, replace}
use network_gateway_api.Text.Split.{split, words, is_comma}
use network_gateway_api.Identity.{
  GatewayRole, viewer, operator, administrator, AuthMode, entra, demo, disabled,
}

pub record AuthSettings : Type 0 where
  pub mode : AuthMode
  pub tenant_id : Option String
  pub client_id : Option String
  pub api_client_id : Option String
  pub client_secret : Option String
  pub redirect_uris : List String
  pub post_logout_redirect_uri : Option String
  pub scopes : List String
  pub demo_user_id : Option String
  pub demo_user_email : Option String
  pub demo_user_name : Option String
  pub demo_user_role : Option GatewayRole

-- `AuthSettings(mode=mode)`
abbrev pub settings_of : AuthMode → AuthSettings
settings_of mode = record {
  mode = mode;
  tenant_id = none;
  client_id = none;
  api_client_id = none;
  client_secret = none;
  redirect_uris = [];
  post_logout_redirect_uri = none;
  scopes = "openid" ∷ "profile" ∷ "email" ∷ [];
  demo_user_id = none;
  demo_user_email = none;
  demo_user_name = none;
  demo_user_role = none;
}

-- What `urlsplit` tells of a URI: `username` and `password` are empty where it gives `None`.
pub record UriParts : Type 0 where
  pub scheme : String
  pub netloc : String
  pub hostname : Option String
  pub username : String
  pub password : String
  pub fragment : String

abbrev is_loopback_name : Option String → Bool
is_loopback_name none = false
is_loopback_name (some host) = among host ("localhost" ∷ "127.0.0.1" ∷ "::1" ∷ [])

-- The condition of `_absolute_redirect_uri`
abbrev pub is_absolute : Option UriParts → Bool
is_absolute none = false
is_absolute (some parts) =
    among parts.scheme ("http" ∷ "https" ∷ [])
    && not (is_empty parts.netloc)
    && is_empty parts.username
    && is_empty parts.password
    && is_empty parts.fragment
    && not (str_eq parts.scheme "http" && not (is_loopback_name parts.hostname))

abbrev or_none : String → Option String
or_none text = if is_empty text then none else some text

abbrev pub role_of : String → Option GatewayRole
role_of text =
    if str_eq text "Viewer"
    then some viewer
    else if str_eq text "Operator"
    then some operator
    else if str_eq text "Administrator"
    then some administrator
    else none

-- `tuple(value.strip() for value in values if value.strip())`
abbrev stripped : List String → List String
stripped [] = []
stripped (value ∷ values) =
    let rest = stripped values in if is_empty (strip value) then rest else strip value ∷ rest

-- A ValueError is its message.
module _ (environ : String → Option String) (uuid : String → Option String)
    (urlsplit : String → Option UriParts) where
  -- `os.environ.get(name, default)`
  abbrev setting : String → String → String
  setting name default = elim (environ name) [ none ↦ default | some text ↦ text ]

  -- `_uuid_setting`
  abbrev uuid_setting : String → Outcome String String
  uuid_setting name = elim (uuid (strip (setting name ""))) [
    | none ↦ err name
    | some text ↦ ok text
  ]

  -- `_absolute_redirect_uri`
  unfoldable pub absolute_redirect_uri : String → String → Outcome String String
  absolute_redirect_uri value name = if is_absolute (urlsplit value) then ok value else err name

  unfoldable pub check_uris : List String → Outcome String (List String)
  unfolding absolute_redirect_uri
  check_uris [] = ok []
  check_uris (uri ∷ uris) = elim (absolute_redirect_uri uri "GATEWAY_ENTRA_REDIRECT_URIS") [
    | err e ↦ err e
    | ok checked ↦ elim (check_uris uris) [ err e ↦ err e | ok rest ↦ ok (checked ∷ rest) ]
  ]

  -- `_redirect_uris`
  unfoldable pub redirect_uris : Outcome String (List String)
  unfolding check_uris strip split
  redirect_uris = elim (stripped (split is_comma (setting "GATEWAY_ENTRA_REDIRECT_URIS" ""))) [
    | [] ↦ err "GATEWAY_ENTRA_REDIRECT_URIS"
    | uri ∷ uris ↦ check_uris (uri ∷ uris)
  ]

  -- The branch of `auth_settings` for the mode `demo`
  unfoldable pub demo_settings : Outcome String AuthSettings
  unfolding strip
  demo_settings = elim (role_of (strip (setting "GATEWAY_DEMO_USER_ROLE" ""))) [
    | none ↦ err "GATEWAY_DEMO_USER_ROLE"
    | some role ↦
        let subject = strip (setting "GATEWAY_DEMO_USER_ID" "") in
        let name = strip (setting "GATEWAY_DEMO_USER_NAME" "") in
        if is_empty subject || is_empty name
        then err "GATEWAY_DEMO_USER_ID"
        else ok (record (settings_of demo) {
          demo_user_id = some subject;
          demo_user_email = or_none (strip (setting "GATEWAY_DEMO_USER_EMAIL" ""));
          demo_user_name = some name;
          demo_user_role = some role;
        })
  ]

  abbrev scopes_of : List String
  scopes_of = words (replace "," " " (setting "GATEWAY_ENTRA_SCOPES" "openid,profile,email"))

  abbrev api_client_of : String → Outcome String String
  api_client_of client_id =
      if is_empty (strip (setting "GATEWAY_ENTRA_API_CLIENT_ID" ""))
      then ok client_id
      else uuid_setting "GATEWAY_ENTRA_API_CLIENT_ID"

  abbrev logout_of : String → Outcome String (Option String)
  logout_of text =
      if is_empty text
      then ok none
      else elim (absolute_redirect_uri text "GATEWAY_ENTRA_POST_LOGOUT_REDIRECT_URI") [
        | err e ↦ err e
        | ok uri ↦ ok (some uri)
      ]

  -- The branch of `auth_settings` for the mode `entra`
  unfoldable pub entra_settings : Outcome String AuthSettings
  unfolding redirect_uris absolute_redirect_uri strip replace split
  entra_settings =
      let secret = setting "GATEWAY_ENTRA_CLIENT_SECRET" "" in
      let scopes = scopes_of in
      raise_if (is_empty secret) "GATEWAY_ENTRA_CLIENT_SECRET"
      >> (raise_if (not (among "openid" scopes)) "GATEWAY_ENTRA_SCOPES"
          >> (uuid_setting "GATEWAY_ENTRA_CLIENT_ID" >>= λ client.
              api_client_of client >>= λ api_client.
              uuid_setting "GATEWAY_ENTRA_TENANT_ID" >>= λ tenant. redirect_uris >>= λ uris.
              logout_of (strip (setting "GATEWAY_ENTRA_POST_LOGOUT_REDIRECT_URI" "")) >>= λ logout.
              ok (record (settings_of entra) {
                tenant_id = some tenant;
                client_id = some client;
                api_client_id = some api_client;
                client_secret = some secret;
                redirect_uris = uris;
                post_logout_redirect_uri = logout;
                scopes = scopes;
              })))

  -- `auth_settings`
  unfoldable pub auth_settings : Outcome String AuthSettings
  unfolding demo_settings entra_settings strip
  auth_settings =
      let mode = strip (setting "GATEWAY_AUTH_MODE" "disabled") in
      if str_eq mode "disabled"
      then ok (settings_of disabled)
      else if str_eq mode "demo"
      then demo_settings
      else if str_eq mode "entra"
      then entra_settings
      else err "GATEWAY_AUTH_MODE"
