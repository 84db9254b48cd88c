-- ===== src/Connectors/Checks.antt =====
-- `_port`, `_host`, `loopback_host`, `_demo_file_policy` and `_auth_fields` of
-- app/dal/proxy/connectors.py. Python's `int` of a text, its `ipaddress` and the resolution of
-- paths are parameters.
use Prim.Native.Char.{code}
use Prim.Native.String.{[], ◌∷◌}
use network_gateway_api.Prelude.{
  ◌>>=◌, ◌>>◌, raise_if, ℕ, Bool, true, false, not, ◌&&◌, ◌||◌, Option, none, some, String, str_eq,
  ltb, leb, ◌==◌, if◌then◌else◌, Outcome, ok, err, is_some,
}
use network_gateway_api.Prelude.Int.{ℤ, pos, negsuc}
use network_gateway_api.Value.{
  Value, Fields, null, int, str, list, dict, get, get_or, get_value, truthy, truthy_at, is_empty,
}
use network_gateway_api.Text.{count, strip, has_part, same, all_chars, any_char}

-- ConnectorError, the TypeError of a value without a hash that is looked up in a set, or the
-- OSError of a socket.
pub data Raised : Type 0 where
  connector_error : (stage detail : String) → Raised
  type_error : Raised
  os_error : Raised

abbrev pub invalid : String → Raised
invalid detail = connector_error "validation" detail

abbrev pub unsupported : String → Raised
unsupported detail = connector_error "unsupported" detail

-- What `ipaddress.ip_address` tells of an address; `text` is its `str`.
pub record Address : Type 0 where
  pub is_v4 : Bool
  pub is_loopback : Bool
  pub text : String

abbrev is_alnum : ℕ → Bool
is_alnum c = (leb 65 c && leb c 90) || (leb 97 c && leb c 122) || (leb 48 c && leb c 57)

abbrev starts_alnum : String → Bool
starts_alnum [] = false
starts_alnum (c ∷ text) = is_alnum (code c)

abbrev ends_alnum : String → Bool
ends_alnum [] = false
ends_alnum (c ∷ []) = is_alnum (code c)
ends_alnum (c ∷ d ∷ text) = ends_alnum (d ∷ text)

-- `_HOSTNAME.fullmatch`
abbrev pub is_hostname : String → Bool
is_hostname text =
    leb (count text) 253
    && starts_alnum text
    && ends_alnum text
    && all_chars (λ c. is_alnum c || c == 46 || c == 45) text

abbrev pub is_control : ℕ → Bool
is_control c = ltb c 32 || c == 127

-- A login field is missing, or a text of bounded length without control characters.
abbrev pub is_login_text : Value → Bool
is_login_text null = true
is_login_text (str s) = leb (count s) 4096 && not (any_char is_control s)
is_login_text _ = false

-- `key in {...}` of a value: a list or a dict has no hash.
abbrev pub text_in : (String → Bool) → Value → Outcome Raised Bool
text_in known (str s) = ok (known s)
text_in known (list _) = err type_error
text_in known (dict _) = err type_error
text_in known _ = ok false

abbrev pub is_text : Value → Bool
is_text (str s) = not (is_empty s)
is_text _ = false

abbrev pub is_value : String → Value → Bool
is_value text (str s) = str_eq s text
is_value text _ = false

abbrev bad_port : Raised
bad_port = invalid "A TCP port must be an integer from 1 to 65535."

abbrev bad_host : Raised
bad_host = invalid "A host must be an IP address or plain DNS hostname."

abbrev not_loopback : Raised
not_loopback =
    connector_error "demo_policy"
      "Demo connections require literal loopback addresses or localhost."

module _ (parse_int : String → Option ℤ) where
  abbrev pub int_of : Value → Option ℤ
  int_of (int i) = some i
  int_of (str s) = parse_int s
  int_of _ = none

  -- `_port`
  unfoldable pub port : Value → Outcome Raised ℕ
  port value = elim (int_of value) [
    | none ↦ err bad_port
    | some (pos n) ↦ if leb 1 n && leb n 65535 then ok n else err bad_port
    | some (negsuc n) ↦ err bad_port
  ]

module _ (ip : String → Option Address) where
  -- `_host`
  unfoldable pub host : Value → Outcome Raised String
  unfolding strip has_part
  host (str s) =
      if is_empty s || not (str_eq s (strip s)) || has_part same "%" s
      then err bad_host
      else if is_some (ip s) || (is_hostname s && not (has_part same ".." s))
      then ok s
      else err bad_host
  host _ = err bad_host

  -- `loopback_host`; `is_localhost` compares with "localhost" in lower case.
  unfoldable pub loopback_host : (String → Bool) → String → Outcome Raised String
  loopback_host is_localhost name = if is_localhost name then ok "127.0.0.1" else elim (ip name) [
    | none ↦ err not_loopback
    | some address ↦ if address.is_loopback then ok address.text else err not_loopback
  ]

-- `_demo_file_policy`, where `in_demo_storage` tells whether a path resolves into the demo's folders
unfoldable pub demo_file_policy : (Value → Bool) → Fields → Outcome Raised (Unit {0})
unfolding get truthy
demo_file_policy in_demo_storage auth =
    if truthy_at "private_key_path" auth
    then err (
        connector_error "demo_policy"
          "Demo mode accepts pasted SSH keys, not private-key file paths.")
    else if truthy_at "known_hosts_path" auth
        && not (in_demo_storage (get_value "known_hosts_path" auth))
    then err (
        connector_error "demo_policy"
          "Demo trust files must be inside configured local demo storage or test/fixtures.")
    else ok tt

abbrev pub has_key : Fields → Bool
has_key auth = truthy_at "private_key" auth || truthy_at "private_key_path" auth

abbrev pub method_of : Fields → Value
method_of auth =
    get_or "authentication_type" (str (if has_key auth then "ssh_key" else "password")) auth

abbrev pub is_method : String → Bool
is_method s = str_eq s "password" || str_eq s "ssh_key"

-- The branches of `_auth_fields` on the credential
unfoldable pub check_credential : Fields → Bool → Bool → Outcome Raised (Unit {0})
unfolding get truthy
check_credential auth required ssh =
    let is_key = is_value "ssh_key" (method_of auth) in
    let password = truthy_at "password" auth in
    if is_key || has_key auth
    then (if not ssh
        then err (unsupported "This login supports passwords only; SSH keys are not applicable.")
        else if not (has_key auth) || not is_key || password
        then err (invalid "Select exactly one password or SSH-key credential.")
        else if truthy_at "private_key" auth && truthy_at "private_key_path" auth
        then err (invalid "Select pasted key material or a key file, not both.")
        else ok tt)
    else if required && not password
    then err (invalid "A password is required for this login.")
    else if not required
        && (truthy_at "username" auth && not password
            || not (truthy_at "username" auth) && password)
    then err (invalid "Proxy username and password must be supplied together.")
    else ok tt

-- `_auth_fields`
unfoldable pub auth_fields : Fields → (required ssh : Bool) → Outcome Raised (Unit {0})
unfolding get check_credential
auth_fields auth required ssh =
    raise_if (required && not (is_text (get_value "username" auth)))
      (invalid "A username is required for this login.")
    >> (raise_if
          (not (
            is_login_text (get_value "username" auth)
            && is_login_text (get_value "password" auth)
            && is_login_text (get_value "key_passphrase" auth)))
          (invalid "Login fields must be bounded text without control characters.")
        >> (text_in is_method (method_of auth) >>= λ known.
            raise_if (not known) (unsupported "The selected authentication method is unsupported.")
            >> check_credential auth required ssh))
