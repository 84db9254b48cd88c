-- ===== src/Inventory/Credentials.antt =====
-- The checks of app/dal/db/store.py on what is saved: `_port`, `_timeout`, `_check_fields`,
-- `_save_role`, `_inline_credentials` and `_connector`. Whether `cryptography` can load a private
-- key is a parameter, which gives the message of the error if it cannot.
use network_gateway_api.Prelude.{
  ◌>>=◌, ◌>>◌, raise_if, ℕ, Bool, true, false, not, ◌&&◌, ◌||◌, Option, none, some, List, [], ◌∷◌,
  ◌++◌, String, str_eq, leb, if◌then◌else◌, Outcome, ok, err,
}
use network_gateway_api.Prelude.Int.{pos, int_between, float_between}
use network_gateway_api.Value.{
  Value, Fields, null, int, float, str, dict, field, end, get, get_or, get_value, set, merge, pop,
  among, truthy, truthy_at, is_null,
}
use network_gateway_api.Storage.Errors.{StoreError, store_error}
use network_gateway_api.Audit.Fields.{text}

-- `_port`
abbrev pub port : Value → Outcome StoreError ℕ
port (int (pos n)) =
    if leb 1 n && leb n 65535
    then ok n
    else err (store_error "Port must be an integer between 1 and 65535.")
port _ = err (store_error "Port must be an integer between 1 and 65535.")

-- `_timeout`
abbrev pub timeout : Value → Outcome StoreError Value
timeout (int i) =
    if int_between 1 30 i
    then ok (int i)
    else err (store_error "Timeout must be between 1 and 30 seconds.")
timeout (float x) =
    if float_between 1 30 x
    then ok (float x)
    else err (store_error "Timeout must be between 1 and 30 seconds.")
timeout _ = err (store_error "Timeout must be between 1 and 30 seconds.")

abbrev only_among : List String → Fields → Bool
only_among names end = true
only_among names (field k v fields) = among k names && only_among names fields

-- `_check_fields` of a dict
abbrev pub check_fields : List String → Fields → Outcome StoreError (Unit {0})
check_fields allowed payload =
    raise_if (not (only_among allowed payload))
      (store_error "Invalid or unsupported profile fields.")

-- _INLINE_FIELDS, _PROXY_TYPES and _CONNECTOR_FIELDS
abbrev pub inline_fields : List String
inline_fields = "username" ∷ "password" ∷ "private_key" ∷ "private_key_path" ∷ "key_passphrase" ∷ []

abbrev pub proxy_types : List String
proxy_types = "ssh_tunnel" ∷ "ssh_shell" ∷ "socks5" ∷ "http_connect" ∷ []

abbrev pub connector_fields : List String
connector_fields =
    "type" ∷ "host" ∷ "port" ∷ "username" ∷ "password" ∷ "private_key_path" ∷ "known_hosts_path"
    ∷ "private_key" ∷ "key_passphrase" ∷ "timeout_seconds" ∷ []

-- `if key in payload: self._text(payload[key], label, limit=65536)`
abbrev pub checked_if_given : String → String → Fields → Outcome StoreError (Unit {0})
checked_if_given label key payload = elim (get key payload) [
  | none ↦ ok tt
  | some v ↦ elim (text v label label false 65536) [ err e ↦ err e | ok _ ↦ ok tt ]
]

-- What `_save_role` stores, without the key; the secrets are not yet encrypted.
pub record RoleValues : Type 0 where
  pub name : String
  pub username : String
  pub authentication_type : String
  pub secrets : Fields

abbrev is_str : String → Value → Bool
is_str s (str t) = str_eq t s
is_str s _ = false

abbrev with_passphrase : Value → Fields → Fields
with_passphrase passphrase secrets =
    if truthy passphrase then set "key_passphrase" passphrase secrets else secrets

-- The loop of `_inline_credentials` at one field: a trust file may be taken away by `None`.
abbrev is_path : String → Bool
is_path key = str_eq key "private_key_path" || str_eq key "known_hosts_path"

unfoldable pub inline_loop : List String → Fields → Fields → Outcome StoreError Fields
unfolding get pop text
inline_loop [] profile payload = ok profile
inline_loop (key ∷ keys) profile payload = elim (get key payload) [
  | none ↦ inline_loop keys profile payload
  | some v ↦
      if is_path key && is_null v
      then inline_loop keys (pop key profile) payload
      else elim (text v "credential or trust field" "Credential or trust field" false 65536) [
        | err e ↦ err e
        | ok _ ↦ inline_loop keys profile payload
      ]
]

abbrev has_any_key : Fields → Bool
has_any_key profile = truthy_at "private_key_path" profile || truthy_at "private_key" profile

-- `_inline_credentials`: the profile that is left, or the error
unfoldable pub inline_credentials : Fields → Fields → Outcome StoreError Fields
unfolding inline_loop get truthy
inline_credentials profile payload =
    inline_loop (inline_fields ++ "known_hosts_path" ∷ []) profile payload >>= λ left.
    raise_if (truthy_at "password" left && has_any_key left)
      (store_error "Choose password or SSH key authentication, not both.")
    >> (raise_if (truthy_at "key_passphrase" left && not (has_any_key left))
          (store_error "A key passphrase requires an SSH key.")
        >> ok left)

-- `any(v not in (None, "") for k, v in value.items() if k != "type")`
abbrev has_settings : Fields → Bool
has_settings end = false
has_settings (field k v fields) =
    (not (str_eq k "type") && not (is_null v || is_str "" v)) || has_settings fields

module _ (key_error : Value → Value → Option String) where
  abbrev check_key : Value → Value → Outcome StoreError (Unit {0})
  check_key key passphrase = elim (key_error key passphrase) [
    | none ↦ ok tt
    | some message ↦ err (store_error message)
  ]

  -- The branch of `_save_role` for a password
  unfoldable pub password_secrets : Fields → Fields → Bool → Outcome StoreError Fields
  unfolding get truthy
  password_secrets payload profile switched =
      let password = get_value "password" (if switched then payload else profile) in
      raise_if (truthy_at "private_key" payload || truthy_at "key_passphrase" payload)
        (store_error "Password authentication cannot include SSH key credentials.")
      >> (raise_if (not (truthy password))
            (store_error "Password authentication requires a password.")
          >> ok (field "password" password end))

  -- The branch of `_save_role` for a key
  unfoldable pub key_secrets : Fields → Fields → Fields → Bool → Outcome StoreError Fields
  unfolding get truthy set
  key_secrets payload previous profile switched =
      let key = get_value "private_key" (if switched then payload else profile) in
      let kept = if switched then str "" else get_or "key_passphrase" (str "") previous in
      let passphrase = get_or "key_passphrase" kept payload in
      raise_if (truthy_at "password" payload)
        (store_error "SSH key authentication cannot include a password.")
      >> (raise_if (not (truthy key)) (store_error "SSH key authentication requires a private key.")
          >> (check_key key passphrase
              >> ok (with_passphrase passphrase (field "private_key" key end))))

  abbrev bad_method : StoreError
  bad_method = store_error "Authentication type must be password or ssh_key."

  -- `_save_role`
  unfoldable pub save_role : Fields → Fields → Outcome StoreError RoleValues
  unfolding merge text get password_secrets key_secrets
  save_role payload previous =
      let profile = merge previous payload in
      text (get_value "name" profile) "name" "Name" true 200 >>= λ name.
      text (get_value "username" profile) "username" "Username" true 255 >>= λ username.
      (elim (get_value "authentication_type" profile) [
        | str method ↦
            let switched = not (is_str method (get_value "authentication_type" previous)) in
            raise_if (not (str_eq method "password" || str_eq method "ssh_key")) bad_method
            >> (checked_if_given "credential" "password" payload
                >> (checked_if_given "credential" "private_key" payload
                    >> (checked_if_given "credential" "key_passphrase" payload
                        >> ((if str_eq method "password"
                              then password_secrets payload profile switched
                              else key_secrets payload previous profile switched)
                            >>= λ secrets. ok (record {
                              name = name;
                              username = username;
                              authentication_type = method;
                              secrets = secrets;
                            })))))
        | _ ↦ err bad_method
      ])

  -- `_connector` for a kind that is not direct
  unfoldable pub proxied : String → Fields → Fields → Outcome StoreError Fields
  unfolding set text get inline_credentials truthy
  proxied kind profile value =
      text (get_value "host" profile) "proxy host" "Proxy host" true 255 >>= λ host.
      port (get_value "port" profile) >>= λ number.
      (elim (get "timeout_seconds" profile) [ none ↦ ok null | some t ↦ timeout t ]) >>= λ checked.
      inline_credentials
        (set "port" (int (pos number)) (set "host" (str host) (set "type" (str kind) profile)))
        value
      >>= λ left.
          (if truthy_at "private_key" left
            then check_key (get_value "private_key" left) (get_value "key_passphrase" left)
            else ok tt)
          >> ok left

  -- `_connector` of a dict, with the connector that it replaces if there is one
  unfoldable pub connector : Fields → Fields → Outcome StoreError Fields
  unfolding merge get proxied truthy
  connector value previous =
      let profile = merge previous value in
      check_fields connector_fields value >> elim (get_or "type" (str "direct") profile) [
        | str kind ↦
            if not (among kind ("direct" ∷ proxy_types))
            then err (store_error "Unsupported connector type.")
            else if str_eq kind "direct"
            then (if has_settings value
                then err (store_error "Direct connections cannot include proxy settings.")
                else ok (field "type" (str "direct") end))
            else proxied kind
                (if truthy (dict previous) && not (is_str kind (get_value "type" previous))
                  then value
                  else profile)
                value
        | _ ↦ err (store_error "Unsupported connector type.")
      ]
