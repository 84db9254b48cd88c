-- ===== src/Inventory/Profiles.antt =====
-- `_save_profile` of app/dal/db/store.py.
use network_gateway_api.Prelude.{
  ℕ, Bool, true, false, not, ◌&&◌, Option, none, some, List, [], ◌∷◌, String, if◌then◌else◌, any,
}
use network_gateway_api.Prelude.Int.{pos}
use network_gateway_api.Value.{
  Value, Fields, null, int, str, dict, field, end, get, get_or, get_value, set, merge, keep_keys,
  has, among, truthy, truthy_at,
}
use network_gateway_api.Secrets.{secret_fields, public_dict}
use network_gateway_api.Secrets.Vault.{Vault}
use network_gateway_api.Storage.Errors.{store_error}
use network_gateway_api.Storage.Tables.{find}
use network_gateway_api.Storage.Transaction.{Tx, pure, fail, lift, require, ◌>>=◌, ◌>>◌}
use network_gateway_api.Audit.Fields.{text}
use network_gateway_api.Inventory.Rows.{Proxy, Connection, Inventory, role_row, proxy_row}
use network_gateway_api.Inventory.Credentials.{
  port, timeout, inline_fields, proxy_types, inline_credentials, connector,
}

-- What the two resources have in common
pub record Common : Type 0 where
  pub name : String
  pub host : String
  pub port : ℕ
  pub role_account_id : Option String
  pub profile : Fields

abbrev is_in : List String → Value → Bool
is_in names (str s) = among s names
is_in names _ = false

-- `{k: profile[k] for k in (...) if k in profile}`
abbrev configuration_of : Fields → Fields
configuration_of profile =
    keep_keys (λ k. among k ("username" ∷ "private_key_path" ∷ "known_hosts_path" ∷ [])) profile

-- `{k: profile[k] for k in SECRET_FIELDS if k in profile and profile[k]}`
unfoldable pub secret_data : Fields → Fields
unfolding truthy
secret_data end = end
secret_data (field k v fields) =
    let rest = secret_data fields in
    if among k secret_fields && truthy v then field k v rest else rest

abbrev given_inline : List String → Fields → Bool
given_inline names payload = any (λ name. truthy_at name payload) names

module _ (vault : Vault Fields) (key_error : Value → Value → Option String) where
  -- The reference to a role account: it must be there, and excludes inline credentials.
  unfoldable pub role_reference : Fields → Fields → Tx Inventory (Option String × Fields)
  unfolding text find get truthy keep_keys
  role_reference profile payload = elim (get_value "role_account_id" profile) [
    | null ↦ pure (none, profile)
    | str id ↦
        (lift (text (str id) "role reference" "Role reference" true 36) >>= λ _.
        role_row vault id >>= λ _.
        require (not (given_inline inline_fields payload))
          (store_error "A role reference cannot include inline credentials.")
        >> pure (some id, keep_keys (λ k. not (among k inline_fields)) profile))
    | _ ↦ fail (store_error "Invalid role reference.")
  ]

  -- The part for both resources
  unfoldable pub common : Fields → Fields → Tx Inventory Common
  unfolding merge text get role_reference inline_credentials
  common payload previous =
      let profile = merge previous payload in
      lift (text (get_value "name" profile) "name" "Name" true 200) >>= λ name.
      lift (text (get_value "host" profile) "host" "Host" true 255) >>= λ host.
      lift (port (get_value "port" profile)) >>= λ number.
      role_reference profile payload >>= λ found.
      lift (inline_credentials found.1 payload) >>= λ left. pure (record {
        name = name;
        host = host;
        port = number;
        role_account_id = found.0;
        profile = left;
      })

  -- `_save_profile` for a proxy
  unfoldable pub save_proxy : String → Fields → Fields → Tx Inventory Proxy
  unfolding common get secret_data keep_keys
  save_proxy id payload previous = common payload previous >>= λ c.
      elim (get_value "type" c.profile) [
        | str kind ↦
            if among kind proxy_types
            then pure (record {
              id = id;
              name = c.name;
              kind = kind;
              host = c.host;
              port = c.port;
              role_account_id = c.role_account_id;
              configuration = configuration_of c.profile;
              secrets = vault.encrypt (secret_data c.profile);
            })
            else fail (store_error "Unsupported proxy type.")
        | _ ↦ fail (store_error "Unsupported proxy type.")
      ]

  -- The proxy that a connection uses: a saved one, or its own connector. The result is the
  -- reference, the public part of the connector and its secrets.
  unfoldable pub proxy_reference :
      Fields → Fields → Fields → Tx Inventory (Option String × Fields × Fields)
  unfolding text find get connector secret_data public_dict
  proxy_reference profile payload previous = elim (get_value "proxy_id" profile) [
    | str id ↦
        (lift (text (str id) "proxy reference" "Proxy reference" true 36) >>= λ _.
        proxy_row vault id >>= λ _.
        require (not (has "connector" payload))
          (store_error "A saved proxy cannot include an inline connector.")
        >> pure (some id, end, end))
    | null ↦
        elim (get_or "connector"
          (get_or "connector" (dict (field "type" (str "direct") end)) profile) payload) [
            | dict value ↦
                (lift (
                    connector key_error value (
                      if has "connector" payload
                      then (elim (get_value "connector" previous) [ dict d ↦ d | _ ↦ end ])
                      else end))
                  >>= λ found.
                      pure
                        (none, field "connector" (dict (public_dict found)) end, secret_data found))
            | _ ↦ fail (store_error "Invalid or unsupported profile fields.")
          ]
    | _ ↦ fail (store_error "Invalid proxy reference.")
  ]

  abbrev with_connector : Fields → Fields → Fields
  with_connector end secrets = secrets
  with_connector connector_secrets secrets = set "connector" (dict connector_secrets) secrets

  -- `_save_profile` for a connection
  unfoldable pub save_connection : String → Fields → Fields → Tx Inventory Connection
  unfolding common get proxy_reference secret_data merge set keep_keys
  save_connection id payload previous = common payload previous >>= λ c.
      let client = get_or "client_type" (str "network") c.profile in
      elim (get_value "protocol" c.profile) [
        | str protocol ↦
            (require (among protocol ("ssh" ∷ "netconf" ∷ "telnet" ∷ []))
                (store_error "Unsupported protocol.")
              >> (require (is_in ("network" ∷ "fake" ∷ []) client)
                    (store_error "Client type must be network or fake.")
                  >> (lift (timeout (get_or "timeout_seconds" (int (pos 10)) c.profile))
                      >>= λ seconds. proxy_reference c.profile payload previous >>= λ p.
                          pure (record {
                            id = id;
                            name = c.name;
                            protocol = protocol;
                            host = c.host;
                            port = c.port;
                            timeout_seconds = seconds;
                            role_account_id = c.role_account_id;
                            proxy_id = p.0;
                            configuration =
                                merge (set "client_type" client (configuration_of c.profile)) p.1;
                            secrets = vault.encrypt (with_connector p.2 (secret_data c.profile));
                          }))))
        | _ ↦ fail (store_error "Unsupported protocol.")
      ]
