-- ===== src/Inventory/Rows.antt =====
-- The tables of app/dal/db/storage.py for the inventory, and how app/dal/db/store.py puts a stored
-- profile together.
use network_gateway_api.Prelude.{ℕ, Option, none, some, List, String, if◌then◌else◌}
use network_gateway_api.Prelude.Int.{pos}
use network_gateway_api.Value.{
  Value, Fields, null, bool, int, str, dict, field, end, get, set, merge, pop, truthy_at, truthy,
  get_value, has,
}
use network_gateway_api.Secrets.{public_dict}
use network_gateway_api.Secrets.Vault.{Vault}
use network_gateway_api.Storage.Errors.{not_found, cannot_decrypt}
use network_gateway_api.Storage.Tables.{find}
use network_gateway_api.Storage.Transaction.{Tx, pure, or_raise, ◌>>=◌}

pub record RoleAccount : Type 0 where
  pub id : String
  pub name : String
  pub username : String
  pub authentication_type : String
  pub secrets : String

pub record Proxy : Type 0 where
  pub id : String
  pub name : String
  pub kind : String
  pub host : String
  pub port : ℕ
  pub role_account_id : Option String
  pub configuration : Fields
  pub secrets : String

pub record Connection : Type 0 where
  pub id : String
  pub name : String
  pub protocol : String
  pub host : String
  pub port : ℕ
  pub timeout_seconds : Value
  pub role_account_id : Option String
  pub proxy_id : Option String
  pub configuration : Fields
  pub secrets : String

pub record Inventory : Type 0 where
  pub roles : List RoleAccount
  pub proxies : List Proxy
  pub connections : List Connection

abbrev pub role_key : RoleAccount → String
role_key role = role.id

abbrev pub proxy_key : Proxy → String
proxy_key proxy = proxy.id

abbrev pub connection_key : Connection → String
connection_key connection = connection.id

abbrev pub or_null : Option String → Value
or_null none = null
or_null (some s) = str s

-- The columns of a row without `secrets` and `configuration`
abbrev pub role_columns : RoleAccount → Fields
role_columns row = field "id" (str row.id) (
    field "name" (str row.name) (
      field "username" (str row.username)
        (field "authentication_type" (str row.authentication_type) end)))

abbrev pub proxy_columns : Proxy → Fields
proxy_columns row = field "id" (str row.id) (
    field "name" (str row.name) (
      field "type" (str row.kind) (
        field "host" (str row.host) (
          field "port" (int (pos row.port))
            (field "role_account_id" (or_null row.role_account_id) end)))))

abbrev pub connection_columns : Connection → Fields
connection_columns row = field "id" (str row.id) (
    field "name" (str row.name) (
      field "protocol" (str row.protocol) (
        field "host" (str row.host) (
          field "port" (int (pos row.port)) (
            field "timeout_seconds" row.timeout_seconds (
              field "role_account_id" (or_null row.role_account_id)
                (field "proxy_id" (or_null row.proxy_id) end)))))))

abbrev pub dict_or_empty : Option Value → Fields
dict_or_empty (some (dict fields)) = fields
dict_or_empty _ = end

abbrev with_connector_secrets : Fields → Fields → Fields
with_connector_secrets end profile = profile
with_connector_secrets secrets profile =
    set "connector" (dict (merge (dict_or_empty (get "connector" profile)) secrets)) profile

-- `_stored_profile`, with the columns, the configuration and the opened secrets
unfoldable pub stored : Fields → Fields → Fields → Fields
unfolding get merge pop set
stored columns configuration secrets =
    with_connector_secrets (dict_or_empty (get "connector" secrets))
      (merge (merge columns configuration) (pop "connector" secrets))

-- `profile.setdefault(key, value)`
abbrev pub set_default : String → Value → Fields → Fields
set_default key value profile = if has key profile then profile else set key value profile

module _ (vault : Vault Fields) where
  abbrev pub opened : String → Tx Inventory Fields
  opened secrets db = or_raise cannot_decrypt (vault.decrypt secrets) db

  abbrev pub role_row : String → Tx Inventory RoleAccount
  role_row id db = or_raise not_found (find role_key id db.roles) db

  abbrev pub proxy_row : String → Tx Inventory Proxy
  proxy_row id db = or_raise not_found (find proxy_key id db.proxies) db

  abbrev pub connection_row : String → Tx Inventory Connection
  connection_row id db = or_raise not_found (find connection_key id db.connections) db

  abbrev pub stored_proxy : Proxy → Tx Inventory Fields
  stored_proxy row = do
    secrets ← opened row.secrets
    pure (stored (proxy_columns row) row.configuration secrets)

  abbrev pub stored_connection : Connection → Tx Inventory Fields
  stored_connection row = do
    secrets ← opened row.secrets
    pure (stored (connection_columns row) row.configuration secrets)

  -- `_role_credentials`
  unfoldable pub role_credentials : String → Tx Inventory Fields
  unfolding find merge
  role_credentials id = do
    role ← role_row id
    secrets ← opened role.secrets
    pure (
        merge
          (field "username" (str role.username)
            (field "authentication_type" (str role.authentication_type) end))
          secrets)

  -- The credentials of the role account that a profile names, if it names one
  unfoldable pub with_role : Fields → Tx Inventory Fields
  unfolding role_credentials get truthy merge
  with_role profile = elim (get_value "role_account_id" profile) [
    | str id ↦
        if truthy_at "role_account_id" profile
        then (role_credentials id >>= λ login. pure (merge profile login))
        else pure profile
    | _ ↦ pure profile
  ]

  -- `_resolve_proxy`
  unfoldable pub resolve_proxy : Proxy → Tx Inventory Fields
  unfolding stored with_role
  resolve_proxy row = stored_proxy row >>= with_role

  -- The connector that a profile's proxy stands for
  unfoldable pub with_proxy : Fields → Tx Inventory Fields
  unfolding resolve_proxy find get set truthy
  with_proxy profile = elim (get_value "proxy_id" profile) [
    | str id ↦
        if truthy_at "proxy_id" profile
        then (proxy_row id >>= λ row.
            resolve_proxy row >>= λ proxy. pure (set "connector" (dict proxy) profile))
        else pure profile
    | _ ↦ pure profile
  ]

  -- `_resolve_connection`
  unfoldable pub resolve_connection : String → Tx Inventory Fields
  unfolding find stored with_role with_proxy set get
  resolve_connection id = do
    row ← connection_row id
    profile ← stored_connection row
    login ← with_role (set_default "client_type" (str "network") profile)
    resolved ← with_proxy login
    pure (set_default "connector" (dict (field "type" (str "direct") end)) resolved)

-- `_public_runtime` of a connector, which has no connector of its own
abbrev pub public_connector : Fields → Fields
public_connector profile =
    set "password_configured" (bool (truthy_at "password" profile)) (public_dict profile)

-- `_public_runtime`
unfoldable pub public_runtime : Fields → Fields
unfolding public_dict set get truthy
public_runtime profile =
    let result = public_connector profile in
    elim (get "connector" profile) [
      | some (dict connector) ↦ set "connector" (dict (public_connector connector)) result
      | _ ↦ result
    ]
