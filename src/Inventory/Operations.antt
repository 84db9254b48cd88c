-- ===== src/Inventory/Operations.antt =====
-- `save`, `get`, `delete` and `resolve_connection` of app/dal/db/store.py, for each resource. The
-- key of a new row is an argument.
use network_gateway_api.Prelude.{
  Bool, false, not, Option, none, some, List, [], ◌∷◌, ◌++◌, String, str_eq, if◌then◌else◌, Outcome,
  ok, err, any, is_some,
}
use network_gateway_api.Value.{Value, Fields, bool, str, field, end, truthy_at, truthy, get}
use network_gateway_api.Secrets.Vault.{Vault}
use network_gateway_api.Storage.Errors.{StoreError, store_error_code, conflict}
use network_gateway_api.Storage.Tables.{find, update, remove}
use network_gateway_api.Storage.Transaction.{
  Tx, pure, lift, gets, puts, require, transaction, ◌>>=◌, ◌>>◌,
}
use network_gateway_api.Inventory.Rows.{
  RoleAccount, Proxy, Connection, Inventory, role_key, proxy_key, connection_key, role_columns,
  opened, role_row, proxy_row, connection_row, stored_proxy, stored_connection, stored,
  resolve_proxy, resolve_connection, public_runtime,
}
use network_gateway_api.Inventory.Credentials.{check_fields, RoleValues, save_role}
use network_gateway_api.Inventory.Profiles.{save_proxy, save_connection}

-- TABLES
pub data Resource : Type 0 where
  role_accounts proxies connections : Resource

-- _FIELDS
abbrev pub resource_fields : Resource → List String
resource_fields role_accounts =
    "name" ∷ "username" ∷ "authentication_type" ∷ "password" ∷ "private_key" ∷ "key_passphrase" ∷ []
resource_fields proxies =
    "name" ∷ "host" ∷ "port" ∷ "username" ∷ "password" ∷ "private_key_path" ∷ "known_hosts_path"
    ∷ "role_account_id" ∷ "type" ∷ []
resource_fields connections =
    "name" ∷ "host" ∷ "port" ∷ "username" ∷ "password" ∷ "private_key_path" ∷ "known_hosts_path"
    ∷ "role_account_id" ∷ "protocol" ∷ "timeout_seconds" ∷ "proxy_id" ∷ "connector" ∷ "client_type"
    ∷ []

abbrev pub refers : Option String → String → Bool
refers none id = false
refers (some r) id = str_eq r id

abbrev pub still_referenced : StoreError
still_referenced = store_error_code "Resource is still referenced." 409

-- An insertion needs a new key.
abbrev pub put_role : Bool → RoleAccount → Tx Inventory (Unit {0})
put_role is_new row db =
    if is_new
    then (if is_some (find role_key row.id db.roles)
        then err conflict
        else ok (tt, record db { roles = db.roles ++ row ∷ [] }))
    else ok (tt, record db { roles = update role_key row.id (λ _. row) db.roles })

abbrev pub put_proxy : Bool → Proxy → Tx Inventory (Unit {0})
put_proxy is_new row db =
    if is_new
    then (if is_some (find proxy_key row.id db.proxies)
        then err conflict
        else ok (tt, record db { proxies = db.proxies ++ row ∷ [] }))
    else ok (tt, record db { proxies = update proxy_key row.id (λ _. row) db.proxies })

abbrev pub put_connection : Bool → Connection → Tx Inventory (Unit {0})
put_connection is_new row db =
    if is_new
    then (if is_some (find connection_key row.id db.connections)
        then err conflict
        else ok (tt, record db { connections = db.connections ++ row ∷ [] }))
    else ok (tt, record db { connections = update connection_key row.id (λ _. row) db.connections })

module _ (vault : Vault Fields) (key_error : Value → Value → Option String) where
  abbrev pub public_role : RoleAccount → Fields → Fields
  public_role row secrets = field "id" (str row.id) (
      field "name" (str row.name) (
        field "username" (str row.username) (
          field "authentication_type" (str row.authentication_type) (
            field "password_configured" (bool (truthy_at "password" secrets))
              (field "private_key_configured" (bool (truthy_at "private_key" secrets)) end)))))

  -- `_public(db, resource, self._row(db, table, item_id))`
  unfoldable pub get_block : Resource → String → Tx Inventory Fields
  unfolding find get truthy resolve_proxy resolve_connection public_runtime
  get_block role_accounts id = do
    row ← role_row vault id
    secrets ← opened vault row.secrets
    pure (public_role row secrets)
  get_block proxies id = do
    row ← proxy_row vault id
    profile ← resolve_proxy vault row
    pure (public_runtime profile)
  get_block connections id = do profile ← resolve_connection vault id; pure (public_runtime profile)

  -- `get` of GatewayStore
  unfoldable pub get_resource :
      Resource → String → Inventory → Outcome StoreError Fields × Inventory
  unfolding get_block transaction
  get_resource resource id = transaction (get_block resource id)

  -- What `_stored_profile` gives for the row that is saved again; nothing for a new one
  unfoldable pub previous_of : Resource → Option String → Tx Inventory Fields
  unfolding find stored
  previous_of resource none = pure end
  previous_of role_accounts (some id) = do
    row ← role_row vault id
    secrets ← opened vault row.secrets
    pure (stored (role_columns row) end secrets)
  previous_of proxies (some id) = proxy_row vault id >>= stored_proxy vault
  previous_of connections (some id) = connection_row vault id >>= stored_connection vault

  abbrev role_of : String → RoleValues → RoleAccount
  role_of id values = record {
    id = id;
    name = values.name;
    username = values.username;
    authentication_type = values.authentication_type;
    secrets = vault.encrypt values.secrets;
  }

  -- The writing part of `save`
  unfoldable pub write : Resource → Bool → String → Fields → Fields → Tx Inventory (Unit {0})
  unfolding save_role save_proxy save_connection find update
  write role_accounts is_new id payload previous =
      lift (save_role key_error payload previous) >>= λ values. put_role is_new (role_of id values)
  write proxies is_new id payload previous =
      save_proxy vault key_error id payload previous >>= put_proxy is_new
  write connections is_new id payload previous =
      save_connection vault key_error id payload previous >>= put_connection is_new

  abbrev key_for : Option String → String → String
  key_for none new_id = new_id
  key_for (some id) new_id = id

  -- `save`
  unfoldable pub save :
      String → Resource → Fields → Option String → Inventory → Outcome StoreError Fields × Inventory
  unfolding previous_of write get_block transaction
  save new_id resource payload item_id db = elim (check_fields (resource_fields resource) payload) [
    | err e ↦ (err e, db)
    | ok _ ↦
        transaction
          (previous_of resource item_id >>= λ previous.
            write resource (not (is_some item_id)) (key_for item_id new_id) payload previous
            >> get_block resource (key_for item_id new_id))
          db
  ]

  -- `delete`, up to the transaction
  unfoldable pub delete_block : Resource → String → Tx Inventory (Unit {0})
  unfolding find remove
  delete_block role_accounts id = do
    row ← role_row vault id
    by_connection ← gets (λ db. any (λ c. refers c.role_account_id id) db.connections)
    require (not by_connection) still_referenced
    by_proxy ← gets (λ db. any (λ p. refers p.role_account_id id) db.proxies)
    require (not by_proxy) still_referenced
    puts (λ db. record db { roles = remove role_key id db.roles })
  delete_block proxies id = do
    row ← proxy_row vault id
    by_connection ← gets (λ db. any (λ c. refers c.proxy_id id) db.connections)
    require (not by_connection) still_referenced
    puts (λ db. record db { proxies = remove proxy_key id db.proxies })
  delete_block connections id = do
    row ← connection_row vault id
    puts (λ db. record db { connections = remove connection_key id db.connections })

  -- `delete`
  unfoldable pub delete : Resource → String → Inventory → Outcome StoreError (Unit {0}) × Inventory
  unfolding delete_block transaction
  delete resource id = transaction (delete_block resource id)
