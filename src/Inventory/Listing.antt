-- ===== src/Inventory/Listing.antt =====
-- `list` of app/dal/db/store.py: the rows by name and then by key, in the order of code points, as they
-- are shown.
use network_gateway_api.Prelude.{
  Bool, Option, List, [], ◌∷◌, String, str_eq, if◌then◌else◌, Outcome,
}
use network_gateway_api.Value.{Value, Fields, get, truthy}
use network_gateway_api.Secrets.Vault.{Vault}
use network_gateway_api.Storage.Errors.{StoreError}
use network_gateway_api.Storage.Transaction.{Tx, pure, transaction, ◌>>=◌}
use network_gateway_api.Audit.Timestamps.{text_le}
use network_gateway_api.Inventory.Rows.{
  RoleAccount, Proxy, Connection, Inventory, opened, resolve_proxy, resolve_connection,
  public_runtime,
}
use network_gateway_api.Inventory.Operations.{
  Resource, role_accounts, proxies, connections, public_role,
}

-- `order_by(table.c.name, table.c.id)`: whether a row may stand before another
abbrev pub may_precede : String × String → String × String → Bool
may_precede (name, id) (name', id') =
    if str_eq name name' then text_le id id' else text_le name name'

module _ {A : Type 0} (columns : A → String × String) where
  unfoldable pub put_row : A → List A → List A
  unfolding text_le
  put_row row [] = row ∷ []
  put_row row (other ∷ rows) =
      let rest = put_row row rows in
      if may_precede (columns row) (columns other) then row ∷ other ∷ rows else other ∷ rest

  unfoldable pub in_order : List A → List A
  unfolding put_row
  in_order [] = []
  in_order (row ∷ rows) = put_row row (in_order rows)

-- The list of what each row is shown as
unfoldable pub show_each :
    {A : Type 0} → (A → Tx Inventory Fields) → List A → Tx Inventory (List Fields)
show_each show [] = pure []
show_each show (row ∷ rows) =
    show row >>= λ item. show_each show rows >>= λ items. pure (item ∷ items)

abbrev pub role_columns_of : RoleAccount → String × String
role_columns_of row = (row.name, row.id)

abbrev pub proxy_columns_of : Proxy → String × String
proxy_columns_of row = (row.name, row.id)

abbrev pub connection_columns_of : Connection → String × String
connection_columns_of row = (row.name, row.id)

module _ (vault : Vault Fields) (key_error : Value → Value → Option String) where
  abbrev pub show_role : RoleAccount → Tx Inventory Fields
  show_role row =
      opened vault row.secrets >>= λ secrets. pure (public_role vault key_error row secrets)

  abbrev pub show_proxy : Proxy → Tx Inventory Fields
  show_proxy row = resolve_proxy vault row >>= λ profile. pure (public_runtime profile)

  abbrev pub show_connection : Connection → Tx Inventory Fields
  show_connection row = resolve_connection vault row.id >>= λ profile. pure (public_runtime profile)

  unfoldable pub list_block : Resource → Tx Inventory (List Fields)
  unfolding in_order show_each get truthy resolve_proxy resolve_connection public_runtime
  list_block role_accounts db = show_each show_role (in_order role_columns_of db.roles) db
  list_block proxies db = show_each show_proxy (in_order proxy_columns_of db.proxies) db
  list_block connections db =
      show_each show_connection (in_order connection_columns_of db.connections) db

  -- `list` of GatewayStore
  unfoldable pub list_resource : Resource → Inventory → Outcome StoreError (List Fields) × Inventory
  unfolding list_block transaction
  list_resource resource = transaction (list_block resource)
