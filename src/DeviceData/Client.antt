-- ===== src/DeviceData/Client.antt =====
-- `FakeDeviceClient` of app/dal/device/fake_client.py over the inventory and the static routes.
use network_gateway_api.Prelude.{ℕ, true, List, ◌>>=◌, Option, none, some, String, Outcome, ok, err}
use network_gateway_api.Value.{Value, Fields, bool, str, dict, field, end, get, merge}
use network_gateway_api.Secrets.Vault.{Vault}
use network_gateway_api.Storage.Errors.{StoreError}
use network_gateway_api.Storage.Transaction.{transaction, uncaught, ◌>>=◌ as ◌>>=ₜ◌}
use network_gateway_api.Inventory.Rows.{
  Inventory, connection_row, stored_connection, resolve_connection,
}
use network_gateway_api.StaticRoutes.Operations.{
  Route, RouteDb, Drawn, list_static_routes, create_static_route_audited,
  update_static_route_audited, delete_static_route_audited,
}
use network_gateway_api.DeviceData.Simulation.{validate_fake_path}
use network_gateway_api.DeviceData.Inventory.{inventory_data}

-- `d[key]`; what a missing key raises is no StoreError.
abbrev value_at : String → Fields → Outcome StoreError Value
value_at key d = elim (get key d) [ none ↦ err uncaught | some v ↦ ok v ]

abbrev connector_at : Fields → Outcome StoreError Fields
connector_at d = elim (get "connector" d) [ some (dict c) ↦ ok c | _ ↦ err uncaught ]

-- The answer of `inventory`, made of a profile
unfoldable pub device_inventory : Fields → Outcome StoreError Fields
unfolding get merge
device_inventory profile = value_at "id" profile >>= λ id. value_at "name" profile >>= λ name.
    value_at "protocol" profile >>= λ protocol. value_at "host" profile >>= λ host.
    value_at "port" profile >>= λ port. value_at "role_account_id" profile >>= λ role.
    value_at "proxy_id" profile >>= λ proxy. connector_at profile >>= λ connector.
    value_at "role_account_id" connector >>= λ proxy_role. value_at "type" connector >>= λ kind.
    ok (
      merge
        (field "provider" (str "fake") (
          field "simulated" (bool true) (
            field "device"
              (dict (
                field "id" id (
                  field "name" name
                    (field "protocol" protocol (field "host" host (field "port" port end))))))
              (field "access"
                (dict (
                  field "role_account_id" role (
                    field "proxy_id" proxy (
                      field "proxy_role_account_id" proxy_role (field "connector_type" kind end)))))
                end))))
        inventory_data)

module _ (vault : Vault Fields) (inventory : Inventory) (uuid : String → Option String)
    (ip_network ip_address : String → Option (ℕ × String)) where
  -- What `_initialize_static_routes` reads of the connection
  unfoldable pub stored_profile : String → Outcome StoreError Fields
  unfolding transaction
  stored_profile id =
      (transaction (connection_row vault id >>=ₜ stored_connection vault) inventory).0

  -- `resolve_connection` of the store
  unfoldable pub resolved : String → Outcome StoreError Fields
  unfolding resolve_connection transaction
  resolved id = (transaction (resolve_connection vault id) inventory).0

  -- `_profile`
  unfoldable pub fake_profile : String → Outcome StoreError Fields
  unfolding resolved validate_fake_path
  fake_profile id = resolved id >>= λ profile. validate_fake_path profile >>= λ _. ok profile

  -- `self._profile()` before a call of the store
  abbrev pub behind_path :
      {A : Type 0}
      → String
      → (RouteDb → Outcome StoreError A × RouteDb)
      → RouteDb
      → Outcome StoreError A × RouteDb
  behind_path id call db = elim (fake_profile id) [ err e ↦ (err e, db) | ok _ ↦ call db ]

  unfoldable pub client_inventory : String → Outcome StoreError Fields
  unfolding fake_profile device_inventory
  client_inventory id = fake_profile id >>= device_inventory

  unfoldable pub client_list : Drawn → String → RouteDb → Outcome StoreError (List Route) × RouteDb
  unfolding fake_profile stored_profile list_static_routes
  client_list drawn id =
      behind_path id (list_static_routes stored_profile uuid ip_network ip_address drawn id)

  -- The three changes, with an audit record
  unfoldable pub client_create :
      Drawn → String → Fields → Fields → RouteDb → Outcome StoreError Route × RouteDb
  unfolding fake_profile stored_profile create_static_route_audited
  client_create drawn id payload audit =
      behind_path id (
        create_static_route_audited stored_profile uuid ip_network ip_address drawn id payload
          audit)

  unfoldable pub client_update :
      Drawn → String → String → Fields → Fields → RouteDb → Outcome StoreError Route × RouteDb
  unfolding fake_profile stored_profile update_static_route_audited
  client_update drawn id route payload audit = behind_path id (
      update_static_route_audited stored_profile uuid ip_network ip_address drawn id route payload
        audit)

  unfoldable pub client_delete :
      Drawn → String → String → Fields → RouteDb → Outcome StoreError (Unit {0}) × RouteDb
  unfolding fake_profile stored_profile delete_static_route_audited
  client_delete drawn id route audit =
      behind_path id
        (delete_static_route_audited stored_profile uuid ip_network ip_address drawn id route audit)
