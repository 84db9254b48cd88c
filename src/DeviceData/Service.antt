-- ===== src/DeviceData/Service.antt =====
-- `DeviceDataService` of app/bl/services/device_data.py. Its answers are the items: the fields
-- `provider` and `simulated`, which each answer has alike, are left out.
use network_gateway_api.Prelude.{
  ℕ, not, ◌>>=◌, Option, none, some, List, String, str_eq, if◌then◌else◌, Outcome, ok, err,
}
use network_gateway_api.Value.{Value, Fields, null, str, list, get, field, end, set, merge}
use network_gateway_api.Secrets.Vault.{Vault}
use network_gateway_api.Storage.Errors.{StoreError}
use network_gateway_api.Identity.{AuthenticatedUser, sorted_roles, text_or_null, mode_text}
use network_gateway_api.Management.Calls.{ManagementError, store_call, provider_error}
use network_gateway_api.Inventory.Rows.{Inventory}
use network_gateway_api.Inventory.Operations.{connections, get_resource}
use network_gateway_api.StaticRoutes.Operations.{
  Route, RouteDb, Drawn, is_fake_profile, append_transaction,
}
use network_gateway_api.DeviceData.Client.{
  stored_profile, client_inventory, client_list, client_create, client_update, client_delete,
}

-- Who asks, and by which request
pub record Asked : Type 0 where
  pub actor : AuthenticatedUser
  pub correlation_id : String
  pub request_method : String
  pub request_path : String

-- `_audit_context`
unfoldable pub audit_context : Asked → String → Fields
audit_context asked action = field "correlation_id" (str asked.correlation_id) (
    field "actor_subject" (str asked.actor.subject) (
      field "actor_tenant_id" (text_or_null asked.actor.tenant_id) (
        field "actor_name" (str asked.actor.name) (
          field "actor_email" (text_or_null asked.actor.email) (
            field "actor_roles" (list (sorted_roles asked.actor.roles)) (
              field "auth_mode" (str (mode_text asked.actor.auth_mode)) (
                field "action" (str action) (
                  field "request_method" (str asked.request_method)
                    (field "request_path" (str asked.request_path) end)))))))))

-- The fields that `_record_failure` adds
abbrev pub failed_fields : Option String → String → String → Fields
failed_fields resource connection detail = field "resource_type" (str "static_route") (
    field "resource_id" (text_or_null resource) (
      field "connection_id" (str connection) (
        field "outcome" (str "failed") (
          field "detail" (str detail) (field "before_state" null (field "after_state" null end))))))

-- `{**audit, "detail": detail}`
abbrev pub with_detail : String → Fields → Fields
with_detail detail audit = set "detail" (str detail) audit

-- A call through `store_call`, which leaves the tables to the call
abbrev pub called :
    {A : Type 0} → Outcome StoreError A × RouteDb → Outcome ManagementError A × RouteDb
called (r, db) = (store_call r, db)

module _ (vault : Vault Fields) (inventory : Inventory) (uuid : String → Option String)
    (ip_network ip_address : String → Option (ℕ × String)) (provider : String)
    (key_error : Value → Value → Option String) where
  -- `_client`
  unfoldable pub client : String → Outcome ManagementError (Unit {0})
  unfolding get_resource store_call get
  client connection =
      if not (str_eq provider "fake")
      then err (provider_error "Simulated device access is disabled." 503)
      else store_call (get_resource vault key_error connections connection inventory).0
        >>= λ profile.
            if not (is_fake_profile profile)
            then err (provider_error "Device data is unsupported for network profiles." 501)
            else ok tt

  -- `_record_failure`: whether the record is written or not, the error stays.
  unfoldable pub record_failure :
      Drawn → Fields → Option String → String → String → RouteDb → RouteDb
  unfolding append_transaction merge
  record_failure drawn audit resource connection detail db =
      (append_transaction (stored_profile vault inventory uuid ip_network ip_address) uuid
        ip_network ip_address drawn (merge audit (failed_fields resource connection detail)) db).1

  -- The `try` of the three changes: the client, then the call; what raises is recorded.
  unfoldable pub attempted :
      {A : Type 0}
      → Drawn
      → Fields
      → Option String
      → String
      → (RouteDb → Outcome StoreError A × RouteDb)
      → RouteDb
      → Outcome ManagementError A × RouteDb
  unfolding client store_call record_failure
  attempted drawn audit resource connection call db = elim (client connection) [
    | err e ↦ (err e, record_failure drawn audit resource connection e.message db)
    | ok _ ↦
        let (r, db') = called (call db) in
        elim r [
          | ok a ↦ (ok a, db')
          | err e ↦ (err e, record_failure drawn audit resource connection e.message db')
        ]
  ]

  -- `inventory`
  unfoldable pub service_inventory : String → Outcome ManagementError Fields
  unfolding client client_inventory store_call
  service_inventory connection = client connection >>= λ _.
      store_call (client_inventory vault inventory uuid ip_network ip_address connection)

  -- `list_static_routes`
  unfoldable pub service_list :
      Drawn → String → RouteDb → Outcome ManagementError (List Route) × RouteDb
  unfolding client client_list store_call
  service_list drawn connection db = elim (client connection) [
    | err e ↦ (err e, db)
    | ok _ ↦ called (client_list vault inventory uuid ip_network ip_address drawn connection db)
  ]

  -- `create_static_route`; the failed attempt is recorded with keys and a time of its own.
  unfoldable pub service_create :
      (drawn drawn_failure : Drawn)
      → Asked
      → String
      → Fields
      → RouteDb
      → Outcome ManagementError Route × RouteDb
  unfolding audit_context client_create attempted set
  service_create drawn drawn_failure asked connection payload =
      let audit = audit_context asked "static_route.create" in
      attempted drawn_failure audit none connection (
        client_create vault inventory uuid ip_network ip_address drawn connection payload
          (with_detail "Static route created." audit))

  -- `update_static_route`
  unfoldable pub service_update :
      (drawn drawn_failure : Drawn)
      → Asked
      → (connection route : String) → Fields
      → RouteDb
      → Outcome ManagementError Route × RouteDb
  unfolding audit_context client_update attempted set
  service_update drawn drawn_failure asked connection route payload =
      let audit = audit_context asked "static_route.update" in
      attempted drawn_failure audit (some route) connection (
        client_update vault inventory uuid ip_network ip_address drawn connection route payload
          (with_detail "Static route updated." audit))

  -- `delete_static_route`
  unfoldable pub service_delete :
      (drawn drawn_failure : Drawn)
      → Asked
      → (connection route : String) → RouteDb
      → Outcome ManagementError (Unit {0}) × RouteDb
  unfolding audit_context client_delete attempted set
  service_delete drawn drawn_failure asked connection route =
      let audit = audit_context asked "static_route.delete" in
      attempted drawn_failure audit (some route) connection (
        client_delete vault inventory uuid ip_network ip_address drawn connection route
          (with_detail "Static route deleted." audit))
