-- ===== src/DeviceData/Stored.antt =====
-- The record that a change of the simulated device leaves, for app/bl/services/device_data.py.
use network_gateway_api.Prelude.{
  ℕ, ◌≡◌, refl, inl, inr, Option, some, [], ◌∷◌, ◌++◌, String, Outcome, ok, err, Outcome-cases,
}
use network_gateway_api.Value.{Value, Fields, null, str, dict, get, get_or, get_value, merge}
use network_gateway_api.Value.Laws.{get-merge}
use network_gateway_api.Secrets.Vault.{Vault}
use network_gateway_api.Storage.Errors.{StoreError}
use network_gateway_api.Audit.Fields.{Transaction}
use network_gateway_api.Audit.Outcomes.{validate_transaction-outcome}
use network_gateway_api.Inventory.Rows.{Inventory}
use network_gateway_api.StaticRoutes.Operations.{
  RouteDb, Drawn, row_fields, succeeded, create_static_route_audited, update_static_route_audited,
  delete_static_route_audited,
}
use network_gateway_api.StaticRoutes.Logged.{
  IsLogged, IsAtomic, created, updated, deleted, create_static_route_audited-IsAtomic,
  update_static_route_audited-IsAtomic, delete_static_route_audited-IsAtomic,
}
use network_gateway_api.DeviceData.Client.{
  stored_profile, fake_profile, behind_path, client_create, client_update, client_delete,
}

-- One record more, with this outcome
pub record IsRecorded (outcome : String) (before after : RouteDb) : Type 0 where
  pub row : Transaction
  pub appended : after.transactions ≡ before.transactions ++ row ∷ []
  pub claimed : row.outcome ≡ outcome

-- A call of the store: a result comes with its record, and an error leaves the tables alone.
abbrev pub Leaves : {A : Type 0} → RouteDb → Outcome StoreError A × RouteDb → Type 0
Leaves db (ok a, db') = IsRecorded "succeeded" db db'
Leaves db (err e, db') = db' ≡ db

pub get_value-some :
    (key : String) (d : Fields) (v : Value) → get key d ≡ some v → get_value key d ≡ v
get_value-some key d v h = rw (h, get_or) refl

module _ (vault : Vault Fields) (inventory : Inventory) (uuid : String → Option String)
    (ip_network ip_address : String → Option (ℕ × String)) where
  abbrev store_profile : String → Outcome StoreError Fields
  store_profile = stored_profile vault inventory uuid ip_network ip_address

  claims_success :
      (audit : Fields) (connection id : String) (before after : Value)
      → get_value "outcome" (
          merge audit
            (succeeded store_profile uuid ip_network ip_address connection id before after))
        ≡ str "succeeded"
  claims_success audit connection id before after =
      get_value-some "outcome"
        (merge audit
          (succeeded store_profile uuid ip_network ip_address connection id before after))
        _
        (get-merge "outcome" audit
          (succeeded store_profile uuid ip_network ip_address connection id before after))

  module _ (drawn : Drawn) where
    logged-IsRecorded :
        (payload : Fields) (db db' : RouteDb)
        → get_value "outcome" payload ≡ str "succeeded"
        → IsLogged store_profile uuid ip_network ip_address drawn payload db db'
        → IsRecorded "succeeded" db db'
    logged-IsRecorded payload db db' claimed l = record {
      row = l.row;
      appended = l.appended;
      claimed =
          validate_transaction-outcome uuid drawn.transaction drawn.correlation drawn.now payload
            "succeeded" claimed l.validated;
    }

    atomic-Leaves :
        {A B : Type 0} (payload_of : A → Fields) (result : A → B) (db : RouteDb)
        (r : Outcome StoreError B × RouteDb)
        → ((a : A) → get_value "outcome" (payload_of a) ≡ str "succeeded")
        → IsAtomic store_profile uuid ip_network ip_address drawn payload_of result db r
        → Leaves db r
    atomic-Leaves payload_of result db (ok b, db') claims (a, _, l) =
        logged-IsRecorded (payload_of a) db db' (claims a) l
    atomic-Leaves payload_of result db (err e, db') claims same = same

    behind_path-Leaves :
        {A : Type 0} (id : String) (call : RouteDb → Outcome StoreError A × RouteDb) (db : RouteDb)
        → Leaves db (call db)
        → Leaves db (behind_path vault inventory uuid ip_network ip_address id call db)
    behind_path-Leaves id call db h =
        elim (Outcome-cases (fake_profile vault inventory uuid ip_network ip_address id)) [
          | inr (_, e) ↦ rw (e, behind_path) refl
          | inl (_, e) ↦ rw (e, behind_path) h
        ]

    pub client_create-Leaves :
        (connection : String) (payload audit : Fields) (db : RouteDb)
        → Leaves db (
            client_create vault inventory uuid ip_network ip_address drawn connection payload audit
              db)
    unfolding client_create
    client_create-Leaves connection payload audit db =
        behind_path-Leaves connection
          (create_static_route_audited store_profile uuid ip_network ip_address drawn connection
            payload audit)
          db
          (atomic-Leaves (created store_profile uuid ip_network ip_address drawn connection audit)
            (λ route. route) db _
            (λ route. claims_success audit connection route.id null (dict (row_fields route)))
            (create_static_route_audited-IsAtomic store_profile uuid ip_network ip_address drawn
              connection payload audit db))

    pub client_update-Leaves :
        (connection id : String) (payload audit : Fields) (db : RouteDb)
        → Leaves db (
            client_update vault inventory uuid ip_network ip_address drawn connection id payload
              audit db)
    unfolding client_update
    client_update-Leaves connection id payload audit db =
        behind_path-Leaves connection
          (update_static_route_audited store_profile uuid ip_network ip_address drawn connection id
            payload audit)
          db
          (atomic-Leaves
            (updated store_profile uuid ip_network ip_address drawn connection id audit)
            (λ rows. rows.1) db _
            (λ rows.
              claims_success audit connection id (dict (row_fields rows.0))
                (dict (row_fields rows.1)))
            (update_static_route_audited-IsAtomic store_profile uuid ip_network ip_address drawn
              connection id payload audit db))

    pub client_delete-Leaves :
        (connection id : String) (audit : Fields) (db : RouteDb)
        → Leaves db
            (client_delete vault inventory uuid ip_network ip_address drawn connection id audit db)
    unfolding client_delete
    client_delete-Leaves connection id audit db =
        behind_path-Leaves connection
          (delete_static_route_audited store_profile uuid ip_network ip_address drawn connection id
            audit)
          db
          (atomic-Leaves
            (deleted store_profile uuid ip_network ip_address drawn connection id audit)
            (λ before. tt) db _
            (λ before. claims_success audit connection id (dict (row_fields before)) null)
            (delete_static_route_audited-IsAtomic store_profile uuid ip_network ip_address drawn
              connection id audit db))
