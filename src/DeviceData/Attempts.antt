-- ===== src/DeviceData/Attempts.antt =====
-- What the changes of app/bl/services/device_data.py leave in the tables, whether they succeed or not.
use network_gateway_api.Prelude.{
  ℕ, arith, ◌≡◌, refl, ◌⊎◌, inl, inr, Option, none, some, [], ◌∷◌, ◌++◌, String, Outcome, ok, err,
  Bool-cases, Outcome-cases, is_some,
}
use network_gateway_api.Value.{Value, Fields, str, get_value, merge}
use network_gateway_api.Value.Laws.{get-merge}
use network_gateway_api.Secrets.Vault.{Vault}
use network_gateway_api.Storage.Errors.{StoreError}
use network_gateway_api.Storage.Tables.{find}
use network_gateway_api.Storage.Transaction.{commit, transaction}
use network_gateway_api.Audit.Fields.{Transaction, validate_transaction}
use network_gateway_api.Audit.Outcomes.{validate_transaction-outcome}
use network_gateway_api.Management.Calls.{ManagementError, store_call}
use network_gateway_api.Inventory.Rows.{Inventory}
use network_gateway_api.StaticRoutes.Operations.{
  RouteDb, Drawn, transaction_id, insert_transaction, append_transaction,
}
use network_gateway_api.StaticRoutes.Logged.{insert_transaction-IsLogged}
use network_gateway_api.DeviceData.Client.{
  stored_profile, client_create, client_update, client_delete,
}
use network_gateway_api.DeviceData.Stored.{
  IsRecorded, Leaves, get_value-some, client_create-Leaves, client_update-Leaves,
  client_delete-Leaves,
}
use network_gateway_api.DeviceData.Service.{
  Asked, audit_context, with_detail, failed_fields, client, record_failure, attempted,
  service_create, service_update, service_delete,
}

abbrev ok_row : Transaction × RouteDb → Outcome StoreError (Transaction × RouteDb)
ok_row r = ok r

module _ (vault : Vault Fields) (inventory : Inventory) (uuid : String → Option String)
    (ip_network ip_address : String → Option (ℕ × String)) where
  abbrev store_profile : String → Outcome StoreError Fields
  store_profile = stored_profile vault inventory uuid ip_network ip_address

  module _ (provider : String) (key_error : Value → Value → Option String) (drawn : Drawn)
      (audit : Fields) (resource : Option String) (connection : String) where
    insert_transaction-keeps :
        (payload : Fields) (db db' : RouteDb) (row : Transaction)
        → insert_transaction store_profile uuid ip_network ip_address drawn payload db
          ≡ ok (row, db')
        → (db'.routes ≡ db.routes) × (db'.initialized ≡ db.initialized)
    unfolding insert_transaction
    insert_transaction-keeps payload db db' row h =
        elim (Outcome-cases
          (validate_transaction uuid drawn.transaction drawn.correlation drawn.now payload)) [
            | inr (_, e) ↦ let h' = rw (e, insert_transaction) at h in cc
            | inl (made, e) ↦
                elim (Bool-cases (is_some (find transaction_id made.id db.transactions))) [
                  | inl f ↦ let h' = rw (e, f, insert_transaction) at h in cc
                  | inr f ↦
                      let h' : ok_row
                            (made, record db { transactions = db.transactions ++ made ∷ [] })
                          ≡ ok (row, db') =
                        rw (e, f, insert_transaction) at h in
                      let same : record db { transactions = db.transactions ++ made ∷ [] } ≡ db' =
                        ground arith in
                      rw (← same) (refl, refl)
                ]
          ]

    -- What is left of a failed attempt: the routes are as they were, and its record is there or could
    -- not be inserted.
    pub record IsFailure (detail : String) (before after : RouteDb) : Type 0 where
      pub routes : after.routes ≡ before.routes
      pub initialized : after.initialized ≡ before.initialized
      pub noted :
          IsRecorded "failed" before after
          ⊎ ((after ≡ before)
              × (e : StoreError) × (insert_transaction store_profile uuid ip_network ip_address
                    drawn
                    (merge audit (failed_fields resource connection detail))
                    before
                  ≡ err e))

    -- An attempt that succeeds has one record more, of success; one that fails is a failure.
    abbrev pub IsAudited : {A : Type 0} → RouteDb → Outcome ManagementError A × RouteDb → Type 0
    IsAudited before (ok a, after) = IsRecorded "succeeded" before after
    IsAudited before (err e, after) = IsFailure e.message before after

    abbrev inserted : String → RouteDb → Outcome StoreError (Transaction × RouteDb)
    inserted detail db =
        insert_transaction store_profile uuid ip_network ip_address drawn
          (merge audit (failed_fields resource connection detail)) db

    claims_failure :
        (detail : String)
        → get_value "outcome" (merge audit (failed_fields resource connection detail))
          ≡ str "failed"
    claims_failure detail =
        get_value-some "outcome" (merge audit (failed_fields resource connection detail)) _
          (get-merge "outcome" audit (failed_fields resource connection detail))

    commit-IsFailure :
        (detail : String) (db : RouteDb) (r : Outcome StoreError (Transaction × RouteDb))
        → inserted detail db ≡ r
        → IsFailure detail db (commit r db).1
    commit-IsFailure detail db (err e) h = record {
      routes = refl;
      initialized = refl;
      noted = inr (refl, e, h);
    }
    commit-IsFailure detail db (ok (row, db')) h =
        let l =
          insert_transaction-IsLogged store_profile uuid ip_network ip_address drawn
            (merge audit (failed_fields resource connection detail)) db db' row h in
        let (routes, initialized) =
          insert_transaction-keeps (merge audit (failed_fields resource connection detail)) db db'
            row h in
        record {
          routes = routes;
          initialized = initialized;
          noted = inl (record {
            row = l.row;
            appended = l.appended;
            claimed =
                validate_transaction-outcome uuid drawn.transaction drawn.correlation drawn.now
                  (merge audit (failed_fields resource connection detail)) "failed"
                  (claims_failure detail) l.validated;
          });
        }

    record_failure-IsFailure :
        (detail : String) (db : RouteDb)
        → IsFailure detail db (
            record_failure vault inventory uuid ip_network ip_address provider key_error drawn audit
              resource connection detail db)
    unfolding record_failure append_transaction transaction
    record_failure-IsFailure detail db = commit-IsFailure detail db (inserted detail db) refl

    attempted-IsAudited :
        {A : Type 0} (call : RouteDb → Outcome StoreError A × RouteDb) (db : RouteDb)
        → Leaves db (call db)
        → IsAudited db (
            attempted vault inventory uuid ip_network ip_address provider key_error drawn audit
              resource connection call db)
    unfolding attempted store_call
    attempted-IsAudited {A} call db left =
        elim (Outcome-cases
          (client vault inventory uuid ip_network ip_address provider key_error connection)) [
            | inr (e, h) ↦ rw (h, attempted) (record_failure-IsFailure e.message db)
            | inl (_, h) ↦ rw (h, attempted) (after_call (call db) left)
          ]
      where
        after_call :
            (r : Outcome StoreError A × RouteDb)
            → Leaves {A = A} db r
            → IsAudited {A = A} db (elim (store_call r.0) [
              | ok a ↦ (ok a, r.1)
              | err e ↦ (
                err e,
                record_failure vault inventory uuid ip_network ip_address provider key_error drawn
                    audit resource connection e.message r.1,
              )
            ])
        after_call (ok a, db') l = l
        after_call (err e, db') same = rw same (record_failure-IsFailure _ db)

module _ (vault : Vault Fields) (inventory : Inventory) (uuid : String → Option String)
    (ip_network ip_address : String → Option (ℕ × String)) (provider : String)
    (key_error : Value → Value → Option String) (drawn drawn_failure : Drawn) (asked : Asked)
    (connection : String) where
  abbrev Audited :
      {A : Type 0} → Fields → Option String → RouteDb → Outcome ManagementError A × RouteDb → Type 0
  Audited audit resource db r =
      IsAudited vault inventory uuid ip_network ip_address provider key_error drawn_failure audit
        resource connection db r

  -- Each attempt to create, update or delete a static route through the service is audited: if it
  -- succeeds, the audit table has one record more, with the outcome "succeeded"; if it ends with an
  -- error, wherever that comes from, the routes are as before, and the table has one record more,
  -- with the outcome "failed", unless the insertion of that record itself raised, and then all is as
  -- before.
  pub changes-AreAudited :
      (route : String) (payload : Fields) (db : RouteDb)
      → Audited (audit_context asked "static_route.create") none db (
          service_create vault inventory uuid ip_network ip_address provider key_error drawn
            drawn_failure asked connection payload db)
        × Audited (audit_context asked "static_route.update") (some route) db (
            service_update vault inventory uuid ip_network ip_address provider key_error drawn
              drawn_failure asked connection route payload db)
        × Audited (audit_context asked "static_route.delete") (some route) db (
            service_delete vault inventory uuid ip_network ip_address provider key_error drawn
              drawn_failure asked connection route db)
  unfolding service_create service_update service_delete
  changes-AreAudited route payload db = (
    attempted-IsAudited vault inventory uuid ip_network ip_address provider key_error drawn_failure
        (audit_context asked "static_route.create") none connection
        (client_create vault inventory uuid ip_network ip_address drawn connection payload
          (with_detail "Static route created." (audit_context asked "static_route.create")))
        db
        (client_create-Leaves vault inventory uuid ip_network ip_address drawn connection payload
          (with_detail "Static route created." (audit_context asked "static_route.create")) db),
    attempted-IsAudited vault inventory uuid ip_network ip_address provider key_error drawn_failure
        (audit_context asked "static_route.update") (some route) connection
        (client_update vault inventory uuid ip_network ip_address drawn connection route payload
          (with_detail "Static route updated." (audit_context asked "static_route.update")))
        db
        (client_update-Leaves vault inventory uuid ip_network ip_address drawn connection route
          payload (with_detail "Static route updated." (audit_context asked "static_route.update"))
          db),
    attempted-IsAudited vault inventory uuid ip_network ip_address provider key_error drawn_failure
        (audit_context asked "static_route.delete") (some route) connection
        (client_delete vault inventory uuid ip_network ip_address drawn connection route
          (with_detail "Static route deleted." (audit_context asked "static_route.delete")))
        db
        (client_delete-Leaves vault inventory uuid ip_network ip_address drawn connection route
          (with_detail "Static route deleted." (audit_context asked "static_route.delete")) db),
  )
