-- ===== src/StaticRoutes/Recorded.antt =====
-- What the audited changes of static routes in app/dal/db/store.py record is what happened.
use network_gateway_api.Prelude.{ℕ, ◌≡◌, refl, Option, String, Outcome, ok, err, List}
use network_gateway_api.Value.{Fields}
use network_gateway_api.Storage.Errors.{StoreError}
use network_gateway_api.Storage.Transaction.{Tx, transaction}
use network_gateway_api.Storage.Post.{Post, transaction-err}
use network_gateway_api.StaticRoutes.Operations.{
  Route, RouteDb, Drawn, update_row, delete_row, update_static_route_audited,
  delete_static_route_audited,
}
use network_gateway_api.StaticRoutes.Audited.{KeepsLog, KeepsLog-update_row, KeepsLog-delete_row}
use network_gateway_api.StaticRoutes.Logged.{IsLogged, logged, logged-IsLogged, updated, deleted}
use network_gateway_api.StaticRoutes.Rows.{
  IsUpdate, IsDelete, update_row-IsUpdate, delete_row-IsDelete,
}

module _ (stored_profile : String → Outcome StoreError Fields) (uuid : String → Option String)
    (ip_network ip_address : String → Option (ℕ × String)) (drawn : Drawn) where
  -- A result comes with a change of the routes and its audit record, and an error with the tables
  -- as they were.
  abbrev pub IsRecorded :
      {A B : Type 0}
      → (A → List Route → Type 0)
      → (A → Fields)
      → (A → B)
      → RouteDb
      → Outcome StoreError B × RouteDb
      → Type 0
  IsRecorded {A} change payload_of result db (ok b, db') =
      (a : A) × (result a ≡ b)
      × change a db'.routes
      × IsLogged stored_profile uuid ip_network ip_address drawn (payload_of a) db db'
  IsRecorded change payload_of result db (err e, db') = db' ≡ db

  logged-IsRecorded :
      {A B : Type 0} (change : A → List Route → Type 0) (m : Tx RouteDb A) (payload_of : A → Fields)
      (result : A → B) (db : RouteDb)
      → KeepsLog m
      → Post (λ a db'. change a db'.routes) (m db)
      → IsRecorded change payload_of result db (
          transaction
            (logged stored_profile uuid ip_network ip_address drawn m payload_of result)
            db)
  logged-IsRecorded {A} {B} change m payload_of result db keeps changes =
      go (transaction block db)
        (logged-IsLogged stored_profile uuid ip_network ip_address drawn m payload_of result keeps
          db)
        (λ e. transaction-err block db)
    where
      block : Tx RouteDb B
      block = logged stored_profile uuid ip_network ip_address drawn m payload_of result

      changed : (a : A) (middle : RouteDb) → m db ≡ ok (a, middle) → change a middle.routes
      changed a middle e = rw e at changes

      go :
          (r : Outcome StoreError B × RouteDb)
          → ((b : B)
              → r.0 ≡ ok b
              → (a : A) × (result a ≡ b)
                × IsLogged stored_profile uuid ip_network ip_address drawn (payload_of a) db r.1
                × (middle : RouteDb) × (m db ≡ ok (a, middle))
                × (r.1.routes ≡ middle.routes))
          → ((e : StoreError) → r.0 ≡ err e → r.1 ≡ db)
          → IsRecorded change payload_of result db r
      go (ok b, db') f g =
          let (a, same, recorded, middle, e, routes) = f b refl in
          (a, same, rw routes (changed a middle e), recorded)
      go (err e, db') f g = g e refl

  -- A route is changed only together with an audit record, which stands after all others and was
  -- validated from the caller's metadata with the rows before and after. The row before is the one
  -- that the table had under this id, of this connection, and the row after, which the table has
  -- now, has the same id and connection with the validated values of the payload; all other routes
  -- are as they were, once the default routes of the connection are there. Whatever raises, the
  -- tables stay as they were.
  pub update_static_route_audited-IsRecorded :
      (connection id : String) (payload audit : Fields) (db : RouteDb)
      → IsRecorded
          (IsUpdate stored_profile uuid ip_network ip_address drawn connection id payload db)
          (updated stored_profile uuid ip_network ip_address drawn connection id audit)
          (λ rows. rows.1)
          db
          (update_static_route_audited stored_profile uuid ip_network ip_address drawn connection id
            payload audit db)
  unfolding update_static_route_audited
  update_static_route_audited-IsRecorded connection id payload audit db =
      logged-IsRecorded
        (IsUpdate stored_profile uuid ip_network ip_address drawn connection id payload db)
        (update_row stored_profile uuid ip_network ip_address drawn connection id payload)
        (updated stored_profile uuid ip_network ip_address drawn connection id audit)
        (λ rows. rows.1) db
        (KeepsLog-update_row stored_profile uuid ip_network ip_address drawn connection id payload)
        (update_row-IsUpdate stored_profile uuid ip_network ip_address drawn connection id payload
          db)

  -- A route is deleted only together with an audit record, which stands after all others and was
  -- validated from the caller's metadata with the row that the table had under this id, of this
  -- connection. Now the table has no route of this id, and all other routes are as they were, once
  -- the default routes of the connection are there. Whatever raises, the tables stay as they were.
  pub delete_static_route_audited-IsRecorded :
      (connection id : String) (audit : Fields) (db : RouteDb)
      → IsRecorded
          (IsDelete stored_profile uuid ip_network ip_address drawn connection id db)
          (deleted stored_profile uuid ip_network ip_address drawn connection id audit)
          (λ before. tt)
          db
          (delete_static_route_audited stored_profile uuid ip_network ip_address drawn connection id
            audit db)
  unfolding delete_static_route_audited
  delete_static_route_audited-IsRecorded connection id audit db =
      logged-IsRecorded (IsDelete stored_profile uuid ip_network ip_address drawn connection id db)
        (delete_row stored_profile uuid ip_network ip_address drawn connection id)
        (deleted stored_profile uuid ip_network ip_address drawn connection id audit) (λ before. tt)
        db (KeepsLog-delete_row stored_profile uuid ip_network ip_address drawn connection id)
        (delete_row-IsDelete stored_profile uuid ip_network ip_address drawn connection id db)
