-- ===== src/StaticRoutes/Rows.antt =====
-- What `_update_static_route_row` and `_delete_static_route_row` of app/dal/db/store.py do to the
-- table of routes.
use network_gateway_api.Prelude.{
  ℕ, ◌≡◌, refl, sym, ap, ◌∙◌, true, false, not, ◌&&◌, Option, none, some, List, [], ◌∷◌, String,
  str_eq, eq_iff, Outcome, ok, err, arith, Bool-cases, Option-cases, inl, inr, any,
}
use network_gateway_api.Value.{Fields}
use network_gateway_api.Storage.Errors.{StoreError}
use network_gateway_api.Storage.Tables.{find, update, find-remove, find-update}
use network_gateway_api.Storage.Transaction.{lift, gets, require, ◌>>=◌}
use network_gateway_api.Storage.Post.{Post, Post-bind, Post-lift}
use network_gateway_api.StaticRoutes.Check.{RouteValues, validate_static_route}
use network_gateway_api.StaticRoutes.Operations.{
  Route, RouteDb, Drawn, with_routes, route_id, has_destination, update_route, owned_route,
  route_of, is_fake_profile, not_fake, seed, initialize, update_row, delete_row,
}

find-id :
    (id : String) (routes : List Route) (route : Route)
    → find route_id id routes ≡ some route
    → route.id ≡ id
unfolding find
find-id id [] route h = cc
find-id id (r ∷ routes) route h = elim (Bool-cases (str_eq r.id id)) [
  | inl e ↦
      let h' : some r ≡ some route = rw (e, find) at h in
      let same : r ≡ route = ground arith in rw (← same) ((eq_iff r.id id).0 e)
  | inr e ↦ find-id id routes route (rw (e, find) at h)
]

-- The owned route is one of the table with this id and this connection.
owned_route-eq :
    (connection id : String) (db db' : RouteDb) (route : Route)
    → owned_route connection id db ≡ ok (route, db')
    → (db' ≡ db) × (find route_id id db.routes ≡ some route) × (route.connection_id ≡ connection)
owned_route-eq connection id db db' route h = elim (Option-cases (find route_id id db.routes)) [
  | inl e ↦ let h' = rw (e, owned_route) at h in cc
  | inr (r, e) ↦ elim (Bool-cases (str_eq r.connection_id connection)) [
    | inr f ↦ let h' = rw (e, f, owned_route) at h in cc
    | inl f ↦
        let h' : ok (r, db) ≡ ok (route, db') = rw (e, f, owned_route) at h in
        let same : r ≡ route = ground arith in
        let kept : db ≡ db' = ground arith in
        (sym kept, rw (← same) e, rw (← same) ((eq_iff r.connection_id connection).0 f))
  ]
]

route_of-eq :
    (id : String) (db db' : RouteDb) (route : Route)
    → route_of id db ≡ ok (route, db')
    → (db' ≡ db) × (find route_id id db.routes ≡ some route)
route_of-eq id db db' route h = elim (Option-cases (find route_id id db.routes)) [
  | inl e ↦ let h' = rw (e, route_of) at h in cc
  | inr (r, e) ↦
      let h' : ok (r, db) ≡ ok (route, db') = rw (e, route_of) at h in
      let same : r ≡ route = ground arith in
      let kept : db ≡ db' = ground arith in (sym kept, rw (← same) e)
]

update_route-eq :
    (route : Route) (values : RouteValues) (db db' : RouteDb) (u : Unit {0})
    → update_route route values db ≡ ok (u, db')
    → db'.routes ≡ update route_id route.id (λ r. record r { values = values }) db.routes
unfolding update_route
update_route-eq route values db db' u h =
    let clash =
      any
        (λ other.
          not (str_eq other.id route.id)
          && has_destination route.connection_id values.destination other)
        db.routes in
    elim (Bool-cases clash) [
      | inl e ↦ let h' = rw (e, update_route) at h in cc
      | inr e ↦
          let changed =
            with_routes (update route_id route.id (λ r. record r { values = values }) db.routes)
              db in
          let h' : ok (u, changed) ≡ ok (u, db') = rw (e, update_route) at h in
          let same : changed ≡ db' = ground arith in rw (← same) refl
    ]

module _ (stored_profile : String → Outcome StoreError Fields) (uuid : String → Option String)
    (ip_network ip_address : String → Option (ℕ × String)) where
  -- The tables in which the operation looks for the route: those that it found, if the default
  -- routes of the connection were put in before, and else with these.
  pub record IsStart (drawn : Drawn) (connection : String) (db start : RouteDb) : Type 0 where
    pub made :
        initialize stored_profile uuid ip_network ip_address drawn connection db ≡ ok (tt, start)
    pub kept : any (λ id. str_eq id connection) db.initialized ≡ true → start ≡ db

  initialize-IsStart :
      (drawn : Drawn) (connection : String) (db start : RouteDb) (u : Unit {0})
      → initialize stored_profile uuid ip_network ip_address drawn connection db ≡ ok (u, start)
      → IsStart drawn connection db start
  unfolding initialize seed
  initialize-IsStart drawn connection db start u h = record {
    made = h;
    kept = λ known. go known (stored_profile connection) h;
  }
    where
      go :
          any (λ id. str_eq id connection) db.initialized ≡ true
          → (r : Outcome StoreError Fields)
          → (lift r >>= λ profile. require (is_fake_profile profile) not_fake >>= λ _.
                gets (λ s. any (λ id. str_eq id connection) s.initialized) >>= λ known.
                seed stored_profile uuid ip_network ip_address drawn connection known)
              db
            ≡ ok (u, start)
          → start ≡ db
      go known (err e) g = cc
      go known (ok profile) g = elim (Bool-cases (is_fake_profile profile)) [
        | inr e ↦ let g' = rw e at g in cc
        | inl e ↦
            let g' : ok (u, db) ≡ ok (u, start) = rw (e, known) at g in
            let same : db ≡ start = ground arith in sym same
      ]

  -- The rows of the route before and after the change, as they stand in the tables.
  pub record IsUpdate (drawn : Drawn) (connection id : String) (payload : Fields) (db : RouteDb)
      (rows : Route × Route) (routes : List Route) : Type 0 where
    pub start : RouteDb
    pub started : IsStart drawn connection db start
    pub was : find route_id id start.routes ≡ some rows.0
    pub owner : rows.0.connection_id ≡ connection
    pub values : RouteValues
    pub validated : validate_static_route ip_network ip_address payload ≡ ok values
    pub changed : rows.1 ≡ record { id = id; connection_id = connection; values = values }
    pub found : find route_id id routes ≡ some rows.1
    pub others :
        (other : String)
        → str_eq id other ≡ false
        → find route_id other routes ≡ find route_id other start.routes

  -- The row of the route before it is deleted, and the table without it
  pub record IsDelete (drawn : Drawn) (connection id : String) (db : RouteDb) (before : Route)
      (routes : List Route) : Type 0 where
    pub start : RouteDb
    pub started : IsStart drawn connection db start
    pub was : find route_id id start.routes ≡ some before
    pub owner : before.connection_id ≡ connection
    pub gone : find route_id id routes ≡ none
    pub others :
        (other : String)
        → str_eq id other ≡ false
        → find route_id other routes ≡ find route_id other start.routes

  update-find :
      (id : String) (before after : Route) (values : RouteValues) (routes : List Route)
      → find route_id id routes ≡ some before
      → find route_id id (update route_id before.id (λ r. record r { values = values }) routes)
        ≡ some after
      → after ≡ record { id = id; connection_id = before.connection_id; values = values }
  update-find id before after values routes was is =
      let same : before.id ≡ id = find-id id routes before was in
      let seen : some after ≡ some (record before { values = values }) =
        sym is
        ∙ find-update route_id before.id id (λ r. record r { values = values }) (λ r. refl) routes
        ∙ rw (was, (eq_iff before.id id).1 same) refl in
      let made : after ≡ record before { values = values } = ground arith in
      let keyed : String → Route =
        λ i. record { id = i; connection_id = before.connection_id; values = values } in
      made ∙ ap keyed same

  update-find_other :
      (id other : String) (before : Route) (values : RouteValues) (routes : List Route)
      → find route_id id routes ≡ some before
      → str_eq id other ≡ false
      → find route_id other (update route_id before.id (λ r. record r { values = values }) routes)
        ≡ find route_id other routes
  update-find_other id other before values routes was apart =
      let same : before.id ≡ id = find-id id routes before was in
      find-update route_id before.id other (λ r. record r { values = values }) (λ r. refl) routes
      ∙ rw (same, apart) refl

  pub update_row-IsUpdate :
      (drawn : Drawn) (connection id : String) (payload : Fields) (db : RouteDb)
      → Post
          (λ rows db'. IsUpdate drawn connection id payload db rows db'.routes)
          (update_row stored_profile uuid ip_network ip_address drawn connection id payload db)
  unfolding update_row
  update_row-IsUpdate drawn connection id payload db =
      let Q : Route × Route → RouteDb → Type 0 =
        λ rows db'. IsUpdate drawn connection id payload db rows db'.routes in
      Post-bind Q (initialize stored_profile uuid ip_network ip_address drawn connection) _ db
        λ u start begun. Post-bind Q (owned_route connection id) _ start λ before start' owned.
          Post-lift Q (validate_static_route ip_network ip_address payload) _ start' λ values valid.
            Post-bind Q (update_route before values) _ start' λ u' written updated.
              Post-bind Q (route_of id) _ written λ after db' read.
                let (same, was, owner) = owned_route-eq connection id start start' before owned in
                let (kept, found) = route_of-eq id written db' after read in
                let now_found : find route_id id db'.routes ≡ some after = rw kept found in
                let table : db'.routes
                    ≡ update route_id before.id (λ r. record r { values = values }) start.routes =
                  ap (λ s. s.routes) kept
                  ∙ update_route-eq before values start' written u' updated
                  ∙ ap (λ s. update route_id before.id (λ r. record r { values = values }) s.routes)
                      same in
                let with_connection : String → Route =
                  λ c. record { id = id; connection_id = c; values = values } in
                record {
                  start = start;
                  started = initialize-IsStart drawn connection db start u begun;
                  was = was;
                  owner = owner;
                  values = values;
                  validated = valid;
                  changed =
                      update-find id before after values start.routes was (rw table at now_found)
                      ∙ ap with_connection owner;
                  found = now_found;
                  others = λ other apart.
                      ap (find route_id other) table
                      ∙ update-find_other id other before values start.routes was apart;
                }

  pub delete_row-IsDelete :
      (drawn : Drawn) (connection id : String) (db : RouteDb)
      → Post
          (λ before db'. IsDelete drawn connection id db before db'.routes)
          (delete_row stored_profile uuid ip_network ip_address drawn connection id db)
  unfolding delete_row
  delete_row-IsDelete drawn connection id db =
      let Q : Route → RouteDb → Type 0 =
        λ before db'. IsDelete drawn connection id db before db'.routes in
      Post-bind Q (initialize stored_profile uuid ip_network ip_address drawn connection) _ db
        λ u start begun. Post-bind Q (owned_route connection id) _ start λ before start' owned.
          let (same, was, owner) = owned_route-eq connection id start start' before owned in
          record {
            start = start;
            started = initialize-IsStart drawn connection db start u begun;
            was = was;
            owner = owner;
            gone = find-remove route_id id id start'.routes ∙ rw ((eq_iff id id).1 refl) refl;
            others = λ other apart.
                find-remove route_id id other start'.routes
                ∙ rw apart (ap (λ s. find route_id other s.routes) same);
          }
