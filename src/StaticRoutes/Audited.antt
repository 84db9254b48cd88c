-- ===== src/StaticRoutes/Audited.antt =====
-- The changes of static routes in app/dal/db/store.py leave the audit records alone.
use network_gateway_api.Prelude.{
  ℕ, ◌≡◌, refl, ◌∙◌, Bool, true, false, not, ◌&&◌, ◌||◌, Option, [], ◌∷◌, ◌++◌, String, str_eq,
  if◌then◌else◌, Outcome, ok, err, Bool-cases, Option-cases, inl, inr, is_some, any,
}
use network_gateway_api.Value.{Fields}
use network_gateway_api.Storage.Errors.{StoreError, conflict}
use network_gateway_api.Storage.Tables.{find, update}
use network_gateway_api.Storage.Transaction.{Tx, lift, gets, puts, require, ◌>>=◌}
use network_gateway_api.Storage.Post.{Post}
use network_gateway_api.StaticRoutes.Check.{RouteValues, validate_static_route}
use network_gateway_api.StaticRoutes.Operations.{
  Route, RouteDb, Drawn, with_routes, route_id, has_destination, insert_route, update_route,
  owned_route, route_of, is_fake_profile, not_fake, insert_default, first_default, second_default,
  seed, initialize, create_row, update_row, delete_row,
}

-- A block that leaves the audit records alone
abbrev pub KeepsLog : {A : Type 0} → Tx RouteDb A → Type 0
KeepsLog m = (db : RouteDb) → Post (λ _ db'. db'.transactions ≡ db.transactions) (m db)

KeepsLog-bind :
    {A B : Type 0} (m : Tx RouteDb A) (f : A → Tx RouteDb B)
    → KeepsLog m
    → ((a : A) → KeepsLog (f a))
    → KeepsLog (m >>= f)
KeepsLog-bind {A} {B} m f hm hf db = go (m db) (hm db)
  where
    go :
        (r : Outcome StoreError (A × RouteDb))
        → Post (λ _ db'. db'.transactions ≡ db.transactions) r
        → Post
            (λ _ db'. db'.transactions ≡ db.transactions)
            (elim r [ ok (a, db') ↦ f a db' | err e ↦ err e ])
    go (err e) q = tt
    go (ok (a, db')) q = on_result (f a db') (hf a db')
      where
        on_result :
            (r : Outcome StoreError (B × RouteDb))
            → Post (λ _ db''. db''.transactions ≡ db'.transactions) r
            → Post (λ _ db''. db''.transactions ≡ db.transactions) r
        on_result (err e) p = tt
        on_result (ok (b, db'')) p = p ∙ q

KeepsLog-lift : {A : Type 0} (r : Outcome StoreError A) → KeepsLog (lift r)
KeepsLog-lift (ok a) db = refl
KeepsLog-lift (err e) db = tt

KeepsLog-require : (b : Bool) (e : StoreError) → KeepsLog (require b e)
KeepsLog-require true e db = refl
KeepsLog-require false e db = tt

KeepsLog-insert_route : (route : Route) → KeepsLog (insert_route route)
unfolding insert_route
KeepsLog-insert_route route db =
    elim (Bool-cases (
      is_some (find route_id route.id db.routes)
      || any (has_destination route.connection_id route.values.destination) db.routes)) [
        | inl e ↦ rw (e, insert_route) tt
        | inr e ↦ rw (e, insert_route) refl
      ]

KeepsLog-update_route :
    (route : Route) (values : RouteValues) → KeepsLog (update_route route values)
unfolding update_route
KeepsLog-update_route route values db = go (
    any
      (λ other.
        not (str_eq other.id route.id)
        && has_destination route.connection_id values.destination other)
      db.routes)
  where
    go :
        (b : Bool)
        → Post
            (λ _ db'. db'.transactions ≡ db.transactions)
            (if b
              then err conflict
              else ok (
                tt,
                with_routes
                    (update route_id route.id (λ r. record r { values = values }) db.routes)
                    db,
              ))
    go true = tt
    go false = refl

KeepsLog-owned_route : (connection id : String) → KeepsLog (owned_route connection id)
KeepsLog-owned_route connection id db = elim (Option-cases (find route_id id db.routes)) [
  | inl e ↦ rw (e, owned_route) tt
  | inr (route, e) ↦ elim (Bool-cases (str_eq route.connection_id connection)) [
    | inl g ↦ rw (e, g, owned_route) refl
    | inr g ↦ rw (e, g, owned_route) tt
  ]
]

KeepsLog-route_of : (id : String) → KeepsLog (route_of id)
KeepsLog-route_of id db = elim (Option-cases (find route_id id db.routes)) [
  | inl e ↦ rw (e, route_of) tt
  | inr (_, e) ↦ rw (e, route_of) refl
]

module _ (stored_profile : String → Outcome StoreError Fields) (uuid : String → Option String)
    (ip_network ip_address : String → Option (ℕ × String)) where
  KeepsLog-insert_default :
      (connection id : String) (payload : Fields)
      → KeepsLog (insert_default stored_profile uuid ip_network ip_address connection id payload)
  KeepsLog-insert_default connection id payload =
      KeepsLog-bind (lift (validate_static_route ip_network ip_address payload)) _
        (KeepsLog-lift (validate_static_route ip_network ip_address payload))
        λ values.
          KeepsLog-insert_route (record { id = id; connection_id = connection; values = values })

  KeepsLog-seed :
      (drawn : Drawn) (connection : String) (known : Bool)
      → KeepsLog (seed stored_profile uuid ip_network ip_address drawn connection known)
  unfolding seed
  KeepsLog-seed drawn connection true = λ db. refl
  KeepsLog-seed drawn connection false =
      KeepsLog-bind (puts (λ db. record db { initialized = db.initialized ++ connection ∷ [] })) _
        (λ db. refl)
        λ _.
          KeepsLog-bind
            (insert_default stored_profile uuid ip_network ip_address connection drawn.first
              first_default)
            _ (KeepsLog-insert_default connection drawn.first first_default)
            λ _. KeepsLog-insert_default connection drawn.second second_default

  KeepsLog-initialize :
      (drawn : Drawn) (connection : String)
      → KeepsLog (initialize stored_profile uuid ip_network ip_address drawn connection)
  unfolding initialize
  KeepsLog-initialize drawn connection =
      KeepsLog-bind (lift (stored_profile connection)) _ (KeepsLog-lift (stored_profile connection))
        λ profile.
          KeepsLog-bind (require (is_fake_profile profile) not_fake) _
            (KeepsLog-require (is_fake_profile profile) not_fake)
            λ _.
              KeepsLog-bind (gets (λ db. any (λ id. str_eq id connection) db.initialized)) _
                (λ db. refl) λ known. KeepsLog-seed drawn connection known

  pub KeepsLog-create_row :
      (drawn : Drawn) (connection : String) (payload : Fields)
      → KeepsLog (create_row stored_profile uuid ip_network ip_address drawn connection payload)
  unfolding create_row
  KeepsLog-create_row drawn connection payload =
      KeepsLog-bind (initialize stored_profile uuid ip_network ip_address drawn connection) _
        (KeepsLog-initialize drawn connection)
        λ _.
          KeepsLog-bind (lift (validate_static_route ip_network ip_address payload)) _
            (KeepsLog-lift (validate_static_route ip_network ip_address payload))
            λ values.
              KeepsLog-bind
                (insert_route
                  (record { id = drawn.route; connection_id = connection; values = values }))
                _
                (KeepsLog-insert_route
                  (record { id = drawn.route; connection_id = connection; values = values }))
                λ _. KeepsLog-route_of drawn.route

  pub KeepsLog-update_row :
      (drawn : Drawn) (connection id : String) (payload : Fields)
      → KeepsLog (update_row stored_profile uuid ip_network ip_address drawn connection id payload)
  unfolding update_row
  KeepsLog-update_row drawn connection id payload =
      KeepsLog-bind (initialize stored_profile uuid ip_network ip_address drawn connection) _
        (KeepsLog-initialize drawn connection)
        λ _.
          KeepsLog-bind (owned_route connection id) _ (KeepsLog-owned_route connection id) λ before.
            KeepsLog-bind (lift (validate_static_route ip_network ip_address payload)) _
              (KeepsLog-lift (validate_static_route ip_network ip_address payload))
              λ values.
                KeepsLog-bind (update_route before values) _ (KeepsLog-update_route before values)
                  λ _. KeepsLog-bind (route_of id) _ (KeepsLog-route_of id) λ after db. refl

  pub KeepsLog-delete_row :
      (drawn : Drawn) (connection id : String)
      → KeepsLog (delete_row stored_profile uuid ip_network ip_address drawn connection id)
  unfolding delete_row
  KeepsLog-delete_row drawn connection id =
      KeepsLog-bind (initialize stored_profile uuid ip_network ip_address drawn connection) _
        (KeepsLog-initialize drawn connection)
        λ _.
          KeepsLog-bind (owned_route connection id) _ (KeepsLog-owned_route connection id)
            λ before db. refl
