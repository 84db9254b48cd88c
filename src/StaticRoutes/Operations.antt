-- ===== src/StaticRoutes/Operations.antt =====
-- The operations on static routes of app/dal/db/store.py, with and without an audit record. The
-- stored profile of a connection, UUID parsing and the `ipaddress` functions are parameters; the
-- keys and the time that the code draws are arguments.
use network_gateway_api.Prelude.{
  ℕ, Bool, true, false, not, ◌&&◌, ◌||◌, Option, none, some, List, [], ◌∷◌, ◌++◌, String, str_eq,
  if◌then◌else◌, any, is_some, Outcome, ok, err,
}
use network_gateway_api.Prelude.Int.{pos}
use network_gateway_api.Value.{
  Value, Fields, null, bool, int, str, dict, field, end, get_or, get, merge,
}
use network_gateway_api.Storage.Errors.{StoreError, store_error_code, not_found, conflict}
use network_gateway_api.Storage.Tables.{find, update, remove}
use network_gateway_api.Storage.Transaction.{
  Tx, pure, lift, gets, puts, or_raise, require, transaction, ◌>>=◌, ◌>>◌,
}
use network_gateway_api.Audit.Fields.{Transaction, validate_transaction}
use network_gateway_api.StaticRoutes.Check.{RouteValues, validate_static_route}

pub record Route : Type 0 where
  pub id : String
  pub connection_id : String
  pub values : RouteValues

-- The three tables that the operations touch
pub record RouteDb : Type 0 where
  pub initialized : List String
  pub routes : List Route
  pub transactions : List Transaction

-- What `uuid.uuid4` and the clock give in one operation
pub record Drawn : Type 0 where
  pub first : String
  pub second : String
  pub route : String
  pub transaction : String
  pub correlation : String
  pub now : String

abbrev pub route_id : Route → String
route_id route = route.id

abbrev pub transaction_id : Transaction → String
transaction_id t = t.id

abbrev or_null : Option String → Value
or_null none = null
or_null (some s) = str s

-- `dict(row)`
unfoldable pub row_fields : Route → Fields
row_fields route = field "id" (str route.id) (
    field "connection_id" (str route.connection_id) (
      field "destination" (str route.values.destination) (
        field "next_hop" (str route.values.next_hop) (
          field "interface" (or_null route.values.interface) (
            field "metric" (int (pos route.values.metric)) (
              field "description" (str route.values.description)
                (field "enabled" (bool route.values.enabled) end)))))))

-- UNIQUE static_route_destination
abbrev pub has_destination : String → String → Route → Bool
has_destination connection destination route =
    str_eq route.connection_id connection && str_eq route.values.destination destination

abbrev pub with_routes : List Route → RouteDb → RouteDb
with_routes routes db = record db { routes = routes }

-- `insert(static_routes).values(...)`
unfoldable pub insert_route : Route → Tx RouteDb (Unit {0})
unfolding find
insert_route route db =
    if is_some (find route_id route.id db.routes)
      || any (has_destination route.connection_id route.values.destination) db.routes
    then err conflict
    else ok (tt, with_routes (db.routes ++ route ∷ []) db)

-- `update(static_routes).where(static_routes.c.id == route_id).values(...)`
unfoldable pub update_route : Route → RouteValues → Tx RouteDb (Unit {0})
unfolding update
update_route route values db =
    if any
      (λ other.
        not (str_eq other.id route.id)
        && has_destination route.connection_id values.destination other)
      db.routes
    then err conflict
    else ok (
      tt,
      with_routes (update route_id route.id (λ r. record r { values = values }) db.routes) db,
    )

abbrev pub route_of : String → Tx RouteDb Route
route_of id db = or_raise not_found (find route_id id db.routes) db

-- `_owned_static_route`
abbrev pub owned_route : String → String → Tx RouteDb Route
owned_route connection id db = elim (find route_id id db.routes) [
  | none ↦ err not_found
  | some route ↦ if str_eq route.connection_id connection then ok (route, db) else err not_found
]

-- The two routes that a simulated device starts with
abbrev default_route : (destination next_hop interface description : String) → ℕ → Fields
default_route destination next_hop interface description metric =
    field "destination" (str destination) (
      field "next_hop" (str next_hop) (
        field "interface" (str interface) (
          field "metric" (int (pos metric))
            (field "description" (str description) (field "enabled" (bool true) end)))))

abbrev pub first_default : Fields
first_default =
    default_route "198.51.100.0/24" "192.0.2.1" "eth0" "Simulated documentation route" 10

abbrev pub second_default : Fields
second_default =
    default_route "2001:db8:2::/64" "2001:db8:1::1" "eth1" "Simulated IPv6 documentation route" 20

abbrev pub is_fake_profile : Fields → Bool
is_fake_profile profile = elim (get_or "client_type" (str "network") profile) [
  | str kind ↦ str_eq kind "fake"
  | _ ↦ false
]

abbrev pub not_fake : StoreError
not_fake = store_error_code "Static-route simulation requires a fake connection." 501

module _ (stored_profile : String → Outcome StoreError Fields) (uuid : String → Option String)
    (ip_network ip_address : String → Option (ℕ × String)) where
  abbrev pub insert_default : String → String → Fields → Tx RouteDb (Unit {0})
  insert_default connection id payload =
      lift (validate_static_route ip_network ip_address payload) >>= λ values.
      insert_route (record { id = id; connection_id = connection; values = values })

  -- The rest of `_initialize_static_routes`, where it is known whether the routes are there
  unfoldable pub seed : Drawn → String → Bool → Tx RouteDb (Unit {0})
  unfolding validate_static_route insert_route
  seed drawn connection true = pure tt
  seed drawn connection false = do
    puts (λ db. record db { initialized = db.initialized ++ connection ∷ [] })
    insert_default connection drawn.first first_default
    insert_default connection drawn.second second_default

  -- `_initialize_static_routes`
  unfoldable pub initialize : Drawn → String → Tx RouteDb (Unit {0})
  unfolding get seed
  initialize drawn connection = do
    profile ← lift (stored_profile connection)
    require (is_fake_profile profile) not_fake
    known ← gets (λ db. any (λ id. str_eq id connection) db.initialized)
    seed drawn connection known

  -- `_create_static_route_row`
  unfoldable pub create_row : Drawn → String → Fields → Tx RouteDb Route
  unfolding initialize validate_static_route insert_route find
  create_row drawn connection payload = do
    initialize drawn connection
    values ← lift (validate_static_route ip_network ip_address payload)
    insert_route (record { id = drawn.route; connection_id = connection; values = values })
    route_of drawn.route

  -- `_update_static_route_row`
  unfoldable pub update_row : Drawn → String → String → Fields → Tx RouteDb (Route × Route)
  unfolding initialize validate_static_route update_route find
  update_row drawn connection id payload = do
    initialize drawn connection
    before ← owned_route connection id
    values ← lift (validate_static_route ip_network ip_address payload)
    update_route before values
    after ← route_of id
    pure (before, after)

  -- `_delete_static_route_row`
  unfoldable pub delete_row : Drawn → String → String → Tx RouteDb Route
  unfolding initialize find remove
  delete_row drawn connection id = do
    initialize drawn connection
    before ← owned_route connection id
    puts (λ db. with_routes (remove route_id id db.routes) db)
    pure before

  abbrev of_connection : String → List Route → List Route
  of_connection connection [] = []
  of_connection connection (route ∷ routes) =
      let rest = of_connection connection routes in
      if str_eq route.connection_id connection then route ∷ rest else rest

  -- `list_static_routes`, up to the order by destination and key
  unfoldable pub list_static_routes :
      Drawn → String → RouteDb → Outcome StoreError (List Route) × RouteDb
  unfolding initialize transaction
  list_static_routes drawn connection =
      transaction do initialize drawn connection; gets (λ db. of_connection connection db.routes)

  unfoldable pub create_static_route :
      Drawn → String → Fields → RouteDb → Outcome StoreError Route × RouteDb
  unfolding create_row transaction
  create_static_route drawn connection payload = transaction (create_row drawn connection payload)

  unfoldable pub update_static_route :
      Drawn → String → String → Fields → RouteDb → Outcome StoreError Route × RouteDb
  unfolding update_row transaction
  update_static_route drawn connection id payload =
      transaction (update_row drawn connection id payload >>= λ rows. pure rows.1)

  unfoldable pub delete_static_route :
      Drawn → String → String → RouteDb → Outcome StoreError (Unit {0}) × RouteDb
  unfolding delete_row transaction
  delete_static_route drawn connection id =
      transaction (delete_row drawn connection id >>= λ before. pure tt)

  -- `_insert_transaction`
  unfoldable pub insert_transaction : Drawn → Fields → Tx RouteDb Transaction
  unfolding validate_transaction find
  insert_transaction drawn payload db =
      elim (validate_transaction uuid drawn.transaction drawn.correlation drawn.now payload) [
        | err e ↦ err e
        | ok row ↦
            if is_some (find transaction_id row.id db.transactions)
            then err conflict
            else ok (row, record db { transactions = db.transactions ++ row ∷ [] })
      ]

  -- `append_transaction`
  unfoldable pub append_transaction :
      Drawn → Fields → RouteDb → Outcome StoreError Transaction × RouteDb
  unfolding insert_transaction transaction
  append_transaction drawn payload = transaction (insert_transaction drawn payload)

  -- The fields that the audited operations add to the caller's
  abbrev pub succeeded : String → String → (before after : Value) → Fields
  succeeded connection id before after = field "resource_type" (str "static_route") (
      field "resource_id" (str id) (
        field "connection_id" (str connection) (
          field "outcome" (str "succeeded")
            (field "before_state" before (field "after_state" after end)))))

  unfoldable pub create_static_route_audited :
      Drawn → String → Fields → Fields → RouteDb → Outcome StoreError Route × RouteDb
  unfolding create_row insert_transaction transaction merge row_fields
  create_static_route_audited drawn connection payload audit = transaction do
    route ← create_row drawn connection payload
    row ←
        insert_transaction drawn
          (merge audit (succeeded connection route.id null (dict (row_fields route))))
    pure route

  unfoldable pub update_static_route_audited :
      Drawn → String → String → Fields → Fields → RouteDb → Outcome StoreError Route × RouteDb
  unfolding update_row insert_transaction transaction merge row_fields
  update_static_route_audited drawn connection id payload audit = transaction do
    rows ← update_row drawn connection id payload
    row ← insert_transaction drawn (
        merge audit (succeeded connection id (dict (row_fields rows.0)) (dict (row_fields rows.1))))
    pure rows.1

  unfoldable pub delete_static_route_audited :
      Drawn → String → String → Fields → RouteDb → Outcome StoreError (Unit {0}) × RouteDb
  unfolding delete_row insert_transaction transaction merge row_fields
  delete_static_route_audited drawn connection id audit = transaction do
    before ← delete_row drawn connection id
    row ←
        insert_transaction drawn
          (merge audit (succeeded connection id (dict (row_fields before)) null))
    pure tt
