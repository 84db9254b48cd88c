-- ===== src/StaticRoutes/Logged.antt =====
-- No change of a static route in app/dal/db/store.py succeeds without its audit record.
use network_gateway_api.Prelude.{
  ℕ, ◌≡◌, refl, ◌∙◌, Option, [], ◌∷◌, ◌++◌, String, Outcome, ok, err, Bool-cases, Outcome-cases,
  inl, inr, is_some, arith,
}
use network_gateway_api.Value.{Fields, null, dict, merge}
use network_gateway_api.Storage.Errors.{StoreError}
use network_gateway_api.Storage.Tables.{find}
use network_gateway_api.Storage.Transaction.{Tx, pure, transaction, ◌>>=◌}
use network_gateway_api.Storage.Post.{Post, transaction-err}
use network_gateway_api.Audit.Fields.{Transaction, validate_transaction}
use network_gateway_api.StaticRoutes.Operations.{
  Route, RouteDb, Drawn, transaction_id, create_row, update_row, delete_row, insert_transaction,
  succeeded, row_fields, create_static_route_audited, update_static_route_audited,
  delete_static_route_audited,
}
use network_gateway_api.StaticRoutes.Audited.{
  KeepsLog, KeepsLog-create_row, KeepsLog-update_row, KeepsLog-delete_row,
}

abbrev ok_of : {B : Type 0} → B → Outcome StoreError B
ok_of b = ok b

module _ (stored_profile : String → Outcome StoreError Fields) (uuid : String → Option String)
    (ip_network ip_address : String → Option (ℕ × String)) (drawn : Drawn) where
  -- The record that stands after the others, and the payload from which it was made
  pub record IsLogged (payload : Fields) (before after : RouteDb) : Type 0 where
    pub row : Transaction
    pub validated :
        validate_transaction uuid drawn.transaction drawn.correlation drawn.now payload ≡ ok row
    pub appended : after.transactions ≡ before.transactions ++ row ∷ []

  pub insert_transaction-IsLogged :
      (payload : Fields) (db db' : RouteDb) (row : Transaction)
      → insert_transaction stored_profile uuid ip_network ip_address drawn payload db
        ≡ ok (row, db')
      → IsLogged payload db db'
  unfolding insert_transaction
  insert_transaction-IsLogged payload db db' row h =
      elim (Outcome-cases
        (validate_transaction uuid drawn.transaction drawn.correlation drawn.now payload)) [
          | inr (_, e) ↦ let h' = rw (e, insert_transaction) at h in cc
          | inl (made, e) ↦
              elim (Bool-cases (is_some (find transaction_id made.id db.transactions))) [
                | inl f ↦ let h' = rw (e, f, insert_transaction) at h in cc
                | inr f ↦
                    let h' : ok (made, record db { transactions = db.transactions ++ made ∷ [] })
                        ≡ ok (row, db') =
                      rw (e, f, insert_transaction) at h in
                    let same : record db { transactions = db.transactions ++ made ∷ [] } ≡ db' =
                      ground arith in
                    rw (← same) (record { row = made; validated = e; appended = refl })
              ]
        ]

  insert_transaction-routes :
      (payload : Fields) (db db' : RouteDb) (row : Transaction)
      → insert_transaction stored_profile uuid ip_network ip_address drawn payload db
        ≡ ok (row, db')
      → db'.routes ≡ db.routes
  unfolding insert_transaction
  insert_transaction-routes payload db db' row h =
      elim (Outcome-cases
        (validate_transaction uuid drawn.transaction drawn.correlation drawn.now payload)) [
          | inr (_, e) ↦ let h' = rw (e, insert_transaction) at h in cc
          | inl (made, e) ↦
              elim (Bool-cases (is_some (find transaction_id made.id db.transactions))) [
                | inl f ↦ let h' = rw (e, f, insert_transaction) at h in cc
                | inr f ↦
                    let h' : ok (made, record db { transactions = db.transactions ++ made ∷ [] })
                        ≡ ok (row, db') =
                      rw (e, f, insert_transaction) at h in
                    let same : record db { transactions = db.transactions ++ made ∷ [] } ≡ db' =
                      ground arith in
                    rw (← same) refl
              ]
        ]

  -- A block that ends with the insertion of a record
  abbrev pub logged : {A B : Type 0} → Tx RouteDb A → (A → Fields) → (A → B) → Tx RouteDb B
  logged m payload_of result db =
      (m >>= λ a.
      insert_transaction stored_profile uuid ip_network ip_address drawn (payload_of a) >>= λ row.
      pure (result a))
        db

  pub logged-IsLogged :
      {A B : Type 0} (m : Tx RouteDb A) (payload_of : A → Fields) (result : A → B)
      → KeepsLog m
      → (db : RouteDb) (b : B) → (transaction (logged m payload_of result) db).0 ≡ ok b
      → (a : A) × (result a ≡ b)
        × IsLogged (payload_of a) db (transaction (logged m payload_of result) db).1
        × (middle : RouteDb) × (m db ≡ ok (a, middle))
        × ((transaction (logged m payload_of result) db).1.routes ≡ middle.routes)
  unfolding transaction
  logged-IsLogged {A} {B} m payload_of result keeps db b h = go (m db) refl (keeps db)
    where
      go :
          (r : Outcome StoreError (A × RouteDb))
          → m db ≡ r
          → Post (λ _ db'. db'.transactions ≡ db.transactions) r
          → (a : A) × (result a ≡ b)
            × IsLogged (payload_of a) db (transaction (logged m payload_of result) db).1
            × (middle : RouteDb) × (m db ≡ ok (a, middle))
            × ((transaction (logged m payload_of result) db).1.routes ≡ middle.routes)
      go (err e) eq q = let h' = rw (eq, ◌>>=◌) at h in cc
      go (ok (a, db')) eq q =
          elim (Outcome-cases (
            insert_transaction stored_profile uuid ip_network ip_address drawn (payload_of a)
              db')) [
                | inr (_, f) ↦ let h' = rw (eq, ◌>>=◌, f) at h in cc
                | inl ((row, db''), f) ↦
                    let h' : ok_of (result a) ≡ ok_of b = rw (eq, ◌>>=◌, f) at h in
                    let l = insert_transaction-IsLogged (payload_of a) db' db'' row f in
                    (
                      a,
                      ground arith,
                      rw (eq, ◌>>=◌, f)
                          (record {
                            row = l.row;
                            validated = l.validated;
                            appended = l.appended ∙ rw q refl;
                          }),
                      db',
                      eq,
                      rw (eq, ◌>>=◌, f) (insert_transaction-routes (payload_of a) db' db'' row f),
                    )
              ]

  -- A result comes with its audit record, and an error with the tables as they were.
  abbrev pub IsAtomic :
      {A B : Type 0} → (A → Fields) → (A → B) → RouteDb → Outcome StoreError B × RouteDb → Type 0
  IsAtomic {A} payload_of result db (ok b, db') =
      (a : A) × (result a ≡ b) × IsLogged (payload_of a) db db'
  IsAtomic payload_of result db (err e, db') = db' ≡ db

  logged-IsAtomic :
      {A B : Type 0} (m : Tx RouteDb A) (payload_of : A → Fields) (result : A → B)
      → KeepsLog m
      → (db : RouteDb) → IsAtomic payload_of result db (transaction (logged m payload_of result) db)
  logged-IsAtomic {A} {B} m payload_of result keeps db =
      go (transaction (logged m payload_of result) db)
        (λ b h.
          let (a, same, recorded, _, _, _) = logged-IsLogged m payload_of result keeps db b h in
          (a, same, recorded))
        (λ e. transaction-err (logged m payload_of result) db)
    where
      go :
          (r : Outcome StoreError B × RouteDb)
          → ((b : B) → r.0 ≡ ok b → (a : A) × (result a ≡ b) × IsLogged (payload_of a) db r.1)
          → ((e : StoreError) → r.0 ≡ err e → r.1 ≡ db)
          → IsAtomic payload_of result db r
      go (ok b, db') f g = f b refl
      go (err e, db') f g = g e refl

  -- What the audited operations record
  abbrev pub created : String → Fields → Route → Fields
  created connection audit route = merge audit (
      succeeded stored_profile uuid ip_network ip_address connection route.id null
        (dict (row_fields route)))

  abbrev pub updated : String → String → Fields → Route × Route → Fields
  updated connection id audit rows = merge audit (
      succeeded stored_profile uuid ip_network ip_address connection id (dict (row_fields rows.0))
        (dict (row_fields rows.1)))

  abbrev pub deleted : String → String → Fields → Route → Fields
  deleted connection id audit before = merge audit (
      succeeded stored_profile uuid ip_network ip_address connection id (dict (row_fields before))
        null)

  pub create_static_route_audited-IsAtomic :
      (connection : String) (payload audit : Fields) (db : RouteDb)
      → IsAtomic
          (created connection audit)
          (λ route. route)
          db
          (create_static_route_audited stored_profile uuid ip_network ip_address drawn connection
            payload audit db)
  unfolding create_static_route_audited
  create_static_route_audited-IsAtomic connection payload audit db =
      logged-IsAtomic
        (create_row stored_profile uuid ip_network ip_address drawn connection payload)
        (created connection audit) (λ route. route)
        (KeepsLog-create_row stored_profile uuid ip_network ip_address drawn connection payload) db

  pub update_static_route_audited-IsAtomic :
      (connection id : String) (payload audit : Fields) (db : RouteDb)
      → IsAtomic
          (updated connection id audit)
          (λ rows. rows.1)
          db
          (update_static_route_audited stored_profile uuid ip_network ip_address drawn connection id
            payload audit db)
  unfolding update_static_route_audited
  update_static_route_audited-IsAtomic connection id payload audit db =
      logged-IsAtomic
        (update_row stored_profile uuid ip_network ip_address drawn connection id payload)
        (updated connection id audit) (λ rows. rows.1)
        (KeepsLog-update_row stored_profile uuid ip_network ip_address drawn connection id payload)
        db

  pub delete_static_route_audited-IsAtomic :
      (connection id : String) (audit : Fields) (db : RouteDb)
      → IsAtomic
          (deleted connection id audit)
          (λ before. tt)
          db
          (delete_static_route_audited stored_profile uuid ip_network ip_address drawn connection id
            audit db)
  unfolding delete_static_route_audited
  delete_static_route_audited-IsAtomic connection id audit db =
      logged-IsAtomic (delete_row stored_profile uuid ip_network ip_address drawn connection id)
        (deleted connection id audit) (λ before. tt)
        (KeepsLog-delete_row stored_profile uuid ip_network ip_address drawn connection id) db
