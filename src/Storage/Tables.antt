-- ===== src/Storage/Tables.antt =====
-- Rows of a table by primary key: what `select`, `update`, `delete` and `insert` do where the
-- column `id` is compared.
use network_gateway_api.Prelude.{
  ◌≡◌, refl, Option, none, some, List, [], ◌∷◌, ◌++◌, String, str_eq, eq_iff, if◌then◌else◌, arith,
}
use mathlib.Core.Option

module _ {R : Type 0} (id_of : R → String) where
  -- `select(table).where(table.c.id == id)`, the first row
  unfoldable pub find : String → List R → Option R
  find id [] = none
  find id (row ∷ rows) = if str_eq (id_of row) id then some row else find id rows

  -- `update(table).where(table.c.id == id).values(...)`
  unfoldable pub update : String → (R → R) → List R → List R
  update id change [] = []
  update id change (row ∷ rows) =
      (if str_eq (id_of row) id then change row else row) ∷ update id change rows

  -- `delete(table).where(table.c.id == id)`
  unfoldable pub remove : String → List R → List R
  remove id [] = []
  remove id (row ∷ rows) =
      let rest = remove id rows in if str_eq (id_of row) id then rest else row ∷ rest

module _ {R : Type 0} (id_of : R → String) where
  pub find-remove :
      (id j : String) (rows : List R)
      → find id_of j (remove id_of id rows) ≡ (if str_eq id j then none else find id_of j rows)
  unfolding find remove
  find-remove id j [] = ground arith
  find-remove id j (row ∷ rows) =
      ground
        (arith, find-remove id j rows, eq_iff id j, eq_iff (id_of row) id, eq_iff (id_of row) j)

  -- A change that keeps the key is seen at its key, and nowhere else.
  pub find-update :
      (id j : String) (change : R → R)
      → ((row : R) → id_of (change row) ≡ id_of row)
      → (rows : List R)
      → find id_of j (update id_of id change rows)
        ≡ (if str_eq id j then Option.map change (find id_of j rows) else find id_of j rows)
  unfolding find update
  find-update id j change keeps [] = ground arith
  find-update id j change keeps (row ∷ rows) = ground (
    arith,
    find-update id j change keeps rows,
    keeps row,
    eq_iff id j,
    eq_iff (id_of row) id,
    eq_iff (id_of row) j,
  )

  pub find-append :
      (j : String) (rows : List R) (row : R)
      → find id_of j (rows ++ row ∷ []) ≡ elim (find id_of j rows) [
        | some found ↦ some found
        | none ↦ if str_eq (id_of row) j then some row else none
      ]
  unfolding find
  find-append j [] row = refl
  find-append j (r ∷ rows) row = ground (arith, find-append j rows row)
