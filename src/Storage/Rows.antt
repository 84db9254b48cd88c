-- ===== src/Storage/Rows.antt =====
-- What an update and an insertion do to a property of all rows, and to the number of rows that
-- pass a test, in a table whose keys are distinct.
use mathlib.Core.Path.{subst}
use network_gateway_api.Prelude.{
  ℕ, ◌+◌, ◌≤◌, ◌≡◌, refl, ◌∙◌, Bool, true, false, none, some, List, [], ◌∷◌, ◌++◌, String, str_eq,
  eq_iff, arith, Bool-cases, str_eq_sym, inl, inr, All,
}
use network_gateway_api.Storage.Tables.{find, update, find-update, find-append}

module _ {R : Type 0} (id_of : R → String) where
  -- The primary key: no two rows have the same.
  abbrev pub IsKeyed : List R → Type 0
  IsKeyed [] = Unit
  IsKeyed (row ∷ rows) = (find id_of (id_of row) rows ≡ none) × IsKeyed rows

  pub update-missing :
      (id : String) (change : R → R) (rows : List R)
      → find id_of id rows ≡ none
      → update id_of id change rows ≡ rows
  unfolding find update
  update-missing id change [] h = refl
  update-missing id change (row ∷ rows) h = elim (Bool-cases (str_eq (id_of row) id)) [
    | inl e ↦ let h' = rw e at h in cc
    | inr e ↦ rw (e, update-missing id change rows (rw e at h))
  ]

  pub All-update :
      (P : R → Type 0) (id : String) (change : R → R) (rows : List R) (row : R)
      → IsKeyed rows
      → find id_of id rows ≡ some row
      → P (change row)
      → All P rows
      → All P (update id_of id change rows)
  unfolding find update
  All-update P id change [] row k h p ps = tt
  All-update P id change (r ∷ rows) row (fresh, k) h p (q, qs) =
      elim (Bool-cases (str_eq (id_of r) id)) [
        | inl e ↦
            let same : r ≡ row = ground arith in
            let gone : find id_of id rows ≡ none = rw (← (eq_iff (id_of r) id).0 e) fresh in
            rw (e, update-missing id change rows gone, same) (p, qs)
        | inr e ↦ rw e (q, All-update P id change rows row k (rw e at h) p qs)
      ]

  pub All-find :
      (P : R → Type 0) (id : String) (rows : List R) {row : R}
      → find id_of id rows ≡ some row
      → All P rows
      → P row
  unfolding find
  All-find P id [] h ps = cc
  All-find P id (r ∷ rows) {row} h (p, ps) = elim (Bool-cases (str_eq (id_of r) id)) [
    | inl e ↦ let same : r ≡ row = ground arith in subst P same p
    | inr e ↦ All-find P id rows (rw e at h) ps
  ]

  find-update-none :
      (id j : String) (change : R → R)
      → ((row : R) → id_of (change row) ≡ id_of row)
      → (rows : List R) → find id_of j rows ≡ none
      → find id_of j (update id_of id change rows) ≡ none
  find-update-none id j change keeps rows h =
      rw (find-update id_of id j change keeps rows, h) (ground arith)

  pub IsKeyed-update :
      (id : String) (change : R → R)
      → ((row : R) → id_of (change row) ≡ id_of row)
      → (rows : List R) → IsKeyed rows
      → IsKeyed (update id_of id change rows)
  unfolding update
  IsKeyed-update id change keeps [] k = tt
  IsKeyed-update id change keeps (row ∷ rows) (fresh, k) =
      elim (Bool-cases (str_eq (id_of row) id)) [
        | inl e ↦
            rw (e, keeps row)
              (
                find-update-none id (id_of row) change keeps rows fresh,
                IsKeyed-update id change keeps rows k,
              )
        | inr e ↦ rw e (
          find-update-none id (id_of row) change keeps rows fresh,
          IsKeyed-update id change keeps rows k,
        )
      ]

  pub IsKeyed-append :
      (rows : List R) (row : R)
      → IsKeyed rows
      → find id_of (id_of row) rows ≡ none
      → IsKeyed (rows ++ row ∷ [])
  unfolding find
  IsKeyed-append [] row k fresh = (refl, tt)
  IsKeyed-append (r ∷ rows) row (f, k) fresh = elim (Bool-cases (str_eq (id_of r) (id_of row))) [
    | inl e ↦ let e' = rw e at fresh in cc
    | inr e ↦ (
      find-append id_of (id_of r) rows row ∙ rw (f, str_eq_sym (id_of row) (id_of r) e),
      IsKeyed-append rows row k (rw e at fresh),
    )
  ]

abbrev pub bit : Bool → ℕ
bit true = 1
bit false = 0

pub bit-le : (b : Bool) → bit b ≤ 1
bit-le true = omega arith
bit-le false = omega arith

-- How many rows pass a test.
module _ {R : Type 0} (passes : R → Bool) where
  abbrev pub count_where : List R → ℕ
  count_where [] = 0
  count_where (row ∷ rows) = bit (passes row) + count_where rows

  pub count_where-append :
      (rows more : List R) → count_where (rows ++ more) ≡ count_where rows + count_where more
  count_where-append [] more = omega arith
  count_where-append (row ∷ rows) more = omega (arith, count_where-append rows more)

  pub count_where-update :
      (id_of : R → String) (id : String) (change : R → R) (rows : List R) {row : R}
      → IsKeyed id_of rows
      → find id_of id rows ≡ some row
      → count_where (update id_of id change rows) + bit (passes row)
        ≡ count_where rows + bit (passes (change row))
  unfolding find update
  count_where-update id_of id change [] k h = cc
  count_where-update id_of id change (r ∷ rows) {row} (fresh, k) h =
      elim (Bool-cases (str_eq (id_of r) id)) [
        | inl e ↦
            let same : r ≡ row = ground arith in
            let gone : find id_of id rows ≡ none = rw (← (eq_iff (id_of r) id).0 e) fresh in
            rw (e, update-missing id_of id change rows gone, same) (omega arith)
        | inr e ↦
            let ih = count_where-update id_of id change rows k (rw e at h) in rw e (omega arith)
      ]
