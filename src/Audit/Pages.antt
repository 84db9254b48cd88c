-- ===== src/Audit/Pages.antt =====
-- What a client that reads `list_transactions` page by page gets.
use mathlib.Core.List.Perm
use mathlib.Core.List.{Perm}
use Prim.Native.String.{[] as no_text, ◌∷◌ as ◌∷ₛ◌}
use network_gateway_api.Prelude.{
  ℕ, zero, suc, ◌+◌, ◌-◌, ◌*◌, ◌≤◌, ◌≡◌, ◌⊎◌, refl, sym, ap, ◌∙◌, Bool, true, false, Option, List,
  [], ◌∷◌, ◌++◌, String, str_eq, str_eq_sym, eq_iff, le→leb, Outcome, ok, err, Bool-cases, inl, inr,
  length, take, drop, arith,
}
use network_gateway_api.Prelude.Int.{pos}
use network_gateway_api.Value.{Value, Fields, int, dict}
use network_gateway_api.Storage.Errors.{StoreError}
use network_gateway_api.Audit.Fields.{Transaction}
use network_gateway_api.Audit.Timestamps.{text_le}
use network_gateway_api.Audit.Wanted.{IsFilter, IsWanted, matching-IsFilter}
use network_gateway_api.Audit.Listing.{
  precedes, place, newest_first, matching, conditions, Page, page_of, list_transactions,
}

text_le-total : (a b : String) → text_le a b ≡ false → text_le b a ≡ true
unfolding text_le
text_le-total no_text b h = cc
text_le-total (c ∷ₛ a) no_text h = refl
text_le-total (c ∷ₛ a) (d ∷ₛ b) h = ground (arith, text_le-total a b)

precedes-total : (a b : Transaction) → precedes a b ≡ false → precedes b a ≡ true
precedes-total a b h = elim (Bool-cases (str_eq a.timestamp_utc b.timestamp_utc)) [
  | inl e ↦
      let later = text_le-total b.id a.id (rw (e, precedes) at h) in
      rw
        (
          (eq_iff b.timestamp_utc a.timestamp_utc).1
              (sym ((eq_iff a.timestamp_utc b.timestamp_utc).0 e)),
          precedes,
        )
        later
  | inr e ↦
      let later = text_le-total b.timestamp_utc a.timestamp_utc (rw (e, precedes) at h) in
      rw (str_eq_sym b.timestamp_utc a.timestamp_utc e, precedes) later
]

abbrev items_of : Outcome StoreError Page → List Transaction
items_of (ok page) = page.items
items_of (err e) = []

drop-nil : (n : ℕ) → drop {A = Transaction} n [] ≡ []
drop-nil zero = refl
drop-nil (suc n) = refl

drop-drop : (m n : ℕ) (rows : List Transaction) → drop n (drop m rows) ≡ drop (m + n) rows
drop-drop zero n rows = ap (λ k. drop k rows) (omega arith)
drop-drop (suc m) n [] = drop-nil n ∙ sym (drop-nil (suc m + n))
drop-drop (suc m) n (row ∷ rows) = drop-drop m n rows ∙ ap (λ k. drop k (row ∷ rows)) (one_more m n)
  where
    one_more : (m n : ℕ) → suc (m + n) ≡ suc m + n
    one_more m n = omega arith

length-drop : (n : ℕ) (rows : List Transaction) → length (drop n rows) ≡ length rows - n
length-drop zero rows = omega arith
length-drop (suc n) [] = omega arith
length-drop (suc n) (row ∷ rows) = omega (arith, length-drop n rows)

take-append-drop : (n : ℕ) (rows : List Transaction) → take n rows ++ drop n rows ≡ rows
take-append-drop zero rows = refl
take-append-drop (suc n) [] = refl
take-append-drop (suc n) (row ∷ rows) = ap (λ r. row ∷ r) (take-append-drop n rows)

nil-of_length : (rows : List Transaction) → length rows ≤ 0 → [] ≡ rows
nil-of_length [] h = refl
nil-of_length (row ∷ rows) h = absurd (omega arith)

abbrev Ordered : List Transaction → Type 0
Ordered [] = Unit
Ordered (a ∷ []) = Unit
Ordered (a ∷ b ∷ rows) = (precedes a b ≡ true) × Ordered (b ∷ rows)

-- The first has a later time, or the same time and a key that is not smaller, in the order of texts.
abbrev pub IsNotOlder : Transaction → Transaction → Type 0
IsNotOlder a b =
    ((text_le b.timestamp_utc a.timestamp_utc ≡ true) × ¬ (a.timestamp_utc ≡ b.timestamp_utc))
    ⊎ ((a.timestamp_utc ≡ b.timestamp_utc) × (text_le b.id a.id ≡ true))

-- No row is older than the next.
abbrev pub IsNewestFirst : List Transaction → Type 0
IsNewestFirst [] = Unit
IsNewestFirst (a ∷ []) = Unit
IsNewestFirst (a ∷ b ∷ rows) = IsNotOlder a b × IsNewestFirst (b ∷ rows)

precedes-IsNotOlder : (a b : Transaction) → precedes a b ≡ true → IsNotOlder a b
precedes-IsNotOlder a b h = elim (Bool-cases (str_eq a.timestamp_utc b.timestamp_utc)) [
  | inl e ↦ inr ((eq_iff a.timestamp_utc b.timestamp_utc).0 e, rw (e, precedes) at h)
  | inr e ↦ inl (
    rw (e, precedes) at h,
    λ same.
        let s : str_eq a.timestamp_utc b.timestamp_utc ≡ true =
          (eq_iff a.timestamp_utc b.timestamp_utc).1 same in
        cc,
  )
]

Ordered-IsNewestFirst : (rows : List Transaction) → Ordered rows → IsNewestFirst rows
Ordered-IsNewestFirst [] h = tt
Ordered-IsNewestFirst (a ∷ []) h = tt
Ordered-IsNewestFirst (a ∷ b ∷ rows) (p, h) =
    (precedes-IsNotOlder a b p, Ordered-IsNewestFirst (b ∷ rows) h)

place-perm : (row : Transaction) (rows : List Transaction) → Perm (place row rows) (row ∷ rows)
unfolding place
place-perm row [] = Perm.rfl
place-perm row (other ∷ rows) = elim (Bool-cases (precedes row other)) [
  | inl e ↦ rw (e, place) Perm.rfl
  | inr e ↦
      rw (e, place) (Perm.trans (Perm.cons other (place-perm row rows)) (Perm.swap row other rows))
]

place-Ordered :
    (row : Transaction) (rows : List Transaction) → Ordered rows → Ordered (place row rows)
unfolding place
place-Ordered row [] h = tt
place-Ordered row (a ∷ []) h = elim (Bool-cases (precedes row a)) [
  | inl e ↦ rw (e, place) (e, tt)
  | inr e ↦ rw (e, place) (precedes-total row a e, tt)
]
place-Ordered row (a ∷ b ∷ rows) (p, h) = elim (Bool-cases (precedes row a)) [
  | inl e ↦ rw (e, place) (e, (p, h))
  | inr e ↦ elim (Bool-cases (precedes row b)) [
    | inl f ↦ rw (e, f, place) (precedes-total row a e, (f, h))
    | inr f ↦
        let rest = place-Ordered row (b ∷ rows) h in rw (e, f, place) (p, rw (f, place) at rest)
  ]
]

newest_first-perm : (rows : List Transaction) → Perm (newest_first rows) rows
unfolding newest_first
newest_first-perm [] = Perm.rfl
newest_first-perm (row ∷ rows) =
    Perm.trans (place-perm row (newest_first rows)) (Perm.cons row (newest_first-perm rows))

newest_first-Ordered : (rows : List Transaction) → Ordered (newest_first rows)
unfolding newest_first
newest_first-Ordered [] = tt
newest_first-Ordered (row ∷ rows) =
    place-Ordered row (newest_first rows) (newest_first-Ordered rows)

length-place :
    (row : Transaction) (rows : List Transaction) → length (place row rows) ≡ suc (length rows)
unfolding place
length-place row [] = refl
length-place row (other ∷ rows) = elim (Bool-cases (precedes row other)) [
  | inl e ↦ rw (e, place) refl
  | inr e ↦ rw (e, place) (ap (λ n. suc n) (length-place row rows))
]

length-newest_first : (rows : List Transaction) → length (newest_first rows) ≡ length rows
unfolding newest_first
length-newest_first [] = refl
length-newest_first (row ∷ rows) =
    length-place row (newest_first rows) ∙ ap (λ n. suc n) (length-newest_first rows)

abbrev ok_page : Page → Outcome StoreError Page
ok_page page = ok page

total-eq : {a b : Page} → ok_page a ≡ ok_page b → a.total ≡ b.total
total-eq {a} {b} h = let same : a ≡ b = ground arith in ap (λ p. p.total) same

module _ (uuid format_utc : String → Option String) (filters : Value) where
  -- The calls for one page after the other, of `limit` records each
  unfoldable pub read_pages : (limit offset rounds : ℕ) → List Transaction → List Transaction
  unfolding list_transactions
  read_pages limit offset zero rows = []
  read_pages limit offset (suc rounds) rows =
      items_of (list_transactions uuid format_utc filters (int (pos limit)) (int (pos offset)) rows)
      ++ read_pages limit (offset + limit) rounds rows

  module _ (fields : Fields) (wanted : List (Transaction → Bool)) (limit : ℕ)
      (rows : List Transaction) (given : filters ≡ dict fields)
      (valid : conditions uuid format_utc fields ≡ ok wanted) (positive : 1 ≤ limit)
      (bounded : limit ≤ 500) where
    list_transactions-page :
        (offset : ℕ)
        → list_transactions uuid format_utc filters (int (pos limit)) (int (pos offset)) rows
          ≡ ok (page_of wanted rows limit offset)
    unfolding list_transactions
    list_transactions-page offset =
        rw (given, le→leb 1 limit positive, le→leb limit 500 bounded, valid, list_transactions) refl

    read_pages-eq-drop :
        (rounds offset : ℕ)
        → length (drop offset (newest_first (matching wanted rows))) ≤ limit * rounds
        → read_pages limit offset rounds rows ≡ drop offset (newest_first (matching wanted rows))
    unfolding read_pages
    read_pages-eq-drop zero offset h =
        nil-of_length (drop offset (newest_first (matching wanted rows))) (omega arith)
    read_pages-eq-drop (suc rounds) offset h =
        let view = newest_first (matching wanted rows) in
        let left : drop limit (drop offset view) ≡ drop (offset + limit) view =
          drop-drop offset limit view in
        let grows : limit * suc rounds ≡ limit * rounds + limit = grind arith in
        let shorter : length (drop (offset + limit) view) ≤ limit * rounds =
          omega (arith, length-drop limit (drop offset view), ap length left, grows) in
        rw
          (
            list_transactions-page offset,
            read_pages-eq-drop rounds (offset + limit) shorter,
            ← left,
          )
          (take-append-drop limit (drop offset view))

    -- The pages of a listing, read one after the other from a table that does not change meanwhile,
    -- until their sizes reach the total that the first page names, are together the records that
    -- meet every filter that is set, each once and no others, with none older than the next; the
    -- total that a page names, wherever it starts, is their number. The filters and the size of the
    -- page are valid.
    pub read_pages-IsNewestFirst :
        (rounds : ℕ) (first : Page)
        → list_transactions uuid format_utc filters (int (pos limit)) (int (pos 0)) rows ≡ ok first
        → first.total ≤ limit * rounds
        → (kept : List Transaction) × IsFilter (IsWanted uuid format_utc fields) rows kept
          × Perm (read_pages limit 0 rounds rows) kept
          × IsNewestFirst (read_pages limit 0 rounds rows)
          × ((offset : ℕ)
              → (page : Page) × (list_transactions uuid format_utc filters
                    (int (pos limit))
                    (int (pos offset))
                    rows
                  ≡ ok page)
                × (page.total ≡ length (read_pages limit 0 rounds rows)))
    read_pages-IsNewestFirst rounds first h enough =
        let kept = matching wanted rows in
        let size = length-newest_first kept in
        let named : length kept ≡ first.total = total-eq (sym (list_transactions-page 0) ∙ h) in
        let fits : length (newest_first kept) ≤ limit * rounds = omega (arith, size, named) in
        rw (read_pages-eq-drop rounds 0 fits) (
          kept,
          matching-IsFilter uuid format_utc fields wanted rows valid,
          newest_first-perm kept,
          Ordered-IsNewestFirst (newest_first kept) (newest_first-Ordered kept),
          λ offset. (page_of wanted rows limit offset, list_transactions-page offset, sym size),
        )
