-- ===== src/Value/Laws.antt =====
-- The laws of a dict: what a key holds after each operation.
use network_gateway_api.Prelude.{
  ◌≡◌, refl, ap, ◌∙◌, Bool, Option, none, some, String, str_eq, eq_iff, if◌then◌else◌, arith,
  Bool-cases, inl, inr,
}
use network_gateway_api.Value.{Value, Fields, end, field, get, set, merge, keep_keys, pop}

pub get-set :
    (j k : String) (v : Value) (d : Fields)
    → get j (set k v d) ≡ (if str_eq k j then some v else get j d)
unfolding get set
get-set j k v end = refl
get-set j k v (field i w d) = ground (arith, eq_iff k j, eq_iff i k, eq_iff i j, get-set j k v d)

-- What `{**d, **e}` holds at a key, from what `d` holds there: the last entry of `e` wins.
abbrev pub overlay : String → Option Value → Fields → Option Value
overlay j found end = found
overlay j found (field k v e) = overlay j (if str_eq k j then some v else found) e

pub get-merge : (j : String) (d e : Fields) → get j (merge d e) ≡ overlay j (get j d) e
unfolding merge
get-merge j d end = refl
get-merge j d (field k v e) =
    get-merge j (set k v d) e ∙ ap (λ found. overlay j found e) (get-set j k v d)

pub get-keep_keys :
    (j : String) (keep : String → Bool) (d : Fields)
    → get j (keep_keys keep d) ≡ (if keep j then get j d else none)
unfolding get keep_keys
get-keep_keys j keep end = ground arith
get-keep_keys j keep (field k v d) = elim (Bool-cases (str_eq k j)) [
  | inl e ↦
      let same = (eq_iff k j).0 e in
      rw (same, (eq_iff j j).1 refl) (ground (arith, get-keep_keys j keep d, (eq_iff j j).1 refl))
  | inr e ↦ rw e (ground (arith, get-keep_keys j keep d))
]

pub get-pop : (j k : String) (d : Fields) → get j (pop k d) ≡ (if str_eq j k then none else get j d)
unfolding pop
get-pop j k d = rw get-keep_keys (ground arith)
