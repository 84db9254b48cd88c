-- ===== src/Secrets/PublicFields.antt =====
-- `public_fields` and `credential_values` of app/dal/db/secrets.py.
use mathlib.Core.Option
use network_gateway_api.Prelude.{
  false, ◌≡◌, refl, ap, String, if◌then◌else◌, arith, Bool-cases, inl, inr, none, str_eq, eq_iff,
  [], ◌↔◌,
}
use network_gateway_api.Value.{
  Value, Items, Fields, null, bool, int, float, str, list, dict, nil, cons, end, field, get,
}
use network_gateway_api.Secrets.{
  is_secret, public_fields, public_items, public_dict, credential_values, credential_items,
  credential_fields,
}

-- No key of the value, at any depth, is a secret field.
unfoldable mutual
  pub IsPublic : Value → Type 0
  IsPublic (list items) = IsPublicItems items
  IsPublic (dict fields) = IsPublicDict fields
  IsPublic _ = Unit

  pub IsPublicItems : Items → Type 0
  IsPublicItems nil = Unit
  IsPublicItems (cons v items) = IsPublic v × IsPublicItems items

  pub IsPublicDict : Fields → Type 0
  IsPublicDict end = Unit
  IsPublicDict (field k v fields) = (is_secret k ≡ false) × IsPublic v × IsPublicDict fields

keep-IsPublicDict :
    (k : String) (v : Value) (rest : Fields)
    → IsPublic v
    → IsPublicDict rest
    → IsPublicDict (if is_secret k then rest else field k v rest)
unfolding IsPublic
keep-IsPublicDict k v rest p q = elim (Bool-cases (is_secret k)) [
  | inl e ↦ rw e q
  | inr e ↦ rw e (e, p, q)
]

mutual
  unfolding public_fields IsPublic

  IsPublic-fields : (v : Value) → IsPublic (public_fields v)
  IsPublic-fields null = tt
  IsPublic-fields (bool b) = tt
  IsPublic-fields (int i) = tt
  IsPublic-fields (float x) = tt
  IsPublic-fields (str s) = tt
  IsPublic-fields (list items) = IsPublic-items items
  IsPublic-fields (dict fields) = IsPublic-dict fields

  IsPublic-items : (items : Items) → IsPublicItems (public_items items)
  IsPublic-items nil = tt
  IsPublic-items (cons v items) = (IsPublic-fields v, IsPublic-items items)

  IsPublic-dict : (fields : Fields) → IsPublicDict (public_dict fields)
  IsPublic-dict end = tt
  IsPublic-dict (field k v fields) =
      keep-IsPublicDict k (public_fields v) (public_dict fields) (IsPublic-fields v)
        (IsPublic-dict fields)

-- Whatever the value, what `public_fields` leaves of it has no secret field at any depth.
pub public_fields-IsPublic : (v : Value) → IsPublic (public_fields v)
public_fields-IsPublic v = IsPublic-fields v

mutual
  unfolding public_fields IsPublic

  unchanged : (v : Value) → IsPublic v → public_fields v ≡ v
  unchanged null p = refl
  unchanged (bool b) p = refl
  unchanged (int i) p = refl
  unchanged (float x) p = refl
  unchanged (str s) p = refl
  unchanged (list items) p = ap list (unchanged_items items p)
  unchanged (dict fields) p = ap dict (unchanged_dict fields p)

  unchanged_items : (items : Items) → IsPublicItems items → public_items items ≡ items
  unchanged_items nil p = refl
  unchanged_items (cons v items) (p, q) = rw (unchanged v p, unchanged_items items q)

  unchanged_dict : (fields : Fields) → IsPublicDict fields → public_dict fields ≡ fields
  unchanged_dict end p = refl
  unchanged_dict (field k v fields) (e, p, q) = rw (e, unchanged v p, unchanged_dict fields q)

-- A value is left as it is exactly when it has no secret field at any depth.
pub public_fields-eq_iff : (v : Value) → (public_fields v ≡ v) ↔ IsPublic v
public_fields-eq_iff v = (λ e. rw e at (public_fields-IsPublic v), unchanged v)

mutual
  unfolding credential_values IsPublic

  none_in : (v : Value) → IsPublic v → credential_values v ≡ []
  none_in (list items) p = none_in_items items p
  none_in (dict fields) p = none_in_dict fields p
  none_in _ p = refl

  none_in_items : (items : Items) → IsPublicItems items → credential_items items ≡ []
  none_in_items nil p = refl
  none_in_items (cons v items) (p, q) = rw (none_in v p, none_in_items items q)

  none_in_dict : (fields : Fields) → IsPublicDict fields → credential_fields fields ≡ []
  none_in_dict end p = refl
  none_in_dict (field k v fields) (e, p, q) = rw (e, none_in v p, none_in_dict fields q)

-- No credential that `credential_values` would find is left in the public fields.
pub credential_values-public_fields : (v : Value) → credential_values (public_fields v) ≡ []
credential_values-public_fields v = none_in (public_fields v) (public_fields-IsPublic v)

-- At the top of a dict: a secret key is gone, and any other holds what `public_fields` makes of its
-- value.
pub get-public_dict :
    (j : String) (d : Fields)
    → get j (public_dict d) ≡ (if is_secret j then none else Option.map public_fields (get j d))
unfolding get public_fields
get-public_dict j end = ground arith
get-public_dict j (field k v d) = elim (Bool-cases (str_eq k j)) [
  | inl e ↦
      let same = (eq_iff k j).0 e in
      rw (same, (eq_iff j j).1 refl)
        (elim (Bool-cases (is_secret j)) [
          | inl s ↦ rw (s, get-public_dict j d, s)
          | inr s ↦ rw (s, (eq_iff j j).1 refl)
        ])
  | inr e ↦ elim (Bool-cases (is_secret k)) [
    | inl s ↦ rw (s, e, get-public_dict j d)
    | inr s ↦ rw (s, e, get-public_dict j d)
  ]
]
