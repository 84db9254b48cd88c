-- ===== src/Value.antt =====
-- The dynamic values that the gateway passes about: what JSON has, as Python reads it. The keys of
-- a dict are texts, in the order in which they were put in.
pub mod Laws
use network_gateway_api.Prelude.{
  ℕ, ◌≡◌, refl, Bool, true, false, not, ◌&&◌, ◌||◌, Option, none, some, List, [], ◌∷◌, String,
  str_eq, if◌then◌else◌, any,
}
use network_gateway_api.Prelude.Int.{ℤ, Float, int_truthy, float_truthy}

mutual
  pub data Value : Type 0 where
    null : Value
    bool : Bool → Value
    int : ℤ → Value
    float : Float → Value
    str : String → Value
    list : Items → Value
    dict : Fields → Value

  pub data Fields : Type 0 where
    end : Fields
    field : String → Value → Fields → Fields

  pub data Items : Type 0 where
    nil : Items
    cons : Value → Items → Items

-- `key in names`
abbrev pub among : String → List String → Bool
among key names = any (λ name. str_eq name key) names

-- `d.get(key)`, with `none` where the key is missing
unfoldable pub get : String → Fields → Option Value
get key end = none
get key (field k v fs) = if str_eq k key then some v else get key fs

-- `d[key] = value`: a key keeps its place.
unfoldable pub set : String → Value → Fields → Fields
set key value end = field key value end
set key value (field k v fs) =
    if str_eq k key then field k value fs else field k v (set key value fs)

-- `{**d, **e}`
unfoldable pub merge : Fields → Fields → Fields
merge d end = d
merge d (field k v e) = merge (set k v d) e

-- `{k: v for k, v in d.items() if keep(k)}`
unfoldable pub keep_keys : (String → Bool) → Fields → Fields
keep_keys keep end = end
keep_keys keep (field k v fs) =
    let rest = keep_keys keep fs in if keep k then field k v rest else rest

-- `d.pop(key, None)`
unfoldable pub pop : String → Fields → Fields
unfolding keep_keys
pop key d = keep_keys (λ k. not (str_eq k key)) d

abbrev pub is_empty : String → Bool
is_empty text = str_eq text ""

-- `bool(value)`
unfoldable pub truthy : Value → Bool
truthy null = false
truthy (bool b) = b
truthy (int i) = int_truthy i
truthy (float x) = float_truthy x
truthy (str s) = not (is_empty s)
truthy (list nil) = false
truthy (list (cons _ _)) = true
truthy (dict end) = false
truthy (dict (field _ _ _)) = true

-- `bool(d.get(key))`
abbrev pub truthy_at : String → Fields → Bool
truthy_at key d = elim (get key d) [ none ↦ false | some v ↦ truthy v ]

-- `d.get(key, default)`
abbrev pub get_or : String → Value → Fields → Value
get_or key default d = elim (get key d) [ none ↦ default | some v ↦ v ]

-- `d.get(key)`, which is `None` where the key is missing
abbrev pub get_value : String → Fields → Value
get_value key d = get_or key null d

-- `key in d`
abbrev pub has : String → Fields → Bool
has key d = elim (get key d) [ none ↦ false | some _ ↦ true ]

-- `value is None`
abbrev pub is_null : Value → Bool
is_null null = true
is_null _ = false
