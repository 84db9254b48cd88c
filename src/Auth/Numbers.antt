-- ===== src/Auth/Numbers.antt =====
-- How Python compares the numbers of a JSON document: an int, a float or a bool, exactly.
use Prim.Native.Nat.{◌^◌}
use network_gateway_api.Prelude.{ℕ, ◌*◌, ◌+◌, ◌-◌, Bool, true, false, not, leb, if◌then◌else◌}
use network_gateway_api.Prelude.Int.{ℤ, pos, negsuc, Float, dyadic, infinite, nan}
use network_gateway_api.Value.{Value, bool, int, float}

abbrev int_leb : ℤ → ℤ → Bool
int_leb (pos a) (pos b) = leb a b
int_leb (pos a) (negsuc b) = false
int_leb (negsuc a) (pos b) = true
int_leb (negsuc a) (negsuc b) = leb b a

-- By a factor that is not 0
abbrev scaled : ℤ → ℕ → ℤ
scaled (pos m) factor = pos (m * factor)
scaled (negsuc m) factor = negsuc ((m + 1) * factor - 1)

-- `x <= y`; a comparison with `nan` is false.
abbrev pub float_leb : Float → Float → Bool
float_leb nan y = false
float_leb x nan = false
float_leb (infinite true) y = true
float_leb (infinite false) (infinite negative) = not negative
float_leb (infinite false) (dyadic n j) = false
float_leb (dyadic m k) (infinite negative) = not negative
float_leb (dyadic m k) (dyadic n j) = int_leb (scaled m (2 ^ j)) (scaled n (2 ^ k))

-- `x < y`
abbrev pub float_ltb : Float → Float → Bool
float_ltb nan y = false
float_ltb x nan = false
float_ltb x y = not (float_leb y x)

pub data Number : Type 0 where
  number : Float → Number
  no_number : Number

-- `isinstance(value, (int, float))`, which a bool is
abbrev pub as_number : Value → Number
as_number (bool b) = number (dyadic (pos (if b then 1 else 0)) 0)
as_number (int i) = number (dyadic i 0)
as_number (float x) = number x
as_number _ = no_number
