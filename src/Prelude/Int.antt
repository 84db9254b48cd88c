-- ===== src/Prelude/Int.antt =====
-- Python's `int` and `float` values, as far as the gateway compares them.
use Prim.Native.Nat.{ℕ, ◌*◌, ◌^◌}
use mathlib.Core.Bool.{Bool, true, false, not, ◌&&◌}
use network_gateway_api.Prelude.Tests.{leb}

-- `negsuc n` is -(n + 1).
pub data ℤ : Type 0 where
  pos : ℕ → ℤ
  negsuc : ℕ → ℤ

-- A finite float is an integer over a power of two: `dyadic m k` is m / 2 ^ k.
pub data Float : Type 0 where
  dyadic : ℤ → ℕ → Float
  infinite : (negative : Bool) → Float
  nan : Float

-- `lo <= value <= hi` for an int and for a float.
abbrev pub int_between : ℕ → ℕ → ℤ → Bool
int_between lo hi (pos n) = leb lo n && leb n hi
int_between lo hi (negsuc n) = false

abbrev pub float_between : ℕ → ℕ → Float → Bool
float_between lo hi (dyadic (pos m) k) = leb (lo * 2 ^ k) m && leb m (hi * 2 ^ k)
float_between lo hi _ = false

-- `math.isfinite(value) and not value < 0`
abbrev pub float_nonneg : Float → Bool
float_nonneg (dyadic (pos m) k) = true
float_nonneg _ = false

-- `bool(value)`: only zero is false.
abbrev pub int_truthy : ℤ → Bool
int_truthy (pos n) = not (leb n 0)
int_truthy (negsuc n) = true

abbrev pub float_truthy : Float → Bool
float_truthy (dyadic m k) = int_truthy m
float_truthy _ = true
