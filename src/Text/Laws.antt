-- ===== src/Text/Laws.antt =====
-- Laws of the text functions.
use Prim.Native.String.{[], ◌∷◌}
use network_gateway_api.Prelude.{ℕ, zero, suc, ◌≤◌, String, arith}
use network_gateway_api.Text.{count, take}

pub count-take : (n : ℕ) (text : String) → count (take n text) ≤ n
count-take zero text = omega arith
count-take (suc n) [] = omega arith
count-take (suc n) (c ∷ text) = omega (arith, count-take n text)
