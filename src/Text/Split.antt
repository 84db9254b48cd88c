-- ===== src/Text/Split.antt =====
-- `str.split` of Python, with a separator of one character and with none.
use Prim.Native.Char.{Char, code}
use Prim.Native.String.{[], ◌∷◌}
use mathlib.Core.List.{[] as nilₗ, ◌∷◌ as ◌∷ₗ◌, List}
use network_gateway_api.Prelude.{ℕ, Bool, ◌==◌, String, if◌then◌else◌}
use network_gateway_api.Text.{is_space}

-- Put a character before the first piece.
abbrev onto_first : Char → List String → List String
onto_first c nilₗ = (c ∷ []) ∷ₗ nilₗ
onto_first c (piece ∷ₗ pieces) = (c ∷ piece) ∷ₗ pieces

-- `text.split(sep)`, where `is_sep` recognises the separator
unfoldable pub split : (ℕ → Bool) → String → List String
split is_sep [] = [] ∷ₗ nilₗ
split is_sep (c ∷ text) =
    let rest = split is_sep text in if is_sep (code c) then [] ∷ₗ rest else onto_first c rest

abbrev drop_empty : List String → List String
drop_empty nilₗ = nilₗ
drop_empty ([] ∷ₗ pieces) = drop_empty pieces
drop_empty ((c ∷ piece) ∷ₗ pieces) = (c ∷ piece) ∷ₗ drop_empty pieces

-- `text.split()`
abbrev pub words : String → List String
words text = drop_empty (split is_space text)

abbrev pub is_comma : ℕ → Bool
is_comma c = c == 44

abbrev pub is_dot : ℕ → Bool
is_dot c = c == 46
