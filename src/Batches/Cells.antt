-- ===== src/Batches/Cells.antt =====
-- `_spreadsheet_cell` of app/bl/services/batches.py.
use Prim.Native.Char.{code}
use Prim.Native.String.{[], ◌∷◌}
use network_gateway_api.Prelude.{
  ℕ, ◌≡◌, ◌≢◌, ◌⊎◌, arith, refl, Bool, false, ◌||◌, String, ◌==◌, if◌then◌else◌, Bool-cases, inl,
  inr,
}
use network_gateway_api.Text.{append, lstrip}

abbrev starts_by : (ℕ → Bool) → String → Bool
starts_by p [] = false
starts_by p (c ∷ text) = p (code c)

-- `=`, `+`, `-`, `@`
abbrev is_formula_sign : ℕ → Bool
is_formula_sign c = c == 61 || c == 43 || c == 45 || c == 64

-- tab, carriage return, newline
abbrev is_control : ℕ → Bool
is_control c = c == 9 || c == 13 || c == 10

abbrev is_dangerous : String → Bool
is_dangerous text = starts_by is_formula_sign (lstrip text) || starts_by is_control text

-- `_spreadsheet_cell` of a text
unfoldable pub spreadsheet_cell : String → String
unfolding lstrip
spreadsheet_cell text = if is_dangerous text then "'" ∷ text else text

-- No character that a spreadsheet takes for the start of a formula
abbrev IsPlain : ℕ → Type 0
IsPlain c = (c ≢ b'=') × (c ≢ b'+') × (c ≢ b'-') × (c ≢ b'@')

-- No tab, carriage return or line feed
abbrev IsVisible : ℕ → Type 0
IsVisible c = (c ≢ b'\t') × (c ≢ b'\r') × (c ≢ b'\n')

abbrev Begins : (ℕ → Type 0) → String → Type 0
Begins P [] = Unit
Begins P (c ∷ text) = P (code c)

-- What comes first after spaces starts no formula, and the text does not begin with a control character.
pub record IsInert (text : String) : Type 0 where
  pub formula : Begins IsPlain (lstrip text)
  pub control : Begins IsVisible text

plain : (c : ℕ) → is_formula_sign c ≡ false → IsPlain c
plain c h = (λ e. ground arith, λ e. ground arith, λ e. ground arith, λ e. ground arith)

visible : (c : ℕ) → is_control c ≡ false → IsVisible c
visible c h = (λ e. ground arith, λ e. ground arith, λ e. ground arith)

Begins-starts_by :
    (p : ℕ → Bool) (P : ℕ → Type 0) (text : String)
    → ((c : ℕ) → p c ≡ false → P c)
    → starts_by p text ≡ false
    → Begins P text
Begins-starts_by p P [] every h = tt
Begins-starts_by p P (c ∷ text) every h = every (code c) h

quoted-IsInert : (text : String) → IsInert ("'" ∷ text)
unfolding lstrip
quoted-IsInert text = record { formula = plain 39 refl; control = visible 39 refl }

-- An exported cell does not begin with `=`, `+`, `-` or `@`, not even after spaces, nor with a tab, a
-- carriage return or a line feed; and it is the text itself or the text after an apostrophe.
pub spreadsheet_cell-safe :
    (text : String)
    → IsInert (spreadsheet_cell text)
      × ((spreadsheet_cell text ≡ text) ⊎ (spreadsheet_cell text ≡ append "'" text))
unfolding spreadsheet_cell
spreadsheet_cell-safe text = elim (Bool-cases (is_dangerous text)) [
  | inl e ↦ rw (e, spreadsheet_cell) (quoted-IsInert text, inr refl)
  | inr e ↦
      rw (e, spreadsheet_cell)
        (
          record {
            formula = Begins-starts_by is_formula_sign IsPlain (lstrip text) plain (ground arith);
            control = Begins-starts_by is_control IsVisible text visible (ground arith);
          },
          inl refl,
        )
]
