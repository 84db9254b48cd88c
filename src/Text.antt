-- ===== src/Text.antt =====
-- The text functions of Python that the gateway uses, over the code points of a text.
pub mod Laws
pub mod Split
use Prim.Native.Char.{Char, code}
use Prim.Native.String
use Prim.Native.String.{[], ◌∷◌}
use network_gateway_api.Prelude.{
  ℕ, zero, suc, ◌+◌, ◌-◌, ◌≡◌, refl, Bool, true, false, not, ◌&&◌, ◌||◌, Option, none, some, String,
  str_eq, ltb, leb, ◌==◌, if◌then◌else◌,
}

-- `len(text)`
abbrev pub count : String → ℕ
count [] = 0
count (c ∷ text) = suc (count text)

-- `text[:n]`
abbrev pub take : ℕ → String → String
take zero text = []
take (suc n) [] = []
take (suc n) (c ∷ text) = c ∷ take n text

-- `text + more`
abbrev pub append : String → String → String
append [] more = more
append (c ∷ text) more = c ∷ append text more

abbrev pub any_char : (ℕ → Bool) → String → Bool
any_char p [] = false
any_char p (c ∷ text) = p (code c) || any_char p text

abbrev pub all_chars : (ℕ → Bool) → String → Bool
all_chars p [] = true
all_chars p (c ∷ text) = p (code c) && all_chars p text

-- What follows a literal prefix, up to `fold` of its characters (the identity, or a case folding).
unfoldable pub after_prefix : (ℕ → ℕ) → String → String → Option String
after_prefix fold [] text = some text
after_prefix fold (p ∷ prefix) [] = none
after_prefix fold (p ∷ prefix) (c ∷ text) =
    if fold (code c) == fold (code p) then after_prefix fold prefix text else none

abbrev pub same : ℕ → ℕ
same c = c

-- `part in text`, up to `fold`
unfoldable pub has_part : (ℕ → ℕ) → String → String → Bool
unfolding after_prefix
has_part fold part [] = str_eq part ""
has_part fold part (c ∷ text) = elim (after_prefix fold part (c ∷ text)) [
  | some _ ↦ true
  | none ↦ has_part fold part text
]

-- Replace each match, from left to right. `match_at` gives the length of the match at the start of
-- a text; `skip` counts the characters of the last match that are still to be passed over.
unfoldable pub replace_from : (String → Option ℕ) → String → ℕ → String → String
replace_from match_at new skip [] = []
replace_from match_at new (suc skip) (c ∷ text) = replace_from match_at new skip text
replace_from match_at new zero (c ∷ text) = elim (match_at (c ∷ text)) [
  | none ↦ c ∷ replace_from match_at new 0 text
  | some size ↦ String.◌++◌ new (replace_from match_at new (size - 1) text)
]

abbrev pub literal_match : String → String → Option ℕ
literal_match old text = elim (after_prefix same old text) [
  | none ↦ none
  | some _ ↦ some (count old)
]

-- `text.replace(old, new)`, for a nonempty `old`
unfoldable pub replace : String → String → String → String
unfolding replace_from after_prefix
replace old new text = replace_from (literal_match old) new 0 text

replaced : replace "ab" "-" "xababa" ≡ "x--a"
unfolding replace
replaced = refl

-- The whitespace of `str.strip` and of `\s`.
abbrev pub is_space : ℕ → Bool
is_space c =
    (leb 9 c && leb c 13)
    || (leb 28 c && leb c 32)
    || c == 0x85
    || c == 0xa0
    || c == 0x1680
    || (leb 0x2000 c && leb c 0x200a)
    || c == 0x2028
    || c == 0x2029
    || c == 0x202f
    || c == 0x205f
    || c == 0x3000

-- `text.lstrip()`
unfoldable pub lstrip : String → String
lstrip [] = []
lstrip (c ∷ text) = if is_space (code c) then lstrip text else c ∷ text

-- `text.rstrip()`
unfoldable pub rstrip : String → String
rstrip [] = []
rstrip (c ∷ text) =
    let rest = rstrip text in if is_space (code c) && str_eq rest "" then [] else c ∷ rest

-- `text.strip()`
unfoldable pub strip : String → String
unfolding lstrip rstrip
strip text = rstrip (lstrip text)

abbrev is_letter : ℕ → Bool
is_letter c = (leb 65 c && leb c 90) || (leb 97 c && leb c 122)

-- `[A-Za-z0-9_]`
abbrev pub is_word : ℕ → Bool
is_word c = is_letter c || (leb 48 c && leb c 57) || c == 95

-- `re.fullmatch(r"[A-Za-z_][A-Za-z0-9_]*", text)`
abbrev pub is_name : String → Bool
is_name [] = false
is_name (c ∷ text) = (is_letter (code c) || code c == 95) && all_chars is_word text
