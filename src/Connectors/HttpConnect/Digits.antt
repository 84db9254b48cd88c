-- ===== src/Connectors/HttpConnect/Digits.antt =====
-- Python's `str` and `int` of a number in decimal digits.
use network_gateway_api.Prelude.{
  ℕ, zero, suc, ◌+◌, ◌-◌, ◌*◌, ◌/◌, ◌%◌, ◌<◌, ◌≡◌, refl, Bool, true, [], ◌∷◌, ◌++◌, ltb, all, arith,
  Bool-cases, inl, inr, ltb→lt, ltb_false→le, length,
}
use network_gateway_api.Connectors.Stream.{Bytes}
use network_gateway_api.Connectors.HttpConnect.{digits_loop, digits, is_digit}

-- `int(text)` of digits, after those that stand for `found`
unfoldable pub number_from : ℕ → Bytes → ℕ
number_from found [] = found
number_from found (b ∷ bytes) = number_from (found * 10 + (b - 48)) bytes

number_from-append :
    (found : ℕ) (xs ys : Bytes)
    → number_from found (xs ++ ys) ≡ number_from (number_from found xs) ys
unfolding number_from
number_from-append found [] ys = refl
number_from-append found (x ∷ xs) ys = number_from-append (found * 10 + (x - 48)) xs ys

number_from-digits_loop : (fuel n : ℕ) → n < fuel → number_from 0 (digits_loop fuel n) ≡ n
unfolding number_from digits_loop
number_from-digits_loop zero n h = elim h [ ]
number_from-digits_loop (suc fuel) n h = elim (Bool-cases (ltb n 10)) [
  | inl e ↦ rw e (omega arith)
  | inr e ↦
      let big = ltb_false→le n 10 e in
      rw
        (
          e,
          number_from-append 0 (digits_loop fuel (n / 10)) ((48 + n % 10) ∷ []),
          number_from-digits_loop fuel (n / 10) (omega arith),
        )
        (omega arith)
]

all-append :
    (p : ℕ → Bool) (xs ys : Bytes) → all p xs ≡ true → all p ys ≡ true → all p (xs ++ ys) ≡ true
all-append p [] ys h k = k
all-append p (x ∷ xs) ys h k = ground (arith, all-append p xs ys)

digits_loop-digits : (fuel n : ℕ) → all is_digit (digits_loop fuel n) ≡ true
unfolding digits_loop
digits_loop-digits zero n = refl
digits_loop-digits (suc fuel) n = elim (Bool-cases (ltb n 10)) [
  | inl e ↦ let small = ltb→lt n 10 e in rw e (ground arith)
  | inr e ↦ rw e (
      all-append is_digit (digits_loop fuel (n / 10)) ((48 + n % 10) ∷ [])
        (digits_loop-digits fuel (n / 10)) (ground arith))
]

pub number_from-digits : (n : ℕ) → number_from 0 (digits n) ≡ n
unfolding digits
number_from-digits n = number_from-digits_loop (suc n) n (omega arith)

pub all-digits : (n : ℕ) → all is_digit (digits n) ≡ true
unfolding digits
all-digits n = digits_loop-digits (suc n) n

length-tail : (x : ℕ) (xs : Bytes) → 0 < length (xs ++ x ∷ [])
length-tail x [] = omega arith
length-tail x (y ∷ ys) = omega arith

pub digits_loop-nonempty : (fuel n : ℕ) → 0 < length (digits_loop (suc fuel) n)
unfolding digits_loop
digits_loop-nonempty fuel n = elim (Bool-cases (ltb n 10)) [
  | inl e ↦ rw e (omega arith)
  | inr e ↦ rw e (length-tail (48 + n % 10) (digits_loop fuel (n / 10)))
]
