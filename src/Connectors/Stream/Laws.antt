-- ===== src/Connectors/Stream/Laws.antt =====
-- `receive_exact` of app/dal/proxy/connectors.py reads the same bytes however they are cut.
use network_gateway_api.Prelude.{
  ℕ, zero, suc, ◌-◌, ◌≤◌, ◌<◌, ◌≡◌, refl, sym, ◌∙◌, List, [], ◌∷◌, ◌++◌, leb, Outcome, ok, length,
  take, drop, length-append, arith, Bool-cases, inl, inr, leb→le, ap, append-nil,
}
use network_gateway_api.Connectors.Checks.{Raised}
use network_gateway_api.Connectors.Stream.{
  Bytes, Event, arrived, expired, broken, Wire, exact_loop, receive_exact,
}

-- All that will have arrived, if neither the deadline nor an error comes before.
abbrev pub flat : List Event → Bytes
flat [] = []
flat (arrived bytes ∷ events) = bytes ++ flat events
flat (_ ∷ events) = []

-- Only pieces that are not empty: an empty piece is the end of the stream.
abbrev pub ArePieces : List Event → Type 0
ArePieces [] = Unit
ArePieces (arrived (byte ∷ bytes) ∷ events) = ArePieces events
ArePieces _ = ⊥

take-append-le :
    (n : ℕ) (xs ys : Bytes) → length xs ≤ n → take n (xs ++ ys) ≡ xs ++ take (n - length xs) ys
take-append-le n [] ys h = ap (λ m. take m ys) (omega arith)
take-append-le zero (x ∷ xs) ys h = absurd (omega arith)
take-append-le (suc n) (x ∷ xs) ys h =
    let shift : suc n - suc (length xs) ≡ n - length xs = omega arith in
    rw (shift, take-append-le n xs ys (omega arith)) refl

drop-append-le :
    (n : ℕ) (xs ys : Bytes) → length xs ≤ n → drop n (xs ++ ys) ≡ drop (n - length xs) ys
drop-append-le n [] ys h = ap (λ m. drop m ys) (omega arith)
drop-append-le zero (x ∷ xs) ys h = absurd (omega arith)
drop-append-le (suc n) (x ∷ xs) ys h =
    let shift : suc n - suc (length xs) ≡ n - length xs = omega arith in
    rw (shift, drop-append-le n xs ys (omega arith)) refl

take-append-ge : (n : ℕ) (xs ys : Bytes) → n ≤ length xs → take n (xs ++ ys) ≡ take n xs
take-append-ge zero xs ys h = refl
take-append-ge (suc n) [] ys h = absurd (omega arith)
take-append-ge (suc n) (x ∷ xs) ys h = ap (λ zs. x ∷ zs) (take-append-ge n xs ys (omega arith))

drop-append-ge : (n : ℕ) (xs ys : Bytes) → n ≤ length xs → drop n (xs ++ ys) ≡ drop n xs ++ ys
drop-append-ge zero xs ys h = refl
drop-append-ge (suc n) [] ys h = absurd (omega arith)
drop-append-ge (suc n) (x ∷ xs) ys h = drop-append-ge n xs ys (omega arith)

length-take : (n : ℕ) (xs : Bytes) → n ≤ length xs → length (take n xs) ≡ n
length-take zero xs h = refl
length-take (suc n) [] h = omega arith
length-take (suc n) (x ∷ xs) h = ap suc (length-take n xs (omega arith))

ArePieces-drop :
    (n : ℕ) (xs : Bytes) (events : List Event)
    → n < length xs
    → ArePieces events
    → ArePieces (arrived (drop n xs) ∷ events)
ArePieces-drop n [] events h p = absurd (omega arith)
ArePieces-drop zero (x ∷ xs) events h p = p
ArePieces-drop (suc n) (x ∷ xs) events h p = ArePieces-drop n xs events (omega arith) p

-- The bytes that were asked for, and the stream after them
pub record Reads (size : ℕ) (events : List Event) (r : Outcome Raised (Bytes × List Event))
    : Type 0 where
  pub rest : List Event
  pub read : r ≡ ok (take size (flat events), rest)
  pub left : flat rest ≡ drop size (flat events)
  pub pieces : ArePieces rest

exact_loop-Reads :
    (fuel size : ℕ) (events : List Event)
    → ArePieces events
    → size ≤ fuel
    → size ≤ length (flat events)
    → Reads size events (exact_loop fuel size events)
unfolding exact_loop
exact_loop-Reads fuel zero events p enough there = record {
  rest = events;
  read = refl;
  left = refl;
  pieces = p;
}
exact_loop-Reads zero (suc size) events p enough there = absurd (omega arith)
exact_loop-Reads (suc fuel) (suc size) [] p enough there = absurd (omega arith)
exact_loop-Reads (suc fuel) (suc size) (expired ∷ events) p enough there = absurd p
exact_loop-Reads (suc fuel) (suc size) (broken ∷ events) p enough there = absurd p
exact_loop-Reads (suc fuel) (suc size) (arrived [] ∷ events) p enough there = absurd p
exact_loop-Reads (suc fuel) (suc size) (arrived (b ∷ bytes) ∷ events) p enough there =
    let total = length-append bytes (flat events) in
    elim (Bool-cases (leb (suc (length bytes)) (suc size))) [
      | inl e ↦
          let fits : length bytes ≤ size = omega (arith, leb→le _ _ e) in
          let ih =
            exact_loop-Reads fuel (size - length bytes) events p (omega arith) (omega arith) in
          record {
            rest = ih.rest;
            read = rw (e, exact_loop, ih.read, take-append-le size bytes (flat events) fits) refl;
            left = ih.left ∙ sym (drop-append-le size bytes (flat events) fits);
            pieces = ih.pieces;
          }
      | inr e ↦
          let more : size < length bytes = ground arith in
          let done : size - length (take size bytes) ≡ 0 =
            omega (arith, length-take size bytes (omega arith)) in
          record {
            rest = arrived (drop size bytes) ∷ events;
            read =
                rw
                  (
                    e,
                    exact_loop,
                    done,
                    append-nil (take size bytes),
                    take-append-ge size bytes (flat events) (omega arith),
                  )
                  refl;
            left = sym (drop-append-ge size bytes (flat events) (omega arith));
            pieces = ArePieces-drop size bytes events more p;
          }
    ]

-- However the network cuts the bytes into pieces, and whatever follows them, a read of `size`
-- bytes gives the first `size` bytes that arrive and leaves exactly the others in the stream.
pub receive_exact-cut :
    (size : ℕ) (wire : Wire)
    → ArePieces wire.incoming
    → size ≤ length (flat wire.incoming)
    → (rest : List Event) × (receive_exact size wire
        ≡ ok (take size (flat wire.incoming), record { incoming = rest; sent = wire.sent }))
      × (flat rest ≡ drop size (flat wire.incoming))
      × ArePieces rest
unfolding receive_exact
receive_exact-cut size wire p there =
    let r = exact_loop-Reads size size wire.incoming p (omega arith) there in
    (r.rest, rw (r.read, receive_exact) refl, r.left, r.pieces)
