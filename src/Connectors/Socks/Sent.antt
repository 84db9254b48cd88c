-- ===== src/Connectors/Socks/Sent.antt =====
-- What `_socks5` of app/dal/proxy/connectors.py has sent when it succeeds.
use network_gateway_api.Prelude.{
  ℕ, ◌+◌, ◌≡◌, refl, sym, ◌∙◌, ap, Bool, true, false, not, ◌&&◌, ◌||◌, Option, none, some, [], ◌∷◌,
  ◌++◌, append_assoc, append-nil, ltb, ◌==◌, Outcome, ok, err, length, Outcome-cases, Bool-cases,
  inl, inr, arith,
}
use network_gateway_api.Connectors.Checks.{Raised}
use network_gateway_api.Connectors.Stream.{
  Bytes, Wire, Io, pure, fail, send, receive_exact, exact_loop, ◌>>=◌,
}
use network_gateway_api.Connectors.Socks.{
  Destination, method_of, login_request, login_rejected, method_rejected, same_bytes, require,
  socks_login, bound_length, bound_size, check_reply, connect_request, socks5,
}

>>=-ok :
    {A B : Type 0} (m : Io A) (f : A → Io B) (w : Wire) {r : B × Wire}
    → (m >>= f) w ≡ ok r
    → (a : A) × (w' : Wire) × (m w ≡ ok (a, w')) × (f a w' ≡ ok r)
>>=-ok {A} {B} m f w {r} h = go (m w) refl
  where
    go :
        (o : Outcome Raised (A × Wire))
        → m w ≡ o
        → (a : A) × (w' : Wire) × (m w ≡ ok (a, w')) × (f a w' ≡ ok r)
    go (ok (a, w')) e = (a, w', e, rw (e, ◌>>=◌) at h)
    go (err e') e = let h' = rw (e, ◌>>=◌) at h in cc

-- A step that only reads
abbrev Reads : {A : Type 0} → Io A → Type 0
Reads {A} m = (w : Wire) (a : A) (w' : Wire) → m w ≡ ok (a, w') → w'.sent ≡ w.sent

receive_exact-Reads : (size : ℕ) → Reads (receive_exact size)
unfolding receive_exact
receive_exact-Reads size w bytes w' h = elim (Outcome-cases (exact_loop size size w.incoming)) [
  | inr (_, e) ↦ let h' = rw (e, receive_exact) at h in cc
  | inl (r, e) ↦
      let h' : ok (r.0, record { incoming = r.1; sent = w.sent }) ≡ ok (bytes, w') =
        rw (e, receive_exact) at h in
      let same : record { incoming = r.1; sent = w.sent } ≡ w' = ground arith in
      ap (λ x. x.sent) (sym same)
]

require-Reads : (b : Bool) (e : Raised) → Reads (require b e)
require-Reads true e w a w' h = let same : w ≡ w' = ground arith in ap (λ x. x.sent) (sym same)
require-Reads false e w a w' h = cc

pure-Reads : {A : Type 0} (x : A) → Reads (pure x)
pure-Reads x w a w' h = let same : w ≡ w' = ground arith in ap (λ x'. x'.sent) (sym same)

>>=-Reads :
    {A B : Type 0} (m : Io A) (f : A → Io B) → Reads m → ((a : A) → Reads (f a)) → Reads (m >>= f)
>>=-Reads m f hm hf w b w' h = let (a, w1, e, g) = >>=-ok m f w h in hf a w1 b w' g ∙ hm w a w1 e

fail-Reads : {A : Type 0} (e : Raised) → Reads {A = A} (fail e)
fail-Reads e w a w' h = cc

bound_length-Reads : (kind : ℕ) → Reads (bound_length kind)
unfolding bound_length
bound_length-Reads kind = elim (Bool-cases (kind == 1)) [
  | inl e ↦ rw (e, bound_length) (pure-Reads 4)
  | inr e ↦ elim (Bool-cases (kind == 4)) [
    | inl f ↦ rw (e, f, bound_length) (pure-Reads 16)
    | inr f ↦
        rw (e, f, bound_length) (>>=-Reads (receive_exact 1) _ (receive_exact-Reads 1) size-Reads)
  ]
]
  where
    size-Reads : (answer : Bytes) → Reads (bound_size answer)
    size-Reads [] = fail-Reads _
    size-Reads (size ∷ rest) = elim (Bool-cases (size == 0)) [
      | inl e ↦ rw (e, bound_size) (fail-Reads _)
      | inr e ↦ rw (e, bound_size) (pure-Reads size)
    ]

check_reply-Reads : (reply : Bytes) → Reads (check_reply reply)
unfolding check_reply
check_reply-Reads (version ∷ status ∷ reserved ∷ kind ∷ []) =
    >>=-Reads (require (version == 5 && reserved == 0 && (kind == 1 || kind == 3 || kind == 4)) _) _
      (require-Reads _ _)
      λ _. >>=-Reads (require (status == 0) _) _ (require-Reads _ _) λ _.
        >>=-Reads (bound_length kind) _ (bound_length-Reads kind) λ size.
          >>=-Reads (receive_exact (size + 2)) _ (receive_exact-Reads (size + 2)) λ _. pure-Reads tt
check_reply-Reads [] = fail-Reads _
check_reply-Reads (a ∷ []) = fail-Reads _
check_reply-Reads (a ∷ b ∷ []) = fail-Reads _
check_reply-Reads (a ∷ b ∷ c ∷ []) = fail-Reads _
check_reply-Reads (a ∷ b ∷ c ∷ d ∷ e ∷ rest) = fail-Reads _

-- The bytes of the login, if there is one
abbrev pub login_bytes : Option (Bytes × Bytes) → Bytes
login_bytes none = []
login_bytes (some (user, password)) = login_request user password

-- A step that sends these bytes if it succeeds
abbrev Sends : {A : Type 0} → Io A → Bytes → Type 0
Sends {A} m payload =
    (w : Wire) (a : A) (w' : Wire) → m w ≡ ok (a, w') → w'.sent ≡ w.sent ++ payload

send-Sends : (payload : Bytes) → Sends (send payload) payload
send-Sends payload w a w' h =
    let same : record { incoming = w.incoming; sent = w.sent ++ payload } ≡ w' = ground arith in
    ap (λ x. x.sent) (sym same)

Sends-then :
    {A B : Type 0} (m : Io A) (f : A → Io B) (first second : Bytes)
    → Sends m first
    → ((a : A) → Sends (f a) second)
    → Sends (m >>= f) (first ++ second)
Sends-then m f first second hm hf w b w' h =
    let (a, w1, e, g) = >>=-ok m f w h in
    hf a w1 b w' g ∙ rw (hm w a w1 e) (append_assoc w.sent first second)

then-Reads :
    {A B : Type 0} (m : Io A) (f : A → Io B) (payload : Bytes)
    → Sends m payload
    → ((a : A) → Reads (f a))
    → Sends (m >>= f) payload
then-Reads m f payload hm hf w b w' h =
    let (a, w1, e, g) = >>=-ok m f w h in hf a w1 b w' g ∙ hm w a w1 e

after-Reads :
    {A B : Type 0} (m : Io A) (f : A → Io B) (payload : Bytes)
    → Reads m
    → ((a : A) → Sends (f a) payload)
    → Sends (m >>= f) payload
after-Reads m f payload hm hf w b w' h =
    let (a, w1, e, g) = >>=-ok m f w h in hf a w1 b w' g ∙ ap (λ s. s ++ payload) (hm w a w1 e)

socks_login-Sends : (login : Option (Bytes × Bytes)) → Sends (socks_login login) (login_bytes login)
unfolding socks_login
socks_login-Sends none = λ w a w' h. pure-Reads tt w a w' h ∙ sym (append-nil w.sent)
socks_login-Sends (some (user, password)) =
    after-Reads (require (not (ltb 255 (length user) || ltb 255 (length password))) _) _ _
      (require-Reads _ _)
      λ _. then-Reads (send (login_request user password)) _ _ (send-Sends _) λ _.
        >>=-Reads (receive_exact 2) _ (receive_exact-Reads 2)
          λ answer. require-Reads (same_bytes answer (1 ∷ 0 ∷ [])) login_rejected

-- When the handshake succeeds, the proxy has got the greeting with the one method that the login
-- needs, the login if there is one, and the request for the destination, and nothing else.
pub socks5-Sends :
    (login : Option (Bytes × Bytes)) (destination : Destination) (port : ℕ) (wire wire' : Wire)
    → socks5 login destination port wire ≡ ok (tt, wire')
    → wire'.sent
      ≡ wire.sent
        ++ (5 ∷ 1 ∷ method_of login ∷ (login_bytes login ++ connect_request destination port))
unfolding socks5
socks5-Sends login destination port wire wire' h =
    let sends =
      Sends-then (send (5 ∷ 1 ∷ method_of login ∷ [])) _ (5 ∷ 1 ∷ method_of login ∷ [])
        (login_bytes login ++ connect_request destination port) (send-Sends _)
        λ _. after-Reads (receive_exact 2) _ _ (receive_exact-Reads 2) λ greeting.
          after-Reads (require (same_bytes greeting (5 ∷ method_of login ∷ [])) method_rejected) _ _
            (require-Reads _ _)
            λ _.
              Sends-then (socks_login login) _ (login_bytes login)
                (connect_request destination port) (socks_login-Sends login)
                λ _.
                  then-Reads (send (connect_request destination port)) _ _ (send-Sends _)
                    λ _. >>=-Reads (receive_exact 4) _ (receive_exact-Reads 4) check_reply-Reads in
    sends wire tt wire' h
