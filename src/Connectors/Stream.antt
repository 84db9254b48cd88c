-- ===== src/Connectors/Stream.antt =====
-- `receive_exact`, `receive_until` and `send` of app/dal/proxy/connectors.py, over a stream whose
-- bytes arrive in pieces.
pub mod Laws
use network_gateway_api.Prelude.{
  String, ℕ, zero, suc, ◌+◌, ◌-◌, ◌≤◌, ◌≡◌, refl, Bool, true, false, not, ◌&&◌, ◌||◌, List, [], ◌∷◌,
  ◌++◌, ltb, leb, ◌==◌, if◌then◌else◌, Outcome, ok, err, length, take, drop,
}
use network_gateway_api.Connectors.Checks.{Raised, connector_error, os_error}

-- A byte is a number below 256.
abbrev pub Bytes : Type 0
Bytes = List ℕ

-- What the next `recv` meets: bytes that have arrived, the deadline, or an error of the socket.
-- After the last event the peer has closed.
pub data Event : Type 0 where
  arrived : Bytes → Event
  expired : Event
  broken : Event

pub record Wire : Type 0 where
  pub incoming : List Event
  pub sent : Bytes

abbrev pub timed_out : Raised
timed_out = connector_error "timeout" "The overall connection-test deadline expired."

abbrev pub protocol_error : String → Raised
protocol_error detail = connector_error "protocol" detail

-- `stream.recv(size)`, after the deadline was asked
abbrev pub recv : ℕ → List Event → Outcome Raised (Bytes × List Event)
recv size [] = ok ([], [])
recv size (expired ∷ events) = err timed_out
recv size (broken ∷ events) = err os_error
recv size (arrived bytes ∷ events) =
    if leb (length bytes) size
    then ok (bytes, events)
    else ok (take size bytes, arrived (drop size bytes) ∷ events)

abbrev pub closed_early : Raised
closed_early = protocol_error "The peer closed before completing the protocol handshake."

-- The loop of `receive_exact`, that has `size` bytes still to come. A round reads a byte at least,
-- so that `size` rounds are enough; more are never asked for.
unfoldable pub exact_loop : ℕ → ℕ → List Event → Outcome Raised (Bytes × List Event)
exact_loop fuel zero events = ok ([], events)
exact_loop zero (suc size) events = err closed_early
exact_loop (suc fuel) (suc size) events = elim (recv (suc size) events) [
  | err e ↦ err e
  | ok ([], rest) ↦ err closed_early
  | ok (byte ∷ bytes, rest) ↦ elim (exact_loop fuel (size - length bytes) rest) [
    | err e ↦ err e
    | ok (more, rest') ↦ ok (byte ∷ bytes ++ more, rest')
  ]
]

-- A computation over the wire, which may raise
abbrev pub Io : Type 0 → Type 0
Io A = Wire → Outcome Raised (A × Wire)

-- `receive_exact`
unfoldable pub receive_exact : ℕ → Io Bytes
unfolding exact_loop
receive_exact size wire = elim (exact_loop size size wire.incoming) [
  | err e ↦ err e
  | ok (bytes, rest) ↦ ok (bytes, record { incoming = rest; sent = wire.sent })
]

-- `send`
abbrev pub send : Bytes → Io (Unit {0})
send payload wire = ok (tt, record { incoming = wire.incoming; sent = wire.sent ++ payload })

module _ {A : Type 0} where
  abbrev pub pure : A → Io A
  pure a wire = ok (a, wire)

  abbrev pub fail : Raised → Io A
  fail e wire = err e

module _ {A B : Type 0} where
  infixl 5 ◌>>=◌
  abbrev pub ◌>>=◌ : Io A → (A → Io B) → Io B
  ◌>>=◌ m f wire = elim (m wire) [ ok (a, wire') ↦ f a wire' | err e ↦ err e ]

module _ {B : Type 0} where
  infixl 5 ◌>>◌
  abbrev pub ◌>>◌ : Io (Unit {0}) → Io B → Io B
  m >> k = m >>= λ _. k

-- `data.endswith(marker)`, where the data stand in reverse order
abbrev pub starts_with : Bytes → Bytes → Bool
starts_with [] data_bytes = true
starts_with (m ∷ marker) [] = false
starts_with (m ∷ marker) (b ∷ bytes) = m == b && starts_with marker bytes

-- The loop of `receive_until`: `room` bytes may still come; the data and the marker stand in
-- reverse order.
unfoldable pub until_loop : Bytes → ℕ → Bytes → Io Bytes
unfolding receive_exact
until_loop marker zero found wire =
    if starts_with marker found
    then ok (found, wire)
    else err (protocol_error "The protocol handshake exceeded the allowed response size.")
until_loop marker (suc room) found wire =
    if starts_with marker found then ok (found, wire) else elim (receive_exact 1 wire) [
      | err e ↦ err e
      | ok (bytes, wire') ↦ until_loop marker room (bytes ++ found) wire'
    ]

abbrev onto : Bytes → Bytes → Bytes
onto [] acc = acc
onto (b ∷ bytes) acc = onto bytes (b ∷ acc)

abbrev pub reversed : Bytes → Bytes
reversed bytes = onto bytes []

-- `receive_until`
unfoldable pub receive_until : Bytes → ℕ → Io Bytes
unfolding until_loop
receive_until marker limit wire = elim (until_loop (reversed marker) limit [] wire) [
  | err e ↦ err e
  | ok (found, wire') ↦ ok (reversed found, wire')
]
