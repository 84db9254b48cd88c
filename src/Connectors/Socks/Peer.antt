-- ===== src/Connectors/Socks/Peer.antt =====
-- How `Socks5Peer.handle` of demo/emulators/proxy_protocols.py reads a request.
use network_gateway_api.Prelude.{
  ℕ, ◌+◌, ◌*◌, ◌/◌, ◌%◌, ◌≤◌, ◌≡◌, refl, ap, true, ◌&&◌, Option, none, some, [], ◌∷◌, ◌++◌, leb,
  ◌==◌, if◌then◌else◌, length, take, drop, arith, length-append, le→leb,
}
use network_gateway_api.Connectors.Stream.{Bytes}
use network_gateway_api.Connectors.Socks.{
  Destination, ipv4, ipv6, hostname, port_bytes, connect_request,
}

-- `_exact` on the bytes that have come
unfoldable pub exact : ℕ → Bytes → Option (Bytes × Bytes)
exact size bytes = if leb size (length bytes) then some (take size bytes, drop size bytes) else none

-- The branches on the kind of the address
unfoldable pub address_of : ℕ → Bytes → Option (Destination × Bytes)
unfolding exact
address_of kind bytes =
    if kind == 1
    then elim (exact 4 bytes) [ none ↦ none | some (host, rest) ↦ some (ipv4 host, rest) ]
    else if kind == 4
    then elim (exact 16 bytes) [ none ↦ none | some (host, rest) ↦ some (ipv6 host, rest) ]
    else if kind == 3
    then elim bytes [
      | [] ↦ none
      | size ∷ more ↦ elim (exact size more) [
        | none ↦ none
        | some (host, rest) ↦ some (hostname host, rest)
      ]
    ]
    else none

-- `int.from_bytes(_exact(stream, 2), "big")`, with nothing after it
abbrev pub port_of : Bytes → Option ℕ
port_of (high ∷ low ∷ []) = some (high * 256 + low)
port_of _ = none

-- The request, if it is to connect: the destination and the port
unfoldable pub request_of : Bytes → Option (Destination × ℕ)
unfolding address_of
request_of (version ∷ command ∷ reserved ∷ kind ∷ bytes) =
    if version == 5 && command == 1 && reserved == 0
    then elim (address_of kind bytes) [
      | none ↦ none
      | some (destination, rest) ↦ elim (port_of rest) [
        | none ↦ none
        | some port ↦ some (destination, port)
      ]
    ]
    else none
request_of _ = none

-- A packed address has its length, and a name fits the byte of its length.
abbrev pub IsDestination : Destination → Type 0
IsDestination (ipv4 packed) = length packed ≡ 4
IsDestination (ipv6 packed) = length packed ≡ 16
IsDestination (hostname name) = length name ≤ 255

take-append : (xs ys : Bytes) → take (length xs) (xs ++ ys) ≡ xs
take-append [] ys = refl
take-append (x ∷ xs) ys = ap (λ zs. x ∷ zs) (take-append xs ys)

drop-append : (xs ys : Bytes) → drop (length xs) (xs ++ ys) ≡ ys
drop-append [] ys = refl
drop-append (x ∷ xs) ys = drop-append xs ys

exact-append : (size : ℕ) (xs ys : Bytes) → length xs ≡ size → exact size (xs ++ ys) ≡ some (xs, ys)
unfolding exact
exact-append size xs ys h =
    let fits : leb (length xs) (length (xs ++ ys)) ≡ true =
      le→leb _ _ (omega (arith, length-append xs ys)) in
    rw (← h, fits, take-append xs ys, drop-append xs ys) refl

joined : (port : ℕ) → port / 256 * 256 + port % 256 ≡ port
joined port = omega arith

-- The emulator reads the destination and the port that the client encodes: for each IPv4 or IPv6
-- address and each hostname of at most 255 bytes.
pub request_of-connect_request :
    (destination : Destination) (port : ℕ)
    → IsDestination destination
    → request_of (connect_request destination port) ≡ some (destination, port)
unfolding request_of address_of
request_of-connect_request (ipv4 packed) port h =
    rw (exact-append 4 packed (port_bytes port) h, joined port) refl
request_of-connect_request (ipv6 packed) port h =
    rw (exact-append 16 packed (port_bytes port) h, joined port) refl
request_of-connect_request (hostname name) port h =
    rw (exact-append (length name) name (port_bytes port) refl, joined port) refl
