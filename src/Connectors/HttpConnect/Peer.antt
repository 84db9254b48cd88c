-- ===== src/Connectors/HttpConnect/Peer.antt =====
-- The request line that `HttpConnectPeer.handle` of demo/emulators/proxy_protocols.py reads, and that
-- of `_http_connect` in app/dal/proxy/connectors.py.
use network_gateway_api.Prelude.{
  ℕ, ◌<◌, ◌≡◌, refl, ap, ◌∙◌, Bool, true, false, not, ◌&&◌, ◌||◌, [], ◌∷◌, ◌++◌, leb, ◌==◌,
  if◌then◌else◌, all, arith, Option, none, some, length, append_assoc,
}
use network_gateway_api.Connectors.Stream.{Bytes}
use network_gateway_api.Connectors.HttpConnect.{
  digits, is_digit, has_byte, authority, connect_word, http_version, request_line,
}
use network_gateway_api.Connectors.HttpConnect.Digits.{
  number_from, number_from-digits, all-digits, digits_loop-nonempty,
}

-- "[0-9a-fA-F:]"
abbrev pub is_hex_colon : ℕ → Bool
is_hex_colon b = is_digit b || (leb 97 b && leb b 102) || (leb 65 b && leb b 70) || b == b':'

-- "[A-Za-z0-9.-]"
abbrev pub is_name_byte : ℕ → Bool
is_name_byte b =
    (leb 65 b && leb b 90) || (leb 97 b && leb b 122) || is_digit b || b == b'.' || b == b'-'

-- The longest prefix of such bytes, and the rest
abbrev onto_prefix : ℕ → Bytes × Bytes → Bytes × Bytes
onto_prefix b (prefix, rest) = (b ∷ prefix, rest)

unfoldable pub span : (ℕ → Bool) → Bytes → Bytes × Bytes
span p [] = ([], [])
span p (b ∷ bytes) =
    let more = onto_prefix b (span p bytes) in if p b then more else ([], b ∷ bytes)

abbrev pub after_word : Bytes → Bytes → Option Bytes
after_word [] bytes = some bytes
after_word (w ∷ word) [] = none
after_word (w ∷ word) (b ∷ bytes) = if w == b then after_word word bytes else none

-- " HTTP/1.1", whose `.` is any character but a line feed
abbrev is_version : Bytes → Bool
is_version (a ∷ h ∷ t ∷ t' ∷ p ∷ slash ∷ one ∷ dot ∷ one' ∷ []) =
    a == b' '
    && h == b'H'
    && t == b'T'
    && t' == b'T'
    && p == b'P'
    && slash == b'/'
    && one == b'1'
    && not (dot == b'\n')
    && one' == b'1'
is_version _ = false

-- After the host and its colon
abbrev with_port : Bytes → Bytes × Bytes → Option (Bytes × ℕ)
with_port host ([], rest) = none
with_port host (b ∷ port, rest) =
    if is_version rest then some (host, number_from 0 (b ∷ port)) else none

-- After the host
abbrev after_host : Bytes → Bytes → Option (Bytes × ℕ)
after_host [] rest = none
after_host (b ∷ host) [] = none
after_host (b ∷ host) (colon ∷ rest) =
    if colon == b':' then with_port (b ∷ host) (span is_digit rest) else none

-- After a host in brackets
abbrev after_bracket : Bytes × Bytes → Option (Bytes × ℕ)
after_bracket (host, []) = none
after_bracket (host, b ∷ rest) = if b == b']' then after_host host rest else none

abbrev plain_host : Bytes × Bytes → Option (Bytes × ℕ)
plain_host (host, rest) = after_host host rest

abbrev host_of : Bytes → Option (Bytes × ℕ)
host_of [] = none
host_of (b ∷ bytes) =
    if b == b'['
    then after_bracket (span is_hex_colon bytes)
    else plain_host (span is_name_byte (b ∷ bytes))

-- The host without its brackets and the port, where the line matches
unfoldable pub target_of : Bytes → Option (Bytes × ℕ)
unfolding span number_from
target_of line = elim (after_word connect_word line) [ none ↦ none | some rest ↦ host_of rest ]

-- Hosts that `_host` accepts: a name, an IPv4 address, or an IPv6 address of hexadecimal digits and
-- colons. `_host` also accepts an IPv6 address that ends in dotted form, or has a zone; these are
-- not among them.
pub data IsHost : Bytes → Type 0 where
  name : (b : ℕ) (host : Bytes) → all is_name_byte (b ∷ host) ≡ true → IsHost (b ∷ host)
  address :
      (b : ℕ) (host : Bytes)
      → all is_hex_colon (b ∷ host) ≡ true
      → has_byte b':' (b ∷ host) ≡ true
      → IsHost (b ∷ host)

span-append :
    (p : ℕ → Bool) (xs : Bytes) (y : ℕ) (ys : Bytes)
    → all p xs ≡ true
    → p y ≡ false
    → span p (xs ++ y ∷ ys) ≡ (xs, y ∷ ys)
unfolding span
span-append p [] y ys h k = rw k refl
span-append p (x ∷ xs) y ys h k =
    let here : p x ≡ true = ground arith in rw (here, span-append p xs y ys (ground arith) k) refl

span-all :
    (p : ℕ → Bool) (xs ys : Bytes)
    → all p xs ≡ true
    → span p ys ≡ ([], ys)
    → span p (xs ++ ys) ≡ (xs, ys)
unfolding span
span-all p [] ys h k = k
span-all p (x ∷ xs) ys h k =
    let here : p x ≡ true = ground arith in rw (here, span-all p xs ys (ground arith) k) refl

with_port-digits :
    (host text : Bytes)
    → (0 < length text)
    → all is_digit text ≡ true
    → with_port host (span is_digit (text ++ http_version)) ≡ some (host, number_from 0 text)
unfolding span number_from
with_port-digits host [] h k = absurd (omega arith)
with_port-digits host (b ∷ text) h k = rw (span-all is_digit (b ∷ text) http_version k refl) refl

after_host-port :
    (b : ℕ) (host : Bytes) (port : ℕ)
    → after_host (b ∷ host) (b':' ∷ digits port ++ http_version) ≡ some (b ∷ host, port)
unfolding digits
after_host-port b host port =
    with_port-digits (b ∷ host) (digits port) (digits_loop-nonempty port port) (all-digits port)
    ∙ ap (λ n. some (b ∷ host, n)) (number_from-digits port)

name-no_colon : (host : Bytes) → all is_name_byte host ≡ true → has_byte b':' host ≡ false
name-no_colon [] h = refl
name-no_colon (b ∷ host) h = ground (arith, name-no_colon host)

host_of-name :
    (b : ℕ) (host rest : Bytes)
    → all is_name_byte (b ∷ host) ≡ true
    → host_of (((b ∷ host) ++ b':' ∷ rest) ++ http_version)
      ≡ after_host (b ∷ host) (b':' ∷ rest ++ http_version)
host_of-name b host rest h =
    let other : (b == b'[') ≡ false = ground arith in
    rw
      (
        other,
        append_assoc (b ∷ host) (b':' ∷ rest) http_version,
        span-append is_name_byte (b ∷ host) b':' (rest ++ http_version) h refl,
      )
      refl

host_of-address :
    (b : ℕ) (host rest : Bytes)
    → all is_hex_colon (b ∷ host) ≡ true
    → host_of ((b'[' ∷ (b ∷ host) ++ b']' ∷ rest) ++ http_version)
      ≡ after_host (b ∷ host) (rest ++ http_version)
host_of-address b host rest h =
    rw
      (
        append_assoc (b ∷ host) (b']' ∷ rest) http_version,
        span-append is_hex_colon (b ∷ host) b']' (rest ++ http_version) h refl,
      )
      refl

authority-name :
    (host : Bytes) (port : ℕ)
    → has_byte b':' host ≡ false
    → authority host port ≡ host ++ b':' ∷ digits port
unfolding authority
authority-name host port h = rw h refl

authority-address :
    (host : Bytes) (port : ℕ)
    → has_byte b':' host ≡ true
    → authority host port ≡ b'[' ∷ host ++ b']' ∷ b':' ∷ digits port
unfolding authority
authority-address host port h = rw h refl

-- The proxy of the demo reads from the request line of a tunnel the host and the port that were asked
-- for, where the host is a name, an IPv4 address or an IPv6 address of hexadecimal digits and colons
-- alone, without a zone or a dotted part.
pub target_of-request_line :
    (host : Bytes) (port : ℕ) → IsHost host → target_of (request_line host port) ≡ some (host, port)
unfolding target_of
target_of-request_line _ port (name b host h) =
    ap (λ text. host_of (text ++ http_version))
      (authority-name (b ∷ host) port (name-no_colon (b ∷ host) h))
    ∙ host_of-name b host (digits port) h
    ∙ after_host-port b host port
target_of-request_line _ port (address b host h colon) =
    ap (λ text. host_of (text ++ http_version)) (authority-address (b ∷ host) port colon)
    ∙ host_of-address b host (b':' ∷ digits port) h
    ∙ after_host-port b host port
