-- ===== src/Connectors/Socks.antt =====
-- `_socks5` of app/dal/proxy/connectors.py. The login and the destination are bytes: the code
-- encodes a username and password as UTF-8 and a hostname as ASCII, and packs an address.
pub mod Sent
pub mod Peer
use network_gateway_api.Prelude.{
  ℕ, ◌+◌, ◌/◌, ◌%◌, Bool, true, false, not, ◌&&◌, ◌||◌, Option, none, some, List, [], ◌∷◌, ◌++◌,
  ltb, ◌==◌, if◌then◌else◌, length,
}
use network_gateway_api.Connectors.Checks.{Raised, connector_error, invalid}
use network_gateway_api.Connectors.Stream.{
  Bytes, Wire, Io, pure, fail, send, receive_exact, protocol_error, ◌>>=◌, ◌>>◌,
}

pub data Destination : Type 0 where
  ipv4 ipv6 hostname : Bytes → Destination

-- `bytes([...]) + address.packed`, or the name with its length
abbrev pub encoded : Destination → Bytes
encoded (ipv4 packed) = 1 ∷ packed
encoded (ipv6 packed) = 4 ∷ packed
encoded (hostname name) = 3 ∷ length name ∷ name

-- `port.to_bytes(2, "big")` of a port below 65536
abbrev pub port_bytes : ℕ → Bytes
port_bytes port = port / 256 ∷ port % 256 ∷ []

abbrev pub same_bytes : Bytes → Bytes → Bool
same_bytes [] [] = true
same_bytes (a ∷ xs) (b ∷ ys) = a == b && same_bytes xs ys
same_bytes _ _ = false

abbrev pub require : Bool → Raised → Io (Unit {0})
require true e wire = pure tt wire
require false e wire = fail e wire

abbrev pub method_of : Option (Bytes × Bytes) → ℕ
method_of none = 0
method_of (some _) = 2

abbrev pub login_request : Bytes → Bytes → Bytes
login_request user password = 1 ∷ length user ∷ user ++ length password ∷ password

abbrev pub login_rejected : Raised
login_rejected = connector_error "proxy_auth" "SOCKS5 proxy authentication was rejected."

-- The login, if there is a username
unfoldable pub socks_login : Option (Bytes × Bytes) → Io (Unit {0})
unfolding receive_exact
socks_login none = pure tt
socks_login (some (user, password)) = do
  require (not (ltb 255 (length user) || ltb 255 (length password)))
      (invalid "SOCKS5 credentials cannot exceed 255 encoded bytes.")
  send (login_request user password)
  answer ← receive_exact 2
  require (same_bytes answer (1 ∷ 0 ∷ [])) login_rejected

-- With the answer that holds the length
abbrev pub bound_size : Bytes → Io ℕ
bound_size [] = fail (protocol_error "The SOCKS5 proxy returned an invalid bound address.")
bound_size (size ∷ rest) =
    if size == 0
    then fail (protocol_error "The SOCKS5 proxy returned an invalid bound address.")
    else pure size

-- How many bytes of the bound address follow: `{1: 4, 4: 16}.get(kind)`, and a length otherwise
unfoldable pub bound_length : ℕ → Io ℕ
unfolding receive_exact
bound_length kind =
    if kind == 1 then pure 4 else if kind == 4 then pure 16 else (receive_exact 1 >>= bound_size)

abbrev invalid_response : Raised
invalid_response = protocol_error "The SOCKS5 proxy returned an invalid response."

-- With the four bytes of the reply
unfoldable pub check_reply : Bytes → Io (Unit {0})
unfolding bound_length receive_exact
check_reply (version ∷ status ∷ reserved ∷ kind ∷ []) = do
  require (version == 5 && reserved == 0 && (kind == 1 || kind == 3 || kind == 4)) invalid_response
  require (status == 0) (
      connector_error "proxy_connect" "The SOCKS5 proxy denied or could not reach the destination.")
  size ← bound_length kind
  bound ← receive_exact (size + 2)
  pure tt
check_reply _ = fail invalid_response

-- The request for a port below 65536, as the profiles are validated before; a greater one makes
-- `to_bytes(2)` of the code raise, which is not modelled.
abbrev pub connect_request : Destination → ℕ → Bytes
connect_request destination port = 5 ∷ 1 ∷ 0 ∷ encoded destination ++ port_bytes port

abbrev pub method_rejected : Raised
method_rejected =
    connector_error "proxy_auth" "The SOCKS5 proxy rejected the selected authentication method."

-- `_socks5`
unfoldable pub socks5 : Option (Bytes × Bytes) → Destination → ℕ → Io (Unit {0})
unfolding receive_exact socks_login check_reply
socks5 login destination port = do
  send (5 ∷ 1 ∷ method_of login ∷ [])
  greeting ← receive_exact 2
  require (same_bytes greeting (5 ∷ method_of login ∷ [])) method_rejected
  socks_login login
  send (connect_request destination port)
  reply ← receive_exact 4
  check_reply reply
