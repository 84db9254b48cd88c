-- ===== src/Connectors/HttpConnect.antt =====
-- `_http_connect` of app/dal/proxy/connectors.py. The host, the login and the answers are bytes: a
-- validated host is ASCII, and the code encodes the login as UTF-8. Base64 is a parameter.
pub mod Digits
pub mod Peer
use network_gateway_api.Prelude.{
  ℕ, zero, suc, ◌+◌, ◌-◌, ◌*◌, ◌/◌, ◌%◌, Bool, true, false, not, ◌&&◌, ◌||◌, Option, none, some,
  List, [], ◌∷◌, ◌++◌, ltb, leb, ◌==◌, if◌then◌else◌, length, take, any, all,
}
use network_gateway_api.Connectors.Checks.{Raised, connector_error}
use network_gateway_api.Connectors.Stream.{
  Bytes, Wire, Io, pure, fail, send, receive_until, protocol_error, ◌>>=◌, ◌>>◌,
}
use network_gateway_api.Connectors.Socks.{require}

-- The decimal digits of a number; `n` has fewer than `suc n`.
unfoldable pub digits_loop : ℕ → ℕ → Bytes
digits_loop zero n = []
digits_loop (suc fuel) n =
    let rest = digits_loop fuel (n / 10) ++ (48 + n % 10) ∷ [] in
    if ltb n 10 then (48 + n) ∷ [] else rest

unfoldable pub digits : ℕ → Bytes
unfolding digits_loop
digits n = digits_loop (suc n) n

abbrev pub has_byte : ℕ → Bytes → Bool
has_byte b bytes = any (λ c. c == b) bytes

-- An IPv6 address stands in brackets.
unfoldable pub authority : Bytes → ℕ → Bytes
unfolding digits
authority host port =
    if has_byte b':' host
    then b'[' ∷ host ++ b']' ∷ b':' ∷ digits port
    else host ++ b':' ∷ digits port

abbrev pub crlf : Bytes
crlf = b'\r' ∷ b'\n' ∷ []

abbrev pub connect_word : Bytes
connect_word = b'C' ∷ b'O' ∷ b'N' ∷ b'N' ∷ b'E' ∷ b'C' ∷ b'T' ∷ b' ' ∷ []

-- " HTTP/1.1"
abbrev pub http_version : Bytes
http_version = b' ' ∷ b'H' ∷ b'T' ∷ b'T' ∷ b'P' ∷ b'/' ∷ b'1' ∷ b'.' ∷ b'1' ∷ []

abbrev host_word : Bytes
host_word = b'H' ∷ b'o' ∷ b's' ∷ b't' ∷ b':' ∷ b' ' ∷ []

-- "Proxy-Authorization: Basic "
abbrev authorization_word : Bytes
authorization_word =
    b'P' ∷ b'r' ∷ b'o' ∷ b'x' ∷ b'y' ∷ b'-' ∷ b'A' ∷ b'u' ∷ b't' ∷ b'h' ∷ b'o' ∷ b'r' ∷ b'i' ∷ b'z'
    ∷ b'a' ∷ b't' ∷ b'i' ∷ b'o' ∷ b'n' ∷ b':' ∷ b' ' ∷ b'B' ∷ b'a' ∷ b's' ∷ b'i' ∷ b'c' ∷ b' ' ∷ []

-- The first line of the request
abbrev pub request_line : Bytes → ℕ → Bytes
request_line host port = connect_word ++ authority host port ++ http_version

abbrev credentials : (b64 : Bytes → Bytes) → Option (Bytes × Bytes) → Bytes
credentials b64 none = []
credentials b64 (some (user, password)) =
    authorization_word ++ b64 (user ++ b':' ∷ password) ++ crlf

-- `request`, with the empty line that ends it
unfoldable pub http_request : (b64 : Bytes → Bytes) → Option (Bytes × Bytes) → Bytes → ℕ → Bytes
unfolding authority
http_request b64 login host port =
    request_line host port
    ++ crlf
    ++ host_word
    ++ authority host port
    ++ crlf
    ++ credentials b64 login
    ++ crlf

-- `split(b"\r\n")`
abbrev onto_line : ℕ → List Bytes → List Bytes
onto_line b [] = (b ∷ []) ∷ []
onto_line b (line ∷ lines) = (b ∷ line) ∷ lines

unfoldable pub split_lines : Bytes → List Bytes
split_lines [] = [] ∷ []
split_lines (b ∷ []) = (b ∷ []) ∷ []
split_lines (b ∷ c ∷ bytes) =
    let rest = onto_line b (split_lines (c ∷ bytes)) in
    let after = [] ∷ split_lines bytes in if b == b'\r' && c == b'\n' then after else rest

abbrev is_printable : ℕ → Bool
is_printable b = leb 32 b && leb b 126

abbrev pub is_digit : ℕ → Bool
is_digit b = leb 48 b && leb b 57

-- `(?: [\x20-\x7e]*)?` to the end
abbrev is_reason : Bytes → Bool
is_reason [] = true
is_reason (b ∷ reason) = b == b' ' && all is_printable reason

-- The status of a status line that is well formed
unfoldable pub status_of : Bytes → Option ℕ
status_of (h ∷ t ∷ t' ∷ p ∷ slash ∷ one ∷ dot ∷ minor ∷ space ∷ a ∷ b ∷ c ∷ reason) =
    if h == b'H'
      && t == b'T'
      && t' == b'T'
      && p == b'P'
      && slash == b'/'
      && one == b'1'
      && dot == b'.'
      && (minor == b'0' || minor == b'1')
      && space == b' '
      && is_digit a
      && is_digit b
      && is_digit c
      && is_reason reason
    then some ((a - 48) * 100 + (b - 48) * 10 + (c - 48))
    else none
status_of _ = none

-- "[!#$%&'*+.^_`|~0-9A-Za-z-]"
abbrev is_token : ℕ → Bool
is_token b =
    (leb 65 b && leb b 90)
    || (leb 94 b && leb b 122)
    || is_digit b
    || b == 33
    || (leb 35 b && leb b 39)
    || b == 42
    || b == 43
    || b == 45
    || b == 46
    || b == 124
    || b == 126

abbrev is_value : Bytes → Bool
is_value value = all (λ b. is_printable b || b == b'\t') value

-- A header line: a name, a colon and a printable value
abbrev is_header_from : Bytes → Bool
is_header_from [] = false
is_header_from (b ∷ line) = if b == b':' then is_value line else is_token b && is_header_from line

abbrev pub is_header : Bytes → Bool
is_header [] = false
is_header (b ∷ line) = is_token b && is_header_from line

abbrev invalid_answer : Raised
invalid_answer = protocol_error "The HTTP proxy returned an invalid CONNECT response."

-- With the status
abbrev pub check_status : ℕ → Io (Unit {0})
check_status code = do
  require (not (code == 407))
      (connector_error "proxy_auth" "HTTP CONNECT proxy authentication was rejected.")
  require (leb 200 code && ltb code 300) (
      connector_error "proxy_connect"
        "The HTTP CONNECT proxy denied or could not reach the destination.")

-- With the lines of the answer
unfoldable pub check_answer : List Bytes → Io (Unit {0})
unfolding status_of
check_answer [] = fail invalid_answer
check_answer (line ∷ headers) = elim (status_of line) [
  | none ↦ fail invalid_answer
  | some code ↦ require (all is_header headers) invalid_answer >> check_status code
]

-- `response[:-4]`
abbrev without_end : Bytes → Bytes
without_end response = take (length response - 4) response

-- `_http_connect`
unfoldable pub http_connect :
    (b64 : Bytes → Bytes) → Option (Bytes × Bytes) → (host : Bytes) (port : ℕ) → Io (Unit {0})
unfolding http_request receive_until split_lines check_answer
http_connect b64 login host port = do
  send (http_request b64 login host port)
  response ← receive_until (crlf ++ crlf) 8192
  check_answer (split_lines (without_end response))
