-- ===== src/Connectors/Prompts.antt =====
-- `read_prompt` of app/dal/proxy/connectors.py with the prompts of app/bl/services/connection_tests.py,
-- and `_telnet_login` there. The patterns look at the end of what was read, so they are tests of the
-- bytes in reverse order.
pub mod Rounds
use network_gateway_api.Prelude.{
  ℕ, zero, suc, ◌+◌, Bool, true, false, not, ◌&&◌, ◌||◌, Option, none, some, List, [], ◌∷◌, ◌++◌,
  ltb, leb, ◌==◌, if◌then◌else◌, Outcome, ok, err, length, map, any,
}
use network_gateway_api.Connectors.Checks.{Raised, connector_error}
use network_gateway_api.Connectors.Stream.{
  Bytes, Event, Wire, Io, pure, send, recv, protocol_error, reversed, ◌>>=◌, ◌>>◌,
}
use network_gateway_api.Telnet.Negotiator.{Negotiator, Mode, feed, init}
use network_gateway_api.Telnet.Reads.{contains}

abbrev lower_byte : ℕ → ℕ
lower_byte b = if leb 65 b && leb b 90 then b + 32 else b

abbrev login_incorrect : Bytes
login_incorrect =
    b'l' ∷ b'o' ∷ b'g' ∷ b'i' ∷ b'n' ∷ b' ' ∷ b'i' ∷ b'n' ∷ b'c' ∷ b'o' ∷ b'r' ∷ b'r' ∷ b'e' ∷ b'c'
    ∷ b't' ∷ []

abbrev authentication_failed : Bytes
authentication_failed =
    b'a' ∷ b'u' ∷ b't' ∷ b'h' ∷ b'e' ∷ b'n' ∷ b't' ∷ b'i' ∷ b'c' ∷ b'a' ∷ b't' ∷ b'i' ∷ b'o' ∷ b'n'
    ∷ b' ' ∷ b'f' ∷ b'a' ∷ b'i' ∷ b'l' ∷ b'e' ∷ b'd' ∷ []

abbrev access_denied : Bytes
access_denied =
    b'a' ∷ b'c' ∷ b'c' ∷ b'e' ∷ b's' ∷ b's' ∷ b' ' ∷ b'd' ∷ b'e' ∷ b'n' ∷ b'i' ∷ b'e' ∷ b'd' ∷ []

abbrev connection : Bytes
connection = b'c' ∷ b'o' ∷ b'n' ∷ b'n' ∷ b'e' ∷ b'c' ∷ b't' ∷ b'i' ∷ b'o' ∷ b'n' ∷ b' ' ∷ []

abbrev connection_refused : Bytes
connection_refused = connection ++ b'r' ∷ b'e' ∷ b'f' ∷ b'u' ∷ b's' ∷ b'e' ∷ b'd' ∷ []

abbrev connection_closed : Bytes
connection_closed = connection ++ b'c' ∷ b'l' ∷ b'o' ∷ b's' ∷ b'e' ∷ b'd' ∷ []

-- The phrases of a rejection, in any case
unfoldable pub is_rejection : Bytes → Bool
unfolding contains
is_rejection found =
    let low = map lower_byte found in
    any (λ phrase. contains phrase low)
      (login_incorrect ∷ authentication_failed ∷ access_denied ∷ connection_refused
        ∷ connection_closed ∷ [])

-- `$` of a pattern: the end, or before a final line feed
abbrev at_end : Bytes → Bytes
at_end [] = []
at_end (b ∷ back) = if b == b'\n' then back else b ∷ back

-- `(?:^|[\r\n])`, seen from behind
abbrev at_line_start : Bytes → Bool
at_line_start [] = true
at_line_start (b ∷ back) = b == b'\r' || b == b'\n'

abbrev drop_blanks : Bytes → Bytes
drop_blanks [] = []
drop_blanks (b ∷ back) = if b == b' ' || b == b'\t' then drop_blanks back else b ∷ back

-- What follows a prefix
abbrev after_bytes : Bytes → Bytes → Option Bytes
after_bytes [] bytes = some bytes
after_bytes (p ∷ prefix) [] = none
after_bytes (p ∷ prefix) (b ∷ bytes) = if p == b then after_bytes prefix bytes else none

abbrev ends_line : Option Bytes → Bool
ends_line none = false
ends_line (some back) = at_line_start back

-- One of the words, given in reverse, alone on the line before `:[ \t]*$`
unfoldable pub is_label : List Bytes → Bytes → Bool
is_label words found = elim (drop_blanks (at_end (reversed found))) [
  | [] ↦ false
  | b ∷ back ↦ b == b':' && any (λ word. ends_line (after_bytes word back)) words
]

abbrev word_username : ℕ → Bytes
word_username first = b'e' ∷ b'm' ∷ b'a' ∷ b'n' ∷ b'r' ∷ b'e' ∷ b's' ∷ first ∷ []

abbrev word_login : ℕ → Bytes
word_login first = b'n' ∷ b'i' ∷ b'g' ∷ b'o' ∷ first ∷ []

abbrev word_password : ℕ → Bytes
word_password first = b'd' ∷ b'r' ∷ b'o' ∷ b'w' ∷ b's' ∷ b's' ∷ b'a' ∷ first ∷ []

-- _USERNAME
abbrev pub is_username_prompt : Bytes → Bool
is_username_prompt found =
    is_label (word_username b'U' ∷ word_username b'u' ∷ word_login b'L' ∷ word_login b'l' ∷ [])
      found

-- _PASSWORD
abbrev pub is_password_prompt : Bytes → Bool
is_password_prompt found = is_label (word_password b'P' ∷ word_password b'p' ∷ []) found

-- `[A-Za-z0-9_@().:/~ -]`
abbrev is_prompt_char : ℕ → Bool
is_prompt_char b =
    (leb 65 b && leb b 90)
    || (leb 97 b && leb b 122)
    || (leb 46 b && leb b 58)
    || b == b'_'
    || b == b'@'
    || b == b'('
    || b == b')'
    || b == b'~'
    || b == b' '
    || b == b'-'

-- At most `room` such characters from the start of the line
abbrev is_host_name : ℕ → Bytes → Bool
is_host_name room [] = true
is_host_name zero (b ∷ back) = b == b'\r' || b == b'\n'
is_host_name (suc room) (b ∷ back) =
    b == b'\r' || b == b'\n' || (is_prompt_char b && is_host_name room back)

abbrev drop_space : Bytes → Bytes
drop_space [] = []
drop_space (b ∷ back) = if b == b' ' then back else b ∷ back

-- SHELL_PROMPT
unfoldable pub is_shell_prompt : Bytes → Bool
is_shell_prompt found = elim (drop_space (at_end (reversed found))) [
  | [] ↦ false
  | b ∷ back ↦ (b == b'#' || b == b'$' || b == b'>') && is_host_name 160 back
]

-- The messages of the negotiator go out on the same stream.
abbrev pub flatten : List Bytes → Bytes
flatten [] = []
flatten (message ∷ messages) = message ++ flatten messages

-- What `negotiator.feed(chunk)` returns, or the chunk where there is no negotiator; and the answers
abbrev pub cleaned_by : Option Negotiator → Bytes → Bytes × Option Negotiator × Bytes
cleaned_by none chunk = (chunk, none, [])
cleaned_by (some n) chunk =
    let (n', out) = feed (record n { sent = [] }) chunk in (out, some n', flatten n'.sent)

abbrev no_prompt : Raised
no_prompt = protocol_error "The peer closed before the expected login prompt."

abbrev too_long : Raised
too_long = protocol_error "The login prompt exceeded the allowed response size."

abbrev rejected : Raised
rejected =
    connector_error "device_auth" "The remote login was rejected or the remote connection closed."

-- The loop of `read_prompt`. A round reads a byte at least, and the loop ends where more than 16384 have
-- come, so that as many rounds and one are enough; more are never asked for.
unfoldable pub prompt_loop :
    (Bytes → Bool)
    → ℕ
    → (wire_size : ℕ) → Option Negotiator
    → Bytes
    → Io (Bytes × Option Negotiator)
unfolding feed is_rejection
prompt_loop is_prompt zero wire_size n found wire = err too_long
prompt_loop is_prompt (suc fuel) wire_size n found wire = elim (recv 1024 wire.incoming) [
  | err e ↦ err e
  | ok ([], rest) ↦ err no_prompt
  | ok (b ∷ bytes, rest) ↦
      let size = wire_size + length (b ∷ bytes) in
      let (out, n', answers) = cleaned_by n (b ∷ bytes) in
      let wire' : Wire = record { incoming = rest; sent = wire.sent ++ answers } in
      let found' = found ++ out in
      let more = prompt_loop is_prompt fuel size n' found' wire' in
      if ltb 16384 size
      then err too_long
      else if is_rejection found'
      then err rejected
      else if is_prompt found'
      then ok ((found', n'), wire')
      else more
]

abbrev pub prompt_limit : ℕ
prompt_limit = 16385

-- `read_prompt`
unfoldable pub read_prompt : (Bytes → Bool) → Option Negotiator → Io (Bytes × Option Negotiator)
unfolding prompt_loop
read_prompt is_prompt n = prompt_loop is_prompt prompt_limit 0 n []

abbrev pub crlf : Bytes
crlf = b'\r' ∷ b'\n' ∷ []

-- `_telnet_login`; the username and password are UTF-8.
unfoldable pub telnet_login : (username password : Bytes) → Io (Unit {0})
unfolding read_prompt is_label is_shell_prompt
telnet_login username password = do
  greeting ← read_prompt is_username_prompt (some init)
  send (username ++ crlf)
  asked ← read_prompt is_password_prompt greeting.1
  send (password ++ crlf)
  welcome ← read_prompt is_shell_prompt asked.1
  pure tt
