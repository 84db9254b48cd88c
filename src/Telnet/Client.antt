-- ===== src/Telnet/Client.antt =====
-- `GenericTelnetNCCClient` of app/dal/device/telnet_client.py: connecting, the login and commands.
-- What the network does is given: whether each connection is made and each send succeeds, and the
-- rounds of each read. Python's `int` and `float` of a setting and the credentials are parameters.
pub mod Session
pub mod Early
pub mod Ordered
use network_gateway_api.Prelude.{
  ℕ, ◌+◌, Bool, true, false, not, ◌&&◌, ◌||◌, Option, none, some, List, [], ◌∷◌, ◌++◌, String, map,
  leb, if◌then◌else◌, Outcome, ok, err,
}
use network_gateway_api.Prelude.Int.{ℤ, pos, negsuc, Float, dyadic, int_between}
use network_gateway_api.Value.{Value, is_null, is_empty}
use network_gateway_api.Text.{append}
use network_gateway_api.Telnet.Negotiator.{Bytes, Negotiator, init}
use network_gateway_api.Telnet.Reads.{
  Round, ReadError, timed_out, read_failed, closed, exceeded, Read, done, raised, waiting, contains,
  recv_until, default_max_response_bytes,
}

-- The reasons of a GatewayError
pub data GatewayError : Type 0 where
  invalid_port invalid_timeout connect_failed login_failed authentication_failed : GatewayError
  not_authenticated command_failed : GatewayError
  unsupported : String → GatewayError

-- What ends a call: a GatewayError, an error of a read or of the socket that a caller turns into
-- one, another exception, or a wait that does not end with the rounds given.
pub data Failure : Type 0 where
  gateway : GatewayError → Failure
  read_error : ReadError → Failure
  os_error : Failure
  unexpected : Failure
  blocked : Failure

-- What `_login` and `_run_command` send; the negotiator answers on the same connection, in its `sent`.
pub data Payload : Type 0 where
  username password : Payload
  command : String → Payload

-- The fields that change. `_sock` and `_negotiator` are set and cleared together; `log` is what
-- `_login` and `_run_command` sent since the connection was made.
pub record Client : Type 0 where
  pub session : Option Negotiator
  pub authenticated : Bool
  pub log : List Payload

pub record Net : Type 0 where
  pub connects : List Bool
  pub sends : List Bool
  pub rounds : List (List Round)

-- `_safe_port`
unfoldable pub safe_port : (Value → Option ℤ) → Value → ℕ → Outcome GatewayError ℕ
safe_port int_of value default = if is_null value then ok default else elim (int_of value) [
  | none ↦ err invalid_port
  | some (negsuc n) ↦ err invalid_port
  | some (pos n) ↦ if int_between 1 65535 (pos n) then ok n else err invalid_port
]

-- `_timeout`: the setting as a float, or `none` where it is no number
unfoldable pub timeout_valid : Option Float → Bool
timeout_valid (some (dyadic (pos n) k)) = leb 1 n
timeout_valid _ = false

-- A call: the result, the fields and what is left of the network.
abbrev pub Call : Type 0 → Type 0
Call A = Client → Net → Outcome Failure A × Client × Net

module _ {A : Type 0} where
  abbrev pub pure : A → Call A
  pure a c net = (ok a, c, net)

  abbrev pub raise : Failure → Call A
  raise e c net = (err e, c, net)

module _ {A B : Type 0} where
  abbrev pub continue :
      (A → Call B) → Outcome Failure A × Client × Net → Outcome Failure B × Client × Net
  continue f (ok a, c, net) = f a c net
  continue f (err e, c, net) = (err e, c, net)

  infixl 5 ◌>>=◌
  abbrev pub ◌>>=◌ : Call A → (A → Call B) → Call B
  ◌>>=◌ m f c net = continue f (m c net)

module _ {B : Type 0} where
  infixl 5 ◌>>◌
  abbrev pub ◌>>◌ : Call (Unit {0}) → Call B → Call B
  m >> k = m >>= λ _. k

-- `close`
unfoldable pub close : Call (Unit {0})
close c net = (ok tt, record c { session = none; authenticated = false }, net)

-- `self._sock.sendall(...)`
abbrev pub sent_by : Payload → Client → Net → List Bool → Outcome Failure (Unit {0}) × Client × Net
sent_by payload c net [] = (err blocked, c, net)
sent_by payload c net (true ∷ sends) =
    (ok tt, record c { log = c.log ++ payload ∷ [] }, record net { sends = sends })
sent_by payload c net (false ∷ sends) = (err os_error, c, record net { sends = sends })

unfoldable pub sendall : Payload → Call (Unit {0})
sendall payload c net = elim c.session [
  | none ↦ (err unexpected, c, net)
  | some _ ↦ sent_by payload c net net.sends
]

-- With the negotiator and what is left of the rounds
abbrev pub read_with : Client → Net → Read → Outcome Failure Bytes × Client × Net
read_with c net (done out n rest) = (ok out, record c { session = some n }, net)
read_with c net (raised e n rest) = (err (read_error e), record c { session = some n }, net)
read_with c net (waiting buf n) = (err blocked, record c { session = some n }, net)

abbrev pub read_rounds :
    Bytes → Negotiator → Client → Net → List (List Round) → Outcome Failure Bytes × Client × Net
read_rounds marker n c net [] = (err blocked, c, net)
read_rounds marker n c net (rounds ∷ more) =
    read_with c (record net { rounds = more })
      (recv_until marker default_max_response_bytes n rounds)

-- `self._recv_until(marker, time.monotonic() + self._timeout())`
unfoldable pub read_until : Option Float → Bytes → Call Bytes
unfolding timeout_valid recv_until
read_until timeout marker c net =
    if not (timeout_valid timeout)
    then (err (gateway invalid_timeout), c, net)
    else elim c.session [
      | none ↦ (err unexpected, c, net)
      | some n ↦ read_rounds marker n c net net.rounds
    ]

abbrev pub partial_of : ReadError → Bytes
partial_of (timed_out partial) = partial
partial_of (read_failed partial) = partial
partial_of (closed partial) = partial
partial_of (exceeded partial) = partial

abbrev lower_byte : ℕ → ℕ
lower_byte b = if leb 65 b && leb b 90 then b + 32 else b

abbrev pub username_marker : Bytes
username_marker = b'U' ∷ b's' ∷ b'e' ∷ b'r' ∷ b'n' ∷ b'a' ∷ b'm' ∷ b'e' ∷ b':' ∷ []

abbrev pub password_marker : Bytes
password_marker = b'P' ∷ b'a' ∷ b's' ∷ b's' ∷ b'w' ∷ b'o' ∷ b'r' ∷ b'd' ∷ b':' ∷ []

abbrev pub prompt : Bytes
prompt = b'>' ∷ b' ' ∷ []

abbrev incorrect : Bytes
incorrect = b'i' ∷ b'n' ∷ b'c' ∷ b'o' ∷ b'r' ∷ b'r' ∷ b'e' ∷ b'c' ∷ b't' ∷ []

-- An `except` clause: what a failure of the block becomes
abbrev pub catching :
    {A : Type 0}
    → (Failure → Client → Net → Outcome Failure A × Client × Net)
    → Outcome Failure A × Client × Net
    → Outcome Failure A × Client × Net
catching handler (ok a, c, net) = (ok a, c, net)
catching handler (err e, c, net) = handler e c net

-- The handlers of `_login` and of `_run_command`: the connection is closed first.
unfoldable pub login_handler : Failure → Call (Unit {0})
unfolding close contains
login_handler (read_error e) =
    close
    >> raise (
        gateway (
          if contains incorrect (map lower_byte (partial_of e))
          then authentication_failed
          else login_failed))
login_handler os_error = close >> raise (gateway login_failed)
login_handler e = raise e

unfoldable pub command_handler : Failure → Call Bytes
unfolding close
command_handler (read_error e) = close >> raise (gateway command_failed)
command_handler os_error = close >> raise (gateway command_failed)
command_handler e = raise e

module _ (timeout : Option Float) (has_credentials : Bool) where
  -- The block of `_login`
  unfoldable pub login_block : Call (Unit {0})
  unfolding read_until sendall
  login_block = do
    greeting ← read_until timeout username_marker
    sendall username
    asked ← read_until timeout password_marker
    sendall password
    welcome ← read_until timeout prompt
    pure tt

  -- `_login`; a setting that is missing raises before the block.
  unfoldable pub login : Call (Unit {0})
  unfolding login_block login_handler
  login c net =
      if not has_credentials
      then (err unexpected, c, net)
      else continue (λ _ c' net'. (ok tt, record c' { authenticated = true }, net'))
          (catching login_handler (login_block c net))

  abbrev pub connected : Client → Net → List Bool → Outcome Failure (Unit {0}) × Client × Net
  connected c net [] = (err blocked, c, net)
  connected c net (false ∷ connects) =
      (err (gateway connect_failed), c, record net { connects = connects })
  connected c net (true ∷ connects) =
      login (record c { session = some init; log = [] }) (record net { connects = connects })

  -- `connect`
  unfoldable pub connect : Call (Unit {0})
  unfolding login timeout_valid
  connect c net = elim c.session [
    | some _ ↦ (ok tt, c, net)
    | none ↦
        if timeout_valid timeout
        then connected c net net.connects
        else (err (gateway invalid_timeout), c, net)
  ]

  -- The block of `_run_command`
  unfoldable pub command_block : String → Call Bytes
  unfolding read_until sendall
  command_block text = sendall (command text) >> read_until timeout prompt

  -- `_run_command`, up to the decoding of its result
  unfoldable pub run_command : String → Call Bytes
  unfolding connect command_block command_handler
  run_command text = connect >> λ c net.
      if not c.authenticated
      then (err (gateway not_authenticated), c, net)
      else catching command_handler (command_block text c net)

-- The operations that Telnet does not have
unfoldable pub unsupported_operation : {A : Type 0} → String → Call A
unsupported_operation operation = raise (gateway (unsupported operation))

-- `get_show_interface_command`
unfoldable pub show_interface_command : Option String → String
show_interface_command none = "show interface"
show_interface_command (some name) =
    if is_empty name then "show interface" else append "show interface " name
