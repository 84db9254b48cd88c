-- ===== src/Connectors/Tests.antt =====
-- Profiles and handshakes at concrete inputs.
use network_gateway_api.Prelude.{
  ◌≡◌, refl, Bool, true, false, Option, none, some, List, [], ◌∷◌, ◌++◌, ◌+◌, String, str_eq, ok,
  take, Outcome, drop, arith,
}
use network_gateway_api.Prelude.Int.{ℤ, pos, Float, dyadic}
use network_gateway_api.Value.{Value, Fields, int, str, field, end, get, set, truthy}
use network_gateway_api.Text.{strip, has_part}
use network_gateway_api.Connectors.Checks.{
  Raised, Address, host, port, loopback_host, demo_file_policy, auth_fields, check_credential,
}
use network_gateway_api.Connectors.Profile.{
  Validated, kinds, endpoint, timeout, networks, logins, validate_profile,
}
use network_gateway_api.Connectors.Valid.{IsTestable, validate_profile-IsTestable}
use network_gateway_api.Connectors.Stream.{
  Event, arrived, Wire, receive_exact, exact_loop, receive_until, until_loop, send,
}
use network_gateway_api.Connectors.Stream.Laws.{flat, ArePieces, receive_exact-cut}
use network_gateway_api.Connectors.Deadline.{
  Resource, Deadline, own, close, clients_first, Step, Reach,
}
use network_gateway_api.Connectors.Deadline.Closed.{times, Reach-released}
use network_gateway_api.Connectors.Prompts.{
  read_prompt, prompt_loop, prompt_limit, is_username_prompt, is_label, is_rejection,
}
use network_gateway_api.Connectors.Prompts.Rounds.{read_prompt-enough}
use network_gateway_api.Connectors.HttpConnect.{
  request_line, http_request, http_connect, crlf, split_lines, check_answer, status_of,
}
use network_gateway_api.Connectors.HttpConnect.Peer.{IsHost, target_of, target_of-request_line}
use network_gateway_api.Connectors.Socks.{
  Destination, ipv4, connect_request, method_of, socks5, socks_login, check_reply, bound_length,
}
use network_gateway_api.Connectors.Socks.Sent.{login_bytes, socks5-Sends}
use network_gateway_api.Connectors.Socks.Peer.{request_of, request_of-connect_request}

abbrev profile : Fields
profile = field "protocol" (str "ssh") (
    field "host" (str "localhost") (field "username" (str "ada") (field "password" (str "pw") end)))

abbrev parse_int : String → Option ℤ
parse_int text = none

abbrev float_of : Value → Option Float
float_of value = some (dyadic (pos 5) 0)

abbrev ip : String → Option Address
ip text = none

abbrev is_localhost : String → Bool
is_localhost name = str_eq name "localhost"

abbrev in_demo_storage : Value → Bool
in_demo_storage value = false

abbrev validated : Validated
validated = record {
  device =
      set "network_host" (str "127.0.0.1")
        (set "port" (int (pos 22)) (set "host" (str "localhost") profile));
  connector = field "type" (str "direct") end;
  seconds = dyadic (pos 5) 0;
  protocol = "ssh";
  kind = "direct";
}

validate_profile-IsTestable_example :
    IsTestable parse_int float_of ip is_localhost in_demo_storage true validated
unfolding validate_profile kinds endpoint timeout networks logins host port loopback_host
    demo_file_policy auth_fields check_credential strip has_part get set truthy
validate_profile-IsTestable_example =
    validate_profile-IsTestable parse_int float_of ip is_localhost in_demo_storage profile true
      validated refl

abbrev wire : Wire
wire = record {
  incoming =
      arrived (5 ∷ [])
      ∷ arrived (0 ∷ 5 ∷ 0 ∷ [])
      ∷ arrived (0 ∷ 1 ∷ 0 ∷ 0 ∷ 0 ∷ 0 ∷ 0 ∷ 0 ∷ [])
      ∷ [];
  sent = [];
}

receive_exact-cut_example :
    (rest : List Event) × (receive_exact 3 wire
      ≡ ok (take 3 (flat wire.incoming), record { incoming = rest; sent = wire.sent }))
    × (flat rest ≡ drop 3 (flat wire.incoming))
    × ArePieces rest
receive_exact-cut_example = receive_exact-cut 3 wire tt (omega arith)

abbrev router : Destination
router = ipv4 (10 ∷ 0 ∷ 0 ∷ 1 ∷ [])

abbrev after : Wire
after = record { incoming = []; sent = 5 ∷ 1 ∷ 0 ∷ (connect_request router 22) }

socks5-Sends_example :
    after.sent
    ≡ wire.sent ++ (5 ∷ 1 ∷ method_of none ∷ (login_bytes none ++ connect_request router 22))
unfolding socks5 socks_login check_reply bound_length receive_exact exact_loop
socks5-Sends_example = socks5-Sends none router 22 wire after refl

request_of-connect_request_example : request_of (connect_request router 22) ≡ some (router, 22)
request_of-connect_request_example = request_of-connect_request router 22 refl

target_of-request_line_example :
    target_of (request_line (b':' ∷ b':' ∷ b'1' ∷ []) 8443) ≡ some (b':' ∷ b':' ∷ b'1' ∷ [], 8443)
target_of-request_line_example =
    target_of-request_line (b':' ∷ b':' ∷ b'1' ∷ []) 8443
      (IsHost.address b':' (b':' ∷ b'1' ∷ []) refl refl)

abbrev greeting : Wire
greeting = record {
  incoming = arrived (b'L' ∷ b'o' ∷ b'g' ∷ []) ∷ arrived (b'i' ∷ b'n' ∷ b':' ∷ b' ' ∷ []) ∷ [];
  sent = [];
}

-- A prompt in two chunks.
greeted :
    read_prompt is_username_prompt none greeting
    ≡ ok (
      (b'L' ∷ b'o' ∷ b'g' ∷ b'i' ∷ b'n' ∷ b':' ∷ b' ' ∷ [], none),
      record { incoming = []; sent = [] },
    )
unfolding read_prompt prompt_loop is_label is_rejection
greeted = refl

read_prompt-enough_example :
    prompt_loop is_username_prompt (5 + prompt_limit) 0 none [] greeting
    ≡ read_prompt is_username_prompt none greeting
read_prompt-enough_example = read_prompt-enough is_username_prompt 5 none greeting

abbrev accepting : Wire
accepting = record {
  incoming =
      arrived (
        b'H' ∷ b'T' ∷ b'T' ∷ b'P' ∷ b'/' ∷ b'1' ∷ b'.' ∷ b'1' ∷ []
        ++ b' ' ∷ b'2' ∷ b'0' ∷ b'0' ∷ crlf
        ++ crlf)
      ∷ [];
  sent = [];
}

abbrev opened : Outcome Raised (Unit {0} × Wire)
opened = http_connect (λ bytes. bytes) none (b'a' ∷ []) 22 accepting

tunnelled :
    opened
    ≡ ok (tt, record { incoming = []; sent = http_request (λ bytes. bytes) none (b'a' ∷ []) 22 })
unfolding http_connect receive_until until_loop http_request split_lines check_answer status_of send
tunnelled = refl

-- A socket, and a channel that is owned after the deadline.
abbrev socket : Resource
socket = record { key = 1; is_client = false }

abbrev channel : Resource
channel = record { key = 2; is_client = false }

abbrev both_released : Deadline
both_released = record {
  expired = true;
  is_closed = true;
  resources = [];
  refused = [];
  taken = [] ∷ [];
  released = socket ∷ channel ∷ [];
  owned = socket ∷ channel ∷ [];
}

Reach-both_released : Reach both_released
unfolding own close clients_first
Reach-both_released =
    Reach.next
      (Reach.next
        (Reach.next
          (Reach.next (Reach.next (Reach.next Reach.here (Step.owns socket)) Step.expires)
            Step.closes)
          (Step.owns channel))
        (Step.releases socket [] [] [] refl))
      (Step.refuses channel [] [] refl)

Reach-released_example : times 2 both_released.released ≡ times 2 both_released.owned
Reach-released_example =
    Reach-released Reach-both_released refl (record { refused = refl; taken = λ key. refl }) 2
