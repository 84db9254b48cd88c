-- ===== src/Telnet/Tests.antt =====
-- The Telnet client at concrete inputs.
use network_gateway_api.Prelude.{◌≡◌, refl, [], ◌∷◌, ◌++◌, concat_map, arith}
use network_gateway_api.Prelude.{true, false, none, some, Option, List, Outcome, ok, err}
use network_gateway_api.Prelude.Int.{Float, pos, dyadic}
use network_gateway_api.Telnet.Client.{
  Client, Net, Failure, gateway, unexpected, not_authenticated, username_marker, password_marker,
  prompt, run_command,
}
use network_gateway_api.Telnet.Client.Early.{IsConsistent}
use network_gateway_api.Telnet.Client.Ordered.{Reach, Step, Reach-IsConsistent}
use network_gateway_api.Telnet.Negotiator.{Bytes, init, iac, dont, will, feed}
use network_gateway_api.Telnet.Chunks.{feed-append}
use network_gateway_api.Telnet.Grammar.{text, request, subnegotiation, encode, resting, feed-encode}
use network_gateway_api.Telnet.Reads.{
  Round, received, late, contains, recv_until, IsComplete, IsWaiting, recv_until-IsComplete,
  recv_until-ends,
}

-- A request split over two reads.
feed-append_example : feed init ((104 ∷ 0xff ∷ []) ++ (0xfb ∷ 1 ∷ [])) ≡ (
  (feed (feed init (104 ∷ 0xff ∷ [])).0 (0xfb ∷ 1 ∷ [])).0,
  (feed init (104 ∷ 0xff ∷ [])).1 ++ (feed (feed init (104 ∷ 0xff ∷ [])).0 (0xfb ∷ 1 ∷ [])).1,
)
feed-append_example = feed-append init (104 ∷ 0xff ∷ []) (0xfb ∷ 1 ∷ [])

feed-encode_example :
    feed init (concat_map encode (text 104 ∷ request will 1 ∷ subnegotiation (255 ∷ []) ∷ []))
    ≡ (resting will ((iac ∷ dont ∷ 1 ∷ []) ∷ []), 104 ∷ [])
feed-encode_example =
    feed-encode 0 [] (text 104 ∷ request will 1 ∷ subnegotiation (255 ∷ []) ∷ [])
      (omega arith, (refl, (tt, tt)))

-- The prompt comes in two chunks, and a third is left.
recv_until-IsComplete_example :
    IsComplete
      (62 ∷ 32 ∷ [])
      8
      init
      []
      (received (10 ∷ 62 ∷ []) ∷ received (32 ∷ []) ∷ received (1 ∷ []) ∷ [])
      (10 ∷ 62 ∷ 32 ∷ [])
      init
      (received (1 ∷ []) ∷ [])
unfolding recv_until feed contains
recv_until-IsComplete_example =
    recv_until-IsComplete (62 ∷ 32 ∷ []) 8 init
      (received (10 ∷ 62 ∷ []) ∷ received (32 ∷ []) ∷ received (1 ∷ []) ∷ []) refl

recv_until-ends_example :
    ¬ IsWaiting (recv_until (62 ∷ 32 ∷ []) 8 init (received (10 ∷ []) ∷ late ∷ []))
recv_until-ends_example = recv_until-ends (62 ∷ 32 ∷ []) 8 init (received (10 ∷ []) ∷ late ∷ []) tt

abbrev closed_client : Client
closed_client = record { session = none; authenticated = false; log = [] }

abbrev chunk : Bytes → List Round
chunk bytes = received bytes ∷ []

abbrev net : Net
net = record {
  connects = true ∷ [];
  sends = true ∷ true ∷ true ∷ [];
  rounds =
      chunk username_marker
      ∷ chunk password_marker
      ∷ chunk prompt
      ∷ chunk (b'u' ∷ b'p' ∷ prompt)
      ∷ [];
}

abbrev five_seconds : Option Float
five_seconds = some (dyadic (pos 5) 0)

abbrev shown : Outcome Failure Bytes × Client × Net
shown = run_command five_seconds true "show" closed_client net

shows : shown.0 ≡ ok (b'u' ∷ b'p' ∷ prompt)
unfolding run_command
shows = refl

-- A login that ends before its block, since a setting is missing, leaves the connection open: the
-- next call does not log in again.
abbrev without_credentials : Outcome Failure Bytes × Client × Net
without_credentials = run_command five_seconds false "show" closed_client net

left_open : (without_credentials.0 ≡ err unexpected) × (without_credentials.1.session ≡ some init)
unfolding run_command
left_open = (refl, refl)

not_logged_in :
    (run_command five_seconds true "show" without_credentials.1 net).0
    ≡ err (gateway not_authenticated)
unfolding run_command
not_logged_in = refl

Reach-IsConsistent_example : IsConsistent shown.1
Reach-IsConsistent_example =
    Reach-IsConsistent five_seconds true
      (record { opened = λ h. cc; logged_in = λ h. absurd (cc); ordered = tt })
      (Reach.next Reach.here (Step.runs "show" net))
