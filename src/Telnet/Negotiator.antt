-- ===== src/Telnet/Negotiator.antt =====
-- `_TelnetNegotiator` of app/dal/device/telnet_client.py. A byte is a number below 256; what
-- `_reply` hands to `sendall` is appended to `sent`, whether or not the socket takes it.
use network_gateway_api.Prelude.{ℕ, ◌≡◌, refl, Bool, ◌||◌, List, [], ◌∷◌, ◌++◌, ◌==◌, if◌then◌else◌}

abbrev pub Bytes : Type 0
Bytes = List ℕ

-- RFC 854
abbrev pub iac : ℕ
iac = 0xff

abbrev pub dont : ℕ
dont = 0xfe

abbrev pub do_option : ℕ
do_option = 0xfd

abbrev pub wont : ℕ
wont = 0xfc

abbrev pub will : ℕ
will = 0xfb

abbrev pub sb : ℕ
sb = 0xfa

abbrev pub se : ℕ
se = 0xf0

pub data Mode : Type 0 where
  normal got_iac got_verb got_sb got_sb_iac : Mode

pub record Negotiator : Type 0 where
  pub mode : Mode
  pub pending_verb : ℕ
  pub sent : List Bytes

abbrev pub init : Negotiator
init = record { mode = normal; pending_verb = 0; sent = [] }

abbrev pub is_verb : ℕ → Bool
is_verb byte = byte == do_option || byte == dont || byte == will || byte == wont

-- DONT and WONT need no reply.
unfoldable pub reply : ℕ → ℕ → List Bytes
reply verb option =
    if verb == do_option
    then (iac ∷ wont ∷ option ∷ []) ∷ []
    else if verb == will
    then (iac ∷ dont ∷ option ∷ []) ∷ []
    else []

-- One round of the loop in `feed`: the new state, and what is appended to `out`.
unfoldable pub step_in : Mode → Negotiator → ℕ → Negotiator × Bytes
unfolding reply
step_in normal n byte = if byte == iac then (record n { mode = got_iac }, []) else (n, byte ∷ [])
step_in got_iac n byte =
    if byte == iac
    then (record n { mode = normal }, iac ∷ [])
    else if is_verb byte
    then (record n { mode = got_verb; pending_verb = byte }, [])
    else if byte == sb
    then (record n { mode = got_sb }, [])
    else (record n { mode = normal }, [])
step_in got_verb n byte =
    (record n { mode = normal; sent = n.sent ++ reply n.pending_verb byte }, [])
step_in got_sb n byte = if byte == iac then (record n { mode = got_sb_iac }, []) else (n, [])
step_in got_sb_iac n byte =
    if byte == se then (record n { mode = normal }, []) else (record n { mode = got_sb }, [])

abbrev pub step : Negotiator → ℕ → Negotiator × Bytes
step n byte = step_in n.mode n byte

unfoldable pub feed_loop : Negotiator → Bytes → Bytes → Negotiator × Bytes
feed_loop n out [] = (n, out)
feed_loop n out (byte ∷ rest) =
    let (n', cleaned) = step n byte in feed_loop n' (out ++ cleaned) rest

unfoldable pub feed : Negotiator → Bytes → Negotiator × Bytes
unfolding feed_loop step_in
feed n chunk = feed_loop n [] chunk

-- A request split over two reads is still answered, and a doubled IAC is one literal byte.
split_request :
    (feed (feed init (b'a' ∷ 0xff ∷ [])).0 (0xfb ∷ 1 ∷ b'b' ∷ 0xff ∷ 0xff ∷ []))
    ≡ (record init { pending_verb = 0xfb; sent = (0xff ∷ 0xfe ∷ 1 ∷ []) ∷ [] }, b'b' ∷ 0xff ∷ [])
unfolding feed
split_request = refl
