-- ===== src/Telnet/Reads.antt =====
-- `_recv_until` of app/dal/device/telnet_client.py: reading up to a marker, with a deadline and a
-- limit on the size.
use network_gateway_api.Prelude.{
  ℕ, ◌≤◌, ◌≡◌, sym, ap, ◌∙◌, inl, inr, Bool, true, false, ◌&&◌, ◌||◌, List, [], ◌∷◌, ◌++◌,
  append_assoc, append-nil, arith, length, ltb, ◌==◌, if◌then◌else◌, Bool-cases, ltb_false→le,
}
use network_gateway_api.Telnet.Negotiator.{Bytes, Negotiator, feed}
use network_gateway_api.Telnet.Chunks.{feed-append}

-- Python's `marker in data`.
abbrev pub starts_with : Bytes → Bytes → Bool
starts_with [] data' = true
starts_with (m ∷ ms) [] = false
starts_with (m ∷ ms) (d ∷ ds) = m == d && starts_with ms ds

unfoldable pub contains : Bytes → Bytes → Bool
contains marker [] = starts_with marker []
contains marker (d ∷ ds) = starts_with marker (d ∷ ds) || contains marker ds

-- What a round of the loop meets: the deadline has passed, `recv` fails, or it returns a chunk,
-- which is empty at the end of the stream.
pub data Round : Type 0 where
  late : Round
  failed : Round
  received : Bytes → Round

-- `_TelnetReadError` with its `partial`.
pub data ReadError : Type 0 where
  timed_out : Bytes → ReadError
  read_failed : Bytes → ReadError
  closed : Bytes → ReadError
  exceeded : Bytes → ReadError

pub data Read : Type 0 where
  -- the text, the negotiator, and the rounds that were not needed
  done : Bytes → Negotiator → List Round → Read
  raised : ReadError → Negotiator → List Round → Read
  -- the rounds are used up, and the call still waits
  waiting : Bytes → Negotiator → Read

unfoldable pub recv_loop : Bytes → ℕ → Negotiator → Bytes → List Round → Read
unfolding feed
recv_loop marker max_bytes n buf [] = if contains marker buf then done buf n [] else waiting buf n
recv_loop marker max_bytes n buf (late ∷ rounds) =
    if contains marker buf then done buf n (late ∷ rounds) else raised (timed_out buf) n rounds
recv_loop marker max_bytes n buf (failed ∷ rounds) =
    if contains marker buf then done buf n (failed ∷ rounds) else raised (read_failed buf) n rounds
recv_loop marker max_bytes n buf (received [] ∷ rounds) =
    if contains marker buf then done buf n (received [] ∷ rounds) else raised (closed buf) n rounds
recv_loop marker max_bytes n buf (received (b ∷ bs) ∷ rounds) =
    let n' = (feed n (b ∷ bs)).0 in
    let buf' = buf ++ (feed n (b ∷ bs)).1 in
    let rest = recv_loop marker max_bytes n' buf' rounds in
    if contains marker buf
    then done buf n (received (b ∷ bs) ∷ rounds)
    else if ltb max_bytes (length buf')
    then raised (exceeded buf') n' rounds
    else rest

-- DEFAULT_MAX_RESPONSE_BYTES
abbrev pub default_max_response_bytes : ℕ
default_max_response_bytes = 8192

unfoldable pub recv_until : Bytes → ℕ → Negotiator → List Round → Read
unfolding recv_loop
recv_until marker max_bytes n rounds = recv_loop marker max_bytes n [] rounds

-- The bytes of the rounds that a call used.
abbrev pub wire : List Bytes → Bytes
wire [] = []
wire (chunk ∷ chunks) = chunk ++ wire chunks

abbrev pub all_received : List Bytes → List Round
all_received [] = []
all_received (chunk ∷ chunks) = received chunk ∷ all_received chunks

-- A complete response: it holds the marker, it is within the limit, and it is the cleaned text of
-- exactly the chunks that were taken, after what was read before them.
pub record IsComplete (marker : Bytes) (max_bytes : ℕ) (n : Negotiator) (before : Bytes)
    (rounds : List Round) (out : Bytes) (n' : Negotiator) (rest : List Round) : Type 0 where
  pub marked : contains marker out ≡ true
  pub bounded : length out ≤ max_bytes
  pub chunks : List Bytes
  pub used : rounds ≡ all_received chunks ++ rest
  pub state : (feed n (wire chunks)).0 ≡ n'
  pub text : before ++ (feed n (wire chunks)).1 ≡ out

module _ (marker : Bytes) (max_bytes : ℕ) where
  abbrev Complete : Negotiator → Bytes → List Round → Bytes → Negotiator → List Round → Type 0
  Complete = IsComplete marker max_bytes

  -- The test of the loop passes at once.
  IsComplete-found :
      (n : Negotiator) (buf : Bytes) (rounds : List Round) {out : Bytes} {n' : Negotiator}
      {rest : List Round}
      → contains marker buf ≡ true
      → length buf ≤ max_bytes
      → done buf n rounds ≡ done out n' rest
      → Complete n buf rounds out n' rest
  unfolding feed
  IsComplete-found n buf rounds found fits e = record {
    marked = ground arith;
    bounded = ground arith;
    chunks = [];
    used = cc;
    state = cc;
    text = append-nil buf ∙ (cc);
  }

  -- One more chunk, read before the others.
  IsComplete-more :
      (n : Negotiator) (buf chunk : Bytes) (rounds : List Round) {out : Bytes} {n' : Negotiator}
      {rest : List Round}
      → Complete (feed n chunk).0 (buf ++ (feed n chunk).1) rounds out n' rest
      → Complete n buf (received chunk ∷ rounds) out n' rest
  IsComplete-more n buf chunk rounds c = record {
    marked = c.marked;
    bounded = c.bounded;
    chunks = chunk ∷ c.chunks;
    used = ap (λ rs. received chunk ∷ rs) c.used;
    state = rw (feed-append n chunk (wire c.chunks)) c.state;
    text =
        rw (feed-append n chunk (wire c.chunks))
          (sym (append_assoc buf (feed n chunk).1 _) ∙ c.text);
  }

  recv_loop-IsComplete :
      (n : Negotiator) (buf : Bytes) (rounds : List Round) {out : Bytes} {n' : Negotiator}
      {rest : List Round}
      → length buf ≤ max_bytes
      → recv_loop marker max_bytes n buf rounds ≡ done out n' rest
      → Complete n buf rounds out n' rest
  unfolding recv_loop
  recv_loop-IsComplete n buf [] fits e = elim (Bool-cases (contains marker buf)) [
    | inl f ↦ IsComplete-found n buf [] f fits (rw f at e)
    | inr f ↦ let e' = rw f at e in cc
  ]
  recv_loop-IsComplete n buf (late ∷ rounds) fits e = elim (Bool-cases (contains marker buf)) [
    | inl f ↦ IsComplete-found n buf (late ∷ rounds) f fits (rw f at e)
    | inr f ↦ let e' = rw f at e in cc
  ]
  recv_loop-IsComplete n buf (failed ∷ rounds) fits e = elim (Bool-cases (contains marker buf)) [
    | inl f ↦ IsComplete-found n buf (failed ∷ rounds) f fits (rw f at e)
    | inr f ↦ let e' = rw f at e in cc
  ]
  recv_loop-IsComplete n buf (received [] ∷ rounds) fits e =
      elim (Bool-cases (contains marker buf)) [
        | inl f ↦ IsComplete-found n buf (received [] ∷ rounds) f fits (rw f at e)
        | inr f ↦ let e' = rw f at e in cc
      ]
  recv_loop-IsComplete n buf (received (b ∷ bs) ∷ rounds) fits e =
      elim (Bool-cases (contains marker buf)) [
        | inl f ↦ IsComplete-found n buf (received (b ∷ bs) ∷ rounds) f fits (rw f at e)
        | inr f ↦ elim (Bool-cases (ltb max_bytes (length (buf ++ (feed n (b ∷ bs)).1)))) [
          | inl g ↦ let e' = rw (f, g) at e in cc
          | inr g ↦ IsComplete-more n buf (b ∷ bs) rounds (
              recv_loop-IsComplete (feed n (b ∷ bs)).0 (buf ++ (feed n (b ∷ bs)).1) rounds
                (ltb_false→le _ _ g) (rw (f, g) at e))
        ]
      ]

  -- What is returned is a complete response: it holds the marker, has at most `max_bytes` bytes,
  -- and is the cleaned text of exactly the chunks taken from the front of the stream, with the
  -- negotiator in the state after them and the other rounds left. Nothing partial is returned.
  pub recv_until-IsComplete :
      (n : Negotiator) (rounds : List Round) {out : Bytes} {n' : Negotiator} {rest : List Round}
      → recv_until marker max_bytes n rounds ≡ done out n' rest
      → IsComplete marker max_bytes n [] rounds out n' rest
  unfolding recv_until
  recv_until-IsComplete n rounds e = recv_loop-IsComplete n [] rounds (omega arith) e

-- Whether the deadline passes within the rounds.
abbrev pub HasLate : List Round → Type 0
HasLate [] = ⊥
HasLate (late ∷ rounds) = Unit
HasLate (_ ∷ rounds) = HasLate rounds

abbrev pub IsWaiting : Read → Type 0
IsWaiting (waiting _ _) = Unit
IsWaiting _ = ⊥

recv_loop-ends :
    (marker : Bytes) (max_bytes : ℕ) (n : Negotiator) (buf : Bytes) (rounds : List Round)
    → HasLate rounds
    → ¬ IsWaiting (recv_loop marker max_bytes n buf rounds)
unfolding recv_loop
recv_loop-ends marker k n buf [] h = elim h [ ]
recv_loop-ends marker k n buf (late ∷ rounds) h = ground arith
recv_loop-ends marker k n buf (failed ∷ rounds) h = ground arith
recv_loop-ends marker k n buf (received [] ∷ rounds) h = ground arith
recv_loop-ends marker k n buf (received (b ∷ bs) ∷ rounds) h =
    ground
      (arith, recv_loop-ends marker k (feed n (b ∷ bs)).0 (buf ++ (feed n (b ∷ bs)).1) rounds h)

-- A read does not wait past its deadline: if it passes in one of the rounds, the loop has ended
-- by then, with a complete response or with an error.
pub recv_until-ends :
    (marker : Bytes) (max_bytes : ℕ) (n : Negotiator) (rounds : List Round)
    → HasLate rounds
    → ¬ IsWaiting (recv_until marker max_bytes n rounds)
unfolding recv_until
recv_until-ends marker max_bytes n rounds h = recv_loop-ends marker max_bytes n [] rounds h
