-- ===== src/Telnet/Grammar.antt =====
-- What a Telnet peer may send (RFC 854), item by item, and what the client of
-- app/dal/device/telnet_client.py makes of it.
use network_gateway_api.Prelude.{
  ℕ, ◌≡◌, ◌≢◌, ◌⊎◌, inl, inr, refl, ◌∙◌, false, true, List, [], ◌∷◌, ◌++◌, append_assoc, append-nil,
  arith, All, concat_map, Bool-cases, ==_of_ne, ◌==◌, if◌then◌else◌,
}
use network_gateway_api.Telnet.Negotiator.{
  Bytes, Negotiator, normal, got_sb, iac, dont, do_option, wont, will, sb, se, is_verb, step_in,
  feed,
}
use network_gateway_api.Telnet.Chunks.{feed-append}

pub data Item : Type 0 where
  text : ℕ → Item
  escaped_iac : Item
  request : ℕ → ℕ → Item
  command : ℕ → Item
  subnegotiation : Bytes → Item

-- An IAC inside a payload is doubled.
abbrev pub hide_iac : ℕ → Bytes
hide_iac byte = if byte == iac then iac ∷ iac ∷ [] else byte ∷ []

abbrev pub encode : Item → Bytes
encode (text byte) = byte ∷ []
encode escaped_iac = iac ∷ iac ∷ []
encode (request verb option) = iac ∷ verb ∷ option ∷ []
encode (command code) = iac ∷ code ∷ []
encode (subnegotiation payload) = iac ∷ sb ∷ (concat_map hide_iac payload ++ iac ∷ se ∷ [])

-- A text byte is no IAC; a command without an option is none of the codes with a meaning here.
abbrev pub IsWellFormed : Item → Type 0
IsWellFormed (text byte) = byte ≢ iac
IsWellFormed (request verb _) = is_verb verb ≡ true
IsWellFormed (command code) = (code ≢ iac) × (code ≢ sb) × (is_verb code ≡ false)
IsWellFormed _ = Unit

-- The text that an item stands for.
abbrev pub literal : Item → Bytes
literal (text byte) = byte ∷ []
literal escaped_iac = iac ∷ []
literal _ = []

-- RFC 854: the refusal that an offer or a demand is answered with.
abbrev pub refusal : Item → List Bytes
refusal (request verb option) =
    if verb == will
    then (iac ∷ dont ∷ option ∷ []) ∷ []
    else if verb == do_option
    then (iac ∷ wont ∷ option ∷ []) ∷ []
    else []
refusal _ = []

-- The verb that `_pending_verb` is left with.
abbrev pub last_verb : ℕ → Item → ℕ
last_verb verb (request asked _) = asked
last_verb verb _ = verb

abbrev pub last_verbs : ℕ → List Item → ℕ
last_verbs verb [] = verb
last_verbs verb (i ∷ items) = last_verbs (last_verb verb i) items

-- Between two items, and inside a payload.
abbrev pub resting : ℕ → List Bytes → Negotiator
resting verb sent = record { mode = normal; pending_verb = verb; sent = sent }

abbrev inside : ℕ → List Bytes → Negotiator
inside verb sent = record { mode = got_sb; pending_verb = verb; sent = sent }

is_verb-cases :
    (verb : ℕ)
    → is_verb verb ≡ true
    → (verb ≡ do_option) ⊎ ((verb ≡ dont) ⊎ ((verb ≡ will) ⊎ (verb ≡ wont)))
is_verb-cases verb h = ground arith

module _ (verb : ℕ) (sent : List Bytes) where
  feed-hide_iac :
      (byte : ℕ) (rest : Bytes)
      → feed (inside verb sent) (hide_iac byte ++ rest) ≡ feed (inside verb sent) rest
  unfolding feed
  feed-hide_iac byte rest = elim (Bool-cases (byte == iac)) [
    | inl e ↦ rw e refl
    | inr e ↦ rw (e, step_in, e) refl
  ]

  -- A payload is consumed unread.
  feed-payload :
      (payload rest : Bytes)
      → feed (inside verb sent) (concat_map hide_iac payload ++ rest) ≡ feed (inside verb sent) rest
  feed-payload [] rest = refl
  feed-payload (byte ∷ payload) rest =
      rw (append_assoc (hide_iac byte) (concat_map hide_iac payload) rest)
        (feed-hide_iac byte (concat_map hide_iac payload ++ rest) ∙ feed-payload payload rest)

  feed-encode_item :
      (i : Item)
      → IsWellFormed i
      → feed (resting verb sent) (encode i)
        ≡ (resting (last_verb verb i) (sent ++ refusal i), literal i)
  unfolding feed
  feed-encode_item (text byte) w = rw (==_of_ne byte iac w, append-nil sent)
  feed-encode_item escaped_iac w = rw (append-nil sent)
  feed-encode_item (request asked option) w = elim (is_verb-cases asked w) [
    | inl e ↦ rw e
    | inr (inl e) ↦ rw (e, append-nil sent)
    | inr (inr (inl e)) ↦ rw e
    | inr (inr (inr e)) ↦ rw (e, append-nil sent)
  ]
  feed-encode_item (command code) w =
      rw (==_of_ne code iac w.0, w.2, ==_of_ne code sb w.1, append-nil sent)
  feed-encode_item (subnegotiation payload) w =
      rw (append-nil sent) (feed-payload payload (iac ∷ se ∷ []))

-- Whatever a peer sends, items one after the other from a state between two items, the client
-- keeps exactly the literal text, is again between two items, and has sent one refusal for each
-- offer and each demand, in their order, and nothing else.
pub feed-encode :
    (verb : ℕ) (sent : List Bytes) (items : List Item)
    → All IsWellFormed items
    → feed (resting verb sent) (concat_map encode items) ≡ (
      resting (last_verbs verb items) (sent ++ concat_map refusal items),
      concat_map literal items,
    )
feed-encode verb sent [] w = unfold feed in rw append-nil
feed-encode verb sent (i ∷ items) (w, ws) = rw (
  feed-append (resting verb sent) (encode i) (concat_map encode items),
  feed-encode_item verb sent i w,
  feed-encode (last_verb verb i) (sent ++ refusal i) items ws,
  append_assoc sent (refusal i) (concat_map refusal items),
)
