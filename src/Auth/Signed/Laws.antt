-- ===== src/Auth/Signed/Laws.antt =====
-- What `_sign` makes, `_unsign` reads; what `_unsign` accepts has the signature of the secret.
use Prim.Native.Char.{code}
use Prim.Native.String.{[], ◌∷◌}
use network_gateway_api.Prelude.{
  ◌≡◌, refl, sym, ◌∙◌, Option, str_eq, if◌then◌else◌, true, false, none, some, String, eq_iff, ◌==◌,
  arith, Bool-cases, inl, inr, &&-true,
}
use network_gateway_api.Value.{Value, Fields, field, end, get}
use network_gateway_api.Audit.Timestamps.{text_le}
use network_gateway_api.Text.{append, all_chars}
use network_gateway_api.Auth.Signed.{
  split_last, is_b64url, is_ascii, Codec, IsEncoded, IsFaithful, decode_b64url, json_segment, sign,
  has_mac, unsign, put_key, sort_value, sort_fields,
}

split_last-none : (text : String) → all_chars is_b64url text ≡ true → split_last text ≡ none
unfolding split_last
split_last-none [] h = refl
split_last-none (c ∷ text) h =
    let (here, there) = &&-true (is_b64url (code c)) (all_chars is_b64url text) h in
    let no_dot : (code c == 46) ≡ false = ground arith in
    rw (split_last-none text there, no_dot) refl

split_last-append :
    (front back : String)
    → all_chars is_b64url back ≡ true
    → split_last (append front (append "." back)) ≡ some (front, back)
unfolding split_last
split_last-append [] back h = rw (split_last-none back h) refl
split_last-append (c ∷ front) back h = rw (split_last-append front back h) refl

all_chars-is_ascii :
    (text : String) → all_chars is_b64url text ≡ true → all_chars is_ascii text ≡ true
all_chars-is_ascii [] h = refl
all_chars-is_ascii (c ∷ text) h =
    let (here, there) = &&-true (is_b64url (code c)) (all_chars is_b64url text) h in
    let low : is_ascii (code c) ≡ true = ground arith in
    rw (all_chars-is_ascii text there, low) refl

module _ (codec : Codec) where
  decode_b64url-b64url :
      (bytes : String)
      → IsEncoded codec bytes
      → decode_b64url codec (codec.b64url bytes) ≡ some bytes
  unfolding decode_b64url
  decode_b64url-b64url bytes h = rw (h.nonempty, h.alphabet, h.decoded) refl

  has_mac-mac :
      (secret message : String)
      → IsEncoded codec (codec.mac secret message)
      → has_mac codec secret message (codec.b64url (codec.mac secret message)) ≡ true
  has_mac-mac secret message h =
      rw (decode_b64url-b64url (codec.mac secret message) h, has_mac)
        ((eq_iff (codec.mac secret message) (codec.mac secret message)).1 refl)

  json_segment-dumps :
      (payload : Fields) (secret : String)
      → IsFaithful codec payload secret
      → json_segment codec (codec.b64url (codec.dumps payload)) ≡ some (sort_fields payload)
  unfolding json_segment
  json_segment-dumps payload secret faithful =
      rw
        (
          decode_b64url-b64url (codec.dumps payload) faithful.document,
          json_segment,
          faithful.read_back,
        )
        refl

  pub unsign-signed_value :
      (payload : Fields) (secret : String)
      → IsFaithful codec payload secret
      → unsign codec (sign codec payload secret) secret ≡ some (sort_fields payload)
  unfolding unsign sign
  unsign-signed_value payload secret faithful =
      let encoded = codec.b64url (codec.dumps payload) in
      let signature = codec.b64url (codec.mac secret encoded) in
      let split : split_last (sign codec payload secret) ≡ some (encoded, signature) =
        split_last-append encoded signature faithful.signature.alphabet in
      rw
        (
          split,
          unsign,
          all_chars-is_ascii encoded faithful.document.alphabet,
          has_mac-mac secret encoded faithful.signature,
        )
        (json_segment-dumps payload secret faithful)

text_le_refl : (a : String) → text_le a a ≡ true
unfolding text_le
text_le_refl [] = refl
text_le_refl (c ∷ a) = ground (arith, text_le_refl a)

get-put_key :
    (key k : String) (value : Value) (fields : Fields)
    → get key (put_key k value fields) ≡ (if str_eq k key then some value else get key fields)
unfolding get put_key
get-put_key key k value end = refl
get-put_key key k value (field j w fields) = elim (Bool-cases (text_le k j)) [
  | inl e ↦ rw (e, put_key) refl
  | inr e ↦ elim (Bool-cases (str_eq k key)) [
    | inl f ↦ elim (Bool-cases (str_eq j key)) [
      | inl g ↦
          let same : k ≡ j = (eq_iff k key).0 f ∙ sym ((eq_iff j key).0 g) in
          let h : text_le k j ≡ true = rw (← same) (text_le_refl k) in absurd (cc)
      | inr g ↦ rw (e, put_key, g) (get-put_key key k value fields ∙ rw f refl)
    ]
    | inr f ↦ elim (Bool-cases (str_eq j key)) [
      | inl g ↦ rw (e, put_key, g, f) refl
      | inr g ↦ rw (e, put_key, g) (get-put_key key k value fields)
    ]
  ]
]

abbrev pub sorted_at : Option Value → Option Value
sorted_at none = none
sorted_at (some value) = some (sort_value value)

get-sort_fields :
    (key : String) (fields : Fields) → get key (sort_fields fields) ≡ sorted_at (get key fields)
unfolding get sort_fields
get-sort_fields key end = refl
get-sort_fields key (field k value fields) = elim (Bool-cases (str_eq k key)) [
  | inl e ↦ get-put_key key k (sort_value value) (sort_fields fields) ∙ rw (e, get) refl
  | inr e ↦
      get-put_key key k (sort_value value) (sort_fields fields)
      ∙ rw (e, get) (get-sort_fields key fields)
]

module _ (codec : Codec) where
  -- A signed value is read back with the same secret, if base64 and JSON do what they document: with its
  -- keys in the order of code points, and under each key the value that it had, its keys in order too.
  pub unsign-sign :
      (payload : Fields) (secret : String)
      → IsFaithful codec payload secret
      → (found : Fields) × (unsign codec (sign codec payload secret) secret ≡ some found)
        × (found ≡ sort_fields payload)
        × ((key : String) → get key found ≡ sorted_at (get key payload))
  unsign-sign payload secret faithful = (
    sort_fields payload,
    unsign-signed_value codec payload secret faithful,
    refl,
    λ key. get-sort_fields key payload,
  )
