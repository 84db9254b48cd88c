-- ===== src/Auth/Signed.antt =====
-- `_sign` and `_unsign` of app/bl/services/auth.py: values with a signature.
pub mod Laws
use Prim.Native.Char.{Char, code}
use Prim.Native.String.{[], ◌∷◌}
use network_gateway_api.Prelude.{
  ℕ, ◌≡◌, refl, ◌∙◌, Bool, true, false, not, ◌&&◌, ◌||◌, Option, none, some, String, str_eq, eq_iff,
  leb, ◌==◌, if◌then◌else◌, Outcome, ok, err, arith, Bool-cases, Option-cases, inl, inr, &&-true,
  ap,
}
use network_gateway_api.Value.{Value, Fields, Items, dict, list, end, field, nil, cons, is_empty}
use network_gateway_api.Audit.Timestamps.{text_le}
use network_gateway_api.Text.{append, all_chars}
use network_gateway_api.Identity.{AuthError, value_error}

-- `value.rsplit(".", 1)`, with `none` where there is no dot
unfoldable pub split_last : String → Option (String × String)
split_last [] = none
split_last (c ∷ text) = elim (split_last text) [
  | some (front, back) ↦ some (c ∷ front, back)
  | none ↦ if code c == 46 then some ("", text) else none
]

-- The alphabet of `_decode_b64url`
abbrev pub is_b64url : ℕ → Bool
is_b64url c =
    (leb 65 c && leb c 90)
    || (leb 97 c && leb c 122)
    || (leb 48 c && leb c 57)
    || c == 45
    || c == 95

abbrev pub is_ascii : ℕ → Bool
is_ascii c = leb c 127

-- Put a key before the first that does not come before it.
unfoldable pub put_key : String → Value → Fields → Fields
unfolding text_le
put_key key value end = field key value end
put_key key value (field k v fields) =
    let rest = field k v (put_key key value fields) in
    if text_le key k then field key value (field k v fields) else rest

-- A value with the keys of its dicts in order, as `json.dumps(..., sort_keys=True)` writes it
unfoldable mutual
  unfolding put_key

  pub sort_value : Value → Value
  sort_value (dict fields) = dict (sort_fields fields)
  sort_value (list items) = list (sort_items items)
  sort_value value = value

  pub sort_fields : Fields → Fields
  sort_fields end = end
  sort_fields (field key value fields) = put_key key (sort_value value) (sort_fields fields)

  pub sort_items : Items → Items
  sort_items nil = nil
  sort_items (cons value items) = cons (sort_value value) (sort_items items)

-- What the code takes from Python: base64 without its padding, JSON with sorted keys, and
-- HMAC-SHA256. A text of bytes has a character for each byte.
pub record Codec : Type 0 where
  pub b64url : String → String
  pub decode_b64 : String → Option String
  pub dumps : Fields → String
  pub loads : String → Option Value
  pub mac : (secret message : String) → String

-- Base64 of these bytes has text of its alphabet and is undone by decoding.
pub record IsEncoded (codec : Codec) (bytes : String) : Type 0 where
  pub decoded : codec.decode_b64 (codec.b64url bytes) ≡ some bytes
  pub alphabet : all_chars is_b64url (codec.b64url bytes) ≡ true
  pub nonempty : is_empty (codec.b64url bytes) ≡ false

-- What the documentation of base64 and json says, at one payload and one secret.
pub record IsFaithful (codec : Codec) (payload : Fields) (secret : String) : Type 0 where
  pub document : IsEncoded codec (codec.dumps payload)
  pub signature : IsEncoded codec (codec.mac secret (codec.b64url (codec.dumps payload)))
  pub read_back : codec.loads (codec.dumps payload) ≡ some (dict (sort_fields payload))

module _ (codec : Codec) where
  -- `_decode_b64url`
  unfoldable pub decode_b64url : String → Option String
  decode_b64url value =
      if is_empty value || not (all_chars is_b64url value) then none else codec.decode_b64 value

  -- `_json_segment`; `none` where it raises a ValueError
  unfoldable pub json_segment : String → Option Fields
  unfolding decode_b64url
  json_segment value = elim (decode_b64url value) [
    | none ↦ none
    | some bytes ↦ elim (codec.loads bytes) [ some (dict fields) ↦ some fields | _ ↦ none ]
  ]

  -- `_sign`
  unfoldable pub sign : Fields → String → String
  sign payload secret =
      let encoded = codec.b64url (codec.dumps payload) in
      append encoded (append "." (codec.b64url (codec.mac secret encoded)))

  -- `hmac.compare_digest(expected, _decode_b64url(signature))`
  abbrev pub has_mac : String → String → String → Bool
  has_mac secret encoded signature = elim (decode_b64url signature) [
    | none ↦ false
    | some bytes ↦ str_eq (codec.mac secret encoded) bytes
  ]

  -- `_unsign`; `none` where it raises a ValueError
  unfoldable pub unsign : String → String → Option Fields
  unfolding split_last json_segment decode_b64url
  unsign value secret = elim (split_last value) [
    | none ↦ none
    | some (encoded, signature) ↦
        if all_chars is_ascii encoded && has_mac secret encoded signature
        then json_segment encoded
        else none
  ]
