-- ===== src/Auth/Token.antt =====
-- `_verify_token` of app/bl/services/auth.py. The check of an RSA signature is a parameter: it
-- tells whether `cryptography` accepts the third part of the token as a signature over the first
-- two by a key of the key set.
use network_gateway_api.Prelude.{
  ℕ, Bool, ◌&&◌, Option, none, some, List, [], ◌∷◌, String, if◌then◌else◌, Outcome, ok, err,
}
use network_gateway_api.Prelude.Int.{Float}
use network_gateway_api.Value.{Value, Items, Fields, str, list, dict, nil, cons, get_value}
use network_gateway_api.Text.Split.{split, is_dot}
use network_gateway_api.Identity.{AuthError, value_error, unexpected}
use network_gateway_api.Auth.Settings.{AuthSettings}
use network_gateway_api.Auth.Signed.{Codec, json_segment}
use network_gateway_api.Auth.Keys.{Cache, unavailable, discovery, jwks}
use network_gateway_api.Auth.Claims.{invalid_token, is_str, claims_hold}

-- The generator over the keys: the first that matches. An item that is no dict has no `get`.
unfoldable pub find_key : String → Items → Outcome AuthError Fields
find_key kid nil = err invalid_token
find_key kid (cons (dict key) items) =
    let rest = find_key kid items in
    if is_str kid (get_value "kid" key) && is_str "RSA" (get_value "kty" key) then ok key else rest
find_key kid (cons _ items) = err unexpected

-- `header["kid"]`, if the header is one that the code supports
unfoldable pub kid_of : Fields → Option String
kid_of header =
    if is_str "RS256" (get_value "alg" header)
    then elim (get_value "kid" header) [ str kid ↦ some kid | _ ↦ none ]
    else none

-- What the `except` clause makes of an error: a ValueError becomes 401.
abbrev pub caught : AuthError → AuthError
caught value_error = invalid_token
caught e = e

abbrev pub keys_of : Value → Items
keys_of (list items) = items
keys_of _ = nil

module _ (codec : Codec) (fetch : String → Option Value)
    (signature_ok : Fields → (header claims signature : String) → Bool) (settings : AuthSettings)
    (clock : ℕ) (now : Float) where
  abbrev pub key_set_at : Value → Cache → Outcome AuthError Fields × Cache
  key_set_at (str uri) cache = jwks fetch clock uri cache
  key_set_at _ cache = (err unavailable, cache)

  -- `_jwks(discovery["jwks_uri"])`; `requests` refuses a URL that is no text.
  unfoldable pub key_set : Fields → Cache → Outcome AuthError Fields × Cache
  unfolding jwks
  key_set document cache = key_set_at (get_value "jwks_uri" document) cache

  -- The key that the header names
  unfoldable pub public_key : String → Cache → Outcome AuthError Fields × Cache
  unfolding discovery key_set find_key
  public_key kid cache =
      let (found, cache') = discovery fetch clock settings.tenant_id cache in
      elim found [
        | err e ↦ (err e, cache')
        | ok document ↦
            let (keys, cache'') = key_set document cache' in
            elim keys [
              | err e ↦ (err e, cache'')
              | ok set ↦ (find_key kid (keys_of (get_value "keys" set)), cache'')
            ]
      ]

  -- With the key
  unfoldable pub check_claims :
      (audience : String) (nonce : Option String) (header claims signature : String)
      → Fields
      → Outcome AuthError Fields
  unfolding claims_hold json_segment
  check_claims audience nonce header claims signature key =
      if signature_ok key header claims signature
      then elim (json_segment codec claims) [
        | none ↦ err invalid_token
        | some fields ↦
            if claims_hold settings audience nonce now fields then ok fields else err invalid_token
      ]
      else err invalid_token

  -- With the three parts
  unfoldable pub verify_parts :
      (audience : String) (nonce : Option String) (header claims signature : String)
      → Cache
      → Outcome AuthError Fields × Cache
  unfolding json_segment kid_of public_key check_claims
  verify_parts audience nonce header claims signature cache = elim (json_segment codec header) [
    | none ↦ (err invalid_token, cache)
    | some fields ↦ elim (kid_of fields) [
      | none ↦ (err invalid_token, cache)
      | some kid ↦
          let (found, cache') = public_key kid cache in
          elim found [
            | err e ↦ (err (caught e), cache')
            | ok key ↦ (check_claims audience nonce header claims signature key, cache')
          ]
    ]
  ]

  abbrev pub three :
      (audience : String) (nonce : Option String)
      → List String
      → Cache
      → Outcome AuthError Fields × Cache
  three audience nonce (header ∷ claims ∷ signature ∷ []) cache =
      verify_parts audience nonce header claims signature cache
  three _ _ _ cache = (err invalid_token, cache)

  -- `_verify_token`
  unfoldable pub verify_token :
      String
      → (audience : String) (nonce : Option String) → Cache
      → Outcome AuthError Fields × Cache
  unfolding split verify_parts
  verify_token token audience nonce cache = three audience nonce (split is_dot token) cache
