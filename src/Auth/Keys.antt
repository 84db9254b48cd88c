-- ===== src/Auth/Keys.antt =====
-- `_discovery` and `_jwks` of app/bl/services/auth.py with their cache. A request is a function
-- from the URL to the JSON document, with `none` where `requests` raises; the clock counts
-- microseconds.

use network_gateway_api.Prelude.{
  ℕ, ◌+◌, Bool, true, false, ◌&&◌, Option, none, some, List, [], ◌∷◌, String, str_eq, ltb,
  if◌then◌else◌, Outcome, ok, err,
}
use network_gateway_api.Value.{Value, Fields, dict, list, get_value, has}
use network_gateway_api.Text.{append}
use network_gateway_api.Identity.{AuthError, http, value_error}

-- `_CACHE`: when an entry expires, and its document
abbrev pub Cache : Type 0
Cache = List (String × (ℕ × Fields))

unfoldable pub lookup : String → Cache → Option (ℕ × Fields)
lookup key [] = none
lookup key ((k, entry) ∷ cache) = if str_eq k key then some entry else lookup key cache

-- `_CACHE[key] = entry`: the newest entry of a key is found first.
abbrev pub store : String → ℕ × Fields → Cache → Cache
store key entry cache = (key, entry) ∷ cache

-- _DISCOVERY_TTL_SECONDS and _JWKS_TTL_SECONDS
abbrev pub ttl : ℕ
ttl = 3600000000

abbrev pub unavailable : AuthError
unavailable = http 401 "Authentication provider is unavailable."

abbrev pub bad_configuration : AuthError
bad_configuration = http 401 "Authentication provider configuration is invalid."

abbrev pub is_discovery : Fields → Bool
is_discovery document =
    has "issuer" document
    && has "authorization_endpoint" document
    && has "token_endpoint" document
    && has "jwks_uri" document

abbrev pub is_key_set : Fields → Bool
is_key_set document = elim (get_value "keys" document) [ list _ ↦ true | _ ↦ false ]

module _ (fetch : String → Option Value) (now : ℕ) where
  -- Store a document that was fetched, if it is an object with what it must have.
  unfoldable pub accept :
      String → (Fields → Bool) → Option Value → Cache → Outcome AuthError Fields × Cache
  accept key is_good none cache = (err unavailable, cache)
  accept key is_good (some (dict document)) cache =
      if is_good document
      then (ok document, store key (now + ttl, document) cache)
      else (err bad_configuration, cache)
  accept key is_good (some _) cache = (err bad_configuration, cache)

  -- The part that `_discovery` and `_jwks` have in common
  unfoldable pub document :
      String → String → (Fields → Bool) → Cache → Outcome AuthError Fields × Cache
  unfolding lookup accept
  document key url is_good cache = elim (lookup key cache) [
    | none ↦ accept key is_good (fetch url) cache
    | some (expiry, found) ↦
        if ltb now expiry then (ok found, cache) else accept key is_good (fetch url) cache
  ]

  -- `_discovery`; an empty tenant is no tenant.
  unfoldable pub discovery : Option String → Cache → Outcome AuthError Fields × Cache
  unfolding document
  discovery none cache = (err value_error, cache)
  discovery (some tenant) cache =
      if str_eq tenant ""
      then (err value_error, cache)
      else document (append "discovery:" tenant)
          (append "https://login.microsoftonline.com/"
            (append tenant "/v2.0/.well-known/openid-configuration"))
          is_discovery cache

  -- `_jwks`
  unfoldable pub jwks : String → Cache → Outcome AuthError Fields × Cache
  unfolding document
  jwks uri cache = document (append "jwks:" uri) uri is_key_set cache
