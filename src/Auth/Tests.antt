-- ===== src/Auth/Tests.antt =====
-- Signed values, tokens and sessions at concrete inputs.
use network_gateway_api.Prelude.{
  ◌≡◌, refl, true, false, Bool, Option, none, some, str_eq, if◌then◌else◌, [], ◌∷◌, String, err,
}
use network_gateway_api.Prelude.Int.{Float, pos, dyadic}
use network_gateway_api.Value.{Value, Fields, int, str, list, dict, cons, nil, field, end, get, set}
use network_gateway_api.Text.{after_prefix}
use network_gateway_api.Identity.{AuthenticatedUser, entra, has_role, public_user}
use network_gateway_api.Auth.Settings.{AuthSettings, settings_of}
use network_gateway_api.Auth.Signed.{Codec, IsFaithful, sign, unsign, sort_fields}
use network_gateway_api.Auth.Signed.Laws.{sorted_at, unsign-sign}
use network_gateway_api.Auth.Keys.{Cache, document}
use network_gateway_api.Auth.Claims.{invalid_token}
use network_gateway_api.Auth.Request.{Request, cookie_secret, session_cookie, authenticate_request}
use network_gateway_api.Auth.Login.{Flow}
use network_gateway_api.Auth.Session.{payload_of, session_cookie-refused}

abbrev user : AuthenticatedUser
user = record {
  subject = "u1";
  tenant_id = some "t1";
  name = "Ada";
  email = none;
  roles = record { viewer = false; operator = true; administrator = false };
  auth_mode = entra;
}

abbrev later : Float
later = dyadic (pos 3600) 0

abbrev now : Float
now = dyadic (pos 1) 1

abbrev claims : Fields
claims = field "iss" (str "https://login.microsoftonline.com/t1/v2.0") (
    field "tid" (str "t1") (
      field "aud" (list (cons (str "api") nil)) (
        field "exp" (int (pos 3600)) (
          field "roles" (list (cons (str "Viewer") nil))
            (field "oid" (str "u1") (field "nonce" (str "n1") end))))))

abbrev flow_fields : Fields
flow_fields = field "state" (str "s1") (
    field "nonce" (str "n1") (
      field "verifier" (str "v1")
        (field "redirect_uri" (str "https://gateway") (field "iat" (int (pos 0)) end))))

-- What the texts that the codec knows stand for.
abbrev documents : String → Option Value
documents text =
    if str_eq text "h"
    then some (dict (field "alg" (str "RS256") (field "kid" (str "k1") end)))
    else if str_eq text "c"
    then some (dict claims)
    else if str_eq text "f"
    then some (dict flow_fields)
    else some (dict (sort_fields (payload_of user later)))

abbrev codec : Codec
codec = record {
  b64url = λ bytes. bytes;
  decode_b64 = λ text. some text;
  dumps = λ _. "session";
  loads = documents;
  mac = λ _ _. "mac";
}

abbrev settings : AuthSettings
settings = record (settings_of entra) {
  tenant_id = some "t1";
  client_secret = some "secret";
  api_client_id = some "api";
  client_id = some "api";
  redirect_uris = "https://gateway" ∷ [];
}

abbrev key : Fields
key = field "kid" (str "k1") (field "kty" (str "RSA") end)

abbrev cache : Cache
cache =
    (
      "discovery:t1",
      (9, field "jwks_uri" (str "https://keys") (field "token_endpoint" (str "https://token") end)),
    )
    ∷ ("jwks:https://keys", (9, field "keys" (list (cons (dict key) nil)) end))
    ∷ []

abbrev signature_ok : Fields → String → String → String → Bool
signature_ok _ header payload signature = str_eq signature "s"

abbrev fetch : String → Option Value
fetch url = none

abbrev text_of : Value → String
text_of v = ""

IsFaithful-codec : IsFaithful codec (payload_of user later) "secret"
unfolding set public_user
IsFaithful-codec = record {
  document = record { decoded = refl; alphabet = refl; nonempty = refl };
  signature = record { decoded = refl; alphabet = refl; nonempty = refl };
  read_back = refl;
}

unsign-sign_example :
    (found : Fields) × (unsign codec (sign codec (payload_of user later) "secret") "secret"
      ≡ some found)
    × (found ≡ sort_fields (payload_of user later))
    × ((name : String) → get name found ≡ sorted_at (get name (payload_of user later)))
unsign-sign_example = unsign-sign codec (payload_of user later) "secret" IsFaithful-codec

abbrev request : Request
request = record { demo_mode = false; authorization = ""; gateway_session = some "session.mac" }

session_cookie-refused_example :
    authenticate_request codec fetch signature_ok text_of settings 1 now request cache
    ≡ (err invalid_token, cache)
unfolding session_cookie sign cookie_secret after_prefix has_role
session_cookie-refused_example =
    session_cookie-refused codec fetch signature_ok text_of settings 1 now user later "secret"
      request cache refl refl IsFaithful-codec refl refl refl refl

abbrev zero_of : Value → Option Float
zero_of v = some (dyadic (pos 0) 0)

abbrev minus : Float → Float → Float
minus a b = a

abbrev redeem : String → String → Flow → Option String
redeem endpoint code flow = some "h.c.s"

abbrev logged_in : AuthenticatedUser
logged_in = record {
  subject = "u1";
  tenant_id = some "t1";
  name = "u1";
  email = none;
  roles = record { viewer = true; operator = false; administrator = false };
  auth_mode = entra;
}
