-- ===== src/Auth/Verified.antt =====
-- What claims that `_verify_token` of app/bl/services/auth.py accepts have been through.
use network_gateway_api.Prelude.{ℕ, ◌≡◌, Bool, true, Option, some, [], ◌∷◌, String, ok}
use network_gateway_api.Prelude.Int.{Float}
use network_gateway_api.Value.{Value, Fields, str, dict, get_value}
use network_gateway_api.Text.Split.{split, is_dot}
use network_gateway_api.Auth.Settings.{AuthSettings}
use network_gateway_api.Auth.Signed.{Codec, json_segment}
use network_gateway_api.Auth.Keys.{Cache, discovery, jwks}
use network_gateway_api.Auth.Claims.{claims_hold}
use network_gateway_api.Auth.Token.{keys_of}
use network_gateway_api.Auth.Accepted.{In, HasClaims}

module _ (codec : Codec) (fetch : String → Option Value)
    (signature_ok : Fields → (header claims signature : String) → Bool) (settings : AuthSettings)
    (clock : ℕ) (now : Float) where
  -- The tenant's discovery document names the key set, and that lists an RSA key of this id.
  pub record IsKnownKey (cache : Cache) (kid : String) (key : Fields) : Type 0 where
    pub document : Fields
    pub discovered : (discovery fetch clock settings.tenant_id cache).0 ≡ ok document
    pub uri : String
    pub located : get_value "jwks_uri" document ≡ str uri
    pub set : Fields
    pub fetched :
        (jwks fetch clock uri (discovery fetch clock settings.tenant_id cache).1).0 ≡ ok set
    pub listed : In (dict key) (keys_of (get_value "keys" set))
    pub same_id : get_value "kid" key ≡ str kid
    pub rsa : get_value "kty" key ≡ str "RSA"

  -- What holds of claims that were accepted.
  pub record IsVerified (token audience : String) (nonce : Option String) (cache : Cache)
      (claims : Fields) : Type 0 where
    pub header : String
    pub payload : String
    pub signature : String
    pub parts : split is_dot token ≡ header ∷ payload ∷ signature ∷ []
    pub header_fields : Fields
    pub read_header : json_segment codec header ≡ some header_fields
    pub algorithm : get_value "alg" header_fields ≡ str "RS256"
    pub kid : String
    pub names_key : get_value "kid" header_fields ≡ str kid
    pub key : Fields
    pub known : IsKnownKey cache kid key
    pub signed : signature_ok key header payload signature ≡ true
    pub read : json_segment codec payload ≡ some claims
    pub tenant : String
    pub configured : settings.tenant_id ≡ some tenant
    pub hold : HasClaims tenant audience nonce now claims

  -- The signature was checked, and the claims come from the part that it covers.
  record Checked (audience : String) (nonce : Option String) (header payload signature : String)
      (key : Fields) (claims : Fields) : Type 0 where
    signed : signature_ok key header payload signature ≡ true
    read : json_segment codec payload ≡ some claims
    hold : claims_hold settings audience nonce now claims ≡ true
