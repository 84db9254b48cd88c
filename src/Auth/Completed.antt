-- ===== src/Auth/Completed.antt =====
-- What a login that `complete_login` of app/bl/services/auth.py completes has been through.
use network_gateway_api.Prelude.{ℕ, ◌≡◌, Bool, true, false, Option, none, some, String, ok}
use network_gateway_api.Prelude.Int.{Float, pos, dyadic}
use network_gateway_api.Value.{Value, Fields, str, get, among}
use network_gateway_api.Identity.{AuthenticatedUser}
use network_gateway_api.Auth.Settings.{AuthSettings}
use network_gateway_api.Auth.Numbers.{float_ltb}
use network_gateway_api.Auth.Signed.{Codec, split_last, decode_b64url, json_segment}
use network_gateway_api.Auth.Keys.{Cache}
use network_gateway_api.Auth.Claims.{user_from_claims}
use network_gateway_api.Auth.Verified.{IsVerified}
use network_gateway_api.Auth.Request.{empty_default}
use network_gateway_api.Auth.Login.{Flow, ten_minutes, redeem_code}

abbrev as_value : Option String → Option Value
as_value none = none
as_value (some text) = some (str text)

module _ (float_of : Value → Option Float) where
  -- Where the fields of a flow are read.
  pub record IsFlow (fields : Fields) (flow : Flow) : Type 0 where
    pub state : get "state" fields ≡ some (str flow.state)
    pub nonce : get "nonce" fields ≡ some (str flow.nonce)
    pub verifier : get "verifier" fields ≡ some (str flow.verifier)
    pub redirect_uri : get "redirect_uri" fields ≡ some (str flow.redirect_uri)
    pub iat : Value
    pub issued : get "iat" fields ≡ some iat
    pub issued_at : float_of iat ≡ some flow.issued_at

module _ (codec : Codec) (fetch : String → Option Value)
    (signature_ok : Fields → (header claims signature : String) → Bool) (text_of : Value → String)
    (settings : AuthSettings) (clock : ℕ) (now : Float) (float_of : Value → Option Float)
    (minus : Float → Float → Float) (redeem : (endpoint code : String) → Flow → Option String) where
  -- The cookie is a text that the secret signed, and holds the flow.
  pub record IsOpened (cookie : Option String) (flow : Flow) : Type 0 where
    pub text : String
    pub sent : cookie ≡ some text
    pub secret : String
    pub configured : settings.client_secret ≡ some secret
    pub encoded : String
    pub signature : String
    pub parts : split_last text ≡ some (encoded, signature)
    pub signed : decode_b64url codec signature ≡ some (codec.mac secret encoded)
    pub fields : Fields
    pub read : json_segment codec encoded ≡ some fields
    pub holds_flow : IsFlow float_of fields flow

  -- What is known of a login that was completed.
  pub record IsCompleted (code state : String) (cookie : Option String) (cache : Cache)
      (user : AuthenticatedUser) : Type 0 where
    pub flow : Flow
    pub opened : IsOpened cookie flow
    pub allowed : among flow.redirect_uri settings.redirect_uris ≡ true
    pub same_state : flow.state ≡ state
    pub not_future : float_ltb now flow.issued_at ≡ false
    pub recent : float_ltb (dyadic (pos 600) 0) (minus now flow.issued_at) ≡ false
    pub id_token : String
    pub redeemed :
        (redeem_code codec fetch signature_ok text_of settings clock now float_of minus redeem code
          flow cache).0
        ≡ ok id_token
    pub claims : Fields
    pub verified :
        IsVerified codec fetch signature_ok settings clock now id_token
          (empty_default settings.client_id)
          (some flow.nonce)
          (redeem_code codec fetch signature_ok text_of settings clock now float_of minus redeem
            code flow cache).1
          claims
    pub user_of : user_from_claims text_of settings claims ≡ ok user

  -- The four tests of the flow
  record Holds (flow : Flow) (state : String) : Type 0 where
    allowed : among flow.redirect_uri settings.redirect_uris ≡ true
    same_state : flow.state ≡ state
    not_future : float_ltb now flow.issued_at ≡ false
    recent : float_ltb ten_minutes (minus now flow.issued_at) ≡ false
