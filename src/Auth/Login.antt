-- ===== src/Auth/Login.antt =====
-- `start_login` and `complete_login` of app/bl/services/auth.py. The random texts, the SHA-256
-- challenge and the request for the tokens are parameters, as is the subtraction of floats.
use network_gateway_api.Prelude.{
  ℕ, Bool, not, ◌&&◌, Option, none, some, String, str_eq, if◌then◌else◌, Outcome, ok, err,
}
use network_gateway_api.Prelude.Int.{Float, pos, dyadic}
use network_gateway_api.Value.{Value, Fields, float, str, get, get_value, field, end, among}
use network_gateway_api.Text.{all_chars}
use network_gateway_api.Identity.{
  AuthenticatedUser, entra, AuthError, http, value_error, unexpected,
}
use network_gateway_api.Auth.Settings.{AuthSettings}
use network_gateway_api.Auth.Numbers.{float_ltb}
use network_gateway_api.Auth.Signed.{Codec, sign, is_ascii}
use network_gateway_api.Auth.Keys.{Cache, discovery}
use network_gateway_api.Auth.Claims.{user_from_claims}
use network_gateway_api.Auth.Token.{verify_token}
use network_gateway_api.Auth.Request.{cookie_secret, empty_default, open_session, user_of_token}

abbrev pub no_login : AuthError
no_login = http 401 "Browser authentication is unavailable."

abbrev pub bad_state : AuthError
bad_state = http 401 "Invalid login state."

abbrev pub not_completed : AuthError
not_completed = http 401 "Sign-in could not be completed."

-- The flow that `start_login` signs
pub record Flow : Type 0 where
  pub state : String
  pub nonce : String
  pub verifier : String
  pub redirect_uri : String
  pub issued_at : Float

abbrev pub ten_minutes : Float
ten_minutes = dyadic (pos 600) 0

abbrev pub text_in : Option Value → Option String
text_in (some (str text)) = some text
text_in _ = none

-- The five reads and the tests of their types; `none` where one of them is not as it must be
module _ (float_of : Value → Option Float) where
  abbrev pub text_at : String → Fields → Option String
  text_at key flow = text_in (get key flow)

  unfoldable pub flow_of : Fields → Option Flow
  unfolding get
  flow_of flow = elim (text_at "state" flow) [
    | none ↦ none
    | some state ↦ elim (text_at "nonce" flow) [
      | none ↦ none
      | some the_nonce ↦ elim (text_at "verifier" flow) [
        | none ↦ none
        | some verifier ↦ elim (text_at "redirect_uri" flow) [
          | none ↦ none
          | some uri ↦ elim (get "iat" flow) [
            | none ↦ none
            | some iat ↦ elim (float_of iat) [
              | none ↦ none
              | some issued ↦ some (record {
                state = state;
                nonce = the_nonce;
                verifier = verifier;
                redirect_uri = uri;
                issued_at = issued;
              })
            ]
          ]
        ]
      ]
    ]
  ]

module _ (codec : Codec) (fetch : String → Option Value)
    (signature_ok : Fields → (header claims signature : String) → Bool) (text_of : Value → String)
    (settings : AuthSettings) (clock : ℕ) (now : Float) (float_of : Value → Option Float)
    (minus : Float → Float → Float) (redeem : (endpoint code : String) → Flow → Option String) where
  -- The payload of `start_login`, if the browser flow is open to this redirect URI
  unfoldable pub start_flow : Flow → Outcome AuthError String
  unfolding sign cookie_secret
  start_flow flow = elim settings.mode [
    | entra ↦
        if among flow.redirect_uri settings.redirect_uris
        then elim (cookie_secret settings) [
          | none ↦ err value_error
          | some secret ↦ ok (
              sign codec
                (field "state" (str flow.state) (
                  field "nonce" (str flow.nonce) (
                    field "verifier" (str flow.verifier) (
                      field "redirect_uri" (str flow.redirect_uri)
                        (field "iat" (float flow.issued_at) end)))))
                secret)
        ]
        else err no_login
    | _ ↦ err no_login
  ]

  -- `hmac.compare_digest` raises for texts that are not ASCII; it is reached for an allowed
  -- redirect URI.
  abbrev pub cannot_compare : Flow → String → Bool
  cannot_compare flow state =
      among flow.redirect_uri settings.redirect_uris
      && not (all_chars is_ascii flow.state && all_chars is_ascii state)

  abbrev pub flow_holds : Flow → String → Bool
  flow_holds flow state =
      among flow.redirect_uri settings.redirect_uris
      && str_eq flow.state state
      && not (float_ltb now flow.issued_at)
      && not (float_ltb ten_minutes (minus now flow.issued_at))

  -- `_unsign` and the reads of the flow
  abbrev pub opened_flow : Option String → Option Flow
  opened_flow cookie =
      elim (open_session codec fetch signature_ok text_of settings clock now cookie
        (cookie_secret settings)) [ none ↦ none | some flow ↦ flow_of float_of flow ]

  -- The exchange of the code for an ID token. A discovery error that is an HTTPException stays.
  unfoldable pub redeem_code : String → Flow → Cache → Outcome AuthError String × Cache
  unfolding discovery get
  redeem_code code flow cache =
      let (found, cache') = discovery fetch clock settings.tenant_id cache in
      elim found [
        | err value_error ↦ (err not_completed, cache')
        | err e ↦ (err e, cache')
        | ok document ↦ elim (get_value "token_endpoint" document) [
          | str endpoint ↦ elim (redeem endpoint code flow) [
            | none ↦ (err not_completed, cache')
            | some token ↦ (ok token, cache')
          ]
          | _ ↦ (err not_completed, cache')
        ]
      ]

  -- With the flow
  unfoldable pub finish_login :
      String → String → Flow → Cache → Outcome AuthError AuthenticatedUser × Cache
  unfolding redeem_code verify_token user_from_claims
  finish_login code state flow cache =
      if cannot_compare flow state
      then (err unexpected, cache)
      else if flow_holds flow state
      then (let (token, cache') = redeem_code code flow cache in
          elim token [
            | err e ↦ (err e, cache')
            | ok id_token ↦ user_of_token codec fetch signature_ok text_of settings clock now (
                verify_token codec fetch signature_ok settings clock now id_token
                  (empty_default settings.client_id) (some flow.nonce) cache')
          ])
      else (err bad_state, cache)

  -- `complete_login`
  unfoldable pub complete_login :
      String → String → Option String → Cache → Outcome AuthError AuthenticatedUser × Cache
  unfolding finish_login
  complete_login code state cookie cache = elim settings.mode [
    | entra ↦ elim (opened_flow cookie) [
      | none ↦ (err bad_state, cache)
      | some flow ↦ finish_login code state flow cache
    ]
    | _ ↦ (err no_login, cache)
  ]
