-- ===== src/Auth/Accepted.antt =====
-- What the tests of `_verify_token` of app/bl/services/auth.py say of a header, a key and claims.
use network_gateway_api.Prelude.{
  ◌≡◌, ◌⊎◌, refl, ap, ◌∙◌, Bool, true, false, not, ◌&&◌, &&-true, eq_iff, Option, none, some,
  String, ok, Bool-cases, inl, inr, arith,
}
use network_gateway_api.Prelude.Int.{Float}
use network_gateway_api.Value.{
  Value, Items, Fields, null, bool, int, float, str, list, dict, nil, cons, get_value,
}
use network_gateway_api.Text.{append}
use network_gateway_api.Auth.Numbers.{Number, number, no_number, as_number, float_leb, float_ltb}
use network_gateway_api.Auth.Settings.{AuthSettings}
use network_gateway_api.Auth.Claims.{
  is_str, is_optional, contains, has_audience, is_unexpired, is_begun, has_nonce, issuer_of,
  claims_hold,
}
use network_gateway_api.Auth.Token.{find_key, kid_of}

-- An item of a list
pub data In (v : Value) : Items → Type 0 where
  first : (items : Items) → In v (cons v items)
  later : (w : Value) {items : Items} → In v items → In v (cons w items)

-- The claims name the tenant's issuer, the tenant and the audience, do not expire by now, have begun,
-- and carry the nonce if one is asked for.
pub record HasClaims (tenant audience : String) (nonce : Option String) (now : Float)
    (claims : Fields) : Type 0 where
  pub issuer :
      get_value "iss" claims
      ≡ str (append "https://login.microsoftonline.com/" (append tenant "/v2.0"))
  pub tenant_id : get_value "tid" claims ≡ str tenant
  pub for_audience :
      (get_value "aud" claims ≡ str audience)
      ⊎ ((items : Items) × (get_value "aud" claims ≡ list items) × In (str audience) items)
  pub expires_at : Float
  pub expires : as_number (get_value "exp" claims) ≡ number expires_at
  pub unexpired : float_leb expires_at now ≡ false
  pub begun :
      (not_before : Float)
      → as_number (get_value "nbf" claims) ≡ number not_before
      → float_ltb now not_before ≡ false
  pub with_nonce : (wanted : String) → nonce ≡ some wanted → get_value "nonce" claims ≡ str wanted

is_str-eq : (text : String) (v : Value) → is_str text v ≡ true → v ≡ str text
is_str-eq text (str s) h = ap (λ t. str t) ((eq_iff s text).0 h)
is_str-eq text null h = cc
is_str-eq text (bool _) h = cc
is_str-eq text (int _) h = cc
is_str-eq text (float _) h = cc
is_str-eq text (list _) h = cc
is_str-eq text (dict _) h = cc

contains-In : (text : String) (items : Items) → contains text items ≡ true → In (str text) items
contains-In text nil h = cc
contains-In text (cons v items) h = elim (Bool-cases (is_str text v)) [
  | inl e ↦ rw (is_str-eq text v e) (In.first items)
  | inr e ↦ In.later v (contains-In text items (rw e at h))
]

audience-In :
    (audience : String) (v : Value)
    → has_audience audience v ≡ true
    → (v ≡ str audience) ⊎ ((items : Items) × (v ≡ list items) × In (str audience) items)
audience-In audience (list items) h = inr (items, refl, contains-In audience items h)
audience-In audience (str s) h = inl (is_str-eq audience (str s) h)
audience-In audience null h = cc
audience-In audience (bool _) h = cc
audience-In audience (int _) h = cc
audience-In audience (float _) h = cc
audience-In audience (dict _) h = cc

unexpired-number :
    (now : Float) (v : Value)
    → is_unexpired now v ≡ true
    → (t : Float) × (as_number v ≡ number t) × (float_leb t now ≡ false)
unexpired-number now v h = go (as_number v) refl h
  where
    go :
        (r : Number)
        → as_number v ≡ r
        → (elim r [ number t ↦ not (float_leb t now) | no_number ↦ false ]) ≡ true
        → (t : Float) × (as_number v ≡ number t) × (float_leb t now ≡ false)
    go (number t) e g = (t, e, ground arith)
    go no_number e g = cc

begun-number :
    (now t : Float) (v : Value)
    → is_begun now v ≡ true
    → as_number v ≡ number t
    → float_ltb now t ≡ false
begun-number now t v h e = let h' = rw (e, is_begun) at h in ground arith

nonce-eq :
    (nonce : Option String) (wanted : String) (v : Value)
    → has_nonce nonce v ≡ true
    → nonce ≡ some wanted
    → v ≡ str wanted
nonce-eq none wanted v h e = cc
nonce-eq (some n) wanted v h e =
    let same : n ≡ wanted = ground arith in is_str-eq n v h ∙ ap (λ t. str t) same

six :
    (a b c d e f : Bool)
    → (a && b && c && d && e && f) ≡ true
    → (a ≡ true) × (b ≡ true) × (c ≡ true) × (d ≡ true) × (e ≡ true) × (f ≡ true)
six a b c d e f p =
    let (p5, pf) = &&-true (a && b && c && d && e) f p in
    let (p4, pe) = &&-true (a && b && c && d) e p5 in
    let (p3, pd) = &&-true (a && b && c) d p4 in
    let (p2, pc) = &&-true (a && b) c p3 in
    let (pa, pb) = &&-true (a) b p2 in (pa, pb, pc, pd, pe, pf)

pub claims_hold-HasClaims :
    (settings : AuthSettings) (tenant audience : String) (nonce : Option String) (now : Float)
    (claims : Fields)
    → settings.tenant_id ≡ some tenant
    → claims_hold settings audience nonce now claims ≡ true
    → HasClaims tenant audience nonce now claims
unfolding claims_hold
claims_hold-HasClaims settings tenant audience nonce now claims configured h =
    let (iss, tid, aud, unexpired, begun, with_nonce) =
      six (is_str (issuer_of settings) (get_value "iss" claims))
        (is_optional settings.tenant_id (get_value "tid" claims))
        (has_audience audience (get_value "aud" claims)) (is_unexpired now (get_value "exp" claims))
        (is_begun now (get_value "nbf" claims)) (has_nonce nonce (get_value "nonce" claims)) h in
    let (t, is_number, after) = unexpired-number now (get_value "exp" claims) unexpired in
    record {
      issuer =
          is_str-eq (append "https://login.microsoftonline.com/" (append tenant "/v2.0"))
            (get_value "iss" claims) (rw (configured, issuer_of) at iss);
      tenant_id = is_str-eq tenant (get_value "tid" claims) (rw (configured, is_optional) at tid);
      for_audience = audience-In audience (get_value "aud" claims) aud;
      expires_at = t;
      expires = is_number;
      unexpired = after;
      begun = λ t'. begun-number now t' (get_value "nbf" claims) begun;
      with_nonce = λ wanted. nonce-eq nonce wanted (get_value "nonce" claims) with_nonce;
    }

text_of_kid :
    (v : Value) (kid : String)
    → (elim v [ str text ↦ some text | _ ↦ none ]) ≡ some kid
    → v ≡ str kid
text_of_kid (str text) kid h = let same : text ≡ kid = ground arith in ap (λ t. str t) same
text_of_kid null kid h = cc
text_of_kid (bool _) kid h = cc
text_of_kid (int _) kid h = cc
text_of_kid (float _) kid h = cc
text_of_kid (list _) kid h = cc
text_of_kid (dict _) kid h = cc

pub kid_of-eq :
    (header : Fields) (kid : String)
    → kid_of header ≡ some kid
    → (get_value "alg" header ≡ str "RS256") × (get_value "kid" header ≡ str kid)
unfolding kid_of
kid_of-eq header kid h = elim (Bool-cases (is_str "RS256" (get_value "alg" header))) [
  | inr e ↦ let h' = rw (e, kid_of) at h in cc
  | inl e ↦ (
    is_str-eq "RS256" (get_value "alg" header) e,
    text_of_kid (get_value "kid" header) kid (rw (e, kid_of) at h),
  )
]

pub find_key-In :
    (kid : String) (items : Items) (key : Fields)
    → find_key kid items ≡ ok key
    → In (dict key) items × (get_value "kid" key ≡ str kid) × (get_value "kty" key ≡ str "RSA")
unfolding find_key
find_key-In kid nil key h = cc
find_key-In kid (cons (dict found) items) key h =
    elim (Bool-cases (is_str kid (get_value "kid" found) && is_str "RSA" (get_value "kty" found))) [
      | inr e ↦
          let (member, same_id, rsa) = find_key-In kid items key (rw (e, find_key) at h) in
          (In.later (dict found) member, same_id, rsa)
      | inl e ↦
          let h' : ok found ≡ ok key = rw (e, find_key) at h in
          let same : found ≡ key = ground arith in
          let (is_kid, is_rsa) =
            &&-true (is_str kid (get_value "kid" found)) (is_str "RSA" (get_value "kty" found)) e in
          rw (← same) (
            In.first items,
            is_str-eq kid (get_value "kid" found) is_kid,
            is_str-eq "RSA" (get_value "kty" found) is_rsa,
          )
    ]
find_key-In kid (cons null items) key h = cc
find_key-In kid (cons (bool _) items) key h = cc
find_key-In kid (cons (int _) items) key h = cc
find_key-In kid (cons (float _) items) key h = cc
find_key-In kid (cons (str _) items) key h = cc
find_key-In kid (cons (list _) items) key h = cc
