-- ===== src/Routes/Guard.antt =====
-- `_origin` and `_check_browser_mutation` of app/api/routes/management.py. `urlsplit` and `str.lower`
-- are parameters.
use Prim.Native.Char.{code}
use Prim.Native.String.{[] as nil_text, ◌∷◌ as ◌∷ₜ◌}
use network_gateway_api.Prelude.{
  ◌>>◌, >>=-eq-ok, ℕ, zero, suc, ◌≡◌, refl, ap, Bool, true, false, not, ◌&&◌, ◌||◌, Option, none,
  some, [], ◌∷◌, String, str_eq, eq_iff, ◌==◌, if◌then◌else◌, Outcome, ok, raise_if, arith,
}
use network_gateway_api.Value.{Value, among, is_empty}
use network_gateway_api.Text.{strip}
use network_gateway_api.Identity.{AuthError, AuthenticatedUser}

-- What `urlsplit` returns; `port` is `none` where reading it raises.
pub record Url : Type 0 where
  pub scheme : String
  pub hostname : Option String
  pub username : Option String
  pub password : Option String
  pub path : String
  pub query : String
  pub fragment : String
  pub port : Option (Option ℕ)

-- What a request brings; a missing header is `none`, and `body` is what its JSON text holds. `new_id` is the key that a new row would get, and
-- `scheduled` is false where the executor refuses a batch.
pub record Request : Type 0 where
  pub base_url : String
  pub origin : Option String
  pub sec_fetch_site : Option String
  pub content_type : Option String
  pub authenticated : Outcome AuthError AuthenticatedUser
  pub body : Value
  pub new_id : String
  pub scheduled : Bool
  pub store_ready : Bool

pub data Method : Type 0 where
  get_method post_method put_method delete_method : Method

pub record Origin : Type 0 where
  pub scheme : String
  pub hostname : String
  pub port : ℕ

-- `text or ""`
abbrev pub text_or_empty : Option String → String
text_or_empty none = ""
text_or_empty (some text) = text

-- `parsed.port or (443 if ... else 80)`
abbrev port_or : ℕ → Option ℕ → ℕ
port_or default none = default
port_or default (some zero) = default
port_or default (some (suc n)) = suc n

abbrev is_bare : Url → Bool
is_bare url =
    (str_eq url.scheme "http" || str_eq url.scheme "https")
    && not (is_empty (text_or_empty url.hostname))
    && is_empty (text_or_empty url.username)
    && is_empty (text_or_empty url.password)
    && (is_empty url.path || str_eq url.path "/")
    && is_empty url.query
    && is_empty url.fragment

-- `text.split(";", 1)[0]`
abbrev before_semicolon : String → String
before_semicolon nil_text = nil_text
before_semicolon (c ∷ₜ text) = if code c == 59 then nil_text else c ∷ₜ before_semicolon text

abbrev same_origin : Option Origin → Option Origin → Bool
same_origin (some a) (some b) =
    str_eq a.scheme b.scheme && str_eq a.hostname b.hostname && (a.port == b.port)
same_origin _ _ = false

-- What an HTTPException is raised with
abbrev pub HttpError : Type 0
HttpError = ℕ × String

abbrev cross_origin : HttpError
cross_origin = (403, "Cross-origin administrative requests are not allowed.")

abbrev pub has_body : Method → Bool
has_body post_method = true
has_body put_method = true
has_body _ = false

module _ (urlsplit : String → Option Url) (lower : String → String) where
  -- `_origin`
  unfoldable pub origin_of : String → Option Origin
  origin_of value = elim (urlsplit value) [
    | none ↦ none
    | some url ↦ if not (is_bare url) then none else elim url.port [
      | none ↦ none
      | some port ↦ some (record {
        scheme = url.scheme;
        hostname = lower (text_or_empty url.hostname);
        port = port_or (if str_eq url.scheme "https" then 443 else 80) port;
      })
    ]
  ]

  abbrev is_foreign : Request → Bool
  is_foreign request = elim request.origin [
    | none ↦ false
    | some text ↦ not (same_origin (origin_of text) (origin_of request.base_url))
  ]

  abbrev pub is_json : Request → Bool
  is_json request =
      str_eq (lower (strip (before_semicolon (text_or_empty request.content_type))))
        "application/json"

  abbrev pub check_mutation : Bool → Request → Outcome HttpError (Unit {0})
  check_mutation with_body request =
      raise_if
        (among (lower (text_or_empty request.sec_fetch_site)) ("cross-site" ∷ "same-site" ∷ []))
        cross_origin
      >> (raise_if (is_foreign request) cross_origin
          >> raise_if (with_body && not (is_json request))
              (415, "Administrative requests require application/json."))

  -- `_check_browser_mutation`
  unfoldable pub check_browser_mutation : Method → Request → Outcome HttpError (Unit {0})
  unfolding origin_of strip
  check_browser_mutation get_method request = ok tt
  check_browser_mutation method request = check_mutation (has_body method) request

  -- A request from a page, which names its origin, comes from the gateway's own.
  abbrev pub IsSameOrigin : Request → Type 0
  IsSameOrigin request =
      (text : String)
      → request.origin ≡ some text
      → (origin : Origin) × (origin_of text ≡ some origin)
        × (origin_of request.base_url ≡ some origin)

  passed : (b : Bool) (e : HttpError) (r : Unit {0}) → raise_if b e ≡ ok r → b ≡ false
  passed true e r h = cc
  passed false e r h = refl

  origin-eq :
      (a b : Origin) → a.scheme ≡ b.scheme → a.hostname ≡ b.hostname → a.port ≡ b.port → a ≡ b
  origin-eq a b s h p i = record { scheme = s i; hostname = h i; port = p i }

  both : (a b : Bool) → a && b ≡ true → (a ≡ true) × (b ≡ true)
  both true b h = (refl, h)
  both false b h = cc

  same_origin-eq :
      (a b : Option Origin) → same_origin a b ≡ true → (o : Origin) × (a ≡ some o) × (b ≡ some o)
  same_origin-eq none b h = cc
  same_origin-eq (some a) none h = cc
  same_origin-eq (some a) (some b) h =
      let (names, port) =
        both (str_eq a.scheme b.scheme && str_eq a.hostname b.hostname) (a.port == b.port) h in
      let (scheme, hostname) =
        both (str_eq a.scheme b.scheme) (str_eq a.hostname b.hostname) names in
      (
        b,
        ap some (
            origin-eq a b ((eq_iff a.scheme b.scheme).0 scheme)
              ((eq_iff a.hostname b.hostname).0 hostname) (ground arith)),
        refl,
      )

  not_foreign-IsSameOrigin : (request : Request) → is_foreign request ≡ false → IsSameOrigin request
  not_foreign-IsSameOrigin request h text named =
      let h' = rw (named, is_foreign) at h in
      same_origin-eq (origin_of text) (origin_of request.base_url) (ground arith)

  pub check_mutation-passed :
      (with_body : Bool) (request : Request)
      → check_mutation with_body request ≡ ok tt
      → IsSameOrigin request × (with_body ≡ true → is_json request ≡ true)
  check_mutation-passed with_body request h =
      let (_, first, h') =
        >>=-eq-ok
          (raise_if
            (among (lower (text_or_empty request.sec_fetch_site)) ("cross-site" ∷ "same-site" ∷ []))
            cross_origin)
          _ h in
      let (r, second, third) = >>=-eq-ok (raise_if (is_foreign request) cross_origin) _ h' in
      let own = passed (is_foreign request) cross_origin r second in
      let typed = passed (with_body && not (is_json request)) _ tt third in
      (not_foreign-IsSameOrigin request own, λ b. ground arith)
