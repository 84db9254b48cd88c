-- ===== src/Routes/Guarded.antt =====
-- What a request must bring for the routes of app/api/routes/management.py to change anything.
use network_gateway_api.Prelude.{
  ◌⊎◌, ◌≡◌, refl, Bool, true, false, Option, List, String, Outcome, ok, err, arith, Bool-cases,
  Outcome-cases, inl, inr,
}
use network_gateway_api.Value.{Value, Fields}
use network_gateway_api.Secrets.Vault.{Vault}
use network_gateway_api.Identity.{
  GatewayRole, operator, administrator, AuthError, http, value_error, unexpected, AuthenticatedUser,
  has_role, require_role,
}
use network_gateway_api.Inventory.Operations.{Resource}
use network_gateway_api.Prelude.Int.{Float}
use network_gateway_api.Jobs.Rows.{SnapshotItem}
use network_gateway_api.Routes.Guard.{
  Url, Request, check_browser_mutation, check_mutation-passed, IsSameOrigin, is_json, has_body,
}
use network_gateway_api.Routes.Endpoints.{
  Endpoint, list_items, get_item, test_item, create_item, update_item, delete_item, create_batch,
  read_batch, get_settings, update_settings, method_of, required_role, State, Response, respond,
  handle,
}

-- The endpoints that may change something
pub data IsChange : Endpoint → Type 0 where
  creates : (resource : Resource) → IsChange (create_item resource)
  updates : (resource : Resource) (item_id : String) → IsChange (update_item resource item_id)
  deletes : (resource : Resource) (item_id : String) → IsChange (delete_item resource item_id)
  batches : IsChange create_batch
  settings : (name : String) → IsChange (update_settings name)

-- An administrator, or an operator where a batch is started
pub data MayChange (user : AuthenticatedUser) : Endpoint → Type 0 where
  as_administrator :
      {endpoint : Endpoint} → has_role user administrator ≡ true → MayChange user endpoint
  as_operator : has_role user operator ≡ true → MayChange user create_batch

pub record IsGuarded (urlsplit : String → Option Url) (lower : String → String) (request : Request)
    (endpoint : Endpoint) : Type 0 where
  pub own : IsSameOrigin urlsplit lower request
  pub json : has_body (method_of endpoint) ≡ true → is_json urlsplit lower request ≡ true
  pub user : AuthenticatedUser
  pub authenticated : request.authenticated ≡ ok user
  pub allowed : MayChange user endpoint

require_role-allowed :
    (role : GatewayRole) (authenticated : Outcome AuthError AuthenticatedUser)
    (user : AuthenticatedUser)
    → require_role role authenticated ≡ ok user
    → (authenticated ≡ ok user) × (has_role user role ≡ true)
unfolding require_role
require_role-allowed role (ok found) user h = elim (Bool-cases (has_role found role)) [
  | inr e ↦ let h' = rw (e, require_role) at h in cc
  | inl e ↦
      let same : ok found ≡ ok user = rw (e, require_role) at h in
      let same' : found ≡ user = ground arith in (same, rw (← same') e)
]
require_role-allowed role (err (http _ _)) user h = cc
require_role-allowed role (err value_error) user h = cc
require_role-allowed role (err unexpected) user h = cc

-- The role that a change depends on is enough for it.
required-MayChange :
    (user : AuthenticatedUser) (endpoint : Endpoint)
    → IsChange endpoint
    → has_role user (required_role endpoint) ≡ true
    → MayChange user endpoint
required-MayChange user _ (creates resource) h = as_administrator h
required-MayChange user _ (updates resource item_id) h = as_administrator h
required-MayChange user _ (deletes resource item_id) h = as_administrator h
required-MayChange user _ batches h = as_operator h
required-MayChange user _ (settings name) h = as_administrator h

module _ (vault : Vault Fields) (batch_vault : Vault (List SnapshotItem))
    (key_error : Value → Value → Option String) (lower : String → String) (text_of : Value → String)
    (provider : String) (urlsplit : String → Option Url)
    (resource_body : Resource → Value → Option Fields) (batch_body : Value → Option (List String))
    (test_body : Value → Bool) (settings_body : Value → Option Fields)
    (settings_model : String → Fields → Option Fields) (float_of : Value → Option Float)
    (tester : Fields → Option Fields) (elapsed : Float) where
  abbrev responded : Request → Endpoint → State → Response × State
  responded =
      respond vault batch_vault key_error lower text_of provider urlsplit resource_body batch_body
        test_body settings_body settings_model float_of tester elapsed

  abbrev handled : Request → Endpoint → State → Response × State
  handled =
      handle vault batch_vault key_error lower text_of provider urlsplit resource_body batch_body
        test_body settings_body settings_model float_of tester elapsed

  respond-reads :
      (request : Request) (endpoint : Endpoint) (s : State)
      → ((responded request endpoint s).1 ≡ s) ⊎ IsChange endpoint
  unfolding respond
  respond-reads request (list_items resource) s = inl refl
  respond-reads request (test_item item_id) s = inl refl
  respond-reads request (get_item resource item_id) s = inl refl
  respond-reads request (create_item resource) s = inr (creates resource)
  respond-reads request (update_item resource item_id) s = inr (updates resource item_id)
  respond-reads request (delete_item resource item_id) s = inr (deletes resource item_id)
  respond-reads request create_batch s = inr batches
  respond-reads request (read_batch job_id) s = inl refl
  respond-reads request (get_settings name) s = inl refl
  respond-reads request (update_settings name) s = inr (settings name)

  check-passed :
      (request : Request) (endpoint : Endpoint)
      → IsChange endpoint
      → check_browser_mutation urlsplit lower (method_of endpoint) request ≡ ok tt
      → IsSameOrigin urlsplit lower request
        × (has_body (method_of endpoint) ≡ true → is_json urlsplit lower request ≡ true)
  unfolding check_browser_mutation
  check-passed request _ (creates resource) h = check_mutation-passed urlsplit lower true request h
  check-passed request _ (updates resource item_id) h =
      check_mutation-passed urlsplit lower true request h
  check-passed request _ (deletes resource item_id) h =
      check_mutation-passed urlsplit lower false request h
  check-passed request _ batches h = check_mutation-passed urlsplit lower true request h
  check-passed request _ (settings name) h = check_mutation-passed urlsplit lower true request h

  handle-Responds :
      (request : Request) (endpoint : Endpoint) (s : State) (user : AuthenticatedUser)
      → check_browser_mutation urlsplit lower (method_of endpoint) request ≡ ok tt
      → require_role (required_role endpoint) request.authenticated ≡ ok user
      → ((handled request endpoint s).1 ≡ s) ⊎ IsGuarded urlsplit lower request endpoint
  unfolding handle
  handle-Responds request endpoint s user passed role = elim (Bool-cases request.store_ready) [
    | inr e ↦ inl (rw (passed, role, e, handle) refl)
    | inl e ↦ elim (respond-reads request endpoint s) [
      | inl same ↦ inl (rw (passed, role, e, handle) same)
      | inr change ↦
          let (own, json) = check-passed request endpoint change passed in
          let (authenticated, ranked) =
            require_role-allowed (required_role endpoint) request.authenticated user role in
          inr (record {
            own = own;
            json = json;
            user = user;
            authenticated = authenticated;
            allowed = required-MayChange user endpoint change ranked;
          })
    ]
  ]

  -- A request leaves the inventory, the settings and the batches as they are, unless it is that of a
  -- signed-in administrator (an operator is enough to start a batch), comes from the gateway's own
  -- origin where it names one, and has a JSON body where its method carries one.
  pub handle-IsGuarded :
      (request : Request) (endpoint : Endpoint) (s : State)
      → ((handled request endpoint s).1 ≡ s) ⊎ IsGuarded urlsplit lower request endpoint
  unfolding handle
  handle-IsGuarded request endpoint s =
      elim (Outcome-cases (check_browser_mutation urlsplit lower (method_of endpoint) request)) [
        | inr (_, e) ↦ inl (rw (e, handle) refl)
        | inl (_, e) ↦
            elim (Outcome-cases (require_role (required_role endpoint) request.authenticated)) [
              | inr (_, f) ↦ inl (rw (e, f, handle) refl)
              | inl (user, f) ↦ handle-Responds request endpoint s user e f
            ]
      ]
