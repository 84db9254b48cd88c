-- ===== src/Identity.antt =====
-- app/common/identity.py: roles, users, and the dependency that requires a role.
pub mod Laws
pub mod Tests
use network_gateway_api.Prelude.{
  ℕ, Bool, true, false, ◌&&◌, ◌||◌, Option, none, some, String, leb, if◌then◌else◌, Outcome, ok,
  err,
}
use network_gateway_api.Value.{Value, Items, Fields, null, str, list, nil, cons, field, end}

-- GatewayRole
pub data GatewayRole : Type 0 where
  viewer operator administrator : GatewayRole

-- _ROLE_RANK
abbrev pub role_rank : GatewayRole → ℕ
role_rank viewer = 1
role_rank operator = 2
role_rank administrator = 3

abbrev pub role_text : GatewayRole → String
role_text viewer = "Viewer"
role_text operator = "Operator"
role_text administrator = "Administrator"

-- A `frozenset` of roles, by what it contains.
pub record Roles : Type 0 where
  pub viewer : Bool
  pub operator : Bool
  pub administrator : Bool

abbrev pub no_roles : Roles
no_roles = record { viewer = false; operator = false; administrator = false }

abbrev pub with_role : GatewayRole → Roles → Roles
with_role viewer roles = record roles { viewer = true }
with_role operator roles = record roles { operator = true }
with_role administrator roles = record roles { administrator = true }

abbrev pub contains_role : Roles → GatewayRole → Bool
contains_role roles viewer = roles.viewer
contains_role roles operator = roles.operator
contains_role roles administrator = roles.administrator

pub data AuthMode : Type 0 where
  entra demo disabled : AuthMode

abbrev pub mode_text : AuthMode → String
mode_text entra = "entra"
mode_text demo = "demo"
mode_text disabled = "disabled"

pub record AuthenticatedUser : Type 0 where
  pub subject : String
  pub tenant_id : Option String
  pub name : String
  pub email : Option String
  pub roles : Roles
  pub auth_mode : AuthMode

-- HTTPException, or another exception: a ValueError, or one that nothing here expects.
pub data AuthError : Type 0 where
  http : (status_code : ℕ) (detail : String) → AuthError
  value_error : AuthError
  unexpected : AuthError

abbrev pub text_or_null : Option String → Value
text_or_null none = null
text_or_null (some text) = str text

-- `sorted(self.roles)`
abbrev pub sorted_roles : Roles → Items
sorted_roles roles =
    let viewers = if roles.viewer then cons (str "Viewer") nil else nil in
    let operators = if roles.operator then cons (str "Operator") viewers else viewers in
    if roles.administrator then cons (str "Administrator") operators else operators

-- `AuthenticatedUser.public`
unfoldable pub public_user : AuthenticatedUser → Fields
public_user user = field "subject" (str user.subject) (
    field "tenant_id" (text_or_null user.tenant_id) (
      field "name" (str user.name) (
        field "email" (text_or_null user.email) (
          field "roles" (list (sorted_roles user.roles))
            (field "auth_mode" (str (mode_text user.auth_mode)) end)))))

-- `any(_ROLE_RANK[role] >= _ROLE_RANK[required] for role in user.roles)`
unfoldable pub has_role : AuthenticatedUser → GatewayRole → Bool
has_role user required =
    (user.roles.viewer && leb (role_rank required) (role_rank viewer))
    || (user.roles.operator && leb (role_rank required) (role_rank operator))
    || (user.roles.administrator && leb (role_rank required) (role_rank administrator))

-- `current_user`, with what `authenticate_request` gave
abbrev pub current_user : Outcome AuthError AuthenticatedUser → Outcome AuthError AuthenticatedUser
current_user (err value_error) = err (http 401 "Authentication is unavailable.")
current_user (err e) = err e
current_user (ok user) = ok user

-- The dependency that `require_role(required)` returns
unfoldable pub require_role :
    GatewayRole → Outcome AuthError AuthenticatedUser → Outcome AuthError AuthenticatedUser
unfolding has_role
require_role required authenticated = elim (current_user authenticated) [
  | err e ↦ err e
  | ok user ↦ if has_role user required then ok user else err (http 403 "Insufficient role.")
]
