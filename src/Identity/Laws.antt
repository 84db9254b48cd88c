-- ===== src/Identity/Laws.antt =====
-- Roles are ordered, and each route's requirement is met by the roles at or above it.
use network_gateway_api.Prelude.{
  ◌≤◌, ◌≡◌, true, false, ◌&&◌, ◌||◌, Outcome, ok, err, arith, Bool-cases, inl, inr, leb,
}
use network_gateway_api.Identity.{
  GatewayRole, viewer, operator, administrator, role_rank, contains_role, AuthenticatedUser,
  AuthError, http, value_error, unexpected, has_role, require_role,
}

-- A user has a required role if and only if the user holds a role whose rank is at least as high.
pub has_role_sound :
    (user : AuthenticatedUser) (required : GatewayRole)
    → has_role user required ≡ true
    → (role : GatewayRole) × (contains_role user.roles role ≡ true)
      × (role_rank required ≤ role_rank role)
unfolding has_role
has_role_sound user required h = elim (Bool-cases user.roles.administrator) [
  | inl a ↦ (administrator, a, at_most required)
  | inr a ↦ elim (Bool-cases user.roles.operator) [
    | inl b ↦ (operator, b, below required (rw (a, b) at h))
    | inr b ↦ elim (Bool-cases user.roles.viewer) [
      | inl c ↦ (viewer, c, lowest required (rw (a, b, c) at h))
      | inr c ↦ let h' = rw (a, b, c) at h in cc
    ]
  ]
]
  where
    at_most : (r : GatewayRole) → role_rank r ≤ 3
    at_most r = ground arith

    below :
        (r : GatewayRole)
        → (((user.roles.viewer && leb (role_rank r) 1) || leb (role_rank r) 2) || false) ≡ true
        → role_rank r ≤ 2
    below r g = ground arith

    lowest : (r : GatewayRole) → ((leb (role_rank r) 1 || false) || false) ≡ true → role_rank r ≤ 1
    lowest r g = ground arith

-- A role that is required and met meets every requirement of a lower rank as well.
pub has_role_mono :
    (user : AuthenticatedUser) (low high : GatewayRole)
    → role_rank low ≤ role_rank high
    → has_role user high ≡ true
    → has_role user low ≡ true
unfolding has_role
has_role_mono user low high h g = ground arith

-- A protected route runs only for a user who was authenticated and holds the role that it
-- requires.
pub require_role-ok :
    (required : GatewayRole) (authenticated : Outcome AuthError AuthenticatedUser)
    (user : AuthenticatedUser)
    → require_role required authenticated ≡ ok user
    → (authenticated ≡ ok user) × (has_role user required ≡ true)
unfolding require_role
require_role-ok required (err value_error) user h = cc
require_role-ok required (err (http code detail)) user h = cc
require_role-ok required (err unexpected) user h = cc
require_role-ok required (ok found) user h = elim (Bool-cases (has_role found required)) [
  | inl e ↦
      let h' : ok found ≡ ok user = rw (e, require_role) at h in
      let same : found ≡ user = ground arith in (h', rw (← same) e)
  | inr e ↦ let h' = rw (e, require_role) at h in cc
]
