-- ===== src/Identity/Tests.antt =====
-- Roles at concrete users.
use network_gateway_api.Prelude.{Outcome, ◌≡◌, refl, true, false, none, ok}
use network_gateway_api.Identity.{
  operator, AuthError, AuthenticatedUser, entra, has_role, require_role,
}

abbrev user : AuthenticatedUser
user = record {
  subject = "u1";
  tenant_id = none;
  name = "Ada";
  email = none;
  roles = record { viewer = false; operator = true; administrator = false };
  auth_mode = entra;
}

abbrev authenticated : Outcome AuthError AuthenticatedUser
authenticated = ok user

allowed : require_role operator authenticated ≡ ok user
unfolding require_role has_role
allowed = refl
