-- ===== src/Routes/Tests.antt =====
-- The management routes at concrete requests.
use network_gateway_api.Prelude.{
  ◌≡◌, ◌⊎◌, refl, Bool, true, false, Option, none, some, List, [], ◌∷◌, String, str_eq,
  if◌then◌else◌, ok,
}
use network_gateway_api.Prelude.Int.{pos, Float, dyadic}
use network_gateway_api.Value.{Value, Fields, null, end}
use network_gateway_api.Text.{strip}
use network_gateway_api.Secrets.Vault.{Vault}
use network_gateway_api.Storage.Tables.{find, remove}
use network_gateway_api.Storage.Transaction.{transaction}
use network_gateway_api.Identity.{
  GatewayRole, viewer, administrator, no_roles, with_role, demo, AuthenticatedUser, has_role,
  require_role,
}
use network_gateway_api.Inventory.Rows.{RoleAccount}
use network_gateway_api.Inventory.Operations.{Resource, role_accounts, delete, delete_block}
use network_gateway_api.Jobs.Rows.{SnapshotItem}
use network_gateway_api.Management.Calls.{store_call}
use network_gateway_api.Routes.Guard.{Url, Request, origin_of, check_browser_mutation}
use network_gateway_api.Routes.Endpoints.{
  delete_item, State, Response, empty, refused, respond, handle,
}
use network_gateway_api.Routes.Guarded.{IsGuarded, handle-IsGuarded}

abbrev vault : Vault Fields
vault = record { encrypt = λ _. "token"; decrypt = λ _. some end }

abbrev batch_vault : Vault (List SnapshotItem)
batch_vault = record { encrypt = λ _. "token"; decrypt = λ _. none }

abbrev key_error : Value → Value → Option String
key_error key passphrase = none

-- For texts in lower case
abbrev lower : String → String
lower text = text

abbrev text_of : Value → String
text_of v = ""

abbrev url : String → Url
url name = record {
  scheme = "http";
  hostname = some name;
  username = none;
  password = none;
  path = "";
  query = "";
  fragment = "";
  port = some (some 8000);
}

abbrev urlsplit : String → Option Url
urlsplit text =
    if str_eq text "http://gateway:8000" then some (url "gateway") else some (url "elsewhere")

abbrev resource_body : Resource → Value → Option Fields
resource_body resource body = none

abbrev batch_body : Value → Option (List String)
batch_body body = none

abbrev test_body : Value → Bool
test_body body = true

abbrev float_of : Value → Option Float
float_of v = none

abbrev tester : Fields → Option Fields
tester profile = none

abbrev elapsed : Float
elapsed = dyadic (pos 0) 0

abbrev settings_body : Value → Option Fields
settings_body body = none

abbrev settings_model : String → Fields → Option Fields
settings_model name payload = none

abbrev role : RoleAccount
role = record {
  id = "r1";
  name = "operators";
  username = "ada";
  authentication_type = "password";
  secrets = "token";
}

abbrev state : State
state = record {
  inventory = record { roles = role ∷ []; proxies = []; connections = [] };
  configurations = [];
  batches = record { closed = false; stopping = false; busy = false; jobs = [] };
}

abbrev user : GatewayRole → AuthenticatedUser
user of = record {
  subject = "ada";
  tenant_id = none;
  name = "Ada";
  email = none;
  roles = with_role of no_roles;
  auth_mode = demo;
}

abbrev request_from : String → GatewayRole → Request
request_from origin of = record {
  base_url = "http://gateway:8000";
  origin = some origin;
  sec_fetch_site = none;
  content_type = none;
  authenticated = ok (user of);
  body = null;
  new_id = "r2";
  scheduled = true;
  store_ready = true;
}

abbrev handled : Request → Response × State
handled request =
    handle vault batch_vault key_error lower text_of "disabled" urlsplit resource_body batch_body
      test_body settings_body settings_model float_of tester elapsed request
      (delete_item role_accounts "r1") state

abbrev own_request : Request
own_request = request_from "http://gateway:8000" administrator

deleted : handled own_request ≡ (
  empty 204,
  record state { inventory = record { roles = []; proxies = []; connections = [] } },
)
unfolding handle respond check_browser_mutation origin_of strip require_role has_role delete
    delete_block transaction find remove store_call
deleted = refl

not_allowed :
    (handled (request_from "http://gateway:8000" viewer)).0 ≡ refused 403 "Insufficient role."
unfolding handle check_browser_mutation origin_of strip require_role has_role
not_allowed = refl

cross_origin :
    (handled (request_from "http://elsewhere" administrator)).0
    ≡ refused 403 "Cross-origin administrative requests are not allowed."
unfolding handle check_browser_mutation origin_of
cross_origin = refl

handle-IsGuarded_example :
    ((handled own_request).1 ≡ state)
    ⊎ IsGuarded urlsplit lower own_request (delete_item role_accounts "r1")
handle-IsGuarded_example =
    handle-IsGuarded vault batch_vault key_error lower text_of "disabled" urlsplit resource_body
      batch_body test_body settings_body settings_model float_of tester elapsed own_request
      (delete_item role_accounts "r1") state
