-- ===== src/DeviceData/Tests.antt =====
-- The simulated device at a concrete inventory.
use network_gateway_api.Prelude.{
  ℕ, ◌≡◌, refl, true, Option, some, none, [], ◌∷◌, String, str_eq, ok, err, if◌then◌else◌,
}
use network_gateway_api.Prelude.Int.{pos}
use network_gateway_api.Value.{Value, Fields, bool, int, str, field, end, null}
use network_gateway_api.Secrets.Vault.{Vault}
use network_gateway_api.Identity.{operator, no_roles, with_role, demo}
use network_gateway_api.Inventory.Rows.{RoleAccount, Proxy, Connection, Inventory}
use network_gateway_api.StaticRoutes.Operations.{Route, RouteDb, Drawn}
use network_gateway_api.DeviceData.Service.{
  Asked, audit_context, service_create, service_update, service_delete,
}
use network_gateway_api.DeviceData.Attempts.{IsAudited, changes-AreAudited}
use network_gateway_api.DeviceData.Access.{Resolves, service_create-Resolves}

-- Each secret stands for the password that it holds.
abbrev vault : Vault Fields
vault = record {
  encrypt = λ _. "";
  decrypt = λ token. some (if str_eq token "" then end else field "password" (str token) end);
}

abbrev role : (id name username password : String) → RoleAccount
role id name username password = record {
  id = id;
  name = name;
  username = username;
  authentication_type = "password";
  secrets = password;
}

abbrev proxy : Proxy
proxy = record {
  id = "p1";
  name = "Fake bastion";
  kind = "ssh_tunnel";
  host = "fake-bastion.invalid";
  port = 22;
  role_account_id = some "r2";
  configuration = end;
  secrets = "";
}

abbrev connection : Connection
connection = record {
  id = "c1";
  name = "Fake transport device";
  protocol = "ssh";
  host = "fake-device.invalid";
  port = 22;
  timeout_seconds = int (pos 10);
  role_account_id = some "r1";
  proxy_id = some "p1";
  configuration = field "client_type" (str "fake") end;
  secrets = "";
}

abbrev inventory : Inventory
inventory = record {
  roles =
      role "r1" "Fake device login" "fake-device-user" "fake-device-password"
      ∷ role "r2" "Fake proxy login" "fake-proxy-user" "fake-proxy-password"
      ∷ [];
  proxies = proxy ∷ [];
  connections = connection ∷ [];
}

abbrev uuid : String → Option String
uuid text = some text

abbrev ip : String → Option (ℕ × String)
ip text = some (4, text)

abbrev key_error : Value → Value → Option String
key_error key passphrase = none

abbrev drawn : Drawn
drawn = record {
  first = "s1";
  second = "s2";
  route = "s3";
  transaction = "t1";
  correlation = "k1";
  now = "2026-01-01T00:00:00.000000Z";
}

abbrev drawn_failure : Drawn
drawn_failure = record drawn { transaction = "t2"; now = "2026-01-01T00:00:00.000001Z" }

abbrev asked : Asked
asked = record {
  actor = record {
    subject = "u1";
    tenant_id = none;
    name = "Ada";
    email = none;
    roles = with_role operator no_roles;
    auth_mode = demo;
  };
  correlation_id = "k1";
  request_method = "POST";
  request_path = "/api/devices/c1/static-routes";
}

abbrev empty : RouteDb
empty = record { initialized = []; routes = []; transactions = [] }

abbrev payload : Fields
payload = field "destination" (str "203.0.113.0/24") (
    field "next_hop" (str "192.0.2.9") (
      field "interface" null (
        field "metric" (int (pos 5))
          (field "description" (str "") (field "enabled" (bool true) end)))))

abbrev route : Route
route = record {
  id = "s3";
  connection_id = "c1";
  values = record {
    destination = "203.0.113.0/24";
    next_hop = "192.0.2.9";
    interface = none;
    metric = 5;
    description = "";
    enabled = true;
  };
}

created :
    (service_create vault inventory uuid ip ip "fake" key_error drawn drawn_failure asked "c1"
      payload empty).0
    ≡ ok route
unfolding service_create
created = refl

refused :
    (service_delete vault inventory uuid ip ip "disabled" key_error drawn drawn_failure asked "c1"
      "s3" empty).0
    ≡ err (record { message = "Simulated device access is disabled."; status_code = 503 })
unfolding service_delete
refused = refl

service_create-Resolves_example :
    (str_eq "fake" "fake" ≡ true) × Resolves vault inventory uuid ip ip "c1"
service_create-Resolves_example =
    service_create-Resolves vault inventory uuid ip ip "fake" key_error drawn drawn_failure asked
      "c1" payload empty route created

changes-AreAudited_example :
    IsAudited vault inventory uuid ip ip "fake" key_error drawn_failure
      (audit_context asked "static_route.create")
      none
      "c1"
      empty
      (service_create vault inventory uuid ip ip "fake" key_error drawn drawn_failure asked "c1"
        payload empty)
    × IsAudited vault inventory uuid ip ip "fake" key_error drawn_failure
        (audit_context asked "static_route.update")
        (some "s9")
        "c1"
        empty
        (service_update vault inventory uuid ip ip "fake" key_error drawn drawn_failure asked "c1"
          "s9" payload empty)
    × IsAudited vault inventory uuid ip ip "fake" key_error drawn_failure
        (audit_context asked "static_route.delete")
        (some "s9")
        "c1"
        empty
        (service_delete vault inventory uuid ip ip "fake" key_error drawn drawn_failure asked "c1"
          "s9" empty)
changes-AreAudited_example =
    changes-AreAudited vault inventory uuid ip ip "fake" key_error drawn drawn_failure asked "c1"
      "s9" payload empty
