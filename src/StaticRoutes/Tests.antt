-- ===== src/StaticRoutes/Tests.antt =====
-- Static routes and their audit records at concrete inputs.
use network_gateway_api.Prelude.{ℕ, true, Option, some, [], String, Outcome, ok}
use network_gateway_api.Prelude.Int.{pos}
use network_gateway_api.Value.{Fields, bool, int, str, list, cons, nil, field, end, null}
use network_gateway_api.Storage.Errors.{StoreError}
use network_gateway_api.Audit.Redaction.{redact_recursive}
use network_gateway_api.Audit.Redacted.{IsRedacted, redact_recursive-IsRedacted}
use network_gateway_api.StaticRoutes.Operations.{
  RouteDb, Drawn, update_static_route_audited, delete_static_route_audited,
}
use network_gateway_api.StaticRoutes.Logged.{updated, deleted}
use network_gateway_api.StaticRoutes.Rows.{IsUpdate, IsDelete}
use network_gateway_api.StaticRoutes.Recorded.{
  IsRecorded, update_static_route_audited-IsRecorded, delete_static_route_audited-IsRecorded,
}

abbrev fake_profile : String → Outcome StoreError Fields
fake_profile id = ok (field "client_type" (str "fake") end)

abbrev uuid : String → Option String
uuid text = some text

abbrev ip : String → Option (ℕ × String)
ip text = some (4, text)

abbrev drawn : Drawn
drawn = record {
  first = "r1";
  second = "r2";
  route = "r3";
  transaction = "t1";
  correlation = "k1";
  now = "2026-01-01T00:00:00.000000Z";
}

abbrev empty : RouteDb
empty = record { initialized = []; routes = []; transactions = [] }

abbrev payload : Fields
payload = field "destination" (str "203.0.113.0/24") (
    field "next_hop" (str "192.0.2.9") (
      field "interface" null (
        field "metric" (int (pos 5))
          (field "description" (str "") (field "enabled" (bool true) end)))))

abbrev audit : Fields
audit = field "actor_subject" (str "u1") (
    field "actor_name" (str "Ada") (
      field "actor_roles" (list (cons (str "Operator") nil))
        (field "auth_mode" (str "demo") (field "action" (str "create") end))))

update_static_route_audited-IsRecorded_example :
    IsRecorded fake_profile uuid ip ip drawn
      (IsUpdate fake_profile uuid ip ip drawn "c1" "r1" payload empty)
      (updated fake_profile uuid ip ip drawn "c1" "r1" audit)
      (λ rows. rows.1)
      empty
      (update_static_route_audited fake_profile uuid ip ip drawn "c1" "r1" payload audit empty)
update_static_route_audited-IsRecorded_example =
    update_static_route_audited-IsRecorded fake_profile uuid ip ip drawn "c1" "r1" payload audit
      empty

delete_static_route_audited-IsRecorded_example :
    IsRecorded fake_profile uuid ip ip drawn
      (IsDelete fake_profile uuid ip ip drawn "c1" "r1" empty)
      (deleted fake_profile uuid ip ip drawn "c1" "r1" audit)
      (λ before. tt)
      empty
      (delete_static_route_audited fake_profile uuid ip ip drawn "c1" "r1" audit empty)
delete_static_route_audited-IsRecorded_example =
    delete_static_route_audited-IsRecorded fake_profile uuid ip ip drawn "c1" "r1" audit empty

redact_recursive-IsRedacted_example :
    IsRedacted (redact_recursive (list (cons (str "Bearer abc") nil)))
redact_recursive-IsRedacted_example =
    redact_recursive-IsRedacted (list (cons (str "Bearer abc") nil))
