-- ===== src/Audit/Tests.antt =====
-- The listing of audit records at a concrete table.
use mathlib.Core.List.{Perm}
use network_gateway_api.Prelude.{
  ℕ, ◌≡◌, refl, none, some, Option, List, [], ◌∷◌, String, str_eq, Bool, ◌≤◌, ◌*◌, length, ok,
  arith,
}
use network_gateway_api.Prelude.Int.{pos}
use network_gateway_api.Value.{Fields, int, str, null, dict, field, end}
use network_gateway_api.Identity.{no_roles}
use network_gateway_api.Audit.Fields.{Transaction}
use network_gateway_api.Audit.Listing.{Page, page_of, conditions, matching, list_transactions}
use network_gateway_api.Audit.Wanted.{IsFilter, IsWanted}
use network_gateway_api.Audit.Pages.{read_pages, IsNewestFirst, read_pages-IsNewestFirst}

abbrev record_of : (id timestamp action : String) → Transaction
record_of id timestamp action = record {
  id = id;
  timestamp_utc = timestamp;
  correlation_id = "k1";
  actor_subject = "u1";
  actor_tenant_id = none;
  actor_name = "Ada";
  actor_email = none;
  actor_roles = no_roles;
  auth_mode = "demo";
  action = action;
  resource_type = "static_route";
  resource_id = none;
  connection_id = none;
  outcome = "succeeded";
  before_state = null;
  after_state = null;
  detail = null;
  request_method = none;
  request_path = none;
}

abbrev rows : List Transaction
rows =
    record_of "t1" "2026-01-01T00:00:00.000000Z" "static_route.create"
    ∷ record_of "t2" "2026-01-03T00:00:00.000000Z" "static_route.delete"
    ∷ record_of "t3" "2026-01-02T00:00:00.000000Z" "static_route.create"
    ∷ []

abbrev uuid : String → Option String
uuid text = some text

abbrev fields : Fields
fields = field "action" (str "static_route.create") end

abbrev wanted : List (Transaction → Bool)
wanted = (λ row. str_eq row.action "static_route.create") ∷ []

newest :
    list_transactions uuid uuid (dict fields) (int (pos 1)) (int (pos 0)) rows
    ≡ ok (record {
      items = record_of "t3" "2026-01-02T00:00:00.000000Z" "static_route.create" ∷ [];
      total = 2;
      limit = 1;
      offset = 0;
    })
unfolding list_transactions
newest = refl

valid : conditions uuid uuid fields ≡ ok wanted
unfolding conditions
valid = refl

abbrev first : Page
first = page_of wanted rows 1 0

named : list_transactions uuid uuid (dict fields) (int (pos 1)) (int (pos 0)) rows ≡ ok first
unfolding list_transactions conditions
named = refl

enough : first.total ≤ 1 * 2
unfolding matching
enough = omega arith

read_pages-IsNewestFirst_example :
    (kept : List Transaction) × IsFilter (IsWanted uuid uuid fields) rows kept
    × Perm (read_pages uuid uuid (dict fields) 1 0 2 rows) kept
    × IsNewestFirst (read_pages uuid uuid (dict fields) 1 0 2 rows)
    × ((offset : ℕ)
        → (page : Page) × (list_transactions uuid uuid
              (dict fields)
              (int (pos 1))
              (int (pos offset))
              rows
            ≡ ok page)
          × (page.total ≡ length (read_pages uuid uuid (dict fields) 1 0 2 rows)))
read_pages-IsNewestFirst_example =
    read_pages-IsNewestFirst uuid uuid (dict fields) fields wanted 1 rows refl valid (omega arith)
      (omega arith) 2 first named enough
