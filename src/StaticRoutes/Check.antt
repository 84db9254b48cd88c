-- ===== src/StaticRoutes/Check.antt =====
-- `_validate_static_route` of app/dal/db/store.py. The `ipaddress` functions are parameters: they
-- give the version and the canonical text.
use network_gateway_api.Prelude.{
  ◌>>=◌, ◌>>◌, raise_if, ℕ, Bool, true, false, not, ◌&&◌, ◌||◌, Option, none, some, String, leb,
  ◌==◌, if◌then◌else◌, Outcome, ok, err,
}
use mathlib.Core.List.{List, [] as nilₗ, ◌∷◌ as ◌∷ₗ◌}
use network_gateway_api.Prelude.Int.{pos}
use network_gateway_api.Value.{
  Value, Fields, null, bool, int, str, end, field, get_value, get, has, among, is_empty,
}
use network_gateway_api.Text.{count, has_part, same, all_chars}
use network_gateway_api.Text.Split.{split}
use network_gateway_api.Storage.Errors.{StoreError, store_error}
use network_gateway_api.Audit.Fields.{text}

pub record RouteValues : Type 0 where
  pub destination : String
  pub next_hop : String
  pub interface : Option String
  pub metric : ℕ
  pub description : String
  pub enabled : Bool

abbrev route_fields : List String
route_fields =
    "destination" ∷ₗ "next_hop" ∷ₗ "interface" ∷ₗ "metric" ∷ₗ "description" ∷ₗ "enabled" ∷ₗ nilₗ

abbrev only_among : List String → Fields → Bool
only_among names end = true
only_among names (field k v fields) = among k names && only_among names fields

abbrev has_all : List String → Fields → Bool
has_all nilₗ fields = true
has_all (name ∷ₗ names) fields = has name fields && has_all names fields

abbrev is_digit : ℕ → Bool
is_digit c = leb 48 c && leb c 57

-- `re.fullmatch(r"[^/]+/[0-9]{1,3}", destination)`
abbrev pub is_prefix : String → Bool
is_prefix destination = elim (split (λ c. c == 47) destination) [
  | network ∷ₗ size ∷ₗ nilₗ ↦
      not (is_empty network) && not (is_empty size) && leb (count size) 3 && all_chars is_digit size
  | _ ↦ false
]

abbrev bad_prefix : StoreError
bad_prefix = store_error "A valid network prefix and next-hop address are required."

abbrev text_of_field : Value → Outcome StoreError String
text_of_field (str s) = ok s
text_of_field _ = err bad_prefix

abbrev bad_interface : StoreError
bad_interface = store_error "Unsupported simulated interface."

abbrev interface_of : Value → Outcome StoreError (Option String)
interface_of null = ok none
interface_of (str s) =
    if among s ("eth0" ∷ₗ "eth1" ∷ₗ "lo" ∷ₗ nilₗ) then ok (some s) else err bad_interface
interface_of _ = err bad_interface

abbrev bad_metric : StoreError
bad_metric = store_error "Metric must be an integer between 0 and 65535."

abbrev pub metric_of : Value → Outcome StoreError ℕ
metric_of (int (pos n)) = if leb n 65535 then ok n else err bad_metric
metric_of _ = err bad_metric

abbrev enabled_of : Value → Outcome StoreError Bool
enabled_of (bool b) = ok b
enabled_of _ = err (store_error "Route enabled must be a boolean.")

module _ (ip_network ip_address : String → Option (ℕ × String)) where
  -- The checks on the destination and the next hop
  unfoldable pub addresses : Value → Value → Outcome StoreError (String × String)
  unfolding split has_part
  addresses destination next_hop = text_of_field destination >>= λ d.
      raise_if (not (is_prefix d)) bad_prefix
      >> (text_of_field next_hop >>= λ n.
          raise_if (has_part same "%" d || has_part same "%" n) bad_prefix >> elim (ip_network d) [
            | none ↦ err bad_prefix
            | some (version, network) ↦ elim (ip_address n) [
              | none ↦ err bad_prefix
              | some (version', address) ↦
                  if version == version'
                  then ok (network, address)
                  else err
                      (store_error "Destination and next hop must use the same address family.")
            ]
          ])

  unfoldable pub validate_static_route : Fields → Outcome StoreError RouteValues
  unfolding addresses text get
  validate_static_route payload =
      raise_if (not (only_among route_fields payload && has_all route_fields payload)) (
        store_error
          "Static routes require destination, next_hop, interface, metric, description and enabled.")
      >> (addresses (get_value "destination" payload) (get_value "next_hop" payload) >>= λ found.
          interface_of (get_value "interface" payload) >>= λ interface.
          metric_of (get_value "metric" payload) >>= λ metric.
          text (get_value "description" payload) "route description" "Route description" false 200
          >>= λ description. enabled_of (get_value "enabled" payload) >>= λ enabled. ok (record {
            destination = found.0;
            next_hop = found.1;
            interface = interface;
            metric = metric;
            description = description;
            enabled = enabled;
          }))
