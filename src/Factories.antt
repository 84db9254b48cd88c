-- ===== src/Factories.antt =====
-- The choice of a device client and of a proxy from the stored mappings:
-- app/bl/factories/client_factory.py, app/bl/factories/proxy_factory.py and the lookup of
-- app/dal/db/db_client.py. `str`, `str.lower`, the SQL query and the import of a class are parameters.
pub mod Choice
pub mod Supported
pub mod Identifiers
pub mod Tests
use network_gateway_api.Prelude.{
  Bool, true, false, not, ◌&&◌, ◌||◌, Option, none, some, List, [], ◌∷◌, String, str_eq, ltb,
  length, map, if◌then◌else◌, Outcome, ok, err,
}
use network_gateway_api.Value.{
  Value, Fields, Items, null, str, list, dict, nil, cons, end, field, get, get_or, get_value, has,
  truthy, is_empty,
}
use network_gateway_api.Text.{append, strip, is_name}
use network_gateway_api.Jobs.Payload.{texts}
use network_gateway_api.Configurations.Operations.{Configuration, get_config}

pub data GatewayError : Type 0 where
  config_not_found device_not_found client_mapping proxy_mapping database : GatewayError

-- `_validate_identifier`; the pattern's `$` would allow a final line feed, but the text is stripped.
unfoldable pub validate_identifier : (String → String) → Value → Outcome GatewayError String
unfolding strip
validate_identifier lower (str name) =
    let normalized = strip name in
    if is_empty normalized || str_eq (lower normalized) "none" || not (is_name normalized)
    then err config_not_found
    else ok normalized
validate_identifier lower _ = err config_not_found

-- `":".join(parts)`
abbrev pub join : List String → String
join [] = ""
join (part ∷ []) = part
join (part ∷ other ∷ parts) = append part (append ":" (join (other ∷ parts)))

-- `parts[:-1] + ["*"]`
abbrev pub starred : List String → List String
starred [] = "*" ∷ []
starred (part ∷ []) = "*" ∷ []
starred (part ∷ other ∷ parts) = part ∷ starred (other ∷ parts)

-- `value or other`
abbrev pub or_else : Value → Value → Value
or_else value other = if truthy value then value else other

abbrev pub or_first : List String → Value → Fields → Value
or_first [] value entries = value
or_first (part ∷ parts) value entries = or_else value (get_value part entries)

-- The four lookups, each where what was found before is falsy
unfoldable pub class_path_of : List String → Fields → Value
unfolding get truthy
class_path_of parts entries =
    let exact = get_value (join parts) entries in
    let partial = or_else exact (get_value (join (starred parts)) entries) in
    or_else (or_first parts (if ltb 1 (length parts) then partial else exact) entries)
      (get_value "default" entries)

abbrev pub chosen_path : Value → Outcome GatewayError Value
chosen_path value = if truthy value then ok value else err client_mapping

-- The keys that the proxies are looked up by
abbrev first_of : List String → List String → List String
first_of [] more = more
first_of (part ∷ parts) more = part ∷ more

unfoldable pub candidates : List String → List String
candidates parts =
    let rest = first_of parts ("default" ∷ "*:*" ∷ []) in
    join parts ∷ (if ltb 1 (length parts) then join (starred parts) ∷ rest else rest)

-- The value at the first candidate that is a key, or `None`
unfoldable pub first_entry : List String → Fields → Value
unfolding get
first_entry [] entries = null
first_entry (key ∷ keys) entries = elim (get key entries) [
  | some value ↦ value
  | none ↦ first_entry keys entries
]

abbrev proxy_of : Value → Option Value
proxy_of value = if truthy value then some value else none

-- What a client is made from
pub record Client : Type 0 where
  pub class_path : String
  pub host : String
  pub router_info : Fields

module _ (lower : String → String) (text_of : Value → String) where
  -- One part of the key: `str(router_info.get(col, "*") or "*").lower()`
  abbrev pub key_part : Fields → String → String
  key_part info column = lower (text_of (or_else (get_or column (str "*") info) (str "*")))

  -- The parts of the key. `get_config` gives columns that are texts; anything else is an exception here.
  unfoldable pub key_parts : Fields → Value → Option (List String)
  unfolding texts get truthy
  key_parts info (list columns) = elim (texts columns) [
    | none ↦ none
    | some names ↦ some (map (key_part info) names)
  ]
  key_parts info _ = none

  abbrev path_with : Option (List String) → Value → Outcome GatewayError Value
  path_with (some parts) (dict entries) = chosen_path (class_path_of parts entries)
  path_with _ _ = err client_mapping

  -- `_resolve_class_path`
  unfoldable pub resolve_class_path : Fields → Fields → Outcome GatewayError Value
  unfolding key_parts class_path_of
  resolve_class_path info cfg =
      path_with (key_parts info (get_or "key_columns" (list (cons (str "vendor") nil)) cfg))
        (get_or "map" (dict end) cfg)

  -- The address: the first of the columns that is truthy, or the device's name
  abbrev pub host_of : Fields → String → String
  host_of info device = text_of (
      or_else (get_value "mgmt_ip" info) (
        or_else (get_value "ip" info)
          (or_else (get_value "host" info) (or_else (get_value "hostname" info) (str device)))))

  abbrev pub made : String → Fields → String → Client
  made device info path = record {
    class_path = path;
    host = host_of info device;
    router_info = info;
  }

  -- `loads` is whether the class is imported and a client of it is made.
  abbrev pub client_with :
      (loads : Client → Bool) → String → Fields → Value → Outcome GatewayError Client
  client_with loads device info (str path) =
      if loads (made device info path) then ok (made device info path) else err client_mapping
  client_with loads device info _ = err client_mapping

  abbrev pub client_for :
      (loads : Client → Bool) → List Configuration → String → Fields → Outcome GatewayError Client
  client_for loads rows device info = elim (get_config lower (str "client_mapping") rows).0 [
    | err _ ↦ err client_mapping
    | ok cfg ↦ elim (resolve_class_path info cfg) [
      | err e ↦ err e
      | ok path ↦ client_with loads device info path
    ]
  ]

  -- `NCCClientFactory.get_client`, with what `get_device_info` returns for the device
  unfoldable pub get_client :
      (loads : Client → Bool)
      → List Configuration
      → String
      → Outcome GatewayError (Option Fields)
      → Outcome GatewayError Client
  unfolding get_config resolve_class_path
  get_client loads rows device (err device_not_found) = err device_not_found
  get_client loads rows device (err _) = err client_mapping
  get_client loads rows device (ok none) = err device_not_found
  get_client loads rows device (ok (some end)) = err device_not_found
  get_client loads rows device (ok (some (field k v info))) =
      client_for loads rows device (field k v info)

  abbrev proxy_with : Option (List String) → Value → Outcome GatewayError (Option Value)
  proxy_with (some parts) (dict entries) = ok (proxy_of (first_entry (candidates parts) entries))
  proxy_with _ _ = err proxy_mapping

  -- `ProxyFactory.get_proxy`: the host of the proxy, if any
  unfoldable pub get_proxy : List Configuration → Fields → Outcome GatewayError (Option Value)
  unfolding get_config key_parts first_entry candidates
  get_proxy rows info = elim (get_config lower (str "proxy_mapping") rows).0 [
    | err _ ↦ err proxy_mapping
    | ok cfg ↦
        proxy_with (key_parts info (get_or "key_columns" (list (cons (str "owner") nil)) cfg))
          (get_or "map" (dict end) cfg)
  ]

-- The row that the query `select * from table where column = value limit 1` returns; what it raises
-- is another exception.
abbrev pub Query : Type 0
Query = String → String → Value → Option (Option Fields)

abbrev pub queried : Option (Option Fields) → Outcome GatewayError (Option Fields)
queried none = err database
queried (some row) = ok row

-- `get_device_info`
unfoldable pub get_device_info :
    (String → String) → Query → List Configuration → Value → Outcome GatewayError (Option Fields)
unfolding get_config validate_identifier get
get_device_info lower query rows value = elim (get_config lower (str "device_lookup") rows).0 [
  | err _ ↦ err config_not_found
  | ok cfg ↦ elim (validate_identifier lower (get_value "table" cfg)) [
    | err e ↦ err e
    | ok table ↦ elim (validate_identifier lower (get_value "search_column" cfg)) [
      | err e ↦ err e
      | ok column ↦ queried (query table column value)
    ]
  ]
]
