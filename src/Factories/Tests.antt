-- ===== src/Factories/Tests.antt =====
-- The factories at a concrete mapping.
use network_gateway_api.Value.{among}
use network_gateway_api.Configurations.Check.{client_classes}
use network_gateway_api.Factories.{client_mapping}
use network_gateway_api.Prelude.{err}
use network_gateway_api.Prelude.{
  ◌≡◌, refl, Bool, true, none, some, List, [], ◌∷◌, String, ok, if◌then◌else◌,
}
use network_gateway_api.Value.{
  Value, Fields, null, str, list, dict, nil, cons, end, field, get, truthy,
}
use network_gateway_api.Text.{strip, is_name}
use network_gateway_api.Storage.Tables.{find}
use network_gateway_api.Storage.Transaction.{transaction}
use network_gateway_api.Configurations.Check.{validate_config}
use network_gateway_api.Configurations.Operations.{Configuration, get_config}
use network_gateway_api.Factories.{
  Client, Query, resolve_class_path, get_client, get_proxy, get_device_info, validate_identifier,
  made,
}
use network_gateway_api.Factories.Supported.{get_client-default}
use network_gateway_api.Factories.Identifiers.{get_device_info-identifiers}

-- For texts in lower case
abbrev lower : String → String
lower text = text

abbrev text_of : Value → String
text_of (str text) = text
text_of _ = ""

abbrev loads : Client → Bool
loads client = true

abbrev columns : Value
columns = list (cons (str "vendor") (cons (str "model") nil))

abbrev telnet : String
telnet = "app.dal.device.telnet_client.GenericTelnetNCCClient"

abbrev ios : String
ios = "app.dal.device.nccclient_ios.IOSNCCClient"

abbrev entries : Fields
entries = field "cisco:*" (str ios) (field "default" (str telnet) end)

abbrev mapped : Fields
mapped = field "key_columns" columns (field "map" (dict entries) end)

abbrev proxies : Fields
proxies =
    field "key_columns" (list (cons (str "owner") nil))
      (field "map" (dict (field "lab" (str "10.0.0.9") (field "default" null end))) end)

abbrev lookup : Fields
lookup = field "table" (str "devices") (field "search_column" (str "hostname") end)

abbrev rows : List Configuration
rows =
    record { name = "client_mapping"; payload = dict mapped }
    ∷ record { name = "proxy_mapping"; payload = dict proxies }
    ∷ record { name = "device_lookup"; payload = dict lookup }
    ∷ []

abbrev router : Fields
router =
    field "vendor" (str "cisco") (field "model" (str "asr9k") (field "ip" (str "10.0.0.1") end))

abbrev client : Client
client = made lower text_of "r1" router ios

read : (get_config lower (str "client_mapping") rows).0 ≡ ok mapped
unfolding get_config find validate_config transaction
read = refl

-- The model is not in the mapping, its vendor with a star is.
starred_entry : get_client lower text_of loads rows "r1" (ok (some router)) ≡ ok client
unfolding get_client get_config find validate_config transaction resolve_class_path
starred_entry = refl

-- A null at the default means that there is no proxy, and the last candidate is not tried.
direct : get_proxy lower text_of rows (field "owner" (str "field") end) ≡ ok none
unfolding get_proxy get_config find validate_config transaction
direct = refl

proxied : get_proxy lower text_of rows (field "owner" (str "lab") end) ≡ ok (some (str "10.0.0.9"))
unfolding get_proxy get_config find validate_config transaction
proxied = refl

-- An environment in which only the supported classes load.
abbrev loads_supported : Client → Bool
loads_supported client = among client.class_path client_classes

abbrev unknown_model : Fields
unknown_model = field "ip" (str "10.0.0.2") end

get_client-default_example :
    (found : Client) × (among found.class_path client_classes ≡ true)
    × ((imports : Client → Bool)
        → get_client lower text_of imports rows "r2" (ok (some unknown_model))
          ≡ (if imports found then ok found else err client_mapping))
unfolding get truthy
get_client-default_example =
    get_client-default lower text_of rows "r2" "ip" (str "10.0.0.2") end mapped entries read refl
      refl

abbrev one_row : Query
one_row table column value = some (some router)

-- It answers otherwise for a name that is no identifier.
abbrev one_row_or_none : Query
one_row_or_none table column value = if is_name table then some (some router) else some none

get_device_info-identifiers_example :
    get_device_info lower one_row rows (str "r1")
    ≡ get_device_info lower one_row_or_none rows (str "r1")
get_device_info-identifiers_example =
    get_device_info-identifiers lower one_row one_row_or_none rows (str "r1")
      (λ table column t c. rw t refl)

looked_up : get_device_info lower one_row rows (str "r1") ≡ ok (some router)
unfolding get_device_info get_config find validate_config transaction validate_identifier strip
looked_up = refl
