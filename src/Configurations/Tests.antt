-- ===== src/Configurations/Tests.antt =====
-- The configurations at concrete payloads.
use network_gateway_api.Prelude.{◌≡◌, refl, [], ◌∷◌, String, List, ok, str_eq, false}
use network_gateway_api.Value.{Value, str, null, list, dict, nil, cons, field, end}
use network_gateway_api.Storage.Tables.{find}
use network_gateway_api.Configurations.Check.{mapping}
use network_gateway_api.Configurations.Operations.{
  Configuration, name_of, get_config, save_config, get_config-save_config,
}

-- For texts in lower case
abbrev lower : String → String
lower text = text

abbrev columns : Value
columns = list (cons (str "vendor") (cons (str "model") nil))

abbrev proxies : Value
proxies = dict (field "cisco" (str "10.0.0.1") (field "nokia" null end))

abbrev payload : Value
payload = dict (field "map" proxies (field "key_columns" columns end))

abbrev rows : List Configuration
rows = record { name = "device_lookup"; payload = null } ∷ []

saved : (save_config lower (str "proxy_mapping") payload rows).0 ≡ ok (mapping columns proxies)
unfolding save_config
saved = refl

get_config-save_config_example :
    (get_config lower (str "proxy_mapping") (save_config lower (str "proxy_mapping") payload rows).1
      ≡ (ok (mapping columns proxies), (save_config lower (str "proxy_mapping") payload rows).1))
    × ((other : String)
        → str_eq "proxy_mapping" other ≡ false
        → find name_of other (save_config lower (str "proxy_mapping") payload rows).1
          ≡ find name_of other rows)
get_config-save_config_example = get_config-save_config lower "proxy_mapping" payload rows saved
