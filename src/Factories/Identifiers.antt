-- ===== src/Factories/Identifiers.antt =====
-- The names that `get_device_info` of app/dal/db/db_client.py puts into its query.
use network_gateway_api.Prelude.{
  ◌≡◌, refl, Bool, true, not, ◌||◌, List, String, str_eq, ok, arith, Bool-cases, Outcome-cases, inl,
  inr,
}
use network_gateway_api.Value.{Value, null, bool, int, float, str, list, dict, get_value, is_empty}
use network_gateway_api.Text.{strip, is_name}
use network_gateway_api.Configurations.Operations.{Configuration, get_config}
use network_gateway_api.Factories.{validate_identifier, Query, get_device_info}

validate_identifier-name :
    (lower : String → String) (v : Value) (name : String)
    → validate_identifier lower v ≡ ok name
    → is_name name ≡ true
unfolding validate_identifier
validate_identifier-name lower (str text) name h = elim (Bool-cases (refuses (strip text))) [
  | inl e ↦ let h' = rw (e, validate_identifier) at h in cc
  | inr e ↦
      let same : ok (strip text) ≡ ok name = rw (e, validate_identifier) at h in
      let same' : strip text ≡ name = ground arith in rw (← same') (ground arith)
]
  where
    refuses : String → Bool
    refuses text = is_empty text || str_eq (lower text) "none" || not (is_name text)
validate_identifier-name lower null name h = cc
validate_identifier-name lower (bool _) name h = cc
validate_identifier-name lower (int _) name h = cc
validate_identifier-name lower (float _) name h = cc
validate_identifier-name lower (list _) name h = cc
validate_identifier-name lower (dict _) name h = cc

-- Only identifiers reach the query as names of a table and a column: two databases that answer alike
-- for identifiers are not told apart, whatever the stored configuration and the searched value are.
pub get_device_info-identifiers :
    (lower : String → String) (query query' : Query) (rows : List Configuration) (value : Value)
    → ((table column : String)
        → is_name table ≡ true
        → is_name column ≡ true
        → query table column value ≡ query' table column value)
    → get_device_info lower query rows value ≡ get_device_info lower query' rows value
unfolding get_device_info
get_device_info-identifiers lower query query' rows value alike =
    elim (Outcome-cases (get_config lower (str "device_lookup") rows).0) [
      | inr (_, e) ↦ rw (e, get_device_info) refl
      | inl (cfg, e) ↦ elim (Outcome-cases (validate_identifier lower (get_value "table" cfg))) [
        | inr (_, f) ↦ rw (e, f, get_device_info) refl
        | inl (table, f) ↦
            elim (Outcome-cases (validate_identifier lower (get_value "search_column" cfg))) [
              | inr (_, g) ↦ rw (e, f, g, get_device_info) refl
              | inl (column, g) ↦
                  let same =
                    alike table column
                      (validate_identifier-name lower (get_value "table" cfg) table f)
                      (validate_identifier-name lower (get_value "search_column" cfg) column g) in
                  rw (e, f, g, get_device_info, same) refl
            ]
      ]
    ]
