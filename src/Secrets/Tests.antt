-- ===== src/Secrets/Tests.antt =====
-- The functions over secret fields at concrete values.

use network_gateway_api.Prelude.{◌≡◌, ◌↔◌, []}
use network_gateway_api.Value.{Fields, str, dict, list, cons, nil, field, end}
use network_gateway_api.Secrets.{public_fields, credential_values}
use network_gateway_api.Secrets.PublicFields.{
  IsPublic, public_fields-IsPublic, public_fields-eq_iff, credential_values-public_fields,
}

abbrev nested : Fields
nested =
    field "host" (str "h")
      (field "connector" (list (cons (dict (field "password" (str "p") end)) nil)) end)

public_fields-IsPublic_example : IsPublic (public_fields (dict nested))
public_fields-IsPublic_example = public_fields-IsPublic (dict nested)

public_fields-eq_iff_example : (public_fields (dict nested) ≡ dict nested) ↔ IsPublic (dict nested)
public_fields-eq_iff_example = public_fields-eq_iff (dict nested)

credential_values-public_fields_example : credential_values (public_fields (dict nested)) ≡ []
credential_values-public_fields_example = credential_values-public_fields (dict nested)
