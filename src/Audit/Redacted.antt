-- ===== src/Audit/Redacted.antt =====
-- What `_redact_recursive` of app/dal/db/store.py leaves in a stored value.
use network_gateway_api.Prelude.{◌≤◌, ◌≡◌, refl, true, Bool-cases, inl, inr, arith}
use network_gateway_api.Value.{
  Value, Items, Fields, null, bool, int, float, str, list, dict, nil, cons, end, field,
}
use network_gateway_api.Text.{count}
use network_gateway_api.Text.Laws.{count-take}
use network_gateway_api.Audit.Redaction.{
  is_sensitive, redact_text, redact_recursive, redact_items, redact_fields,
}

-- Below every sensitive key stands the marker, and every text has at most 4000 characters, at any
-- depth.
unfoldable mutual
  pub IsRedacted : Value → Type 0
  IsRedacted (str s) = count s ≤ 4000
  IsRedacted (list items) = AreRedacted items
  IsRedacted (dict fields) = FieldsAreRedacted fields
  IsRedacted _ = Unit

  pub AreRedacted : Items → Type 0
  AreRedacted nil = Unit
  AreRedacted (cons v items) = IsRedacted v × AreRedacted items

  pub FieldsAreRedacted : Fields → Type 0
  FieldsAreRedacted end = Unit
  FieldsAreRedacted (field k v fields) =
      (is_sensitive k ≡ true → v ≡ str "[redacted]") × IsRedacted v × FieldsAreRedacted fields

mutual
  unfolding IsRedacted redact_recursive redact_text

  value_lem : (v : Value) → IsRedacted (redact_recursive v)
  value_lem null = tt
  value_lem (bool b) = tt
  value_lem (int i) = tt
  value_lem (float x) = tt
  value_lem (str s) = count-take 4000 _
  value_lem (list items) = items_lem items
  value_lem (dict fields) = fields_lem fields

  items_lem : (items : Items) → AreRedacted (redact_items items)
  items_lem nil = tt
  items_lem (cons v items) = (value_lem v, items_lem items)

  fields_lem : (fields : Fields) → FieldsAreRedacted (redact_fields fields)
  fields_lem end = tt
  fields_lem (field k v fields) = elim (Bool-cases (is_sensitive k)) [
    | inl e ↦ rw e ((λ _. refl), omega arith, fields_lem fields)
    | inr e ↦ rw e ((λ h. cc), value_lem v, fields_lem fields)
  ]

-- Whatever is stored as the state of a resource before or after a change, or as a detail: below
-- each key that looks sensitive there is only the marker, and no text is longer than 4000
-- characters.
pub redact_recursive-IsRedacted : (v : Value) → IsRedacted (redact_recursive v)
redact_recursive-IsRedacted v = value_lem v
