-- ===== src/Factories/Choice.antt =====
-- Which client and proxy the factories of app/bl/factories choose from a valid mapping.
use network_gateway_api.Prelude.{
  >>=-eq-ok, ◌≡◌, refl, Bool, true, false, not, ◌&&◌, ◌||◌, some, List, [], ◌∷◌, String, str_eq,
  ltb, ◌==◌, length, if◌then◌else◌, Outcome, ok, err, raise_if, arith, Bool-cases, Option-cases,
  inl, inr,
}
use network_gateway_api.Value.{
  Value, Fields, null, bool, int, float, str, list, dict, Items, end, field, get, get_or, get_value,
  among, truthy, is_null,
}
use network_gateway_api.Storage.Errors.{StoreError}
use network_gateway_api.Jobs.Payload.{texts}
use network_gateway_api.Storage.Tables.{find}
use network_gateway_api.Storage.Transaction.{transaction, lift, commit}
use network_gateway_api.Configurations.Check.{
  client_classes, mapping, check_target, check_mappings, check_map, check_columns, check_mapping,
  check_payload, validate_config, is_key, bad_entries, size, holds_keys,
}
use network_gateway_api.Configurations.Operations.{
  Configuration, name_of, stored_config, get_config,
}
use network_gateway_api.Factories.{or_first, join, starred, or_else, class_path_of}

-- Falsy, or the path of a supported class
abbrev pub IsTarget : Value → Type 0
IsTarget value =
    truthy value ≡ true → (path : String) × (value ≡ str path) × (among path client_classes ≡ true)

or_else-IsTarget : (v w : Value) → IsTarget v → IsTarget w → IsTarget (or_else v w)
unfolding truthy
or_else-IsTarget v w first second = elim (Bool-cases (truthy v)) [
  | inl e ↦ rw e first
  | inr e ↦ rw e second
]

null-IsTarget : IsTarget null
unfolding truthy
null-IsTarget h = cc

-- What a valid mapping of clients is
pub record IsClientMapping (lower : String → String) (cfg : Fields) : Type 0 where
  pub items : Items
  pub names : List String
  pub entries : Fields
  pub shape : cfg ≡ mapping (list items) (dict entries)
  pub named : texts items ≡ some names
  pub checked : check_mappings lower true entries ≡ ok tt

module _ (lower : String → String) where
  check_target-IsTarget : (v : Value) (r : Unit {0}) → check_target lower true v ≡ ok r → IsTarget v
  check_target-IsTarget (str path) r h t = elim (Bool-cases (among path client_classes)) [
    | inl e ↦ (path, refl, e)
    | inr e ↦ let h' = rw e at h in cc
  ]
  check_target-IsTarget null r h t = cc
  check_target-IsTarget (bool _) r h t = cc
  check_target-IsTarget (int _) r h t = cc
  check_target-IsTarget (float _) r h t = cc
  check_target-IsTarget (list _) r h t = cc
  check_target-IsTarget (dict _) r h t = cc

  get_value-IsTarget :
      (key : String) (entries : Fields) (r : Unit {0})
      → check_mappings lower true entries ≡ ok r
      → IsTarget (get_value key entries)
  unfolding check_mappings get
  get_value-IsTarget key end r h = null-IsTarget
  get_value-IsTarget key (field k v entries) r h =
      let (_, _, h') = >>=-eq-ok (raise_if (not (is_key lower k)) _) _ h in
      let (r', target, rest) = >>=-eq-ok (check_target lower true v) _ h' in
      elim (Bool-cases (str_eq k key)) [
        | inl e ↦ rw (e, get_or) (check_target-IsTarget v r' target)
        | inr e ↦ rw (e, get_or) (get_value-IsTarget key entries r rest)
      ]

  or_first-IsTarget :
      (parts : List String) (v : Value) (entries : Fields)
      → check_mappings lower true entries ≡ ok tt
      → IsTarget v
      → IsTarget (or_first parts v entries)
  or_first-IsTarget [] v entries h t = t
  or_first-IsTarget (part ∷ parts) v entries h t =
      or_else-IsTarget v _ t (get_value-IsTarget part entries tt h)

  pub class_path_of-IsTarget :
      (parts : List String) (entries : Fields)
      → check_mappings lower true entries ≡ ok tt
      → IsTarget (class_path_of parts entries)
  unfolding class_path_of
  class_path_of-IsTarget parts entries h =
      let exact = get_value-IsTarget (join parts) entries tt h in
      let partial =
        or_else-IsTarget _ _ exact (get_value-IsTarget (join (starred parts)) entries tt h) in
      or_else-IsTarget _ _
        (or_first-IsTarget parts _ entries h (either (ltb 1 (length parts)) partial exact))
        (get_value-IsTarget "default" entries tt h)
    where
      either : {v w : Value} (b : Bool) → IsTarget v → IsTarget w → IsTarget (if b then v else w)
      either true t u = t
      either false t u = u

  check_columns-names :
      (columns : Value) (r : Unit {0})
      → check_columns lower columns ≡ ok r
      → (items : Items) × (names : List String) × (columns ≡ list items)
        × (texts items ≡ some names)
  unfolding check_columns
  check_columns-names (list items) r h = elim (Option-cases (texts items)) [
    | inl e ↦ let h' = rw (e, check_columns) at h in cc
    | inr (names, e) ↦ (items, names, refl, e)
  ]
  check_columns-names null r h = cc
  check_columns-names (bool _) r h = cc
  check_columns-names (int _) r h = cc
  check_columns-names (float _) r h = cc
  check_columns-names (str _) r h = cc
  check_columns-names (dict _) r h = cc

  check_map-entries :
      (v : Value) (r : Unit {0})
      → check_map lower true v ≡ ok r
      → (entries : Fields) × (v ≡ dict entries) × (check_mappings lower true entries ≡ ok r)
  unfolding check_map
  check_map-entries (dict entries) r h =
      let (_, _, rest) =
        >>=-eq-ok (raise_if (ltb 1000 (size entries) || (true && (size entries == 0))) bad_entries)
          _ h in
      (entries, refl, rest)
  check_map-entries null r h = cc
  check_map-entries (bool _) r h = cc
  check_map-entries (int _) r h = cc
  check_map-entries (float _) r h = cc
  check_map-entries (str _) r h = cc
  check_map-entries (list _) r h = cc

  check_mapping-IsClientMapping :
      (columns v : Value) (cfg : Fields)
      → check_mapping lower true columns v ≡ ok cfg
      → IsClientMapping lower cfg
  unfolding check_mapping
  check_mapping-IsClientMapping columns v cfg h =
      let (r, first, h') = >>=-eq-ok (check_columns lower columns) _ h in
      let (r', second, last) = >>=-eq-ok (check_map lower true v) _ h' in
      let (items, names, is_list, named) = check_columns-names columns r first in
      let (entries, is_dict, checked) = check_map-entries v r' second in
      let same : mapping columns v ≡ cfg = ground arith in
      record {
        items = items;
        names = names;
        entries = entries;
        named = named;
        checked = checked;
        shape = rw (← same, is_list, is_dict) refl;
      }

  validate_config-IsClientMapping :
      (payload : Value) (cfg : Fields)
      → validate_config lower (str "client_mapping") payload ≡ ok cfg
      → IsClientMapping lower cfg
  unfolding validate_config check_payload
  validate_config-IsClientMapping (dict payload) cfg h =
      elim (Bool-cases (holds_keys "key_columns" "map" payload)) [
        | inr e ↦ let h' = rw (e, check_payload) at h in cc
        | inl e ↦
            check_mapping-IsClientMapping (get_value "key_columns" payload)
              (get_value "map" payload) cfg (rw (e, check_payload) at h)
      ]
  validate_config-IsClientMapping null cfg h = cc
  validate_config-IsClientMapping (bool _) cfg h = cc
  validate_config-IsClientMapping (int _) cfg h = cc
  validate_config-IsClientMapping (float _) cfg h = cc
  validate_config-IsClientMapping (str _) cfg h = cc
  validate_config-IsClientMapping (list _) cfg h = cc

  lifted :
      {P : Type 0} (rows : List Configuration) (cfg : Fields) (r : Outcome StoreError Fields)
      → (commit (lift r rows) rows).0 ≡ ok cfg
      → (r ≡ ok cfg → P)
      → P
  lifted rows cfg (ok other) h k = k h
  lifted rows cfg (err e) h k = cc

  pub get_config-IsClientMapping :
      (rows : List Configuration) (cfg : Fields)
      → (get_config lower (str "client_mapping") rows).0 ≡ ok cfg
      → IsClientMapping lower cfg
  unfolding get_config transaction
  get_config-IsClientMapping rows cfg h = elim (Option-cases (find name_of "client_mapping" rows)) [
    | inl e ↦ let h' = rw (e, stored_config) at h in cc
    | inr (row, e) ↦ elim (Bool-cases (is_null row.payload)) [
      | inl f ↦ let h' = rw (e, f, stored_config) at h in cc
      | inr f ↦
          lifted rows cfg (validate_config lower (str "client_mapping") row.payload)
            (rw (e, f, stored_config) at h) (validate_config-IsClientMapping row.payload cfg)
    ]
  ]
