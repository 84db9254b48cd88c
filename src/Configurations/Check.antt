-- ===== src/Configurations/Check.antt =====
-- `validate_config` of app/dal/db/store.py. `str.lower` is a parameter, since it reads the tables
-- of Unicode.
use network_gateway_api.Prelude.{
  ◌>>◌, >>=-eq-ok, ℕ, suc, ◌≡◌, Bool, true, false, not, ◌&&◌, ◌||◌, none, some, List, [], ◌∷◌,
  String, str_eq, ltb, leb, ◌==◌, if◌then◌else◌, length, all, sym, ap, ◌∙◌, arith, Outcome, ok, err,
  raise_if, Bool-cases, inl, inr,
}
use network_gateway_api.Value.{
  Value, Fields, null, bool, int, float, str, list, dict, end, field, get, get_value, has, among,
  is_empty,
}
use network_gateway_api.Text.{count, any_char, all_chars, is_word, is_name}
use network_gateway_api.Storage.Errors.{StoreError, store_error, store_error_code}
use network_gateway_api.Jobs.Payload.{texts, has_repeats}

abbrev pub config_names : List String
config_names = "device_lookup" ∷ "client_mapping" ∷ "proxy_mapping" ∷ []

abbrev pub client_classes : List String
client_classes =
    "app.dal.device.nccclient_adva.AdvaFSP114ProNCCClient"
    ∷ "app.dal.device.nccclient_alcatel.AlcatelNCCClient"
    ∷ "app.dal.device.nccclient_ceina.CeinaNCCClient" ∷ "app.dal.device.nccclient_ios.IOSNCCClient"
    ∷ "app.dal.device.nccclient_iox.IOXNCCClient"
    ∷ "app.dal.device.nccclient_juniper.JuniperNCCClient"
    ∷ "app.dal.device.telnet_client.GenericTelnetNCCClient" ∷ []

abbrev pub unknown_name : StoreError
unknown_name = store_error_code "Unknown configuration name." 404

-- `re.fullmatch(r"[A-Za-z0-9_.:-]+", value)`
abbrev is_host : String → Bool
is_host value =
    not (is_empty value) && all_chars (λ c. is_word c || c == 46 || c == 58 || c == 45) value

abbrev pub size : Fields → ℕ
size end = 0
size (field _ _ fields) = suc (size fields)

abbrev pub bad_entries : StoreError
bad_entries = store_error "Invalid mapping entries."

abbrev only_keys : String → String → Fields → Bool
only_keys first second end = true
only_keys first second (field k _ fields) =
    among k (first ∷ second ∷ []) && only_keys first second fields

-- `set(payload) == {first, second}`
abbrev pub holds_keys : String → String → Fields → Bool
holds_keys first second payload =
    has first payload && has second payload && only_keys first second payload

-- What `validate_config` returns of a mapping
abbrev pub mapping : Value → Value → Fields
mapping columns mappings = field "key_columns" columns (field "map" mappings end)

abbrev no_object : StoreError
no_object = store_error "Configuration must be an object."

refused :
    {P : Type 0} {checked : Fields} (known : Bool)
    → (if known then err no_object else err unknown_name) ≡ ok checked
    → P
refused true h = cc
refused false h = cc

module _ (lower : String → String) where
  -- `identifier`
  abbrev pub identifier : Value → Bool
  identifier (str s) = leb (count s) 128 && not (str_eq (lower s) "none") && is_name s
  identifier _ = false

  abbrev all_identifiers : Fields → Bool
  all_identifiers end = true
  all_identifiers (field _ v fields) = identifier v && all_identifiers fields

  -- The branch for `device_lookup`
  unfoldable pub check_lookup : Fields → Outcome StoreError Fields
  unfolding get
  check_lookup payload =
      if holds_keys "table" "search_column" payload && all_identifiers payload
      then ok payload
      else err (store_error "Device lookup requires valid table and search_column identifiers.")

  abbrev bad_columns : StoreError
  bad_columns = store_error "Mapping key_columns must contain unique metadata identifiers."

  -- The test of `key_columns`; all are texts where all are identifiers.
  unfoldable pub check_columns : Value → Outcome StoreError (Unit {0})
  unfolding texts
  check_columns (list items) = elim (texts items) [
    | none ↦ err bad_columns
    | some columns ↦
        raise_if
          (not (leb 1 (length columns) && leb (length columns) 8)
            || not (all (λ c. identifier (str c)) columns)
            || has_repeats columns)
          bad_columns
  ]
  check_columns _ = err bad_columns

  abbrev pub is_key : String → Bool
  is_key key =
      not (is_empty key)
      && leb (count key) 255
      && str_eq key (lower key)
      && not (any_char (λ c. ltb c 32) key)

  -- The test of a mapping's target, by the name of the configuration
  abbrev pub check_target : Bool → Value → Outcome StoreError (Unit {0})
  check_target true (str s) =
      raise_if (not (among s client_classes))
        (store_error "Client mapping must select a supported gateway client class.")
  check_target true _ =
      err (store_error "Client mapping must select a supported gateway client class.")
  check_target false null = ok tt
  check_target false (str s) =
      raise_if (ltb 255 (count s) || not (is_host s)) (
        store_error
          "Proxy mappings accept only hostnames, IP addresses, or null for direct access.")
  check_target false _ =
      err (
        store_error
          "Proxy mappings accept only hostnames, IP addresses, or null for direct access.")

  -- The loop over the mappings; `client` says whether they select client classes.
  unfoldable pub check_mappings : Bool → Fields → Outcome StoreError (Unit {0})
  check_mappings client end = ok tt
  check_mappings client (field key value fields) =
      let rest = check_mappings client fields in
      raise_if (not (is_key key)) (store_error "Mapping keys must be nonempty lowercase strings.")
      >> (check_target client value >> rest)

  unfoldable pub check_map : Bool → Value → Outcome StoreError (Unit {0})
  unfolding check_mappings
  check_map client (dict mappings) =
      raise_if (ltb 1000 (size mappings) || (client && (size mappings == 0))) bad_entries
      >> check_mappings client mappings
  check_map client _ = err bad_entries

  -- The branch for the two mappings
  unfoldable pub check_mapping : Bool → Value → Value → Outcome StoreError Fields
  unfolding check_columns check_map
  check_mapping client columns mappings =
      check_columns columns >> (check_map client mappings >> ok (mapping columns mappings))

  unfoldable pub check_payload : String → Fields → Outcome StoreError Fields
  unfolding check_lookup check_mapping get
  check_payload name payload =
      if str_eq name "device_lookup"
      then check_lookup payload
      else if holds_keys "key_columns" "map" payload
      then check_mapping (str_eq name "client_mapping") (get_value "key_columns" payload)
          (get_value "map" payload)
      else err (store_error "Mapping requires only key_columns and map.")

  -- `validate_config`
  unfoldable pub validate_config : Value → Value → Outcome StoreError Fields
  unfolding check_payload
  validate_config (str name) (dict payload) =
      if among name config_names then check_payload name payload else err unknown_name
  validate_config (str name) _ = if among name config_names then err no_object else err unknown_name
  validate_config _ _ = err unknown_name

  check_mapping-eq-mapping :
      (client : Bool) (columns mappings : Value) (checked : Fields)
      → check_mapping client columns mappings ≡ ok checked
      → checked ≡ mapping columns mappings
  unfolding check_mapping
  check_mapping-eq-mapping client columns mappings checked h =
      let (_, _, h') = >>=-eq-ok (check_columns columns) _ h in
      let (_, _, last) = >>=-eq-ok (check_map client mappings) _ h' in
      let same : mapping columns mappings ≡ checked = ground arith in sym same

  check_lookup-eq :
      (payload checked : Fields) → check_lookup payload ≡ ok checked → payload ≡ checked
  unfolding check_lookup
  check_lookup-eq payload checked h =
      elim (Bool-cases (holds_keys "table" "search_column" payload && all_identifiers payload)) [
        | inr e ↦ let h' = rw (e, check_lookup) at h in cc
        | inl e ↦ let h' : ok payload ≡ ok checked = rw (e, check_lookup) at h in ground arith
      ]

  -- What was validated is valid as it is, and validation returns it again.
  check_payload_idem :
      (name : String) (payload checked : Fields)
      → check_payload name payload ≡ ok checked
      → check_payload name checked ≡ ok checked
  unfolding check_payload get
  check_payload_idem name payload checked h = elim (Bool-cases (str_eq name "device_lookup")) [
    | inl e ↦
        let looked : check_lookup payload ≡ ok checked = rw (e, check_payload) at h in
        let same = check_lookup-eq payload checked looked in rw (← same) (h ∙ ap ok (sym same))
    | inr e ↦ elim (Bool-cases (holds_keys "key_columns" "map" payload)) [
      | inr f ↦ let h' = rw (e, f, check_payload) at h in cc
      | inl f ↦
          let h' : check_mapping (str_eq name "client_mapping") (get_value "key_columns" payload)
                (get_value "map" payload)
              ≡ ok checked =
            rw (e, f, check_payload) at h in
          let same =
            check_mapping-eq-mapping (str_eq name "client_mapping")
              (get_value "key_columns" payload) (get_value "map" payload) checked h' in
          rw (same, e, check_payload) (rw same at h')
    ]
  ]

  pub validate_config_idem :
      (name : String) (payload : Value) (checked : Fields)
      → validate_config (str name) payload ≡ ok checked
      → (among name config_names ≡ true) × (validate_config (str name) (dict checked) ≡ ok checked)
  unfolding validate_config
  validate_config_idem name (dict payload) checked h = elim (Bool-cases (among name config_names)) [
    | inr e ↦ let h' = rw (e, validate_config) at h in cc
    | inl e ↦ (
      e,
      rw (e, validate_config)
          (check_payload_idem name payload checked (rw (e, validate_config) at h)),
    )
  ]
  validate_config_idem name null checked h = refused (among name config_names) h
  validate_config_idem name (bool _) checked h = refused (among name config_names) h
  validate_config_idem name (int _) checked h = refused (among name config_names) h
  validate_config_idem name (float _) checked h = refused (among name config_names) h
  validate_config_idem name (str _) checked h = refused (among name config_names) h
  validate_config_idem name (list _) checked h = refused (among name config_names) h
