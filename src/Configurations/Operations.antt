-- ===== src/Configurations/Operations.antt =====
-- `get_config` and `save_config` of app/dal/db/store.py over the rows of `gateway_configurations`.
use network_gateway_api.Prelude.{
  ◌≡◌, refl, ◌∙◌, ap, true, false, none, some, List, [], ◌∷◌, String, str_eq, eq_iff, if◌then◌else◌,
  Outcome, ok, err, Outcome-cases, inl, inr, arith,
}
use network_gateway_api.Value.{Value, Fields, str, dict, among, is_null}
use network_gateway_api.Storage.Errors.{StoreError, store_error_code}
use network_gateway_api.Storage.Tables.{find}
use network_gateway_api.Storage.Transaction.{Tx, lift, commit, transaction}
use network_gateway_api.Configurations.Check.{
  config_names, unknown_name, validate_config, validate_config_idem,
}

-- One row of `gateway_configurations`, whose key is the name
pub record Configuration : Type 0 where
  pub name : String
  pub payload : Value

abbrev pub name_of : Configuration → String
name_of row = row.name

-- `insert ... on conflict (name) do update set payload`
unfoldable pub upsert : String → Fields → List Configuration → List Configuration
upsert name payload [] = record { name = name; payload = dict payload } ∷ []
upsert name payload (row ∷ rows) =
    let rest = upsert name payload rows in
    if str_eq row.name name then record row { payload = dict payload } ∷ rows else row ∷ rest

abbrev missing : StoreError
missing = store_error_code "Required database configuration is missing." 404

module _ (lower : String → String) where
  abbrev pub stored_config : String → Tx (List Configuration) Fields
  stored_config name rows = elim (find name_of name rows) [
    | none ↦ err missing
    | some row ↦
        if is_null row.payload
        then err missing
        else lift (validate_config lower (str name) row.payload) rows
  ]

  unfoldable pub get_config :
      Value → List Configuration → Outcome StoreError Fields × List Configuration
  unfolding find validate_config transaction
  get_config (str name) rows =
      if among name config_names
      then transaction (stored_config name) rows
      else (err unknown_name, rows)
  get_config _ rows = (err unknown_name, rows)

  unfoldable pub save_config :
      Value → Value → List Configuration → Outcome StoreError Fields × List Configuration
  unfolding validate_config upsert
  save_config (str name) payload rows = elim (validate_config lower (str name) payload) [
    | err e ↦ (err e, rows)
    | ok validated ↦ (ok validated, upsert name validated rows)
  ]
  save_config _ payload rows = (err unknown_name, rows)

find-upsert :
    (name other : String) (payload : Fields) (rows : List Configuration)
    → find name_of other (upsert name payload rows) ≡ (
        if str_eq name other
        then some (record { name = name; payload = dict payload })
        else find name_of other rows)
unfolding find upsert
find-upsert name other payload [] = ground arith
find-upsert name other payload (row ∷ rows) = ground (
  arith,
  find-upsert name other payload rows,
  eq_iff name other,
  eq_iff row.name name,
  eq_iff row.name other,
)

module _ (lower : String → String) where
  get_config-found :
      (name : String) (rows : List Configuration) (validated : Fields)
      → find name_of name rows ≡ some (record { name = name; payload = dict validated })
      → validate_config lower (str name) (dict validated) ≡ ok validated
      → among name config_names ≡ true
      → get_config lower (str name) rows ≡ (ok validated, rows)
  unfolding get_config transaction
  get_config-found name rows validated found valid known =
      let read : stored_config lower name rows ≡ ok (validated, rows) =
        rw (found, stored_config, valid) refl in
      rw (known, get_config) (ap (λ r. commit r rows) read)

  -- A configuration that was saved is read back as it was validated: the read neither fails nor
  -- changes it, and it leaves the table alone; and each other configuration is found as before.
  pub get_config-save_config :
      (name : String) (payload : Value) (rows : List Configuration) {validated : Fields}
      → (save_config lower (str name) payload rows).0 ≡ ok validated
      → (get_config lower (str name) (save_config lower (str name) payload rows).1
          ≡ (ok validated, (save_config lower (str name) payload rows).1))
        × ((other : String)
            → str_eq name other ≡ false
            → find name_of other (save_config lower (str name) payload rows).1
              ≡ find name_of other rows)
  unfolding save_config
  get_config-save_config name payload rows {validated} h =
      elim (Outcome-cases (validate_config lower (str name) payload)) [
        | inr (_, e) ↦ let h' = rw (e, save_config) at h in cc
        | inl (checked, e) ↦
            let h' : ok checked ≡ ok validated = rw (e, save_config) at h in
            let same : checked ≡ validated = ground arith in
            let valid = rw same at e in
            let (known, again) = validate_config_idem lower name payload validated valid in
            let found : find name_of name (upsert name validated rows)
                ≡ some (record { name = name; payload = dict validated }) =
              find-upsert name name validated rows ∙ rw ((eq_iff name name).1 refl) refl in
            rw (valid, save_config)
              (
                get_config-found name (upsert name validated rows) validated found again known,
                λ other differs. find-upsert name other validated rows ∙ rw differs refl,
              )
      ]
