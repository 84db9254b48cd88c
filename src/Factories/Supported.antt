-- ===== src/Factories/Supported.antt =====
-- The classes that `NCCClientFactory.get_client` of app/bl/factories/client_factory.py makes clients of.
use network_gateway_api.Prelude.{
  ◌≡◌, refl, ◌∙◌, Bool, true, Option, some, List, String, Outcome, ok, err, if◌then◌else◌, arith,
  Bool-cases, inl, inr, map, ltb, length,
}
use network_gateway_api.Value.{
  Value, Fields, str, dict, end, field, get, get_or, get_value, among, truthy,
}
use network_gateway_api.Configurations.Check.{client_classes}
use network_gateway_api.Configurations.Operations.{Configuration, get_config}
use network_gateway_api.Factories.{
  GatewayError, client_mapping, or_else, or_first, class_path_of, chosen_path, key_parts, key_part,
  resolve_class_path, get_client, client_for, Client, made, join, starred,
}
use network_gateway_api.Factories.Choice.{
  IsClientMapping, class_path_of-IsTarget, get_config-IsClientMapping,
}

module _ (lower : String → String) (text_of : Value → String) where
  -- The path is chosen by the device's columns from the mapping's entries.
  resolve_class_path-eq :
      (info cfg : Fields) (m : IsClientMapping lower cfg)
      → resolve_class_path lower text_of info cfg
        ≡ chosen_path (class_path_of (map (key_part lower text_of info) m.names) m.entries)
  unfolding resolve_class_path key_parts get
  resolve_class_path-eq info cfg m = rw (m.shape, m.named, key_parts) refl

  module _ (loads : Client → Bool) where
    -- What a client that is returned is: of a supported class, imported, and made from the device's row.
    pub record IsSupported (looked : Outcome GatewayError (Option Fields)) (client : Client)
        : Type 0 where
      pub supported : among client.class_path client_classes ≡ true
      pub loaded : loads client ≡ true
      pub found : looked ≡ ok (some client.router_info)

or_else-truthy : (v w : Value) → truthy w ≡ true → truthy (or_else v w) ≡ true
unfolding truthy
or_else-truthy v w h = elim (Bool-cases (truthy v)) [ inl e ↦ rw e e | inr e ↦ rw e h ]

class_path_of-truthy :
    (parts : List String) (entries : Fields)
    → truthy (get_value "default" entries) ≡ true
    → truthy (class_path_of parts entries) ≡ true
unfolding class_path_of
class_path_of-truthy parts entries h =
    or_else-truthy
      (or_first parts
        (if ltb 1 (length parts)
          then or_else (get_value (join parts) entries) (get_value (join (starred parts)) entries)
          else get_value (join parts) entries)
        entries)
      (get_value "default" entries) h

entries_of-map :
    (lower : String → String) (cfg entries : Fields) (m : IsClientMapping lower cfg)
    → get_or "map" (dict end) cfg ≡ dict entries
    → m.entries ≡ entries
unfolding get
entries_of-map lower cfg entries m h =
    let same : dict m.entries ≡ dict entries = rw m.shape at h in ground arith

-- Where the mapping that is stored has a default, one client, of a supported class, is chosen for a
-- device with a row, and whether it can be imported and made alone decides whether the device gets it.
pub get_client-default :
    (lower : String → String) (text_of : Value → String) (rows : List Configuration)
    (device column : String) (value : Value) (info cfg entries : Fields)
    → (get_config lower (str "client_mapping") rows).0 ≡ ok cfg
    → get_or "map" (dict end) cfg ≡ dict entries
    → truthy (get_value "default" entries) ≡ true
    → (client : Client) × (among client.class_path client_classes ≡ true)
      × ((loads : Client → Bool)
          → get_client lower text_of loads rows device (ok (some (field column value info)))
            ≡ (if loads client then ok client else err client_mapping))
unfolding get_client
get_client-default lower text_of rows device column value info cfg entries read is_map default =
    let row = field column value info in
    let m = get_config-IsClientMapping lower rows cfg read in
    let parts = map (key_part lower text_of row) m.names in
    let same : m.entries ≡ entries = entries_of-map lower cfg entries m is_map in
    let chosen = class_path_of-truthy parts m.entries (rw same default) in
    let (path, is_path, known) = class_path_of-IsTarget lower parts m.entries m.checked chosen in
    let found : resolve_class_path lower text_of row cfg ≡ ok (str path) =
      resolve_class_path-eq lower text_of row cfg m ∙ rw (chosen, is_path) refl in
    (made lower text_of device row path, known, λ loads. rw (read, found, client_for) refl)
