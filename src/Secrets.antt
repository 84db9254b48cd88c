-- ===== src/Secrets.antt =====
-- app/dal/db/secrets.py: which fields are secret, and what is left of a value without them.
pub mod Pem
pub mod PublicFields
pub mod Redact
pub mod Vault
mod Tests
use network_gateway_api.Prelude.{
  Bool, List, [], ◌∷◌, ◌++◌, String, ◌≡◌, if◌then◌else◌, not, ◌&&◌, true, false, Option, none, some,
}
use network_gateway_api.Value.{
  Value, Items, Fields, null, bool, int, float, str, list, dict, nil, cons, end, field, among,
  is_empty,
}

-- SECRET_FIELDS
abbrev pub secret_fields : List String
secret_fields = "password" ∷ "private_key" ∷ "key_passphrase" ∷ "secret_key" ∷ []

abbrev pub is_secret : String → Bool
is_secret key = among key secret_fields

unfoldable mutual
  pub public_fields : Value → Value
  public_fields null = null
  public_fields (bool b) = bool b
  public_fields (int i) = int i
  public_fields (float x) = float x
  public_fields (str s) = str s
  public_fields (list items) = list (public_items items)
  public_fields (dict fields) = dict (public_dict fields)

  pub public_items : Items → Items
  public_items nil = nil
  public_items (cons v items) = cons (public_fields v) (public_items items)

  -- The comprehension of `public_fields` over `value.items()`.
  pub public_dict : Fields → Fields
  public_dict end = end
  public_dict (field k v fields) =
      let rest = public_dict fields in
      let shown = public_fields v in if is_secret k then rest else field k shown rest

-- A secret field that holds a nonempty text, seen at its own key.
abbrev pub secret_text : Value → List String
secret_text (str s) = if is_empty s then [] else s ∷ []
secret_text _ = []

-- Whether `credential_values` looks for a text at this key.
abbrev pub is_text : Value → Bool
is_text (str s) = not (is_empty s)
is_text _ = false

-- The set of credentials, as the list of what is added to it.
unfoldable mutual
  pub credential_values : Value → List String
  credential_values (dict fields) = credential_fields fields
  credential_values (list items) = credential_items items
  credential_values _ = []

  pub credential_items : Items → List String
  credential_items nil = []
  credential_items (cons v items) = credential_values v ++ credential_items items

  pub credential_fields : Fields → List String
  credential_fields end = []
  credential_fields (field k v fields) =
      let inner = credential_values v in
      let rest = credential_fields fields in
      (if is_secret k && is_text v then secret_text v else inner) ++ rest
