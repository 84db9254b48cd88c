-- ===== src/Audit/Timestamps.antt =====
-- The timestamps of the audit filters, `_parse_filter_timestamp` of app/dal/db/store.py, and the
-- order of texts in the database.
use Prim.Native.Char.{code}
use Prim.Native.String.{[], ◌∷◌}
use network_gateway_api.Prelude.{
  Bool, true, false, ◌&&◌, ◌||◌, Option, none, some, String, ltb, ◌==◌, if◌then◌else◌, Outcome, ok,
  err,
}
use network_gateway_api.Value.{Value, str}
use network_gateway_api.Text.{append, strip}
use network_gateway_api.Storage.Errors.{StoreError, store_error}

-- `a <= b` of two texts, by code points
unfoldable pub text_le : String → String → Bool
text_le [] b = true
text_le (c ∷ a) [] = false
text_le (c ∷ a) (d ∷ b) = ltb (code c) (code d) || (code c == code d && text_le a b)

-- `text[:-1] + "+00:00"` of a text that ends with "Z", and the text otherwise
unfoldable pub with_offset : String → String
with_offset [] = []
with_offset (c ∷ []) = if code c == b'Z' then "+00:00" else c ∷ []
with_offset (c ∷ text) = c ∷ with_offset text

-- What `datetime.fromisoformat` and `_format_utc` make of a text is a parameter.
unfoldable pub filter_timestamp :
    (String → Option String) → Value → String → Outcome StoreError String
unfolding strip with_offset
filter_timestamp format_utc (str s) label = elim (format_utc (with_offset (strip s))) [
  | some moment ↦ ok moment
  | none ↦
      err (store_error (append "Invalid " (append label " filter; must be an ISO-8601 timestamp.")))
]
filter_timestamp format_utc _ label =
    err (store_error (append "Invalid " (append label " filter; must be an ISO-8601 timestamp.")))
