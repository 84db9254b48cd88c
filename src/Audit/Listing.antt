-- ===== src/Audit/Listing.antt =====
-- `list_transactions` of app/dal/db/store.py: the audit records that meet the filters, newest first,
-- a page at a time.
use network_gateway_api.Prelude.{
  ℕ, Bool, false, ◌&&◌, Option, none, some, List, [], ◌∷◌, String, str_eq, leb, if◌then◌else◌,
  Outcome, ok, err, ◌>>=◌, ◌++◌, length, take, drop, all,
}
use network_gateway_api.Prelude.Int.{pos}
use network_gateway_api.Value.{Value, Fields, int, dict, end, get, get_value, is_null, truthy}
use network_gateway_api.Storage.Errors.{StoreError, store_error}
use network_gateway_api.Audit.Fields.{Transaction, text, one_of, validate_uuid}
use network_gateway_api.Audit.Timestamps.{text_le, filter_timestamp}

abbrev pub Condition : Type 0
Condition = Transaction → Bool

abbrev pub reads_option : Option String → String → Bool
reads_option none wanted = false
reads_option (some s) wanted = str_eq s wanted

-- A filter that is not set asks for nothing.
abbrev pub when_set :
    Value → Outcome StoreError String → (String → Condition) → Outcome StoreError (List Condition)
when_set value checked condition =
    if is_null value then ok [] else (checked >>= λ wanted. ok (condition wanted ∷ []))

module _ (uuid format_utc : String → Option String) where
  -- The conditions, in the order of the code, which is the order of its errors
  unfoldable pub conditions : Fields → Outcome StoreError (List Condition)
  unfolding get text validate_uuid filter_timestamp text_le
  conditions filters =
      when_set (get_value "connection_id" filters)
        (validate_uuid uuid (get_value "connection_id" filters) "connection_id")
        (λ wanted row. reads_option row.connection_id wanted)
      >>= λ a.
          when_set (get_value "action" filters)
            (text (get_value "action" filters) "action filter" "Action filter" false 100)
            (λ wanted row. str_eq row.action wanted)
          >>= λ b.
              when_set (get_value "actor_subject" filters)
                (text (get_value "actor_subject" filters) "actor_subject filter"
                  "Actor_subject filter" false 255)
                (λ wanted row. str_eq row.actor_subject wanted)
              >>= λ c.
                  when_set (get_value "resource_type" filters)
                    (text (get_value "resource_type" filters) "resource_type filter"
                      "Resource_type filter" false 64)
                    (λ wanted row. str_eq row.resource_type wanted)
                  >>= λ d.
                      when_set (get_value "outcome" filters)
                        (one_of "succeeded" "failed"
                          (store_error "outcome filter must be succeeded or failed.")
                          (get_value "outcome" filters))
                        (λ wanted row. str_eq row.outcome wanted)
                      >>= λ e.
                          when_set (get_value "since" filters)
                            (filter_timestamp format_utc (get_value "since" filters) "since")
                            (λ wanted row. text_le wanted row.timestamp_utc)
                          >>= λ f.
                              when_set (get_value "until" filters)
                                (filter_timestamp format_utc (get_value "until" filters) "until")
                                (λ wanted row. text_le row.timestamp_utc wanted)
                              >>= λ g. ok (a ++ b ++ c ++ d ++ e ++ f ++ g)

-- `and_(*conditions)`
abbrev pub matches : List Condition → Transaction → Bool
matches wanted row = all (λ condition. condition row) wanted

unfoldable pub matching : List Condition → List Transaction → List Transaction
matching wanted [] = []
matching wanted (row ∷ rows) =
    let rest = matching wanted rows in if matches wanted row then row ∷ rest else rest

-- `order_by(timestamp_utc.desc(), id.desc())`: whether a row may stand before another
abbrev pub precedes : Transaction → Transaction → Bool
precedes a b =
    if str_eq a.timestamp_utc b.timestamp_utc
    then text_le b.id a.id
    else text_le b.timestamp_utc a.timestamp_utc

unfoldable pub place : Transaction → List Transaction → List Transaction
unfolding text_le
place row [] = row ∷ []
place row (other ∷ rows) =
    let rest = place row rows in if precedes row other then row ∷ other ∷ rows else other ∷ rest

unfoldable pub newest_first : List Transaction → List Transaction
unfolding place
newest_first [] = []
newest_first (row ∷ rows) = place row (newest_first rows)

pub record Page : Type 0 where
  pub items : List Transaction
  pub total : ℕ
  pub limit : ℕ
  pub offset : ℕ

abbrev limit_of : Value → Outcome StoreError ℕ
limit_of (int (pos n)) =
    if leb 1 n && leb n 500
    then ok n
    else err (store_error "Limit must be an integer between 1 and 500.")
limit_of _ = err (store_error "Limit must be an integer between 1 and 500.")

abbrev offset_of : Value → Outcome StoreError ℕ
offset_of (int (pos n)) = ok n
offset_of _ = err (store_error "Offset must be a non-negative integer.")

-- `filters or {}`
abbrev filters_of : Value → Outcome StoreError Fields
filters_of (dict filters) = ok filters
filters_of value = if truthy value then err (store_error "Invalid transaction filters.") else ok end

-- The page of the rows that are left
abbrev pub page_of : List Condition → List Transaction → (limit offset : ℕ) → Page
page_of wanted rows limit offset = record {
  items = take limit (drop offset (newest_first (matching wanted rows)));
  total = length (matching wanted rows);
  limit = limit;
  offset = offset;
}

-- `list_transactions`
unfoldable pub list_transactions :
    (uuid format_utc : String → Option String)
    → (filters limit offset : Value) → List Transaction
    → Outcome StoreError Page
unfolding conditions matching newest_first truthy
list_transactions uuid format_utc filters limit offset rows = filters_of filters >>= λ fields.
    limit_of limit >>= λ size. offset_of offset >>= λ start.
    conditions uuid format_utc fields >>= λ wanted. ok (page_of wanted rows size start)
