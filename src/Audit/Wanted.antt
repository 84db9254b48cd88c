-- ===== src/Audit/Wanted.antt =====
-- What the filters of `list_transactions` of app/dal/db/store.py ask of an audit record, apart from
-- how the conditions are put together.
use network_gateway_api.Prelude.{
  ◌≡◌, ◌⊎◌, ◌↔◌, refl, sym, ap, ◌∙◌, true, false, &&-true, Option, none, some, List, [], ◌∷◌, ◌++◌,
  String, str_eq, eq_iff, Outcome, ok, err, ◌>>=◌, Bool-cases, Outcome-cases, inl, inr, arith,
}
use network_gateway_api.Value.{
  Value, Fields, null, bool, int, float, str, list, dict, get_value, is_null,
}
use network_gateway_api.Storage.Errors.{StoreError, store_error}
use network_gateway_api.Audit.Fields.{Transaction, text, one_of, validate_uuid}
use network_gateway_api.Audit.Timestamps.{text_le, filter_timestamp}
use network_gateway_api.Audit.Listing.{
  Condition, reads_option, when_set, conditions, matches, matching,
}

-- A filter that is null asks nothing, and another asks `P` of its checked value.
abbrev pub Asks : Value → Outcome StoreError String → (String → Type 0) → Type 0
Asks value checked P = (value ≡ null) ⊎ ((wanted : String) × (checked ≡ ok wanted) × P wanted)

is_null-eq : (value : Value) → is_null value ≡ true → value ≡ null
is_null-eq null h = refl
is_null-eq (bool _) h = cc
is_null-eq (int _) h = cc
is_null-eq (float _) h = cc
is_null-eq (str _) h = cc
is_null-eq (list _) h = cc
is_null-eq (dict _) h = cc

abbrev conditions_ok : List Condition → Outcome StoreError (List Condition)
conditions_ok l = ok l

abbrev ok_text : String → Outcome StoreError String
ok_text w = ok w

not_null : {value : Value} → value ≡ null → is_null value ≡ false → ⊥
not_null {value} same h = let h' : is_null null ≡ false = rw same at h in cc

when_set-Asks :
    (value : Value) (checked : Outcome StoreError String) (condition : String → Condition)
    (P : String → Type 0) (row : Transaction) (l : List Condition)
    → ((w : String) → (condition w row ≡ true) ↔ P w)
    → when_set value checked condition ≡ ok l
    → (matches l row ≡ true) ↔ Asks value checked P
when_set-Asks value checked condition P row l means h = elim (Bool-cases (is_null value)) [
  | inl e ↦
      let h' : ok [] ≡ ok l = rw (e, when_set) at h in
      let same : [] ≡ l = ground arith in (λ _. inl (is_null-eq value e), λ _. rw (← same) refl)
  | inr e ↦ elim (Outcome-cases checked) [
    | inr (_, f) ↦ let h' = rw (e, f, when_set) at h in cc
    | inl (w, f) ↦
        let h' : ok (condition w ∷ []) ≡ ok l = rw (e, f, when_set) at h in
        let same : condition w ∷ [] ≡ l = ground arith in
        rw (← same) (
          (λ m. inr (w, f, (means w).0 (ground arith))),
          (λ a. elim a [
            | inl is ↦ absurd (not_null is e)
            | inr (v, g, p) ↦
                let eq : ok v ≡ ok_text w = sym g ∙ f in
                let vw : v ≡ w = ground arith in
                let holds : condition w row ≡ true = (means w).1 (rw vw at p) in rw holds refl
          ]),
        )
  ]
]

inner : (l m : List Condition) → conditions_ok l ≡ ok m → l ≡ m
inner l m h = ground arith

bind-ok :
    {A B : Type 0} (r : Outcome StoreError A) (f : A → Outcome StoreError B) (b : B)
    → (r >>= f) ≡ ok b
    → (a : A) × (r ≡ ok a) × (f a ≡ ok b)
bind-ok (ok a) f b h = (a, refl, h)
bind-ok (err e) f b h = cc

matches-append :
    (l m : List Condition) (row : Transaction)
    → (matches (l ++ m) row ≡ true) ↔ ((matches l row ≡ true) × (matches m row ≡ true))
matches-append [] m row = (λ h. (refl, h), λ h. h.1)
matches-append (c ∷ l) m row =
    let rest = matches-append l m row in
    (
      λ h.
          let (here, there) = &&-true (c row) (matches (l ++ m) row) h in
          let (left, right) = rest.0 there in (rw (here, left) refl, right),
      λ h.
          let (here, left) = &&-true (c row) (matches l row) h.0 in
          rw (here, rest.1 (left, h.1)) refl,
    )

-- The rows of a table that meet `P`, each once and in the order of the table.
pub data IsFilter (P : Transaction → Type 0) : List Transaction → List Transaction → Type 0 where
  done : IsFilter P [] []
  keep :
      {row : Transaction} {rows kept : List Transaction}
      → P row
      → IsFilter P rows kept
      → IsFilter P (row ∷ rows) (row ∷ kept)
  skip :
      {row : Transaction} {rows kept : List Transaction}
      → (P row → ⊥)
      → IsFilter P rows kept
      → IsFilter P (row ∷ rows) kept

reads_option-eq : (o : Option String) (w : String) → (reads_option o w ≡ true) ↔ (o ≡ some w)
reads_option-eq none w = (λ h. cc, λ h. cc)
reads_option-eq (some s) w = (
  λ h. ap (λ t. some t) ((eq_iff s w).0 h),
  λ h. let same : s ≡ w = ground arith in (eq_iff s w).1 same,
)

module _ (uuid format_utc : String → Option String) where
  -- What the seven filters ask of a record.
  pub record IsWanted (filters : Fields) (row : Transaction) : Type 0 where
    pub connection :
        Asks
          (get_value "connection_id" filters)
          (validate_uuid uuid (get_value "connection_id" filters) "connection_id")
          (λ wanted. row.connection_id ≡ some wanted)
    pub action :
        Asks
          (get_value "action" filters)
          (text (get_value "action" filters) "action filter" "Action filter" false 100)
          (λ wanted. row.action ≡ wanted)
    pub actor :
        Asks
          (get_value "actor_subject" filters)
          (text
            (get_value "actor_subject" filters)
            "actor_subject filter"
            "Actor_subject filter"
            false
            255)
          (λ wanted. row.actor_subject ≡ wanted)
    pub resource :
        Asks
          (get_value "resource_type" filters)
          (text
            (get_value "resource_type" filters)
            "resource_type filter"
            "Resource_type filter"
            false
            64)
          (λ wanted. row.resource_type ≡ wanted)
    pub outcome :
        Asks
          (get_value "outcome" filters)
          (one_of "succeeded" "failed"
            (store_error "outcome filter must be succeeded or failed.")
            (get_value "outcome" filters))
          (λ wanted. row.outcome ≡ wanted)
    pub since :
        Asks
          (get_value "since" filters)
          (filter_timestamp format_utc (get_value "since" filters) "since")
          (λ wanted. text_le wanted row.timestamp_utc ≡ true)
    pub until :
        Asks
          (get_value "until" filters)
          (filter_timestamp format_utc (get_value "until" filters) "until")
          (λ wanted. text_le row.timestamp_utc wanted ≡ true)

  matches-joined :
      (filters : Fields) (row : Transaction) (a b c d e f g : List Condition)
      → ((matches a row ≡ true)
          ↔ Asks
              (get_value "connection_id" filters)
              (validate_uuid uuid (get_value "connection_id" filters) "connection_id")
              (λ w. row.connection_id ≡ some w))
      → ((matches b row ≡ true)
          ↔ Asks
              (get_value "action" filters)
              (text (get_value "action" filters) "action filter" "Action filter" false 100)
              (λ w. row.action ≡ w))
      → ((matches c row ≡ true)
          ↔ Asks
              (get_value "actor_subject" filters)
              (text
                (get_value "actor_subject" filters)
                "actor_subject filter"
                "Actor_subject filter"
                false
                255)
              (λ w. row.actor_subject ≡ w))
      → ((matches d row ≡ true)
          ↔ Asks
              (get_value "resource_type" filters)
              (text
                (get_value "resource_type" filters)
                "resource_type filter"
                "Resource_type filter"
                false
                64)
              (λ w. row.resource_type ≡ w))
      → ((matches e row ≡ true)
          ↔ Asks
              (get_value "outcome" filters)
              (one_of "succeeded" "failed"
                (store_error "outcome filter must be succeeded or failed.")
                (get_value "outcome" filters))
              (λ w. row.outcome ≡ w))
      → ((matches f row ≡ true)
          ↔ Asks
              (get_value "since" filters)
              (filter_timestamp format_utc (get_value "since" filters) "since")
              (λ w. text_le w row.timestamp_utc ≡ true))
      → ((matches g row ≡ true)
          ↔ Asks
              (get_value "until" filters)
              (filter_timestamp format_utc (get_value "until" filters) "until")
              (λ w. text_le row.timestamp_utc w ≡ true))
      → (matches (a ++ b ++ c ++ d ++ e ++ f ++ g) row ≡ true) ↔ IsWanted filters row
  matches-joined filters row a b c d e f g wa wb wc wd we wf wg = (
    λ m.
        let (m6, mg) = (matches-append (a ++ b ++ c ++ d ++ e ++ f) g row).0 m in
        let (m5, mf) = (matches-append (a ++ b ++ c ++ d ++ e) f row).0 m6 in
        let (m4, me) = (matches-append (a ++ b ++ c ++ d) e row).0 m5 in
        let (m3, md) = (matches-append (a ++ b ++ c) d row).0 m4 in
        let (m2, mc) = (matches-append (a ++ b) c row).0 m3 in
        let (ma, mb) = (matches-append a b row).0 m2 in
        record {
          connection = wa.0 ma;
          action = wb.0 mb;
          actor = wc.0 mc;
          resource = wd.0 md;
          outcome = we.0 me;
          since = wf.0 mf;
          until = wg.0 mg;
        },
    λ w.
        let n2 = (matches-append a b row).1 (wa.1 w.connection, wb.1 w.action) in
        let n3 = (matches-append (a ++ b) c row).1 (n2, wc.1 w.actor) in
        let n4 = (matches-append (a ++ b ++ c) d row).1 (n3, wd.1 w.resource) in
        let n5 = (matches-append (a ++ b ++ c ++ d) e row).1 (n4, we.1 w.outcome) in
        let n6 = (matches-append (a ++ b ++ c ++ d ++ e) f row).1 (n5, wf.1 w.since) in
        (matches-append (a ++ b ++ c ++ d ++ e ++ f) g row).1 (n6, wg.1 w.until),
  )

  matches-IsWanted :
      (filters : Fields) (wanted : List Condition) (row : Transaction)
      → conditions uuid format_utc filters ≡ ok wanted
      → (matches wanted row ≡ true) ↔ IsWanted filters row
  unfolding conditions
  matches-IsWanted filters wanted row h =
      let (a, ha, h1) = bind-ok _ _ _ h in
      let (b, hb, h2) = bind-ok _ _ _ h1 in
      let (c, hc, h3) = bind-ok _ _ _ h2 in
      let (d, hd, h4) = bind-ok _ _ _ h3 in
      let (e, he, h5) = bind-ok _ _ _ h4 in
      let (f, hf, h6) = bind-ok _ _ _ h5 in
      let (g, hg, h7) = bind-ok _ _ _ h6 in
      let same : a ++ b ++ c ++ d ++ e ++ f ++ g ≡ wanted = inner _ _ h7 in
      let joined =
        matches-joined filters row a b c d e f g
          (when_set-Asks (get_value "connection_id" filters)
            (validate_uuid uuid (get_value "connection_id" filters) "connection_id")
            (λ w r. reads_option r.connection_id w) (λ w. row.connection_id ≡ some w) row a
            (reads_option-eq row.connection_id) ha)
          (when_set-Asks (get_value "action" filters)
            (text (get_value "action" filters) "action filter" "Action filter" false 100)
            (λ w r. str_eq r.action w) (λ w. row.action ≡ w) row b (λ w. eq_iff row.action w) hb)
          (when_set-Asks (get_value "actor_subject" filters)
            (text (get_value "actor_subject" filters) "actor_subject filter" "Actor_subject filter"
              false 255)
            (λ w r. str_eq r.actor_subject w) (λ w. row.actor_subject ≡ w) row c
            (λ w. eq_iff row.actor_subject w) hc)
          (when_set-Asks (get_value "resource_type" filters)
            (text (get_value "resource_type" filters) "resource_type filter" "Resource_type filter"
              false 64)
            (λ w r. str_eq r.resource_type w) (λ w. row.resource_type ≡ w) row d
            (λ w. eq_iff row.resource_type w) hd)
          (when_set-Asks (get_value "outcome" filters)
            (one_of "succeeded" "failed" (store_error "outcome filter must be succeeded or failed.")
              (get_value "outcome" filters))
            (λ w r. str_eq r.outcome w) (λ w. row.outcome ≡ w) row e (λ w. eq_iff row.outcome w) he)
          (when_set-Asks (get_value "since" filters)
            (filter_timestamp format_utc (get_value "since" filters) "since")
            (λ w r. text_le w r.timestamp_utc) (λ w. text_le w row.timestamp_utc ≡ true) row f
            (λ w. (λ m. m, λ m. m)) hf)
          (when_set-Asks (get_value "until" filters)
            (filter_timestamp format_utc (get_value "until" filters) "until")
            (λ w r. text_le r.timestamp_utc w) (λ w. text_le row.timestamp_utc w ≡ true) row g
            (λ w. (λ m. m, λ m. m)) hg) in
      rw (← same) joined

  pub matching-IsFilter :
      (filters : Fields) (wanted : List Condition) (rows : List Transaction)
      → conditions uuid format_utc filters ≡ ok wanted
      → IsFilter (IsWanted filters) rows (matching wanted rows)
  unfolding matching
  matching-IsFilter filters wanted [] h = done
  matching-IsFilter filters wanted (row ∷ rows) h = elim (Bool-cases (matches wanted row)) [
    | inl e ↦
        rw (e, matching)
          (keep ((matches-IsWanted filters wanted row h).0 e)
            (matching-IsFilter filters wanted rows h))
    | inr e ↦
        rw (e, matching)
          (skip
            (λ w.
              let m : matches wanted row ≡ true = (matches-IsWanted filters wanted row h).1 w in cc)
            (matching-IsFilter filters wanted rows h))
  ]
