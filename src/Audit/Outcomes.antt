-- ===== src/Audit/Outcomes.antt =====
-- The outcome in an audit record, by `_validate_transaction` of app/dal/db/store.py.
use network_gateway_api.Prelude.{
  ◌>>=◌, ◌≡◌, refl, true, ◌||◌, Option, String, str_eq, if◌then◌else◌, Outcome, ok, err, Bool-cases,
  inl, inr, arith,
}
use network_gateway_api.Value.{Fields, str, get_value, truthy}
use network_gateway_api.Storage.Errors.{StoreError, store_error}
use network_gateway_api.Audit.Fields.{
  Transaction, text, optional_text, roles, one_of, state, validate_uuid, optional_uuid,
  validate_transaction,
}

-- What holds of a result that is no error
abbrev Returned {ℓ} : {E A : Type 0} → (A → Type ℓ) → Outcome E A → Type ℓ
Returned P (ok a) = P a
Returned P (err e) = Unit

Returned-bind {ℓ} :
    {E A B : Type 0} (P : B → Type ℓ) (first : Outcome E A) (rest : A → Outcome E B)
    → ((a : A) → first ≡ ok a → Returned P (rest a))
    → Returned P (first >>= rest)
Returned-bind P (ok a) rest h = h a refl
Returned-bind P (err e) rest h = tt

one_of-ok :
    (first second s found : String) (e : StoreError)
    → one_of first second e (str s) ≡ ok found
    → found ≡ s
one_of-ok first second s found e h = elim (Bool-cases (str_eq s first || str_eq s second)) [
  | inl a ↦ let h' : ok s ≡ ok found = rw a at h in ground arith
  | inr a ↦ let h' = rw a at h in cc
]

module _ (uuid : String → Option String) (id drawn now : String) (payload : Fields) (s : String)
    (claimed : get_value "outcome" payload ≡ str s) where
  abbrev HasOutcome : Transaction → Type 0
  HasOutcome row = row.outcome ≡ s

  -- What one claims is what the record says.
  pub validate_transaction-outcome :
      {row : Transaction}
      → validate_transaction uuid id drawn now payload ≡ ok row
      → row.outcome ≡ s
  unfolding validate_transaction
  validate_transaction-outcome {row} h = rw h at returned
    where
      returned : Returned HasOutcome (validate_transaction uuid id drawn now payload)
      returned =
          Returned-bind HasOutcome
            (if truthy (get_value "correlation_id" payload)
              then validate_uuid uuid (get_value "correlation_id" payload) "correlation_id"
              else ok drawn)
            _
            λ correlation _.
              Returned-bind HasOutcome
                (text (get_value "actor_subject" payload) "actor_subject" "Actor_subject" true 255)
                _
                λ subject _.
                  Returned-bind HasOutcome
                    (optional_uuid uuid (get_value "actor_tenant_id" payload) "actor_tenant_id") _
                    λ tenant _.
                      Returned-bind HasOutcome
                        (text (get_value "actor_name" payload) "actor_name" "Actor_name" true 200) _
                        λ name _.
                          Returned-bind HasOutcome
                            (optional_text (get_value "actor_email" payload) "actor_email" 320) _
                            λ email _.
                              Returned-bind HasOutcome (roles (get_value "actor_roles" payload)) _
                                λ the_roles _.
                                  Returned-bind HasOutcome
                                    (one_of "entra" "demo"
                                      (store_error "auth_mode must be entra or demo.")
                                      (get_value "auth_mode" payload))
                                    _
                                    λ mode _.
                                      Returned-bind HasOutcome
                                        (text (get_value "action" payload) "action" "Action" true
                                          100)
                                        _
                                        λ action _.
                                          Returned-bind HasOutcome
                                            (text (get_value "resource_type" payload)
                                              "resource_type" "Resource_type" true 64)
                                            _
                                            λ kind _.
                                              Returned-bind HasOutcome
                                                (optional_text (get_value "resource_id" payload)
                                                  "resource_id" 64)
                                                _
                                                λ resource _.
                                                  Returned-bind HasOutcome
                                                    (optional_uuid uuid
                                                      (get_value "connection_id" payload)
                                                      "connection_id")
                                                    _
                                                    λ connection _.
                                                      Returned-bind HasOutcome
                                                        (one_of "succeeded" "failed"
                                                          (store_error
                                                            "outcome must be succeeded or failed.")
                                                          (get_value "outcome" payload))
                                                        _
                                                        λ outcome chosen.
                                                          Returned-bind HasOutcome
                                                            (state
                                                            (get_value "before_state" payload)
                                                            "before_state must be an object, array, or null.")
                                                            _
                                                            λ before _.
                                                            Returned-bind HasOutcome
                                                            (state (get_value "after_state" payload)
                                                            "after_state must be an object, array, or null.")
                                                            _
                                                            λ after _.
                                                            Returned-bind HasOutcome
                                                            (optional_text
                                                            (get_value "detail" payload) "detail"
                                                            4000)
                                                            _
                                                            λ detail _.
                                                            Returned-bind HasOutcome
                                                            (optional_text
                                                            (get_value "request_method" payload)
                                                            "request_method" 10)
                                                            _
                                                            λ method _.
                                                            Returned-bind HasOutcome
                                                            (optional_text
                                                            (get_value "request_path" payload)
                                                            "request_path" 2048)
                                                            _
                                                            λ path _.
                                                            one_of-ok "succeeded" "failed" s outcome
                                                            _ (rw claimed at chosen)
