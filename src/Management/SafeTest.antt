-- ===== src/Management/SafeTest.antt =====
-- `safe_test` of app/bl/services/management.py: the result of a connection test, with the login's secrets
-- replaced in its texts.
use network_gateway_api.Prelude.{
  ◌≤◌, ◌≡◌, refl, Bool, true, false, ◌&&◌, Option, none, some, List, [], ◌∷◌, ◌++◌, String,
  if◌then◌else◌, arith, Bool-cases, Option-cases, inl, inr,
}
use network_gateway_api.Prelude.Int.{Float, float_nonneg}
use network_gateway_api.Value.{
  Value, Items, Fields, null, bool, float, str, list, dict, nil, cons, end, field, get, get_or,
  among,
}
use network_gateway_api.Text.{count, take}
use network_gateway_api.Text.Laws.{count-take}
use network_gateway_api.Secrets.{is_text, secret_text}
use network_gateway_api.Secrets.Pem.{redact_pem}
use network_gateway_api.Secrets.Redact.{redact_all, insert_longest}

abbrev pub login_fields : List String
login_fields = "password" ∷ "private_key" ∷ "key_passphrase" ∷ []

-- `_secrets`
unfoldable mutual
  pub secrets_in : Value → List String
  secrets_in (dict fields) = secrets_in_fields fields
  secrets_in (list items) = secrets_in_items items
  secrets_in _ = []

  pub secrets_in_items : Items → List String
  secrets_in_items nil = []
  secrets_in_items (cons v items) = secrets_in v ++ secrets_in_items items

  pub secrets_in_fields : Fields → List String
  secrets_in_fields end = []
  secrets_in_fields (field k v fields) =
      let inner = secrets_in v in
      let rest = secrets_in_fields fields in
      (if among k login_fields && is_text v then secret_text v else inner) ++ rest

-- `sorted(found, key=len, reverse=True)` of a list: equal texts all stay.
abbrev pub sorted_longest : List String → List String
sorted_longest [] = []
sorted_longest (s ∷ ss) = insert_longest s (sorted_longest ss)

pub record TestResult : Type 0 where
  pub success : Bool
  pub simulated : Bool
  pub stage : String
  pub detail : String
  pub duration_ms : Float

-- `result.get("success") is True`
abbrev pub is_true : Option Value → Bool
is_true (some (bool b)) = b
is_true _ = false

is_true-eq : (found : Option Value) → is_true found ≡ true → found ≡ some (bool true)
is_true-eq (some (bool b)) h = rw h
is_true-eq (some null) h = cc
is_true-eq _ h = cc

-- The parameters: Python's `str` of a value that is no text, and its `float`, which may raise.
module _ (text_of : Value → String) (float_of : Value → Option Float) where
  abbrev as_text : Value → String
  as_text (str s) = s
  as_text v = text_of v

  abbrev failed_test : Bool → Float → TestResult
  failed_test simulated elapsed = record {
    success = false;
    simulated = simulated;
    stage = "internal";
    detail = "Connection test failed.";
    duration_ms = elapsed;
  }

  unfoldable pub cleaned_test : List String → Bool → Float → Fields → Float → TestResult
  unfolding redact_all redact_pem
  cleaned_test secrets simulated elapsed result duration = record {
    success = is_true (get "success" result);
    simulated = simulated;
    stage = take 80 (redact_all secrets (as_text (get_or "stage" (str "connection") result)));
    detail =
        take 4096 (redact_pem (redact_all secrets (as_text (get_or "detail" (str "") result))));
    duration_ms = if float_nonneg duration then duration else elapsed;
  }

  -- `outcome` is what the tester returned, or `none` where it raised; `elapsed` is the time since
  -- the start in milliseconds.
  unfoldable pub safe_test : Fields → Bool → Float → Option Fields → TestResult
  unfolding cleaned_test secrets_in
  safe_test profile simulated elapsed none = failed_test simulated elapsed
  safe_test profile simulated elapsed (some result) =
      elim (float_of (get_or "duration_ms" (float elapsed) result)) [
        | none ↦ failed_test simulated elapsed
        | some duration ↦
            cleaned_test (sorted_longest (secrets_in_fields profile)) simulated elapsed result
              duration
      ]

  pub record IsBounded (simulated : Bool) (r : TestResult) : Type 0 where
    pub stage : count r.stage ≤ 80
    pub detail : count r.detail ≤ 4096
    pub duration : float_nonneg r.duration_ms ≡ true
    pub flag : r.simulated ≡ simulated

  cleaned_test-IsBounded :
      (secrets : List String) (simulated : Bool) (elapsed : Float) (result : Fields)
      (duration : Float)
      → float_nonneg elapsed ≡ true
      → IsBounded simulated (cleaned_test secrets simulated elapsed result duration)
  unfolding cleaned_test
  cleaned_test-IsBounded secrets simulated elapsed result duration h = record {
    stage = count-take 80 _;
    detail = count-take 4096 _;
    duration = elim (Bool-cases (float_nonneg duration)) [ inl e ↦ rw e e | inr e ↦ rw e h ];
    flag = refl;
  }

  -- Whatever the tester returns or raises there is a result, with a bounded stage and detail, a
  -- finite duration that is not negative (if the clock did not run backwards), and the flag that
  -- was asked for.
  pub safe_test-IsBounded :
      (profile : Fields) (simulated : Bool) (elapsed : Float) (outcome : Option Fields)
      → float_nonneg elapsed ≡ true
      → IsBounded simulated (safe_test profile simulated elapsed outcome)
  unfolding safe_test
  safe_test-IsBounded profile simulated elapsed none h = record {
    stage = omega arith;
    detail = omega arith;
    duration = h;
    flag = refl;
  }
  safe_test-IsBounded profile simulated elapsed (some result) h =
      elim (Option-cases (float_of (get_or "duration_ms" (float elapsed) result))) [
        | inl e ↦
            rw (e, safe_test)
              (record { stage = omega arith; detail = omega arith; duration = h; flag = refl })
        | inr (duration, e) ↦
            rw (e, safe_test)
              (cleaned_test-IsBounded (sorted_longest (secrets_in_fields profile)) simulated elapsed
                result duration h)
      ]

  -- A test is reported as passed only if the tester returned a result whose `success` is `True`
  -- itself: an error, a missing field or a merely truthy value is a failure.
  pub safe_test-success :
      (profile : Fields) (simulated : Bool) (elapsed : Float) (outcome : Option Fields)
      → (safe_test profile simulated elapsed outcome).success ≡ true
      → (result : Fields) × (outcome ≡ some result) × (get "success" result ≡ some (bool true))
  unfolding safe_test
  safe_test-success profile simulated elapsed none h = cc
  safe_test-success profile simulated elapsed (some result) h =
      elim (Option-cases (float_of (get_or "duration_ms" (float elapsed) result))) [
        | inl e ↦ let h' = rw (e, safe_test) at h in cc
        | inr (duration, e) ↦ (result, refl, is_true-eq _ (rw (e, safe_test) at h))
      ]
