-- ===== src/Management/Testing.antt =====
-- `test` and `test_profile` of app/bl/services/management.py. What the network tester returns is a
-- parameter: `none` where it raises.
use network_gateway_api.Prelude.{
  Bool, true, false, Option, none, some, String, str_eq, if◌then◌else◌, Outcome, ok, err,
}
use network_gateway_api.Prelude.Int.{Float}
use network_gateway_api.Value.{Value, Fields, get}
use network_gateway_api.Storage.Errors.{StoreError}
use network_gateway_api.DeviceData.Simulation.{test_fake_connection}
use network_gateway_api.Management.Calls.{
  ManagementError, store_call, check_test_provider, client_type,
}
use network_gateway_api.Management.SafeTest.{TestResult, safe_test}

abbrev is_fake_type : Option String → Bool
is_fake_type none = false
is_fake_type (some kind) = str_eq kind "fake"

module _ (text_of : Value → String) (float_of : Value → Option Float) (provider : String)
    (tester : Fields → Option Fields) (elapsed : Float) where
  unfoldable pub test_profile : Fields → Outcome ManagementError TestResult
  unfolding check_test_provider get test_fake_connection safe_test
  test_profile profile = elim (check_test_provider provider profile) [
    | err e ↦ err e
    | ok _ ↦
        if is_fake_type (client_type profile)
        then ok
            (safe_test text_of float_of profile true elapsed (some (test_fake_connection profile)))
        else ok (safe_test text_of float_of profile false elapsed (tester profile))
  ]

  -- `test`, with what `resolve_connection` gives
  unfoldable pub test_connection : Outcome StoreError Fields → Outcome ManagementError TestResult
  unfolding store_call test_profile
  test_connection resolved = elim (store_call resolved) [
    | err e ↦ err e
    | ok profile ↦ test_profile profile
  ]
