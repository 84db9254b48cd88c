-- ===== src/Management/Tests.antt =====
-- Connection tests and error conversion at concrete inputs.
use network_gateway_api.Prelude.{refl, true, false, none, some, String}
use network_gateway_api.Prelude.Int.{Float, pos, dyadic}
use network_gateway_api.Value.{Value, Fields, bool, str, field, end}
use network_gateway_api.Management.SafeTest.{safe_test, IsBounded, safe_test-IsBounded}

abbrev profile : Fields
profile = field "password" (str "hunter2") end

abbrev outcome : Fields
outcome = field "success" (bool true) (field "detail" (str "sent hunter2") end)

abbrev text_of : Value → String
text_of v = ""

abbrev elapsed : Float
elapsed = dyadic (pos 3) 1

safe_test-IsBounded_example :
    IsBounded text_of
      (λ v. none)
      false
      (safe_test text_of (λ v. none) profile false elapsed (some outcome))
safe_test-IsBounded_example =
    safe_test-IsBounded text_of (λ v. none) profile false elapsed (some outcome) refl
