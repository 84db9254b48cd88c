-- ===== src/DeviceData/Simulation.antt =====
-- The access path of the simulated device: `_validate_fake_path` and `test_fake_connection` of
-- app/dal/device/fake_client.py.
use network_gateway_api.Prelude.{
  ℕ, Bool, true, false, not, ◌&&◌, String, str_eq, ◌==◌, if◌then◌else◌, Outcome, ok, err,
}
use network_gateway_api.Prelude.Int.{pos, dyadic}
use network_gateway_api.Value.{
  Value, Fields, bool, int, str, float, dict, field, end, get, get_value, truthy, truthy_at,
}
use network_gateway_api.Storage.Errors.{StoreError, store_error_code}
use network_gateway_api.StaticRoutes.Operations.{is_fake_profile}

-- `profile.get(key) == text`
abbrev pub reads : String → String → Fields → Bool
reads key text profile = elim (get_value key profile) [ str s ↦ str_eq s text | _ ↦ false ]

-- `type(profile.get(key)) is int and profile[key] == number`
abbrev pub reads_number : String → ℕ → Fields → Bool
reads_number key number profile = elim (get_value key profile) [
  | int (pos n) ↦ n == number
  | _ ↦ false
]

-- `connector.get("id") == profile["proxy_id"]`: keys are texts.
abbrev pub same_text : Value → Value → Bool
same_text (str a) (str b) = str_eq a b
same_text _ _ = false

abbrev pub not_simulated : StoreError
not_simulated = store_error_code "Device-data simulation requires a fake connection." 501

abbrev pub device_refused : StoreError
device_refused = store_error_code "Simulated device access validation failed." 403

abbrev pub proxy_refused : StoreError
proxy_refused = store_error_code "Simulated proxy access validation failed." 403

-- The login, host and protocol of the simulated device
unfoldable pub is_fake_device : Fields → Bool
unfolding get truthy
is_fake_device profile =
    truthy_at "id" profile
    && truthy_at "role_account_id" profile
    && reads "protocol" "ssh" profile
    && reads "host" "fake-device.invalid" profile
    && reads_number "port" 22 profile
    && reads "authentication_type" "password" profile
    && reads "username" "fake-device-user" profile
    && reads "password" "fake-device-password" profile

-- The login, host and type of the simulated proxy, which is the one that the connection names
unfoldable pub is_fake_proxy : Fields → Fields → Bool
unfolding get truthy
is_fake_proxy profile connector =
    truthy_at "proxy_id" profile
    && same_text (get_value "id" connector) (get_value "proxy_id" profile)
    && truthy_at "role_account_id" connector
    && reads "type" "ssh_tunnel" connector
    && reads "host" "fake-bastion.invalid" connector
    && reads_number "port" 22 connector
    && reads "authentication_type" "password" connector
    && reads "username" "fake-proxy-user" connector
    && reads "password" "fake-proxy-password" connector

-- The two tests after the one of the client type, with `profile.get("connector")`
unfoldable pub check_path : Fields → Value → Outcome StoreError (Unit {0})
unfolding is_fake_device is_fake_proxy
check_path profile (dict connector) =
    if not (is_fake_device profile)
    then err device_refused
    else if not (is_fake_proxy profile connector)
    then err proxy_refused
    else ok tt
check_path profile _ = err proxy_refused

-- `_validate_fake_path`
unfoldable pub validate_fake_path : Fields → Outcome StoreError (Unit {0})
unfolding get check_path
validate_fake_path profile =
    if not (is_fake_profile profile)
    then err not_simulated
    else check_path profile (get_value "connector" profile)

abbrev simulation_result : Bool → String → Fields
simulation_result success detail = field "success" (bool success) (
    field "stage" (str "simulation") (
      field "detail" (str detail)
        (field "duration_ms" (float (dyadic (pos 0) 0)) (field "simulated" (bool true) end))))

-- `test_fake_connection`
unfoldable pub test_fake_connection : Fields → Fields
unfolding validate_fake_path
test_fake_connection profile = elim (validate_fake_path profile) [
  | err e ↦ simulation_result false e.message
  | ok _ ↦
      simulation_result true
        "Simulated device and proxy authentication passed; no network connection was made."
]
