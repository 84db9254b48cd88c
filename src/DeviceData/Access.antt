-- ===== src/DeviceData/Access.antt =====
-- Who may change the routes of the simulated device.
use network_gateway_api.Prelude.{
  ℕ, ◌≡◌, refl, ap, ◌∙◌, >>=-eq-ok, arith, inl, inr, true, Option, none, String, Outcome, ok,
  Bool-cases, Outcome-cases, str_eq,
}
use network_gateway_api.Value.{Value, Fields, null, bool, int, float, str, list, dict, get_value}
use network_gateway_api.Secrets.Vault.{Vault}
use network_gateway_api.Storage.Errors.{StoreError}
use network_gateway_api.Management.Calls.{ManagementError, store_call}
use network_gateway_api.Inventory.Rows.{Inventory}
use network_gateway_api.StaticRoutes.Operations.{
  Route, RouteDb, Drawn, is_fake_profile, create_static_route_audited,
}
use network_gateway_api.DeviceData.Simulation.{
  is_fake_device, is_fake_proxy, check_path, validate_fake_path,
}
use network_gateway_api.DeviceData.Simulated.{
  IsFakeDevice, IsFakeProxy, is_fake_device-IsFakeDevice, is_fake_proxy-IsFakeProxy,
}
use network_gateway_api.DeviceData.Client.{
  stored_profile, fake_profile, resolved, behind_path, client_create,
}
use network_gateway_api.DeviceData.Service.{
  Asked, audit_context, with_detail, client, attempted, service_create,
}

-- The profile is the simulated device behind the simulated proxy.
pub record IsSimulated (profile : Fields) : Type 0 where
  pub device : IsFakeDevice profile
  pub connector : Fields
  pub named : get_value "connector" profile ≡ dict connector
  pub proxy : IsFakeProxy profile connector

check_path-IsSimulated :
    (profile : Fields) (v : Value)
    → is_fake_profile profile ≡ true
    → get_value "connector" profile ≡ v
    → check_path profile v ≡ ok tt
    → IsSimulated profile
unfolding check_path
check_path-IsSimulated profile (dict connector) e named h =
    elim (Bool-cases (is_fake_device profile)) [
      | inr f ↦ let h' = rw (f, check_path) at h in cc
      | inl f ↦ elim (Bool-cases (is_fake_proxy profile connector)) [
        | inr g ↦ let h' = rw (f, g, check_path) at h in cc
        | inl g ↦ record {
          device = is_fake_device-IsFakeDevice profile e f;
          connector = connector;
          named = named;
          proxy = is_fake_proxy-IsFakeProxy profile connector g;
        }
      ]
    ]
check_path-IsSimulated profile null e named h = cc
check_path-IsSimulated profile (bool _) e named h = cc
check_path-IsSimulated profile (int _) e named h = cc
check_path-IsSimulated profile (float _) e named h = cc
check_path-IsSimulated profile (str _) e named h = cc
check_path-IsSimulated profile (list _) e named h = cc

validate_fake_path-IsSimulated :
    (profile : Fields) → validate_fake_path profile ≡ ok tt → IsSimulated profile
unfolding validate_fake_path
validate_fake_path-IsSimulated profile h = elim (Bool-cases (is_fake_profile profile)) [
  | inr e ↦ let h' = rw (e, validate_fake_path) at h in cc
  | inl e ↦
      check_path-IsSimulated profile (get_value "connector" profile) e refl
        (rw (e, validate_fake_path) at h)
]

module _ (vault : Vault Fields) (inventory : Inventory) (uuid : String → Option String)
    (ip_network ip_address : String → Option (ℕ × String)) where
  -- The connection resolves to the simulated device.
  pub record Resolves (connection : String) : Type 0 where
    pub profile : Fields
    pub found : resolved vault inventory uuid ip_network ip_address connection ≡ ok profile
    pub simulated : IsSimulated profile

  fake_profile-Resolves :
      (connection : String) (profile : Fields)
      → fake_profile vault inventory uuid ip_network ip_address connection ≡ ok profile
      → Resolves connection
  unfolding fake_profile
  fake_profile-Resolves connection profile h =
      let (found, e, h') =
        >>=-eq-ok (resolved vault inventory uuid ip_network ip_address connection) _ h in
      let (_, f, _) = >>=-eq-ok (validate_fake_path found) _ h' in
      record { profile = found; found = e; simulated = validate_fake_path-IsSimulated found f }

  behind_path-Resolves :
      {A : Type 0} (connection : String) (call : RouteDb → Outcome StoreError A × RouteDb)
      (db : RouteDb) (a : A)
      → (behind_path vault inventory uuid ip_network ip_address connection call db).0 ≡ ok a
      → Resolves connection
  behind_path-Resolves connection call db a h =
      elim (Outcome-cases (fake_profile vault inventory uuid ip_network ip_address connection)) [
        | inr (_, e) ↦ let h' = rw (e, behind_path) at h in cc
        | inl (profile, e) ↦ fake_profile-Resolves connection profile e
      ]

  module _ (provider : String) (key_error : Value → Value → Option String) where
    client-provider :
        (connection : String)
        → client vault inventory uuid ip_network ip_address provider key_error connection ≡ ok tt
        → str_eq provider "fake" ≡ true
    unfolding client
    client-provider connection h = elim (Bool-cases (str_eq provider "fake")) [
      | inl e ↦ e
      | inr e ↦ let h' = rw (e, client) at h in cc
    ]

    attempted-called :
        {A : Type 0} (drawn : Drawn) (audit : Fields) (resource : Option String)
        (connection : String) (call : RouteDb → Outcome StoreError A × RouteDb) (db : RouteDb)
        (a : A)
        → (attempted vault inventory uuid ip_network ip_address provider key_error drawn audit
            resource connection call db).0
          ≡ ok a
        → (str_eq provider "fake" ≡ true) × ((call db).0 ≡ ok a)
    unfolding attempted store_call
    attempted-called {A} drawn audit resource connection call db a h =
        elim (Outcome-cases
          (client vault inventory uuid ip_network ip_address provider key_error connection)) [
            | inr (_, e) ↦ let h' = rw (e, attempted) at h in cc
            | inl (_, e) ↦ elim (Outcome-cases (call db).0) [
              | inr (_, f) ↦ let h' = rw (e, f, attempted, store_call) at h in cc
              | inl (b, f) ↦
                  let h' : ok_of b ≡ ok_of a = rw (e, f, attempted, store_call) at h in
                  let same : b ≡ a = ground arith in
                  (client-provider connection e, f ∙ ap (λ x. ok x) same)
            ]
          ]
      where
        ok_of : A → Outcome ManagementError A
        ok_of x = ok x

    -- A static route is created through the service only if the provider of device data is "fake" and
    -- the connection resolves, by its stored references, to the simulated device behind the simulated
    -- proxy that it names, with the type, the host, the port, the username and the password of each.
    pub service_create-Resolves :
        (drawn drawn_failure : Drawn) (asked : Asked) (connection : String) (payload : Fields)
        (db : RouteDb) (route : Route)
        → (service_create vault inventory uuid ip_network ip_address provider key_error drawn
            drawn_failure asked connection payload db).0
          ≡ ok route
        → (str_eq provider "fake" ≡ true) × Resolves connection
    unfolding service_create client_create
    service_create-Resolves drawn drawn_failure asked connection payload db route h =
        let audit = audit_context asked "static_route.create" in
        let (fake, made) =
          attempted-called drawn_failure audit none connection
            (client_create vault inventory uuid ip_network ip_address drawn connection payload
              (with_detail "Static route created." audit))
            db route h in
        (
          fake,
          behind_path-Resolves connection
              (create_static_route_audited
                (stored_profile vault inventory uuid ip_network ip_address) uuid ip_network
                ip_address drawn connection payload (with_detail "Static route created." audit))
              db route made,
        )
