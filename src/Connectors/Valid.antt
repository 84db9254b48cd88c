-- ===== src/Connectors/Valid.antt =====
-- `validate_profile` of app/dal/proxy/connectors.py lets through only profiles that can be tested
-- as they say, and in the demo only ones that stay on the loopback.
use network_gateway_api.Prelude.{
  raise_if, >>=-eq-ok, ◌≡◌, ◌∙◌, Bool, true, false, not, ◌&&◌, Option, String, str_eq, ok, arith,
}
use network_gateway_api.Prelude.Int.{ℤ, pos, Float, float_between}
use network_gateway_api.Value.{
  Value, Fields, int, str, dict, field, end, get_or, get_value, has, truthy_at,
}
use network_gateway_api.Connectors.Checks.{Address, unsupported, invalid}
use network_gateway_api.Connectors.Profile.{
  is_protocol, is_kind, protocol_port, chosen, connector_of, Validated, endpoint,
  connector_endpoint, timeout, networks, logins, kinds, validate_profile,
}
use network_gateway_api.Connectors.Accepted.{
  raise_if-ok, chosen-ok, HasPort, endpoint-HasPort, IsLocal, networks-demo, networks-port,
}

module _ (parse_int : String → Option ℤ) (float_of : Value → Option Float)
    (ip : String → Option Address) (is_localhost : String → Bool)
    (in_demo_storage : Value → Bool) where
  record AreKinds (protocol kind : String) : Type 0 where
    protocol_known : is_protocol protocol ≡ true
    kind_known : is_kind kind ≡ true
    shell_is_telnet : (str_eq kind "ssh_shell" && not (str_eq protocol "telnet")) ≡ false

  kinds-ok :
      (device : Fields) {found : String × Fields × String}
      → kinds parse_int float_of ip is_localhost in_demo_storage device ≡ ok found
      → AreKinds found.0 found.2
  unfolding kinds
  kinds-ok device {found} h =
      let (protocol, e, h1) =
        >>=-eq-ok
          (chosen is_protocol (unsupported "The selected device protocol is unsupported.")
            (get_value "protocol" device))
          _ h in
      let (_, _, h2) =
        >>=-eq-ok
          (raise_if (truthy_at "proxy_id" device && not (has "connector" device))
            (invalid "The saved proxy reference must be resolved before testing."))
          _ h1 in
      let (connector, _, h3) =
        >>=-eq-ok
          (connector_of (get_or "connector" (dict (field "type" (str "direct") end)) device)) _
          h2 in
      let (kind, f, h4) =
        >>=-eq-ok
          (chosen is_kind (unsupported "The selected connector is unsupported.")
            (get_value "type" connector))
          _ h3 in
      let (_, _, h5) =
        >>=-eq-ok
          (raise_if (truthy_at "proxy_id" device && str_eq kind "direct")
            (invalid "A saved proxy reference cannot be tested as a direct connection."))
          _ h4 in
      let (_, g, h6) =
        >>=-eq-ok
          (raise_if (str_eq kind "ssh_shell" && not (str_eq protocol "telnet"))
            (unsupported "Interactive SSH shell supports generic Telnet only, not SSH or NETCONF."))
          _ h5 in
      let same : (protocol, connector, kind) ≡ found = ground arith in
      rw (← same) (record {
        protocol_known = chosen-ok is_protocol _ (get_value "protocol" device) e;
        kind_known = chosen-ok is_kind _ (get_value "type" connector) f;
        shell_is_telnet = raise_if-ok _ _ g;
      })

  timeout-ok :
      (device : Fields) {seconds : Float}
      → timeout parse_int float_of ip is_localhost in_demo_storage device ≡ ok seconds
      → float_between 1 30 seconds ≡ true
  unfolding timeout
  timeout-ok device {seconds} h = ground arith

  networks-IsLocal :
      (demo_mode : Bool) (kind : String) (device connector : Fields) {placed : Fields × Fields}
      → networks parse_int float_of ip is_localhost in_demo_storage demo_mode kind device connector
        ≡ ok placed
      → demo_mode ≡ true
      → IsLocal parse_int float_of ip is_localhost in_demo_storage kind placed.0 placed.1
  networks-IsLocal true kind device connector h demo =
      (networks-demo parse_int float_of ip is_localhost in_demo_storage kind device connector h).0
  networks-IsLocal false kind device connector h demo = cc

  -- What `validate_profile` promises.
  pub record IsTestable (demo_mode : Bool) (v : Validated) : Type 0 where
    pub protocol_known : is_protocol v.protocol ≡ true
    pub kind_known : is_kind v.kind ≡ true
    pub shell_is_telnet : (str_eq v.kind "ssh_shell" && not (str_eq v.protocol "telnet")) ≡ false
    pub port : HasPort v.device
    pub bounded : float_between 1 30 v.seconds ≡ true
    pub local :
        demo_mode ≡ true
        → IsLocal parse_int float_of ip is_localhost in_demo_storage v.kind v.device v.connector

  -- A profile that is accepted has a known protocol and connector, a port from 1 to 65535 and a
  -- timeout from 1 to 30 seconds; an SSH shell is used for Telnet only; and in the demo the
  -- network hosts of the device and of a connector that is not direct are on the loopback.
  pub validate_profile-IsTestable :
      (profile : Fields) (demo_mode : Bool) (v : Validated)
      → validate_profile parse_int float_of ip is_localhost in_demo_storage profile demo_mode ≡ ok v
      → IsTestable demo_mode v
  unfolding validate_profile
  validate_profile-IsTestable profile demo_mode v h =
      let (found, e, h1) =
        >>=-eq-ok (kinds parse_int float_of ip is_localhost in_demo_storage profile) _ h in
      let (device, f, h2) =
        >>=-eq-ok
          (endpoint parse_int float_of ip is_localhost in_demo_storage
            (int (pos (protocol_port found.0))) profile)
          _ h1 in
      let (connector, _, h3) =
        >>=-eq-ok
          (connector_endpoint parse_int float_of ip is_localhost in_demo_storage found.2 found.1) _
          h2 in
      let (seconds, g, h4) =
        >>=-eq-ok (timeout parse_int float_of ip is_localhost in_demo_storage device) _ h3 in
      let (placed, p, h5) =
        >>=-eq-ok
          (networks parse_int float_of ip is_localhost in_demo_storage demo_mode found.2 device
            connector)
          _ h4 in
      let (_, _, h6) =
        >>=-eq-ok
          (logins parse_int float_of ip is_localhost in_demo_storage found.0 found.2 placed.0
            placed.1)
          _ h5 in
      let same : record {
        device = placed.0;
        connector = placed.1;
        seconds = seconds;
        protocol = found.0;
        kind = found.2;
      }
          ≡ v =
        ground arith in
      let known = kinds-ok profile e in
      let numbered =
        endpoint-HasPort parse_int float_of ip is_localhost in_demo_storage _ profile f in
      rw (← same) (record {
        protocol_known = known.protocol_known;
        kind_known = known.kind_known;
        shell_is_telnet = known.shell_is_telnet;
        port = record {
          number = numbered.number;
          found =
              networks-port parse_int float_of ip is_localhost in_demo_storage demo_mode found.2
                device connector p
              ∙ numbered.found;
          lower = numbered.lower;
          upper = numbered.upper;
        };
        bounded = timeout-ok device g;
        local = networks-IsLocal demo_mode found.2 device connector p;
      })
