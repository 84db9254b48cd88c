-- ===== src/Connectors/Profile.antt =====
-- `validate_profile` of app/dal/proxy/connectors.py.
use network_gateway_api.Prelude.{
  ◌>>=◌, ◌>>◌, raise_if, ℕ, Bool, true, false, not, ◌&&◌, ◌||◌, Option, none, some, String, str_eq,
  if◌then◌else◌, Outcome, ok, err,
}
use network_gateway_api.Prelude.Int.{ℤ, pos, Float, float_between}
use network_gateway_api.Value.{
  Value, Fields, null, bool, int, str, dict, field, end, get, get_or, get_value, set, has, truthy,
  truthy_at,
}
use network_gateway_api.Text.{has_part, same}
use network_gateway_api.Connectors.Checks.{
  Raised, type_error, invalid, unsupported, Address, text_in, port, host, loopback_host,
  demo_file_policy, auth_fields,
}

-- PROTOCOL_PORTS
abbrev pub protocol_port : String → ℕ
protocol_port protocol =
    if str_eq protocol "ssh" then 22 else if str_eq protocol "netconf" then 830 else 23

abbrev pub is_protocol : String → Bool
is_protocol s = str_eq s "ssh" || str_eq s "netconf" || str_eq s "telnet"

-- CONNECTOR_TYPES
abbrev pub is_kind : String → Bool
is_kind s =
    str_eq s "direct"
    || str_eq s "ssh_tunnel"
    || str_eq s "ssh_shell"
    || str_eq s "socks5"
    || str_eq s "http_connect"

abbrev pub is_ssh : String → Bool
is_ssh kind = str_eq kind "ssh_tunnel" || str_eq kind "ssh_shell"

-- A text of a set, with the text
abbrev pub chosen : (String → Bool) → Raised → Value → Outcome Raised String
chosen known e (str s) = if known s then ok s else err e
chosen known e v = text_in known v >>= λ _. err e

abbrev pub connector_of : Value → Outcome Raised Fields
connector_of (dict d) = ok d
connector_of _ = err (invalid "A resolved connector object is required.")

abbrev bad_timeout : Raised
bad_timeout = invalid "The overall timeout must be between 1 and 30 seconds."

-- The profile, the connector and the timeout, and the texts that were read from them.
pub record Validated : Type 0 where
  pub device : Fields
  pub connector : Fields
  pub seconds : Float
  pub protocol : String
  pub kind : String

module _ (parse_int : String → Option ℤ) (float_of : Value → Option Float)
    (ip : String → Option Address) (is_localhost : String → Bool)
    (in_demo_storage : Value → Bool) where
  -- `device["host"]` and `device["port"]`, with a default for a missing port
  unfoldable pub endpoint : Value → Fields → Outcome Raised Fields
  unfolding get set host port
  endpoint default d = host ip (get_value "host" d) >>= λ h.
      port parse_int (get_or "port" default d) >>= λ p.
      ok (set "port" (int (pos p)) (set "host" (str h) d))

  -- For a connector that is not direct
  abbrev pub connector_endpoint : String → Fields → Outcome Raised Fields
  connector_endpoint kind connector =
      let typed = set "type" (str kind) connector in
      if str_eq kind "direct" then ok typed else endpoint null typed

  abbrev is_bool : Value → Bool
  is_bool (bool _) = true
  is_bool _ = false

  unfoldable pub timeout : Fields → Outcome Raised Float
  unfolding get
  timeout device =
      if is_bool (get_value "timeout_seconds" device)
      then err bad_timeout
      else elim (float_of (get_or "timeout_seconds" (int (pos 5)) device)) [
        | none ↦ err bad_timeout
        | some seconds ↦ if float_between 1 30 seconds then ok seconds else err bad_timeout
      ]

  -- `d["network_host"] = loopback_host(d["host"])`
  abbrev pub pinned : Fields → Outcome Raised Fields
  pinned d = elim (get_value "host" d) [
    | str h ↦ loopback_host ip is_localhost h >>= λ n. ok (set "network_host" (str n) d)
    | _ ↦ err type_error
  ]

  -- The network hosts, which the demo pins to the loopback
  unfoldable pub networks : Bool → String → Fields → Fields → Outcome Raised (Fields × Fields)
  unfolding get set loopback_host demo_file_policy
  networks false kind device connector = ok (
    set "network_host" (get_value "host" device) device,
    set "network_host" (get_value "host" connector) connector,
  )
  networks true kind device connector = pinned device >>= λ device'.
      (if str_eq kind "direct" then ok connector else pinned connector) >>= λ connector'.
      demo_file_policy in_demo_storage device'
      >> ((if str_eq kind "direct" then ok tt else demo_file_policy in_demo_storage connector')
          >> ok (device', connector'))

  -- `":" in (connector.get("username") or "")`
  abbrev has_colon : Fields → Bool
  has_colon connector = elim (get_value "username" connector) [
    | str s ↦ has_part same ":" s
    | _ ↦ false
  ]

  -- The logins of the device and of the connector
  unfoldable pub logins : String → String → Fields → Fields → Outcome Raised (Unit {0})
  unfolding get auth_fields has_part
  logins protocol kind device connector =
      auth_fields device true (not (str_eq protocol "telnet"))
      >> ((if str_eq kind "direct"
            then ok tt
            else auth_fields connector (is_ssh kind) (is_ssh kind))
          >> raise_if (str_eq kind "http_connect" && has_colon connector)
              (invalid "HTTP Basic proxy usernames cannot contain a colon."))

  -- The checks on the protocol and on the kind of the connector
  unfoldable pub kinds : Fields → Outcome Raised (String × Fields × String)
  unfolding get truthy
  kinds device =
      chosen is_protocol (unsupported "The selected device protocol is unsupported.")
        (get_value "protocol" device)
      >>= λ protocol.
          raise_if (truthy_at "proxy_id" device && not (has "connector" device))
            (invalid "The saved proxy reference must be resolved before testing.")
          >> (connector_of (get_or "connector" (dict (field "type" (str "direct") end)) device)
              >>= λ connector.
                  chosen is_kind (unsupported "The selected connector is unsupported.")
                    (get_value "type" connector)
                  >>= λ kind.
                      raise_if (truthy_at "proxy_id" device && str_eq kind "direct")
                        (invalid "A saved proxy reference cannot be tested as a direct connection.")
                      >> (raise_if (str_eq kind "ssh_shell" && not (str_eq protocol "telnet")) (
                            unsupported
                              "Interactive SSH shell supports generic Telnet only, not SSH or NETCONF.")
                          >> ok (protocol, connector, kind)))

  -- `validate_profile` of a dict
  unfoldable pub validate_profile : Fields → Bool → Outcome Raised Validated
  unfolding kinds endpoint timeout networks logins get set
  validate_profile profile demo_mode = kinds profile >>= λ found.
      let (protocol, raw, kind) = found in
      endpoint (int (pos (protocol_port protocol))) profile >>= λ device.
      connector_endpoint kind raw >>= λ connector. timeout device >>= λ seconds.
      networks demo_mode kind device connector >>= λ placed.
      let (device', connector') = placed in
      logins protocol kind device' connector'
      >> ok (record {
        device = device';
        connector = connector';
        seconds = seconds;
        protocol = protocol;
        kind = kind;
      })
