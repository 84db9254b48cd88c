-- ===== src/DeviceData/Inventory.antt =====
-- `_INVENTORY` of app/dal/device/fake_client.py: what the simulated device reports.
use network_gateway_api.Prelude.{ℕ, String, Bool, true, false}
use network_gateway_api.Prelude.Int.{pos}
use network_gateway_api.Value.{Value, Fields, bool, int, str, list, dict, nil, cons, field, end}

abbrev number : ℕ → Value
number n = int (pos n)

abbrev only : Value → Value
only v = list (cons v nil)

abbrev interface :
    (name description mac_address address : String) (mtu rx_bytes tx_bytes : ℕ) → Value
interface name description mac_address address mtu rx_bytes tx_bytes = dict (
    field "name" (str name) (
      field "description" (str description) (
        field "admin_status" (str "up") (
          field "oper_status" (str "up") (
            field "mtu" (number mtu) (
              field "mac_address" (str mac_address) (
                field "addresses" (only (str address)) (
                  field "rx_bytes" (number rx_bytes)
                    (field "tx_bytes" (number tx_bytes) end)))))))))

abbrev system : Value
system = dict (
    field "hostname" (str "fictional-transport-device") (
      field "model" (str "Fictional Gateway Simulator") (
        field "software_version" (str "SIMULATED-1.0") (
          field "serial_number" (str "FICTIONAL-0001")
            (field "uptime_seconds" (number 86400) end)))))

abbrev interfaces : Value
interfaces = list (
    cons
      (interface "eth0" "Simulated IPv4 uplink" "02:00:00:00:00:01" "192.0.2.2/24" 1500 120000
        80000)
      (cons
        (interface "eth1" "Simulated IPv6 uplink" "02:00:00:00:00:02" "2001:db8:1::2/64" 1500 90000
          60000)
        (cons
          (interface "lo" "Simulated loopback" "00:00:00:00:00:00" "203.0.113.10/32" 65536 1000
            1000)
          nil)))

abbrev neighbor : Value
neighbor = dict (
    field "address" (str "192.0.2.1") (
      field "remote_asn" (number 64513) (
        field "state" (str "Established") (
          field "uptime_seconds" (number 3600)
            (field "prefixes_received" (number 2) (field "prefixes_sent" (number 1) end))))))

abbrev bgp : Value
bgp = dict (
    field "local_asn" (number 64512)
      (field "router_id" (str "203.0.113.10") (field "neighbors" (only neighbor) end)))

abbrev enabled : String → Bool → Value
enabled name on = dict (field "name" (str name) (field "enabled" (bool on) end))

abbrev ldp_neighbor : Value
ldp_neighbor = dict (
    field "router_id" (str "203.0.113.1") (
      field "address" (str "192.0.2.1")
        (field "state" (str "Operational") (field "uptime_seconds" (number 3600) end))))

abbrev lsp : Value
lsp = dict (
    field "name" (str "simulated-lsp") (
      field "source" (str "203.0.113.10") (
        field "destination" (str "203.0.113.1")
          (field "state" (str "up") (field "label" (number 16001) end)))))

abbrev mpls : Value
mpls = dict (
    field "interfaces" (list (cons (enabled "eth0" true) (cons (enabled "eth1" false) nil)))
      (field "ldp_neighbors" (only ldp_neighbor) (field "lsps" (only lsp) end)))

abbrev pub inventory_data : Fields
inventory_data =
    field "system" system (field "interfaces" interfaces (field "bgp" bgp (field "mpls" mpls end)))
