-- ===== src/DeviceData/Simulated.antt =====
-- What the simulated device and its proxy are, for app/dal/device/fake_client.py.
use network_gateway_api.Prelude.{
  ℕ, ◌≡◌, refl, sym, ap, Bool, true, false, ◌&&◌, &&-true, eq_iff, String, str_eq, ◌==◌, arith,
}
use network_gateway_api.Prelude.Int.{pos, negsuc}
use network_gateway_api.Value.{
  Value, Fields, null, bool, int, float, str, list, dict, get_value, get_or, truthy_at,
}
use network_gateway_api.StaticRoutes.Operations.{is_fake_profile}
use network_gateway_api.DeviceData.Simulation.{
  reads, reads_number, same_text, is_fake_device, is_fake_proxy,
}

-- An SSH device at a name that does not exist, with its login
pub record IsFakeDevice (profile : Fields) : Type 0 where
  pub kind : get_or "client_type" (str "network") profile ≡ str "fake"
  pub id : truthy_at "id" profile ≡ true
  pub role_account : truthy_at "role_account_id" profile ≡ true
  pub protocol : get_value "protocol" profile ≡ str "ssh"
  pub host : get_value "host" profile ≡ str "fake-device.invalid"
  pub port : get_value "port" profile ≡ int (pos 22)
  pub authentication : get_value "authentication_type" profile ≡ str "password"
  pub username : get_value "username" profile ≡ str "fake-device-user"
  pub password : get_value "password" profile ≡ str "fake-device-password"

-- The SSH bastion that the connection names, with its login
pub record IsFakeProxy (profile connector : Fields) : Type 0 where
  pub id : String
  pub named : get_value "proxy_id" profile ≡ str id
  pub same : get_value "id" connector ≡ str id
  pub role_account : truthy_at "role_account_id" connector ≡ true
  pub kind : get_value "type" connector ≡ str "ssh_tunnel"
  pub host : get_value "host" connector ≡ str "fake-bastion.invalid"
  pub port : get_value "port" connector ≡ int (pos 22)
  pub authentication : get_value "authentication_type" connector ≡ str "password"
  pub username : get_value "username" connector ≡ str "fake-proxy-user"
  pub password : get_value "password" connector ≡ str "fake-proxy-password"

text_value :
    (v : Value) (text : String)
    → (elim v [ str s ↦ str_eq s text | _ ↦ false ]) ≡ true
    → v ≡ str text
text_value (str s) text h = ap (λ t. str t) ((eq_iff s text).0 h)
text_value null text h = cc
text_value (bool _) text h = cc
text_value (int _) text h = cc
text_value (float _) text h = cc
text_value (list _) text h = cc
text_value (dict _) text h = cc

number_value :
    (v : Value) (number : ℕ)
    → (elim v [ int (pos n) ↦ n == number | _ ↦ false ]) ≡ true
    → v ≡ int (pos number)
number_value (int (pos n)) number h = ap (λ k. int (pos k)) (ground arith)
number_value (int (negsuc n)) number h = cc
number_value null number h = cc
number_value (bool _) number h = cc
number_value (float _) number h = cc
number_value (str _) number h = cc
number_value (list _) number h = cc
number_value (dict _) number h = cc

same_value :
    (v w : Value) → same_text v w ≡ true → (text : String) × (v ≡ str text) × (w ≡ str text)
same_value (str a) (str b) h = (a, refl, ap (λ t. str t) (sym ((eq_iff a b).0 h)))
same_value (str a) null h = cc
same_value (str a) (bool _) h = cc
same_value (str a) (int _) h = cc
same_value (str a) (float _) h = cc
same_value (str a) (list _) h = cc
same_value (str a) (dict _) h = cc
same_value null w h = cc
same_value (bool _) w h = cc
same_value (int _) w h = cc
same_value (float _) w h = cc
same_value (list _) w h = cc
same_value (dict _) w h = cc

eight :
    (a b c d e f g h : Bool)
    → (a && b && c && d && e && f && g && h) ≡ true
    → (a ≡ true)
      × (b ≡ true)
      × (c ≡ true)
      × (d ≡ true)
      × (e ≡ true)
      × (f ≡ true)
      × (g ≡ true)
      × (h ≡ true)
eight a b c d e f g h p =
    let (p7, ph) = &&-true (a && b && c && d && e && f && g) h p in
    let (p6, pg) = &&-true (a && b && c && d && e && f) g p7 in
    let (p5, pf) = &&-true (a && b && c && d && e) f p6 in
    let (p4, pe) = &&-true (a && b && c && d) e p5 in
    let (p3, pd) = &&-true (a && b && c) d p4 in
    let (p2, pc) = &&-true (a && b) c p3 in
    let (pa, pb) = &&-true (a) b p2 in (pa, pb, pc, pd, pe, pf, pg, ph)

pub is_fake_device-IsFakeDevice :
    (profile : Fields)
    → is_fake_profile profile ≡ true
    → is_fake_device profile ≡ true
    → IsFakeDevice profile
unfolding is_fake_device
is_fake_device-IsFakeDevice profile fake h =
    let (id, role, protocol, host, port, kind, username, password) =
      eight (truthy_at "id" profile) (truthy_at "role_account_id" profile)
        (reads "protocol" "ssh" profile) (reads "host" "fake-device.invalid" profile)
        (reads_number "port" 22 profile) (reads "authentication_type" "password" profile)
        (reads "username" "fake-device-user" profile)
        (reads "password" "fake-device-password" profile) h in
    record {
      kind = text_value (get_or "client_type" (str "network") profile) "fake" fake;
      id = id;
      role_account = role;
      protocol = text_value (get_value "protocol" profile) "ssh" protocol;
      host = text_value (get_value "host" profile) "fake-device.invalid" host;
      port = number_value (get_value "port" profile) 22 port;
      authentication = text_value (get_value "authentication_type" profile) "password" kind;
      username = text_value (get_value "username" profile) "fake-device-user" username;
      password = text_value (get_value "password" profile) "fake-device-password" password;
    }

pub is_fake_proxy-IsFakeProxy :
    (profile connector : Fields)
    → is_fake_proxy profile connector ≡ true
    → IsFakeProxy profile connector
unfolding is_fake_proxy
is_fake_proxy-IsFakeProxy profile connector p =
    let (front, password) =
      &&-true
        (truthy_at "proxy_id" profile
          && same_text (get_value "id" connector) (get_value "proxy_id" profile)
          && truthy_at "role_account_id" connector
          && reads "type" "ssh_tunnel" connector
          && reads "host" "fake-bastion.invalid" connector
          && reads_number "port" 22 connector
          && reads "authentication_type" "password" connector
          && reads "username" "fake-proxy-user" connector)
        (reads "password" "fake-proxy-password" connector) p in
    let (_, same, role, kind, host, port, authentication, username) =
      eight (truthy_at "proxy_id" profile)
        (same_text (get_value "id" connector) (get_value "proxy_id" profile))
        (truthy_at "role_account_id" connector) (reads "type" "ssh_tunnel" connector)
        (reads "host" "fake-bastion.invalid" connector) (reads_number "port" 22 connector)
        (reads "authentication_type" "password" connector)
        (reads "username" "fake-proxy-user" connector) front in
    let (id, is_id, is_named) =
      same_value (get_value "id" connector) (get_value "proxy_id" profile) same in
    record {
      id = id;
      named = is_named;
      same = is_id;
      role_account = role;
      kind = text_value (get_value "type" connector) "ssh_tunnel" kind;
      host = text_value (get_value "host" connector) "fake-bastion.invalid" host;
      port = number_value (get_value "port" connector) 22 port;
      authentication =
          text_value (get_value "authentication_type" connector) "password" authentication;
      username = text_value (get_value "username" connector) "fake-proxy-user" username;
      password = text_value (get_value "password" connector) "fake-proxy-password" password;
    }
