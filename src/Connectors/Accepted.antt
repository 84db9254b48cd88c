-- ===== src/Connectors/Accepted.antt =====
-- What holds of a profile that `validate_profile` of app/dal/proxy/connectors.py accepts.
use network_gateway_api.Prelude.{
  raise_if, >>=-eq-ok, ℕ, ◌≤◌, ◌≡◌, refl, Bool, true, false, ◌&&◌, ◌⊎◌, Option, none, some, String,
  str_eq, leb, if◌then◌else◌, ok, arith, Bool-cases, Option-cases, inl, inr, leb→le, &&-true,
}
use network_gateway_api.Prelude.Int.{ℤ, pos, negsuc, Float}
use network_gateway_api.Value.{
  Value, Fields, null, bool, int, str, dict, list, float, get, get_or, get_value, set,
}
use network_gateway_api.Value.Laws.{get-set}
use network_gateway_api.Connectors.Checks.{
  Raised, Address, port, int_of, host, loopback_host, demo_file_policy,
}
use network_gateway_api.Connectors.Profile.{chosen, endpoint, pinned, networks}

pub raise_if-ok : (b : Bool) (e : Raised) {r : Unit {0}} → raise_if b e ≡ ok r → b ≡ false
raise_if-ok true e h = cc
raise_if-ok false e h = refl

pub chosen-ok :
    (known : String → Bool) (e : Raised) (v : Value) {s : String}
    → chosen known e v ≡ ok s
    → known s ≡ true
chosen-ok known e (str t) {s} h = elim (Bool-cases (known t)) [
  | inl g ↦ let h' : ok t ≡ ok s = rw g at h in let same : t ≡ s = ground arith in rw (← same) g
  | inr g ↦ let h' = rw g at h in cc
]
chosen-ok known e null h = cc
chosen-ok known e (bool _) h = cc
chosen-ok known e (int _) h = cc
chosen-ok known e (float _) h = cc
chosen-ok known e (list _) h = cc
chosen-ok known e (dict _) h = cc

-- A port that is an int from 1 to 65535
pub record HasPort (d : Fields) : Type 0 where
  pub number : ℕ
  pub found : get "port" d ≡ some (int (pos number))
  pub lower : 1 ≤ number
  pub upper : number ≤ 65535

-- A network host that is the loopback: what `localhost` stands for, or a loopback address.
pub record IsPinned (ip : String → Option Address) (d : Fields) : Type 0 where
  pub name : String
  pub found : get "network_host" d ≡ some (str name)
  pub loopback :
      (name ≡ "127.0.0.1")
      ⊎ ((given : String) × (address : Address) × (ip given ≡ some address)
          × (address.is_loopback ≡ true)
          × (name ≡ address.text))

module _ (parse_int : String → Option ℤ) (float_of : Value → Option Float)
    (ip : String → Option Address) (is_localhost : String → Bool)
    (in_demo_storage : Value → Bool) where
  port-ok : (v : Value) {n : ℕ} → port parse_int v ≡ ok n → (1 ≤ n) × (n ≤ 65535)
  unfolding port
  port-ok v {n} h = go (int_of parse_int v) refl
    where
      go : (o : Option ℤ) → int_of parse_int v ≡ o → (1 ≤ n) × (n ≤ 65535)
      go none e = let h' = rw (e, port) at h in cc
      go (some (negsuc m)) e = let h' = rw (e, port) at h in cc
      go (some (pos m)) e = elim (Bool-cases (leb 1 m && leb m 65535)) [
        | inl g ↦
            let h' : ok m ≡ ok n = rw (e, g, port) at h in
            let same : m ≡ n = ground arith in
            let both = &&-true (leb 1 m) (leb m 65535) g in
            (rw (← same) (leb→le 1 m both.0), rw (← same) (leb→le m 65535 both.1))
        | inr g ↦ let h' = rw (e, g, port) at h in cc
      ]

  pub endpoint-HasPort :
      (default : Value) (d : Fields) {d' : Fields}
      → endpoint parse_int float_of ip is_localhost in_demo_storage default d ≡ ok d'
      → HasPort d'
  unfolding endpoint
  endpoint-HasPort default d {d'} h =
      let (name, _, h1) = >>=-eq-ok (host ip (get_value "host" d)) _ h in
      let (n, e, h2) = >>=-eq-ok (port parse_int (get_or "port" default d)) _ h1 in
      let same : set "port" (int (pos n)) (set "host" (str name) d) ≡ d' = ground arith in
      let bounds = port-ok (get_or "port" default d) e in
      record {
        number = n;
        found = rw (← same, get-set "port" "port" (int (pos n)) (set "host" (str name) d)) refl;
        lower = bounds.0;
        upper = bounds.1;
      }

  loopback_host-ok :
      (given : String) {name : String}
      → loopback_host ip is_localhost given ≡ ok name
      → (name ≡ "127.0.0.1")
        ⊎ ((given : String) × (address : Address) × (ip given ≡ some address)
            × (address.is_loopback ≡ true)
            × (name ≡ address.text))
  unfolding loopback_host
  loopback_host-ok given {name} h = elim (Bool-cases (is_localhost given)) [
    | inl e ↦ let h' : ok "127.0.0.1" ≡ ok name = rw (e, loopback_host) at h in inl (ground arith)
    | inr e ↦ elim (Option-cases (ip given)) [
      | inl f ↦ let h' = rw (e, f, loopback_host) at h in cc
      | inr (address, f) ↦ elim (Bool-cases address.is_loopback) [
        | inr g ↦ let h' = rw (e, f, g, loopback_host) at h in cc
        | inl g ↦
            let h' : ok address.text ≡ ok name = rw (e, f, g, loopback_host) at h in
            inr (given, address, f, g, ground arith)
      ]
    ]
  ]

  pinned-IsPinned :
      (d : Fields) {d' : Fields}
      → pinned parse_int float_of ip is_localhost in_demo_storage d ≡ ok d'
      → IsPinned ip d' × (get "port" d' ≡ get "port" d)
  pinned-IsPinned d {d'} h = go (get_value "host" d) refl
    where
      go : (v : Value) → get_value "host" d ≡ v → IsPinned ip d' × (get "port" d' ≡ get "port" d)
      go (str given) e =
          let (name, f, g) =
            >>=-eq-ok (loopback_host ip is_localhost given) _ (rw (e, pinned) at h) in
          let same : set "network_host" (str name) d ≡ d' = ground arith in
          (
            record {
              name = name;
              found = rw (← same, get-set "network_host" "network_host" (str name) d) refl;
              loopback = loopback_host-ok given f;
            },
            rw (← same, get-set "port" "network_host" (str name) d) refl,
          )
      go null e = let h' = rw (e, pinned) at h in cc
      go (bool _) e = let h' = rw (e, pinned) at h in cc
      go (int _) e = let h' = rw (e, pinned) at h in cc
      go (float _) e = let h' = rw (e, pinned) at h in cc
      go (list _) e = let h' = rw (e, pinned) at h in cc
      go (dict _) e = let h' = rw (e, pinned) at h in cc

  -- The device's network host is pinned, and the connector's as well if there is one.
  pub record IsLocal (kind : String) (device connector : Fields) : Type 0 where
    pub device_pinned : IsPinned ip device
    pub connector_pinned : str_eq kind "direct" ≡ false → IsPinned ip connector

  pub networks-demo :
      (kind : String) (device connector : Fields) {placed : Fields × Fields}
      → networks parse_int float_of ip is_localhost in_demo_storage true kind device connector
        ≡ ok placed
      → IsLocal kind placed.0 placed.1 × (get "port" placed.0 ≡ get "port" device)
  unfolding networks
  networks-demo kind device connector {placed} h =
      let (device', e, h1) =
        >>=-eq-ok (pinned parse_int float_of ip is_localhost in_demo_storage device) _ h in
      let (connector', f, h2) =
        >>=-eq-ok
          (if str_eq kind "direct"
            then ok connector
            else pinned parse_int float_of ip is_localhost in_demo_storage connector)
          _ h1 in
      let (_, _, h3) = >>=-eq-ok (demo_file_policy in_demo_storage device') _ h2 in
      let (_, _, h4) =
        >>=-eq-ok
          (if str_eq kind "direct" then ok tt else demo_file_policy in_demo_storage connector') _
          h3 in
      let same : (device', connector') ≡ placed = ground arith in
      let p = pinned-IsPinned device e in
      rw (← same) (
        record {
          device_pinned = p.0;
          connector_pinned = λ remote. (pinned-IsPinned connector (rw remote at f)).0;
        },
        p.1,
      )

  pub networks-port :
      (demo_mode : Bool) (kind : String) (device connector : Fields) {placed : Fields × Fields}
      → networks parse_int float_of ip is_localhost in_demo_storage demo_mode kind device connector
        ≡ ok placed
      → get "port" placed.0 ≡ get "port" device
  unfolding networks
  networks-port true kind device connector h = (networks-demo kind device connector h).1
  networks-port false kind device connector {placed} h =
      let same : (
        set "network_host" (get_value "host" device) device,
        set "network_host" (get_value "host" connector) connector,
      )
          ≡ placed =
        ground arith in
      rw (← same, get-set "port" "network_host" (get_value "host" device) device) refl
