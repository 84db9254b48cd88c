-- ===== src/Telnet/Client/Ordered.antt =====
-- The order of what the Telnet client sends, over any calls of it.
use network_gateway_api.Prelude.{
  ◌≡◌, refl, Bool, true, false, not, Option, none, some, List, [], ◌∷◌, ◌++◌, String, Outcome, ok,
  err, if◌then◌else◌, All-append, Bool-cases, Option-cases, inl, inr,
}
use network_gateway_api.Prelude.Int.{Float}
use network_gateway_api.Telnet.Negotiator.{init}
use network_gateway_api.Telnet.Client.{
  Failure, gateway, read_error, os_error, unexpected, blocked, not_authenticated, username,
  password, command, Client, Net, close, sendall, read_until, timeout_valid, catching,
  login_handler, command_handler, login_block, login, connected, connect, command_block,
  run_command, prompt,
}
use network_gateway_api.Telnet.Client.Session.{
  IsCommand, Leaves, Leaves-continue, Leaves-catching, Sent, read_until-Sent, sendall-Sent,
}
use network_gateway_api.Telnet.Client.Early.{
  IsConsistent, IsEarly, IsEarly-IsConsistent, Sent-IsEarly, Sent-IsConsistent, IsConsistent-Sent,
  Leaves-weaken, all_consistent, login_block-Sent, login_handler-IsEarly,
}

module _ (timeout : Option Float) (has_credentials : Bool) where
  login-IsConsistent :
      (c : Client) (net : Net)
      → Sent false [] c
      → Leaves IsConsistent IsConsistent (login timeout has_credentials c net)
  unfolding login
  login-IsConsistent c net s = elim (Bool-cases has_credentials) [
    | inr e ↦ rw (e, login) (IsEarly-IsConsistent c (Sent-IsEarly [] c tt s))
    | inl e ↦
        rw (e, login)
          (Leaves-continue (Sent false (username ∷ password ∷ [])) IsConsistent IsConsistent
            (catching login_handler (login_block timeout has_credentials c net)) _
            (Leaves-weaken (Sent false (username ∷ password ∷ [])) IsEarly IsConsistent _
              IsEarly-IsConsistent
              (Leaves-catching (Sent false (username ∷ password ∷ [])) IsEarly IsEarly login_handler
                (login_block timeout has_credentials c net)
                (login_block-Sent timeout has_credentials c net s)
                (login_handler-IsEarly timeout has_credentials)))
            λ _ c' net' s'.
              Sent-IsConsistent [] (record c' { authenticated = true }) tt
                (record { open_session = s'.open_session; flag = refl; sent = s'.sent }))
  ]

  connected-IsConsistent :
      (c : Client) (net : Net) (connects : List Bool)
      → IsConsistent c
      → c.authenticated ≡ false
      → Leaves IsConsistent IsConsistent (connected timeout has_credentials c net connects)
  connected-IsConsistent c net [] v h = v
  connected-IsConsistent c net (false ∷ connects) v h = v
  connected-IsConsistent c net (true ∷ connects) v h =
      login-IsConsistent (record c { session = some init; log = [] })
        (record net { connects = connects }) (record { open_session = refl; flag = h; sent = refl })

  connect-IsConsistent :
      (c : Client) (net : Net)
      → IsConsistent c
      → Leaves IsConsistent IsConsistent (connect timeout has_credentials c net)
  unfolding connect
  connect-IsConsistent c net v = elim (Option-cases c.session) [
    | inr (n, e) ↦ rw (e, connect) v
    | inl e ↦ elim (Bool-cases (timeout_valid timeout)) [
      | inr f ↦ rw (e, f, connect) v
      | inl f ↦ elim (Bool-cases c.authenticated) [
        | inl g ↦ let closed = v.opened g in let closed' = rw e at closed in cc
        | inr g ↦ rw (e, f, connect) (connected-IsConsistent c net net.connects v g)
      ]
    ]
  ]

  command_block-IsConsistent :
      (text : String) (c : Client) (net : Net)
      → IsConsistent c
      → c.authenticated ≡ true
      → Leaves IsConsistent IsConsistent (command_block timeout has_credentials text c net)
  unfolding command_block
  command_block-IsConsistent text c net v h =
      let (commands, all, s) = IsConsistent-Sent c v h in
      let before = username ∷ password ∷ commands in
      let more = All-append IsCommand commands (command text ∷ []) all (tt, tt) in
      Leaves-continue (Sent true (username ∷ password ∷ (commands ++ command text ∷ [])))
        IsConsistent IsConsistent (sendall (command text) c net) _
        (Leaves-weaken (Sent true (username ∷ password ∷ (commands ++ command text ∷ [])))
          (Sent true before) IsConsistent (sendall (command text) c net)
          (λ c'. Sent-IsConsistent commands c' all)
          (sendall-Sent true before (command text) c net s))
        λ _ c1 net1 s1.
          all_consistent (read_until timeout prompt c1 net1)
            (read_until-Sent true (username ∷ password ∷ (commands ++ command text ∷ [])) timeout
              prompt c1 net1 s1)
            λ c'. Sent-IsConsistent (commands ++ command text ∷ []) c' more

  command_handler-IsConsistent :
      (e : Failure) (c : Client) (net : Net)
      → IsConsistent c
      → Leaves IsConsistent IsConsistent (command_handler e c net)
  unfolding command_handler close
  command_handler-IsConsistent (read_error e) c net v =
      IsEarly-IsConsistent (record c { session = none; authenticated = false }) (refl, v.ordered)
  command_handler-IsConsistent os_error c net v =
      IsEarly-IsConsistent (record c { session = none; authenticated = false }) (refl, v.ordered)
  command_handler-IsConsistent (gateway e) c net v = v
  command_handler-IsConsistent unexpected c net v = v
  command_handler-IsConsistent blocked c net v = v

  run_command-IsConsistent :
      (text : String) (c : Client) (net : Net)
      → IsConsistent c
      → Leaves IsConsistent IsConsistent (run_command timeout has_credentials text c net)
  unfolding run_command
  run_command-IsConsistent text c net v =
      Leaves-continue IsConsistent IsConsistent IsConsistent (connect timeout has_credentials c net)
        _ (connect-IsConsistent c net v) λ _ c1 net1 v1. guarded c1 net1 v1 c1.authenticated refl
    where
      guarded :
          (c : Client) (net : Net)
          → IsConsistent c
          → (flag : Bool) → c.authenticated ≡ flag
          → Leaves IsConsistent IsConsistent (
              if not flag
              then (err (gateway not_authenticated), c, net)
              else catching command_handler (command_block timeout has_credentials text c net))
      guarded c net v false e = v
      guarded c net v true e =
          Leaves-catching IsConsistent IsConsistent IsConsistent command_handler
            (command_block timeout has_credentials text c net)
            (command_block-IsConsistent text c net v e) command_handler-IsConsistent

  -- A call of the client, whatever it returns and whatever the network does.
  pub data Step (c : Client) : Client → Type 0 where
    connects : (net : Net) → Step c (connect timeout has_credentials c net).1
    runs : (text : String) (net : Net) → Step c (run_command timeout has_credentials text c net).1
    closes : (net : Net) → Step c (close c net).1

  pub data Reach (c : Client) : Client → Type 0 where
    here : Reach c c
    next : {middle last : Client} → Reach c middle → Step middle last → Reach c last

  fields_of :
      {A : Type 0} (r : Outcome Failure A × Client × Net)
      → Leaves IsConsistent IsConsistent r
      → IsConsistent r.1
  fields_of (ok a, c, net) v = v
  fields_of (err e, c, net) v = v

  Step-IsConsistent : {c c' : Client} → Step c c' → IsConsistent c → IsConsistent c'
  unfolding close
  Step-IsConsistent {c} (connects net) v =
      fields_of (connect timeout has_credentials c net) (connect-IsConsistent c net v)
  Step-IsConsistent {c} (runs text net) v =
      fields_of (run_command timeout has_credentials text c net)
        (run_command-IsConsistent text c net v)
  Step-IsConsistent {c} (closes net) v =
      IsEarly-IsConsistent (record c { session = none; authenticated = false }) (refl, v.ordered)

  -- After any calls of the client from a consistent one (a new client is one), whatever they return
  -- and whatever the network does: a session that counts as authenticated is open and its username and
  -- password were sent, and what `_login` and `_run_command` sent on its connection is the username,
  -- the password and then commands, in this order. The negotiator's answers to options go out on the
  -- same connection and are not looked at here.
  pub Reach-IsConsistent : {c c' : Client} → IsConsistent c → Reach c c' → IsConsistent c'
  Reach-IsConsistent v here = v
  Reach-IsConsistent v (next r s) = Step-IsConsistent s (Reach-IsConsistent v r)
