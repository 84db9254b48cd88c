-- ===== src/Telnet/Client/Session.antt =====
-- What a call of the Telnet client leaves in its fields, step by step.
use network_gateway_api.Prelude.{
  ◌≡◌, refl, ap, Bool, true, false, Option, List, [], ◌∷◌, ◌++◌, Outcome, ok, err, is_some, All,
  Bool-cases, Option-cases, inl, inr,
}
use network_gateway_api.Prelude.Int.{Float}
use network_gateway_api.Telnet.Negotiator.{Bytes, Negotiator}
use network_gateway_api.Telnet.Reads.{
  Round, Read, done, raised, waiting, recv_until, default_max_response_bytes,
}
use network_gateway_api.Telnet.Client.{
  Failure, Payload, username, password, command, Client, Net, Call, continue, sent_by, sendall,
  read_with, read_rounds, read_until, timeout_valid, catching,
}

abbrev pub IsCommand : Payload → Type 0
IsCommand (command _) = Unit
IsCommand _ = ⊥

-- The username, then the password, then nothing but commands
abbrev pub IsOrdered : List Payload → Type 0
IsOrdered [] = Unit
IsOrdered (username ∷ []) = Unit
IsOrdered (username ∷ password ∷ commands) = All IsCommand commands
IsOrdered _ = ⊥

-- What holds after a call: `Q` of the fields where it returns, and `E` where it raises.
abbrev pub Leaves :
    {A : Type 0} → (Client → Type 0) → (Client → Type 0) → Outcome Failure A × Client × Net → Type 0
Leaves Q E (ok a, c, net) = Q c
Leaves Q E (err e, c, net) = E c

pub Leaves-continue :
    {A B : Type 0} (P Q E : Client → Type 0) (r : Outcome Failure A × Client × Net) (f : A → Call B)
    → Leaves P E r
    → ((a : A) (c : Client) (net : Net) → P c → Leaves Q E (f a c net))
    → Leaves Q E (continue f r)
Leaves-continue P Q E (ok a, c, net) f p h = h a c net p
Leaves-continue P Q E (err e, c, net) f p h = p

pub Leaves-catching :
    {A : Type 0} (Q E F : Client → Type 0)
    (handler : Failure → Client → Net → Outcome Failure A × Client × Net)
    (r : Outcome Failure A × Client × Net)
    → Leaves Q E r
    → ((e : Failure) (c : Client) (net : Net) → E c → Leaves Q F (handler e c net))
    → Leaves Q F (catching handler r)
Leaves-catching Q E F handler (ok a, c, net) p h = p
Leaves-catching Q E F handler (err e, c, net) p h = h e c net p

-- An open connection, on which this was sent
pub record Sent (authenticated : Bool) (log : List Payload) (c : Client) : Type 0 where
  pub open_session : is_some c.session ≡ true
  pub flag : c.authenticated ≡ authenticated
  pub sent : c.log ≡ log

module _ (flag : Bool) (log : List Payload) where
  read_with-Sent :
      (c : Client) (net : Net) (r : Read)
      → Sent flag log c
      → Leaves (Sent flag log) (Sent flag log) (read_with c net r)
  read_with-Sent c net (done out n rest) s = record {
    open_session = refl;
    flag = s.flag;
    sent = s.sent;
  }
  read_with-Sent c net (raised e n rest) s = record {
    open_session = refl;
    flag = s.flag;
    sent = s.sent;
  }
  read_with-Sent c net (waiting buf n) s = record {
    open_session = refl;
    flag = s.flag;
    sent = s.sent;
  }

  read_rounds-Sent :
      (marker : Bytes) (n : Negotiator) (c : Client) (net : Net) (rounds : List (List Round))
      → Sent flag log c
      → Leaves (Sent flag log) (Sent flag log) (read_rounds marker n c net rounds)
  read_rounds-Sent marker n c net [] s = s
  read_rounds-Sent marker n c net (now ∷ more) s =
      read_with-Sent c (record net { rounds = more })
        (recv_until marker default_max_response_bytes n now) s

  pub read_until-Sent :
      (timeout : Option Float) (marker : Bytes) (c : Client) (net : Net)
      → Sent flag log c
      → Leaves (Sent flag log) (Sent flag log) (read_until timeout marker c net)
  unfolding read_until
  read_until-Sent timeout marker c net s = elim (Bool-cases (timeout_valid timeout)) [
    | inr e ↦ rw (e, read_until) s
    | inl e ↦ elim (Option-cases c.session) [
      | inl f ↦ rw (e, f, read_until) s
      | inr (n, f) ↦ rw (e, f, read_until) (read_rounds-Sent marker n c net net.rounds s)
    ]
  ]

  sent_by-Sent :
      (payload : Payload) (c : Client) (net : Net) (sends : List Bool)
      → Sent flag log c
      → Leaves (Sent flag (log ++ payload ∷ [])) (Sent flag log) (sent_by payload c net sends)
  sent_by-Sent payload c net [] s = s
  sent_by-Sent payload c net (true ∷ sends) s = record {
    open_session = s.open_session;
    flag = s.flag;
    sent = ap (λ l. l ++ payload ∷ []) s.sent;
  }
  sent_by-Sent payload c net (false ∷ sends) s = s

  pub sendall-Sent :
      (payload : Payload) (c : Client) (net : Net)
      → Sent flag log c
      → Leaves (Sent flag (log ++ payload ∷ [])) (Sent flag log) (sendall payload c net)
  unfolding sendall
  sendall-Sent payload c net s = elim (Option-cases c.session) [
    | inl f ↦ rw (f, sendall) s
    | inr (n, f) ↦ rw (f, sendall) (sent_by-Sent payload c net net.sends s)
  ]
