-- ===== src/Telnet/Client/Early.antt =====
-- What holds of the Telnet client before a session counts as authenticated.
use network_gateway_api.Prelude.{
  ◌≡◌, refl, Bool, true, false, Option, List, [], ◌∷◌, ◌++◌, Outcome, ok, err, is_some, All,
}
use network_gateway_api.Prelude.Int.{Float}
use network_gateway_api.Telnet.Negotiator.{Bytes}
use network_gateway_api.Telnet.Client.{
  Failure, gateway, read_error, os_error, unexpected, blocked, Payload, username, password, Client,
  Net, close, sendall, read_until, login_handler, login_block, username_marker, password_marker,
  prompt,
}
use network_gateway_api.Telnet.Client.Session.{
  IsCommand, IsOrdered, Leaves, Leaves-continue, Sent, read_until-Sent, sendall-Sent,
}

-- A session that counts as authenticated is open, and its login was sent; and on each connection the
-- username comes first, then the password, then commands.
pub record IsConsistent (c : Client) : Type 0 where
  pub opened : c.authenticated ≡ true → is_some c.session ≡ true
  pub logged_in :
      c.authenticated ≡ true
      → (commands : List Payload) × (c.log ≡ username ∷ password ∷ commands)
        × All IsCommand commands
  pub ordered : IsOrdered c.log

-- No session counts as authenticated.
abbrev pub IsEarly : Client → Type 0
IsEarly c = (c.authenticated ≡ false) × IsOrdered c.log

pub IsEarly-IsConsistent : (c : Client) → IsEarly c → IsConsistent c
IsEarly-IsConsistent c (flag, ordered) = record {
  opened = λ h. cc;
  logged_in = λ h. absurd (cc);
  ordered = ordered;
}

pub Sent-IsEarly : (log : List Payload) (c : Client) → IsOrdered log → Sent false log c → IsEarly c
Sent-IsEarly log c ordered s = (s.flag, rw s.sent ordered)

pub Sent-IsConsistent :
    (commands : List Payload) (c : Client)
    → All IsCommand commands
    → Sent true (username ∷ password ∷ commands) c
    → IsConsistent c
Sent-IsConsistent commands c all s = record {
  opened = λ h. s.open_session;
  logged_in = λ h. (commands, s.sent, all);
  ordered = rw s.sent all;
}

pub IsConsistent-Sent :
    (c : Client)
    → IsConsistent c
    → c.authenticated ≡ true
    → (commands : List Payload) × All IsCommand commands
      × Sent true (username ∷ password ∷ commands) c
IsConsistent-Sent c v h =
    let (commands, sent, all) = v.logged_in h in
    (commands, all, record { open_session = v.opened h; flag = h; sent = sent })

-- What holds after a call that raises may be weakened.
pub Leaves-weaken :
    {A : Type 0} (Q E F : Client → Type 0) (r : Outcome Failure A × Client × Net)
    → ((c : Client) → E c → F c)
    → Leaves Q E r
    → Leaves Q F r
Leaves-weaken Q E F (ok a, c, net) h p = p
Leaves-weaken Q E F (err e, c, net) h p = h c p

pub all_consistent :
    {A : Type 0} {Q : Client → Type 0} (r : Outcome Failure A × Client × Net)
    → Leaves Q Q r
    → ((c : Client) → Q c → IsConsistent c)
    → Leaves IsConsistent IsConsistent r
all_consistent (ok a, c, net) p h = h c p
all_consistent (err e, c, net) p h = h c p

module _ (timeout : Option Float) (has_credentials : Bool) where
  read_until-IsEarly :
      (marker : Bytes) (log : List Payload) (c : Client) (net : Net)
      → IsOrdered log
      → Sent false log c
      → Leaves (Sent false log) IsEarly (read_until timeout marker c net)
  read_until-IsEarly marker log c net ordered s =
      Leaves-weaken (Sent false log) (Sent false log) IsEarly (read_until timeout marker c net)
        (λ c'. Sent-IsEarly log c' ordered) (read_until-Sent false log timeout marker c net s)

  sendall-IsEarly :
      (payload : Payload) (log : List Payload) (c : Client) (net : Net)
      → IsOrdered log
      → Sent false log c
      → Leaves (Sent false (log ++ payload ∷ [])) IsEarly (sendall payload c net)
  sendall-IsEarly payload log c net ordered s =
      Leaves-weaken (Sent false (log ++ payload ∷ [])) (Sent false log) IsEarly
        (sendall payload c net) (λ c'. Sent-IsEarly log c' ordered)
        (sendall-Sent false log payload c net s)

  abbrev pub After : List Payload → Client → Type 0
  After = Sent false

  pub login_block-Sent :
      (c : Client) (net : Net)
      → Sent false [] c
      → Leaves
          (Sent false (username ∷ password ∷ []))
          IsEarly
          (login_block timeout has_credentials c net)
  unfolding login_block
  login_block-Sent c net s =
      Leaves-continue (After []) (After (username ∷ password ∷ [])) IsEarly
        (read_until timeout username_marker c net) _
        (read_until-IsEarly username_marker [] c net tt s)
        λ _ c1 net1 s1.
          Leaves-continue (After (username ∷ [])) (After (username ∷ password ∷ [])) IsEarly
            (sendall username c1 net1) _ (sendall-IsEarly username [] c1 net1 tt s1)
            λ _ c2 net2 s2.
              Leaves-continue (After (username ∷ [])) (After (username ∷ password ∷ [])) IsEarly
                (read_until timeout password_marker c2 net2) _
                (read_until-IsEarly password_marker (username ∷ []) c2 net2 tt s2)
                λ _ c3 net3 s3.
                  Leaves-continue (After (username ∷ password ∷ []))
                    (After (username ∷ password ∷ [])) IsEarly (sendall password c3 net3) _
                    (sendall-IsEarly password (username ∷ []) c3 net3 tt s3)
                    λ _ c4 net4 s4.
                      Leaves-continue (After (username ∷ password ∷ []))
                        (After (username ∷ password ∷ [])) IsEarly
                        (read_until timeout prompt c4 net4) _
                        (read_until-IsEarly prompt (username ∷ password ∷ []) c4 net4 tt s4)
                        λ _ c5 net5 s5. s5

  pub login_handler-IsEarly :
      (e : Failure) (c : Client) (net : Net)
      → IsEarly c
      → Leaves (After (username ∷ password ∷ [])) IsEarly (login_handler e c net)
  unfolding login_handler close
  login_handler-IsEarly (read_error e) c net (flag, ordered) = (refl, ordered)
  login_handler-IsEarly os_error c net (flag, ordered) = (refl, ordered)
  login_handler-IsEarly (gateway e) c net early = early
  login_handler-IsEarly unexpected c net early = early
  login_handler-IsEarly blocked c net early = early
