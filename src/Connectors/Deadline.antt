-- ===== src/Connectors/Deadline.antt =====
-- `Deadline` of app/dal/proxy/connectors.py: the one deadline of a connection test, whose timer runs in a
-- thread of its own. What the lock guards is one step; a call of `close` then goes through the
-- resources that it took, while other threads run.
pub mod Closed
use network_gateway_api.Prelude.{
  ℕ, ◌-◌, ◌≡◌, refl, Bool, true, false, not, ◌||◌, List, [], ◌∷◌, ◌++◌, leb, if◌then◌else◌, Outcome,
  ok, err,
}
use network_gateway_api.Connectors.Checks.{Raised}
use network_gateway_api.Connectors.Stream.{timed_out}

-- A socket, a channel or an SSH client
pub record Resource : Type 0 where
  pub key : ℕ
  pub is_client : Bool

-- The fields; what the threads still have to do: the resources that a call of `own` refused and those
-- that each call of `close` took; the resources that were closed; and all that were given to `own`.
pub record Deadline : Type 0 where
  pub expired : Bool
  pub is_closed : Bool
  pub resources : List Resource
  pub refused : List Resource
  pub taken : List (List Resource)
  pub released : List Resource
  pub owned : List Resource

abbrev pub new_deadline : Deadline
new_deadline = record {
  expired = false;
  is_closed = false;
  resources = [];
  refused = [];
  taken = [];
  released = [];
  owned = [];
}

-- `remaining`, with the time of the clock
unfoldable pub remaining : (end now : ℕ) → Deadline → Outcome Raised ℕ
remaining end now deadline =
    if leb end now || deadline.expired then err timed_out else ok (end - now)

abbrev pub own_in : Bool → Resource → Deadline → Deadline
own_in true resource deadline = record deadline {
  refused = deadline.refused ++ resource ∷ [];
  owned = deadline.owned ++ resource ∷ [];
}
own_in false resource deadline = record deadline {
  resources = deadline.resources ++ resource ∷ [];
  owned = deadline.owned ++ resource ∷ [];
}

-- `own`, up to the end of its block
unfoldable pub own : Resource → Deadline → Deadline
own resource deadline = own_in deadline.is_closed resource deadline

abbrev pub kept : (Resource → Bool) → List Resource → List Resource
kept keep [] = []
kept keep (resource ∷ resources) =
    let rest = kept keep resources in if keep resource then resource ∷ rest else rest

-- The stable sort that puts the SSH clients first
unfoldable pub clients_first : List Resource → List Resource
clients_first resources =
    kept (λ resource. resource.is_client) resources
    ++ kept (λ resource. not resource.is_client) resources

-- `close`, up to the loop
unfoldable pub close : Deadline → Deadline
unfolding clients_first
close deadline = record deadline {
  is_closed = true;
  resources = [];
  taken = clients_first deadline.resources ∷ deadline.taken;
}

-- `_expire`, up to its call of `close`
abbrev pub expire : Deadline → Deadline
expire deadline = record deadline { expired = true }

-- One step of one thread
pub data Step (deadline : Deadline) : Deadline → Type 0 where
  owns : (resource : Resource) → Step deadline (own resource deadline)
  expires : Step deadline (expire deadline)
  closes : Step deadline (close deadline)
  -- `own` closes what it refused.
  refuses :
      (resource : Resource) (before after : List Resource)
      → deadline.refused ≡ before ++ resource ∷ after
      → Step deadline (record deadline {
        refused = before ++ after;
        released = deadline.released ++ resource ∷ [];
      })
  -- A loop of `close` closes its next resource; what that raises is passed over.
  releases :
      (resource : Resource) (resources : List Resource) (before after : List (List Resource))
      → deadline.taken ≡ before ++ (resource ∷ resources) ∷ after
      → Step deadline (record deadline {
        taken = before ++ resources ∷ after;
        released = deadline.released ++ resource ∷ [];
      })

pub data Reach : Deadline → Type 0 where
  here : Reach new_deadline
  next : {deadline later : Deadline} → Reach deadline → Step deadline later → Reach later
