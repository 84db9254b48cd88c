-- ===== src/Connectors/Deadline/Closed.antt =====
-- What a connection test leaves open after its deadline of app/dal/proxy/connectors.py is closed.
use network_gateway_api.Prelude.{
  ℕ, ◌+◌, ◌≡◌, refl, ap, ◌∙◌, Bool, true, false, not, List, [], ◌∷◌, ◌++◌, ◌==◌, if◌then◌else◌,
  arith, Bool-cases, inl, inr,
}
use network_gateway_api.Connectors.Deadline.{
  Resource, Deadline, own, own_in, kept, clients_first, close, Step, Reach,
}

-- How often a resource stands in a list
abbrev once : ℕ → Resource → ℕ
once key resource = if resource.key == key then 1 else 0

abbrev pub times : ℕ → List Resource → ℕ
times key [] = 0
times key (resource ∷ resources) = once key resource + times key resources

abbrev pub times_all : ℕ → List (List Resource) → ℕ
times_all key [] = 0
times_all key (resources ∷ lists) = times key resources + times_all key lists

times-append :
    (key : ℕ) (xs ys : List Resource) → times key (xs ++ ys) ≡ times key xs + times key ys
times-append key [] ys = omega arith
times-append key (x ∷ xs) ys = rw (times-append key xs ys) (omega arith)

times_all-append :
    (key : ℕ) (xs ys : List (List Resource))
    → times_all key (xs ++ ys) ≡ times_all key xs + times_all key ys
times_all-append key [] ys = omega arith
times_all-append key (x ∷ xs) ys = rw (times_all-append key xs ys) (omega arith)

times-kept :
    (key : ℕ) (xs : List Resource)
    → times key (kept (λ r. r.is_client) xs) + times key (kept (λ r. not r.is_client) xs)
      ≡ times key xs
times-kept key [] = refl
times-kept key (x ∷ xs) =
    let rest = times-kept key xs in
    elim (Bool-cases x.is_client) [
      | inl e ↦ rw (e, kept) (omega arith)
      | inr e ↦ rw (e, kept) (omega arith)
    ]

times-clients_first : (key : ℕ) (xs : List Resource) → times key (clients_first xs) ≡ times key xs
unfolding clients_first
times-clients_first key xs =
    times-append key (kept (λ r. r.is_client) xs) (kept (λ r. not r.is_client) xs)
    ∙ times-kept key xs

-- Each resource is where it is once for each time that it was owned.
record IsCounted (deadline : Deadline) : Type 0 where
  pub counted :
      (key : ℕ)
      → times key deadline.owned
        ≡ times key deadline.resources
          + times key deadline.refused
          + times_all key deadline.taken
          + times key deadline.released
  pub empty : deadline.is_closed ≡ true → deadline.resources ≡ []

own_in-IsCounted :
    (b : Bool) (resource : Resource) (deadline : Deadline)
    → deadline.is_closed ≡ b
    → IsCounted deadline
    → IsCounted (own_in b resource deadline)
own_in-IsCounted true resource deadline e v = record {
  counted = λ key.
      let all = times-append key deadline.owned (resource ∷ []) in
      let there = times-append key deadline.refused (resource ∷ []) in
      let before = v.counted key in omega arith;
  empty = v.empty;
}
own_in-IsCounted false resource deadline e v = record {
  counted = λ key.
      let all = times-append key deadline.owned (resource ∷ []) in
      let there = times-append key deadline.resources (resource ∷ []) in
      let before = v.counted key in omega arith;
  empty = λ closed. absurd (cc);
}

close-IsCounted : (deadline : Deadline) → IsCounted deadline → IsCounted (close deadline)
unfolding close
close-IsCounted deadline v = record {
  counted = λ key.
      let same = times-clients_first key deadline.resources in
      let before = v.counted key in omega arith;
  empty = λ closed. refl;
}

Step-IsCounted :
    {deadline later : Deadline} → Step deadline later → IsCounted deadline → IsCounted later
unfolding own
Step-IsCounted {deadline} (Step.owns resource) v =
    own_in-IsCounted deadline.is_closed resource deadline refl v
Step-IsCounted Step.expires v = record { counted = v.counted; empty = v.empty }
Step-IsCounted {deadline} Step.closes v = close-IsCounted deadline v
Step-IsCounted {deadline} (Step.refuses resource before after e) v = record {
  counted = λ key.
      let here = times-append key before (resource ∷ after) in
      let rest = times-append key before after in
      let there = times-append key deadline.released (resource ∷ []) in
      let held = ap (times key) e in let counts = v.counted key in omega arith;
  empty = v.empty;
}
Step-IsCounted {deadline} (Step.releases resource resources before after e) v = record {
  counted = λ key.
      let here = times_all-append key before ((resource ∷ resources) ∷ after) in
      let rest = times_all-append key before (resources ∷ after) in
      let there = times-append key deadline.released (resource ∷ []) in
      let held = ap (times_all key) e in let counts = v.counted key in omega arith;
  empty = v.empty;
}

Reach-IsCounted : {deadline : Deadline} → Reach deadline → IsCounted deadline
Reach-IsCounted Reach.here = record { counted = λ key. omega arith; empty = λ h. refl }
Reach-IsCounted (Reach.next r s) = Step-IsCounted s (Reach-IsCounted r)

-- No thread has anything left to close.
pub record IsDone (deadline : Deadline) : Type 0 where
  pub refused : deadline.refused ≡ []
  pub taken : (key : ℕ) → times_all key deadline.taken ≡ 0

-- However the timer's thread and the test's run: once the deadline is closed and no thread is left in
-- the middle of `own` or `close`, each resource was closed exactly once for each time that it was
-- owned. None is left open, also of those that were owned after the deadline.
pub Reach-released :
    {deadline : Deadline}
    → Reach deadline
    → deadline.is_closed ≡ true
    → IsDone deadline
    → (key : ℕ) → times key deadline.released ≡ times key deadline.owned
Reach-released {deadline} r closed done key =
    let v = Reach-IsCounted r in
    let counts = v.counted key in
    let resources = ap (times key) (v.empty closed) in
    let refused = ap (times key) done.refused in let taken = done.taken key in omega arith
