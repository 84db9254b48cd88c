-- ===== src/Jobs/Recovery.antt =====
-- The update of `GatewayStore.__init__` in app/dal/db/store.py that ends the jobs of the last run.
use mathlib.Core.Option
use network_gateway_api.Prelude.{
  ◌≡◌, refl, false, List, [], ◌∷◌, String, arith, any, All, Bool-cases, inl, inr,
}
use network_gateway_api.Storage.Tables.{find}
use network_gateway_api.Storage.Rows.{IsKeyed, count_where}
use network_gateway_api.Jobs.Rows.{Job, job_id, holds_slot}
use network_gateway_api.Jobs.Operations.{interrupt, recover}
use network_gateway_api.Jobs.Invariant.{JobIsValid, IsValid}

interrupt-JobIsValid : (job : Job) → JobIsValid job → JobIsValid (interrupt job)
interrupt-JobIsValid job v = elim (Bool-cases (holds_slot job)) [
  | inl e ↦ rw e (record {
    counted = v.counted;
    bounded = v.bounded;
    nonempty = v.nonempty;
    slot = refl;
    finished = tt;
    distinct = v.distinct;
  })
  | inr e ↦ rw e v
]

pub find-recover :
    (id : String) (jobs : List Job)
    → find job_id id (recover jobs) ≡ Option.map interrupt (find job_id id jobs)
unfolding find recover
find-recover id [] = refl
find-recover id (job ∷ jobs) = elim (Bool-cases (holds_slot job)) [
  | inl e ↦ rw e (ground (arith, find-recover id jobs))
  | inr e ↦ rw e (ground (arith, find-recover id jobs))
]

IsKeyed-recover : (jobs : List Job) → IsKeyed job_id jobs → IsKeyed job_id (recover jobs)
unfolding recover
IsKeyed-recover [] k = tt
IsKeyed-recover (job ∷ jobs) (fresh, k) = elim (Bool-cases (holds_slot job)) [
  | inl e ↦ rw (e, find-recover job.id jobs, fresh) (refl, IsKeyed-recover jobs k)
  | inr e ↦ rw (e, find-recover job.id jobs, fresh) (refl, IsKeyed-recover jobs k)
]

All-recover : (jobs : List Job) → All JobIsValid jobs → All JobIsValid (recover jobs)
unfolding recover
All-recover [] vs = tt
All-recover (job ∷ jobs) (v, vs) = (interrupt-JobIsValid job v, All-recover jobs vs)

pub holds_slot-interrupt : (job : Job) → holds_slot (interrupt job) ≡ false
holds_slot-interrupt job = elim (Bool-cases (holds_slot job)) [ inl e ↦ rw e | inr e ↦ rw e e ]

pub none_held-recover : (jobs : List Job) → any holds_slot (recover jobs) ≡ false
unfolding recover
none_held-recover [] = refl
none_held-recover (job ∷ jobs) = rw (holds_slot-interrupt job) (none_held-recover jobs)

none_counted-recover : (jobs : List Job) → count_where holds_slot (recover jobs) ≡ 0
unfolding recover
none_counted-recover [] = refl
none_counted-recover (job ∷ jobs) =
    rw (holds_slot-interrupt job) (omega (arith, none_counted-recover jobs))

-- The recovery at start keeps the table valid.
pub recover-IsValid : (jobs : List Job) → IsValid jobs → IsValid (recover jobs)
recover-IsValid jobs v = record {
  keyed = IsKeyed-recover jobs v.keyed;
  rows = All-recover jobs v.rows;
  one_active = omega (arith, none_counted-recover jobs);
}
