-- ===== src/Jobs/Creation.antt =====
-- When `create_job` of app/dal/db/store.py makes a job.
use network_gateway_api.Prelude.{
  ◌<◌, ◌≤◌, ◌≡◌, refl, false, ◌||◌, none, some, List, [], ◌∷◌, ◌++◌, String, eq_iff, arith, Outcome,
  ok, err, Bool-cases, Option-cases, Outcome-cases, inl, inr, any, lt→ltb, le→leb, length,
  if◌then◌else◌, ltb, ◌==◌,
}
use network_gateway_api.Value.{Value, Fields, list}
use network_gateway_api.Secrets.Vault.{Vault}
use network_gateway_api.Storage.Tables.{find, find-append}
use network_gateway_api.Storage.Errors.{StoreError, store_error_code}
use network_gateway_api.Storage.Transaction.{◌>>=◌}
use network_gateway_api.Jobs.Rows.{
  queued, SnapshotItem, Job, job_id, holds_slot, insert_job, slot_taken,
}
use network_gateway_api.Jobs.Payload.{check_selection, public_job, texts, has_repeats}
use network_gateway_api.Jobs.Operations.{resolve_all, new_job, create_job}

check_selection-bounds :
    (selection : Value) {ids : List String}
    → check_selection selection ≡ ok ids
    → (0 < length ids) × (length ids ≤ 1000) × (has_repeats ids ≡ false)
unfolding check_selection
check_selection-bounds (list items) {ids} h = elim (Option-cases (texts items)) [
  | inl e ↦ let h' = rw (e, check_selection) at h in cc
  | inr (chosen, e) ↦ elim (Bool-cases (length chosen == 0 || ltb 1000 (length chosen))) [
    | inl g ↦ let h' = rw (e, g, check_selection) at h in cc
    | inr g ↦ elim (Bool-cases (has_repeats chosen)) [
      | inl r ↦ let h' = rw (e, g, r, check_selection) at h in cc
      | inr r ↦
          let same : chosen ≡ ids = ground (arith, rw (e, g, r, check_selection) at h) in
          rw (← same) (ground arith, ground arith, r)
    ]
  ]
]
check_selection-bounds _ h = cc

not_taken :
    (id : String) (jobs : List Job) → any holds_slot jobs ≡ false → slot_taken id jobs ≡ false
not_taken id [] h = refl
not_taken id (job ∷ jobs) h = ground (arith, not_taken id jobs)

module _ (vault : Vault (List SnapshotItem)) (resolve : String → Outcome StoreError Fields)
    (text_of : Value → String) where
  length-resolve_all :
      (ids : List String) {snapshot : List SnapshotItem}
      → resolve_all vault resolve text_of ids ≡ ok snapshot
      → length snapshot ≡ length ids
  unfolding resolve_all
  length-resolve_all [] h = ground arith
  length-resolve_all (id ∷ ids) {snapshot} h = elim (Outcome-cases (resolve id)) [
    | inr (e, q) ↦ let h' = rw (q, resolve_all) at h in cc
    | inl (profile, q) ↦ elim (Outcome-cases (resolve_all vault resolve text_of ids)) [
      | inr (e, r) ↦ let h' = rw (q, r, resolve_all) at h in cc
      | inl (items, r) ↦ ground (arith, rw (q, r, resolve_all) at h, length-resolve_all ids r)
    ]
  ]

  insert-free :
      (new_id : String) (snapshot : List SnapshotItem) (jobs : List Job)
      → 0 < length snapshot
      → any holds_slot jobs ≡ false
      → find job_id new_id jobs ≡ none
      → insert_job (new_job vault resolve text_of new_id snapshot) jobs
        ≡ ok (tt, jobs ++ new_job vault resolve text_of new_id snapshot ∷ [])
  unfolding insert_job
  insert-free new_id snapshot jobs some_items free fresh = rw (
    fresh,
    lt→ltb 0 (length snapshot) some_items,
    le→leb 0 (length snapshot) (omega arith),
    not_taken new_id jobs free,
  )

  find-new :
      (new_id : String) (snapshot : List SnapshotItem) (jobs : List Job)
      → find job_id new_id jobs ≡ none
      → find job_id new_id (jobs ++ new_job vault resolve text_of new_id snapshot ∷ [])
        ≡ some (new_job vault resolve text_of new_id snapshot)
  find-new new_id snapshot jobs fresh = rw (
    find-append job_id new_id jobs (new_job vault resolve text_of new_id snapshot),
    fresh,
    (eq_iff new_id new_id).1 refl,
  )

  -- A job with one place for each connection, none of them done, that waits for the worker and holds
  -- the slot
  abbrev pub queued_job : String → List SnapshotItem → Job
  queued_job new_id snapshot = record {
    id = new_id;
    status = queued;
    total = length snapshot;
    completed = 0;
    snapshot = vault.encrypt snapshot;
    results = [];
    error = none;
    active_slot = some 1;
  }

  -- The slot is the only lock: with a valid selection whose connections resolve, and a new key, a
  -- job is made exactly if no job holds the slot. It is queued, with no result, no error and one place
  -- for each connection, its snapshot is encrypted, it holds the slot, and it is what the caller sees.
  pub create_job-free :
      (new_id : String) (selection : Value) (jobs : List Job) {ids : List String}
      {snapshot : List SnapshotItem}
      → check_selection selection ≡ ok ids
      → resolve_all vault resolve text_of ids ≡ ok snapshot
      → find job_id new_id jobs ≡ none
      → create_job vault resolve text_of new_id selection jobs ≡ (
          if any holds_slot jobs
          then (err (store_error_code "A connection-test job is already active." 409), jobs)
          else (
            ok (public_job (queued_job new_id snapshot)),
            jobs ++ queued_job new_id snapshot ∷ [],
          ))
  unfolding create_job
  create_job-free new_id selection jobs {ids} {snapshot} chosen resolved fresh =
      elim (Bool-cases (any holds_slot jobs)) [
        | inl e ↦ rw (chosen, create_job, e)
        | inr e ↦
            let size = length-resolve_all ids resolved in
            let bounds = check_selection-bounds selection chosen in
            let inserted = insert-free new_id snapshot jobs (omega arith) e fresh in
            rw (
              chosen,
              create_job,
              e,
              resolved,
              inserted,
              ◌>>=◌,
              find-new new_id snapshot jobs fresh,
            )
      ]
