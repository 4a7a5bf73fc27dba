-- ===== src/Queue/Sqlite/Leases.antt =====
-- A pending record can be claimed again once the leases on it have ended.
use mathlib.Core.Path.{subst}
use mcprelay.Base.{
  ℕ, ◌+◌, ◌≤◌, ◌<◌, String, ◌≡◌, ◌≢◌, refl, sym, ◌∙◌, ◌⊎◌, inl, inr, Bool-cases, Option-cases, none,
  some, List, [], ◌∷◌, ◌==◌, eq_iff, arith, All,
}
use mcprelay.Base.Result.{ok}
use mcprelay.Base.Table.{select, insert}
use mcprelay.Base.Table.Keyed.{select-append}
use mcprelay.Queue.Record.{FailureRecord, ExecutionEntry}
use mcprelay.Queue.Sqlite.{FailureRow, Db, row_id, enqueue, claim, record_execution, to_row}
use mcprelay.Queue.Sqlite.Views.{Phase, absent, waiting, settled, phase_or_absent, view, IsValid}
use mcprelay.Queue.Sqlite.Refines.{
  Action, to_claim, to_resolve, to_release, run, run-refines, spec_reply, spec_next,
}
use mcprelay.Queue.Sqlite.Ops.{
  Op, to_enqueue, to_act, to_index, to_purge, apply, apply_all, apply-IsValid, apply_all-IsValid,
}

-- Pending, and free or claimed until the instant `end` at most.
abbrev pub IsOpen : ℕ → Phase → Type 0
IsOpen end absent = ⊥
IsOpen end (settled s) = ⊥
IsOpen end (waiting none) = Unit
IsOpen end (waiting (some lease)) = lease ≤ end

-- What a replay may do that never comes to resolve the record: claim it, for a lease that ends by
-- `end`, and release it.
abbrev pub IsUnfinished : ℕ → Action → Type 0
IsUnfinished end (to_claim lease_ms now) = now + lease_ms ≤ end
IsUnfinished end (to_resolve o now) = ⊥
IsUnfinished end to_release = Unit

-- Whatever is written to the database, short of a purge, of a resolution of the record, and of a
-- lease on it that ends later.
abbrev pub IsHarmless : String → ℕ → Op → Type 0
IsHarmless id end (to_act j a) = (j ≢ id) ⊎ IsUnfinished end a
IsHarmless id end (to_purge f) = ⊥
IsHarmless id end (to_enqueue r) = Unit
IsHarmless id end (to_index e) = Unit

spec_next-IsOpen :
    (end : ℕ) (a : Action) (phase : Phase)
    → IsUnfinished end a
    → IsOpen end phase
    → IsOpen end (spec_next a phase)
spec_next-IsOpen end a absent h k = absurd k
spec_next-IsOpen end a (settled s) h k = absurd k
spec_next-IsOpen end (to_resolve o now) (waiting lease) h k = absurd h
spec_next-IsOpen end to_release (waiting lease) h k = tt
spec_next-IsOpen end (to_claim lease_ms now) (waiting none) h k = h
spec_next-IsOpen end (to_claim lease_ms now) (waiting (some t)) h k = ground arith

spec_reply-IsOpen :
    (id : String) (end lease_ms now : ℕ) (phase : Phase)
    → end < now
    → IsOpen end phase
    → spec_reply id (to_claim lease_ms now) phase ≡ ok tt
spec_reply-IsOpen id end lease_ms now absent h k = absurd k
spec_reply-IsOpen id end lease_ms now (settled s) h k = absurd k
spec_reply-IsOpen id end lease_ms now (waiting none) h k = refl
spec_reply-IsOpen id end lease_ms now (waiting (some t)) h k = ground arith

-- A row that is there stays where a record is added, and where an execution is.
select-enqueue :
    (id : String) (r : FailureRecord) (db : Db) (row : FailureRow)
    → select row_id id db.failures ≡ some row
    → select row_id id (enqueue r db).1.failures ≡ some row
unfolding enqueue insert
select-enqueue id r db row h = ground (arith, select-append row_id id db.failures (to_row r))

select-record_execution :
    (id : String) (e : ExecutionEntry) (db : Db)
    → select row_id id (record_execution e db).failures ≡ select row_id id db.failures
unfolding record_execution
select-record_execution id e db = ground arith

module _ (id : String) (end : ℕ) where
  acts-IsOpen :
      (j : String) (a : Action) (db : Db)
      → IsOpen end (view id db)
      → (j ≢ id) ⊎ IsUnfinished end a
      → IsValid db
      → IsOpen end (view id (run j a db).1)
  acts-IsOpen j a db h k v = elim (Bool-cases (j == id)) [
    | inr other ↦ subst (IsOpen end) (sym ((run-refines j a db v).1 id ∙ rw other refl)) h
    | inl same ↦ elim k [
      | inl differs ↦ absurd (differs ((eq_iff j id).0 same))
      | inr unfinished ↦ subst (IsOpen end) (sym ((run-refines j a db v).1 id ∙ rw same refl)) (
          spec_next-IsOpen end a (view j db) unfinished
            (subst (λ i. IsOpen end (view i db)) (sym ((eq_iff j id).0 same)) h))
    ]
  ]

  apply-IsOpen :
      (op : Op) (db : Db)
      → IsOpen end (view id db)
      → IsHarmless id end op
      → IsValid db
      → IsOpen end (view id (apply op db))
  unfolding apply
  apply-IsOpen (to_enqueue r) db h k v = elim (Option-cases (select row_id id db.failures)) [
    | inl missing ↦ absurd (subst (λ o. IsOpen end (phase_or_absent o)) missing h)
    | inr (row, found) ↦
        subst (λ o. IsOpen end (phase_or_absent o)) (found ∙ sym (select-enqueue id r db row found))
          h
  ]
  apply-IsOpen (to_index e) db h k v =
      subst (λ o. IsOpen end (phase_or_absent o)) (sym (select-record_execution id e db)) h
  apply-IsOpen (to_purge f) db h k v = absurd k
  apply-IsOpen (to_act j a) db h k v = acts-IsOpen j a db h k v

  apply_all-IsOpen :
      (ops : List Op) (db : Db)
      → IsOpen end (view id db)
      → All (IsHarmless id end) ops
      → IsValid db
      → IsOpen end (view id (apply_all ops db))
  unfolding apply_all
  apply_all-IsOpen [] db h k v = h
  apply_all-IsOpen (op ∷ ops) db h (k, ks) v =
      apply_all-IsOpen ops (apply op db) (apply-IsOpen op db h k v) ks (apply-IsValid op db v)

-- A pending record is not lost to replays that crash: whatever is written meanwhile, and however many
-- claims of it are neither resolved nor released, once the last lease has ended a claim of it
-- succeeds. The record is not resolved or purged, and no lease on it ends later than `end`.
pub claim-after_leases :
    (id : String) (end : ℕ) (ops : List Op) (db : Db) (lease_ms now : ℕ)
    → IsValid db
    → IsOpen end (view id db)
    → All (IsHarmless id end) ops
    → end < now
    → (claim id lease_ms now (apply_all ops db)).0 ≡ ok tt
unfolding run
claim-after_leases id end ops db lease_ms now v h k late =
    let later = apply_all ops db in
    (run-refines id (to_claim lease_ms now) later (apply_all-IsValid ops db v)).0
    ∙ spec_reply-IsOpen id end lease_ms now (view id later) late
        (apply_all-IsOpen id end ops db h k v)
