-- ===== src/Queue/Sqlite/Refines.antt =====
-- The lifecycle operations refine a small abstract machine, one for each id.
use mcprelay.Base.{
  ℕ, ◌+◌, String, ◌≡◌, refl, Bool, true, ◌&&◌, Option, none, some, ◌==◌, eq_iff, ltb, arith,
  if◌then◌else◌,
}
use mcprelay.Base.Result.{Result, ok, err}
use mcprelay.Base.Table.Keyed.{select-update, changes-select, key_of-select}
use mcprelay.Queue.Port.{QueueError, record_not_found, already_resolved, already_claimed}
use mcprelay.Queue.Record.{ReplayOutcome, to_status}
use mcprelay.Queue.Sqlite.{
  Db, row_id, claim, release, resolve, is_pending, is_free, set_claimed, set_released, set_resolved,
}
use mcprelay.Queue.Sqlite.Views.{Phase, absent, waiting, settled, phase_of, view, IsValid}

-- A lifecycle operation on a record, with the instant at which it runs.
pub data Action : Type 0 where
  to_claim : (lease_ms now : ℕ) → Action
  to_resolve : (outcome : ReplayOutcome) (now : ℕ) → Action
  to_release : Action

unfoldable pub run : String → Action → Db → Result QueueError (Unit {0}) × Db
run id (to_claim lease_ms now) db = claim id lease_ms now db
run id (to_resolve outcome now) db = resolve id outcome now db
run id to_release db = (ok tt, release id db)

-- A lease that has ended, or none, can be taken.
abbrev pub free_at : ℕ → Option ℕ → Bool
free_at now none = true
free_at now (some t) = ltb t now

abbrev pub spec_reply : String → Action → Phase → Result QueueError (Unit {0})
spec_reply id to_release phase = ok tt
spec_reply id _ absent = err (record_not_found id)
spec_reply id _ (settled s) = err (already_resolved id)
spec_reply id (to_resolve outcome now) (waiting lease) = ok tt
spec_reply id (to_claim lease_ms now) (waiting lease) =
    if free_at now lease then ok tt else err (already_claimed id)

abbrev pub spec_next : Action → Phase → Phase
spec_next _ absent = absent
spec_next _ (settled s) = settled s
spec_next to_release (waiting lease) = waiting none
spec_next (to_resolve outcome now) (waiting lease) = settled (to_status outcome.status)
spec_next (to_claim lease_ms now) (waiting lease) =
    if free_at now lease then waiting (some (now + lease_ms)) else waiting lease

module _ (id : String) (db : Db) (valid : IsValid db) where
  run-reply : (a : Action) → (run id a db).0 ≡ spec_reply id a (view id db)
  unfolding run claim resolve release phase_of
  run-reply to_release = refl
  run-reply (to_resolve outcome now) =
      ground (arith, changes-select row_id id is_pending db.failures valid.failures_keyed)
  run-reply (to_claim lease_ms now) = ground (
    arith,
    changes-select row_id id (λ r. is_pending r && is_free now r) db.failures valid.failures_keyed,
  )

  run-view :
      (a : Action) (j : String)
      → view j (run id a db).1 ≡ (if id == j then spec_next a (view id db) else view j db)
  unfolding run claim resolve release phase_of
  run-view to_release j = ground (
    arith,
    select-update row_id (λ r. r.id == id && is_pending r) set_released j db.failures (λ r. refl),
    eq_iff j id,
    eq_iff id j,
    key_of-select row_id j db.failures,
  )
  run-view (to_resolve outcome now) j = ground (
    arith,
    changes-select row_id id is_pending db.failures valid.failures_keyed,
    select-update row_id (λ r. r.id == id && is_pending r) (set_resolved outcome now) j db.failures
        (λ r. refl),
    eq_iff j id,
    eq_iff id j,
    key_of-select row_id j db.failures,
  )
  run-view (to_claim lease_ms now) j = ground (
    arith,
    changes-select row_id id (λ r. is_pending r && is_free now r) db.failures valid.failures_keyed,
    select-update row_id (λ r. r.id == id && (is_pending r && is_free now r))
        (set_claimed now lease_ms) j db.failures (λ r. refl),
    eq_iff j id,
    eq_iff id j,
    key_of-select row_id j db.failures,
  )

-- Whatever the database, with unique keys: a claim, a resolution or a release of one record replies
-- as the abstract machine does, moves that record's phase as it does, and moves no other.
pub run-refines :
    (id : String) (a : Action) (db : Db)
    → IsValid db
    → ((run id a db).0 ≡ spec_reply id a (view id db))
      × ((j : String)
          → view j (run id a db).1 ≡ (if id == j then spec_next a (view id db) else view j db))
run-refines id a db valid = (run-reply id db valid a, run-view id db valid a)
