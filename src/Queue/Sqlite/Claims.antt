-- ===== src/Queue/Sqlite/Claims.antt =====
-- Leases exclude one another, failed operations change nothing, and a settled record stays as it is.
use mcprelay.Base.{
  ℕ, ◌+◌, ◌≤◌, String, ◌≡◌, refl, sym, eq_refl, and_true, ◌∙◌, Bool, true, false, not, ◌&&◌, some,
  List, [], ◌∷◌, ◌==◌, arith, all,
}
use mcprelay.Base.Result.{ok, err}
use mcprelay.Base.Table.{select, insert}
use mcprelay.Base.Table.Keyed.{select-update, select-append, holds}
use mcprelay.Queue.Port.{QueueError, already_claimed}
use mcprelay.Queue.Sqlite.{
  Db, row_id, enqueue, claim, release, resolve, record_execution, to_row, is_pending, is_free,
  set_claimed, set_released, set_resolved,
}
use mcprelay.Queue.Sqlite.Views.{Phase, absent, waiting, settled, view, IsValid}
use mcprelay.Queue.Sqlite.Refines.{
  Action, to_claim, to_resolve, to_release, run, run-refines, spec_reply, spec_next,
}
use mcprelay.Queue.Sqlite.Ops.{
  Op, to_enqueue, to_act, to_index, to_purge, apply, apply_all, run-IsValid,
}

-- A claim or a resolution that throws leaves the database as it was.
run-unchanged_of_err :
    (id : String) (a : Action) (db : Db) (e : QueueError)
    → (run id a db).0 ≡ err e
    → (run id a db).1 ≡ db
unfolding run claim resolve
run-unchanged_of_err id to_release db e h = cc
run-unchanged_of_err id (to_resolve o now) db e h = ground arith
run-unchanged_of_err id (to_claim lease_ms now) db e h = ground arith

spec_next-claimed :
    (id : String) (lease_ms now : ℕ) (phase : Phase)
    → spec_reply id (to_claim lease_ms now) phase ≡ ok tt
    → spec_next (to_claim lease_ms now) phase ≡ waiting (some (now + lease_ms))
spec_next-claimed id lease_ms now absent h = cc
spec_next-claimed id lease_ms now (waiting lease) h = ground arith
spec_next-claimed id lease_ms now (settled s) h = cc

spec_reply-leased :
    (id : String) (lease_ms now until : ℕ) (phase : Phase)
    → phase ≡ waiting (some until)
    → now ≤ until
    → spec_reply id (to_claim lease_ms now) phase ≡ err (already_claimed id)
spec_reply-leased id lease_ms now until phase e h = rw e (ground arith)

module _ (id : String) (db : Db) (valid : IsValid db) (lease_ms now : ℕ)
    (claimed : (claim id lease_ms now db).0 ≡ ok tt) where
  view-claim : view id (claim id lease_ms now db).1 ≡ waiting (some (now + lease_ms))
  unfolding run
  view-claim =
      let (reply, moved) = run-refines id (to_claim lease_ms now) db valid in
      let next = spec_next-claimed id lease_ms now (view id db) (sym reply ∙ claimed) in
      moved id ∙ rw (eq_refl id) next

  -- While a lease runs, its last millisecond included, no other claim of the record succeeds: it
  -- throws AlreadyClaimedError and leaves the database as it was.
  pub claim_exclusive :
      (lease_ms' now' : ℕ)
      → now' ≤ now + lease_ms
      → claim id lease_ms' now' (claim id lease_ms now db).1
        ≡ (err (already_claimed id), (claim id lease_ms now db).1)
  unfolding run
  claim_exclusive lease_ms' now' early =
      let db' : Db = (claim id lease_ms now db).1 in
      let valid' : IsValid db' = run-IsValid id (to_claim lease_ms now) db valid in
      let refused : (claim id lease_ms' now' db').0 ≡ err (already_claimed id) =
        (run-refines id (to_claim lease_ms' now') db' valid').0
        ∙ spec_reply-leased id lease_ms' now' (now + lease_ms) (view id db') view-claim early in
      let same =
        run-unchanged_of_err id (to_claim lease_ms' now') db' (already_claimed id) refused in
      λ i. (refused i, same i)

-- The record is there and settled: replayed or discarded.
abbrev pub is_settled : String → Db → Bool
is_settled id db = holds (λ r. not (is_pending r)) (select row_id id db.failures)

abbrev pub is_purge : Op → Bool
is_purge (to_purge f) = true
is_purge _ = false

apply-settled :
    (id : String) (op : Op) (db : Db)
    → is_settled id db ≡ true
    → is_purge op ≡ false
    → select row_id id (apply op db).failures ≡ select row_id id db.failures
unfolding apply enqueue record_execution insert run claim resolve release
apply-settled id (to_enqueue r) db h k =
    ground (arith, select-append row_id id db.failures (to_row r))
apply-settled id (to_index e) db h k = ground arith
apply-settled id (to_purge f) db h k = cc
apply-settled id (to_act j to_release) db h k = ground (
  arith,
  select-update row_id (λ r. r.id == j && is_pending r) set_released id db.failures (λ r. refl),
)
apply-settled id (to_act j (to_resolve o now)) db h k = ground (
  arith,
  select-update row_id (λ r. r.id == j && is_pending r) (set_resolved o now) id db.failures
      (λ r. refl),
)
apply-settled id (to_act j (to_claim lease_ms now)) db h k = ground (
  arith,
  select-update row_id (λ r. r.id == j && (is_pending r && is_free now r))
      (set_claimed now lease_ms) id db.failures (λ r. refl),
)

-- Once a record is replayed or discarded, its row never changes, whatever is written to the
-- database, until a purge.
pub apply_all-settled :
    (id : String) (ops : List Op) (db : Db)
    → is_settled id db ≡ true
    → all (λ op. not (is_purge op)) ops ≡ true
    → select row_id id (apply_all ops db).failures ≡ select row_id id db.failures
unfolding apply_all
apply_all-settled id [] db h k = refl
apply_all-settled id (op ∷ ops) db h k =
    let (writes, later) = and_true (not (is_purge op)) _ k in
    let same = apply-settled id op db h (ground arith) in
    apply_all-settled id ops (apply op db) (rw same h) later ∙ same
