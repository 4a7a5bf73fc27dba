-- ===== src/Queue/Sqlite/Ops.antt =====
-- Sequences of writes to the queue database, and the uniqueness of its keys under them.
use mcprelay.Base.{String, refl, ◌&&◌, List, [], ◌∷◌, ◌==◌, arith}
use mcprelay.Base.Table.{insert}
use mcprelay.Base.Table.Keyed.{IsKeyed-update, IsKeyed-delete, IsKeyed-append}
use mcprelay.Queue.Record.{FailureRecord, FailureFilter, ExecutionEntry}
use mcprelay.Queue.Sqlite.{
  Db, row_id, entry_key, enqueue, claim, release, resolve, record_execution, purge, to_row,
  is_pending, is_free, set_claimed, set_released, set_resolved, build_where,
}
use mcprelay.Queue.Sqlite.Views.{IsValid}
use mcprelay.Queue.Sqlite.Refines.{Action, to_claim, to_resolve, to_release, run}

-- A write to the database.
pub data Op : Type 0 where
  to_enqueue : FailureRecord → Op
  to_act : String → Action → Op
  to_index : ExecutionEntry → Op
  to_purge : FailureFilter → Op

unfoldable pub apply : Op → Db → Db
apply (to_enqueue r) db = (enqueue r db).1
apply (to_act id a) db = (run id a db).1
apply (to_index e) db = record_execution e db
apply (to_purge f) db = (purge f db).1

unfoldable pub apply_all : List Op → Db → Db
apply_all [] db = db
apply_all (op ∷ ops) db = apply_all ops (apply op db)

pub run-IsValid : (id : String) (a : Action) (db : Db) → IsValid db → IsValid (run id a db).1
unfolding run claim resolve release
run-IsValid id to_release db v = record {
  failures_keyed = IsKeyed-update row_id _ set_released db.failures (λ r. refl) v.failures_keyed;
  executions_keyed = v.executions_keyed;
}
run-IsValid id (to_resolve o now) db v = record {
  failures_keyed = ground (
    arith,
    IsKeyed-update row_id (λ r. r.id == id && is_pending r) (set_resolved o now) db.failures
        (λ r. refl) v.failures_keyed,
    v.failures_keyed,
  );
  executions_keyed = ground (arith, v.executions_keyed);
}
run-IsValid id (to_claim lease_ms now) db v = record {
  failures_keyed = ground (
    arith,
    IsKeyed-update row_id (λ r. r.id == id && (is_pending r && is_free now r))
        (set_claimed now lease_ms) db.failures (λ r. refl) v.failures_keyed,
    v.failures_keyed,
  );
  executions_keyed = ground (arith, v.executions_keyed);
}

-- Every write keeps both primary keys unique.
pub apply-IsValid : (op : Op) (db : Db) → IsValid db → IsValid (apply op db)
unfolding apply enqueue record_execution purge insert
apply-IsValid (to_act id a) db v = run-IsValid id a db v
apply-IsValid (to_purge f) db v = record {
  failures_keyed = IsKeyed-delete row_id (build_where f) db.failures v.failures_keyed;
  executions_keyed = v.executions_keyed;
}
apply-IsValid (to_enqueue r) db v = record {
  failures_keyed =
      ground
        (arith, IsKeyed-append row_id db.failures (to_row r) v.failures_keyed, v.failures_keyed);
  executions_keyed = ground (arith, v.executions_keyed);
}
apply-IsValid (to_index e) db v = record {
  failures_keyed = ground (arith, v.failures_keyed);
  executions_keyed = ground (
    arith,
    IsKeyed-append entry_key db.executions e v.executions_keyed,
    IsKeyed-update entry_key (λ x. x.key == e.key) (λ x. record e { key = x.key }) db.executions
        (λ x. refl) v.executions_keyed,
    v.executions_keyed,
  );
}

-- Whatever is enqueued, claimed, resolved, released, recorded or purged, in any order, both primary
-- keys stay unique: no write brings in a second record of one id, or a second execution of one key.
pub apply_all-IsValid : (ops : List Op) (db : Db) → IsValid db → IsValid (apply_all ops db)
unfolding apply_all
apply_all-IsValid [] db v = v
apply_all-IsValid (op ∷ ops) db v = apply_all-IsValid ops (apply op db) (apply-IsValid op db v)
