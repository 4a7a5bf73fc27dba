-- ===== src/Queue/Sqlite/Reads.antt =====
-- Reading back what was enqueued.
use mcprelay.Base.{
  String, ◌≡◌, refl, none, some, ◌==◌, eq_iff, arith, is_some, or_default, if◌then◌else◌,
}
use mcprelay.Base.Result.{ok, err}
use mcprelay.Base.Table.{insert}
use mcprelay.Base.Table.Keyed.{select-append}
use mcprelay.Json.{Value, null, through_json, through_json_items}
use mcprelay.Queue.Port.{constraint_failed}
use mcprelay.Queue.Record.{FailureRecord}
use mcprelay.Queue.Sqlite.{Db, row_id, outcome_column, to_record, to_row, get, enqueue}

-- The record's values are those of JSON documents: writing and parsing them gives them back.
pub record IsJson (r : FailureRecord) : Type 0 where
  pub arguments : through_json r.tool.arguments ≡ r.tool.arguments
  pub attempts : through_json_items r.replay.attempts ≡ r.replay.attempts
  pub last_outcome : through_json r.replay.last_outcome ≡ r.replay.last_outcome

outcome-column : (v : Value) → through_json v ≡ v → or_default (outcome_column v) null ≡ v
outcome-column null h = refl
outcome-column _ h = h

to_record-to_row : (r : FailureRecord) → IsJson r → to_record (to_row r) ≡ r
unfolding to_record to_row
to_record-to_row r j =
    ground (arith, j.arguments, j.attempts, outcome-column r.replay.last_outcome j.last_outcome)

-- A captured record is read back as it was captured, field by field, and no other record is touched;
-- where its id is taken, the insertion throws and the stored record stays. Its values are those of
-- JSON documents.
pub get-enqueue :
    (r : FailureRecord) (db : Db) (id : String)
    → IsJson r
    → ((enqueue r db).0 ≡ (if is_some (get r.id db) then err (constraint_failed r.id) else ok r.id))
      × (get id (enqueue r db).1
          ≡ (if is_some (get id db) then get id db else if r.id == id then some r else none))
unfolding get enqueue insert
get-enqueue r db id j = (
  ground arith,
  ground
      (arith, to_record-to_row r j, select-append row_id id db.failures (to_row r), eq_iff r.id id),
)
