-- ===== src/Queue/Sqlite/Views.antt =====
-- The abstract view of the queue: for each id, whether a record is there, waiting (and until when
-- it is claimed) or settled; and the invariant that both primary keys are unique.
use mcprelay.Base.{ℕ, String, Option, none, some}
use mcprelay.Base.Table.{select, IsKeyed}
use mcprelay.Queue.Record.{ReplayStatus, pending, replayed, discarded}
use mcprelay.Queue.Sqlite.{FailureRow, Db, row_id, entry_key}

pub data Phase : Type 0 where
  absent : Phase
  -- Pending, with the end of the last lease.
  waiting : Option ℕ → Phase
  settled : ReplayStatus → Phase

unfoldable pub phase_of : FailureRow → Phase
phase_of r = elim r.replay_status [
  | pending ↦ waiting r.claim_expires_at
  | replayed ↦ settled replayed
  | discarded ↦ settled discarded
]

abbrev pub phase_or_absent : Option FailureRow → Phase
phase_or_absent none = absent
phase_or_absent (some r) = phase_of r

abbrev pub view : String → Db → Phase
view id db = phase_or_absent (select row_id id db.failures)

pub record IsValid (db : Db) : Type 0 where
  pub failures_keyed : IsKeyed row_id db.failures
  pub executions_keyed : IsKeyed entry_key db.executions
