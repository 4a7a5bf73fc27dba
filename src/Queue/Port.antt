-- ===== src/Queue/Port.antt =====
-- src/queue/port.ts: the errors that the queue's operations throw.
use mcprelay.Base.{String, concat, [], ◌∷◌}

pub data QueueError : Type 0 where
  record_not_found : String → QueueError
  already_resolved : String → QueueError
  already_claimed : String → QueueError
  -- The database's own: the primary key is taken.
  constraint_failed : String → QueueError

abbrev pub error_message : QueueError → String
error_message (record_not_found id) = concat ("failure record '" ∷ id ∷ "' not found" ∷ [])
error_message (already_resolved id) =
    concat ("failure record '" ∷ id ∷ "' is not pending (already resolved)" ∷ [])
error_message (already_claimed id) =
    concat ("failure record '" ∷ id ∷ "' is already claimed by another replay" ∷ [])
error_message (constraint_failed id) = "UNIQUE constraint failed: failures.id"
