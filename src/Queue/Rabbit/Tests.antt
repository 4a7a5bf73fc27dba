-- ===== src/Queue/Rabbit/Tests.antt =====
-- The queue with a broker that fails and comes back.
use mcprelay.Base.{◌≡◌, refl, String, none, some, List, [], ◌∷◌, ◌++◌, length}
use mcprelay.Base.Parts.{IsPart}
use mcprelay.Base.Table.{select, insert}
use mcprelay.Json.{null, str, obj, prop, no_prop, no_item, through_json}
use mcprelay.Pipeline.Classify.{timeout_class}
use mcprelay.Queue.Record.{pending, stdio, FailureRecord}
use mcprelay.Queue.Sqlite.{enqueue}
use mcprelay.Queue.Sqlite.Refines.{run}
use mcprelay.Queue.Sqlite.Ops.{to_enqueue, apply}
use mcprelay.Queue.Rabbit.{
  RabbitQueue, unreachable, unusable, usable, connect_broker, ensure_channel, publish,
  enqueue_rabbit, health, connection_closed, channel_closed, close,
}
use mcprelay.Queue.Rabbit.Mirror.{
  Event, request, connection_lost, serve_all, serve_alone, taken_in, serve_all-mirrors,
}

abbrev rabbit_code : Unit {0}
unfolding select insert through_json enqueue run apply connect_broker ensure_channel publish
    enqueue_rabbit health connection_closed channel_closed close serve_all serve_alone taken_in
rabbit_code = tt

abbrev failure : String → FailureRecord
failure id = record {
  id = id;
  correlation_id = "c";
  captured_at = "2026-01-01T00:00:00.000Z";
  caller = record { caller_type = stdio; identity = "local" };
  server = record { name = "echo"; command = "node echo.js"; transport = stdio };
  tool = record {
    name = "pay";
    arguments_hash = "h";
    arguments = obj (prop "to" (str "ann") no_prop);
  };
  failure = record { failure_class = timeout_class; message = "timed out"; attempts = 3 };
  replay = record { status = pending; attempts = no_item; last_outcome = null };
}

abbrev empty : RabbitQueue
empty = record {
  index = record { failures = []; executions = [] };
  connection = none;
  channel = none;
  next = 0;
  opened = [];
  published = [];
  warnings = [];
}

-- The broker is down, then up; the connection is lost; a record is there twice.
abbrev history : List Event
history =
    request (to_enqueue (failure "01A")) (unreachable "refused") none
    ∷ request (to_enqueue (failure "01B")) usable none
    ∷ connection_lost 0
    ∷ request (to_enqueue (failure "01B")) usable none
    ∷ request (to_enqueue (failure "01C")) usable (some "nacked")
    ∷ []

served :
    ((serve_all history empty).1.published ≡ failure "01B" ∷ [])
    × (length (serve_all history empty).1.index.failures ≡ 3)
    × (length (serve_all history empty).1.warnings ≡ 2)
    × ((serve_all history empty).1.connection ≡ some 1)
unfolding rabbit_code
served = (refl, refl, refl, refl)

-- A connection on which the queue cannot be set up stays open: `close` does not know it.
left_open :
    (close (enqueue_rabbit (failure "01A") (unusable "PRECONDITION_FAILED") none empty).1).opened
    ≡ 0 ∷ []
unfolding rabbit_code
left_open = refl

serve_all-mirrors_example :
    ((serve_all history empty).0 ≡ (serve_alone history empty.index).0)
    × ((serve_all history empty).1.index ≡ (serve_alone history empty.index).1)
    × (part : List FailureRecord) × IsPart part (taken_in history empty.index)
    × ((serve_all history empty).1.published ≡ empty.published ++ part)
serve_all-mirrors_example = serve_all-mirrors history empty
