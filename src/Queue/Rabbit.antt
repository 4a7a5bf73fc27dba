-- ===== src/Queue/Rabbit.antt =====
-- src/queue/rabbitmq-queue.ts: the queue with a broker. The broker keeps what is published; a local
-- SQLite queue, `index`, serves every query. Each connection has a number. What the broker answers
-- is given with each request.
pub mod Mirror
mod Tests
use mcprelay.Base.{
  ℕ, suc, String, Bool, true, false, not, ◌&&◌, Option, none, some, List, [], ◌∷◌, ◌++◌, nat_eq,
  filter, concat, is_some, if◌then◌else◌,
}
use mcprelay.Base.Result.{Result, err, ok}
use mcprelay.Queue.Port.{QueueError}
use mcprelay.Queue.Record.{FailureRecord, FailureFilter, ExecutionEntry}
use mcprelay.Queue.Sqlite.{
  Db, enqueue, list, get, record_execution, last_execution, last_execution_by_hash, purge,
}
use mcprelay.Queue.Sqlite.Refines.{Action, run}

-- `connection` and `channel` are the numbers of those in use; `next` is that of the next connection,
-- `opened` those that are open at the broker, and `published` what the broker has confirmed.
pub record RabbitQueue : Type 0 where
  pub index : Db
  pub connection : Option ℕ
  pub channel : Option ℕ
  pub next : ℕ
  pub opened : List ℕ
  pub published : List FailureRecord
  pub warnings : List String

-- Whether the broker can be reached, and then whether the channel, the exchange, the queue and its
-- binding can be set up; each with the message where it cannot.
pub data Connecting : Type 0 where
  unreachable : String → Connecting
  unusable : String → Connecting
  usable : Connecting

unfoldable pub connect_broker : Connecting → RabbitQueue → Result String ℕ × RabbitQueue
connect_broker (unreachable message) q = (err message, q)
connect_broker (unusable message) q =
    (err message, record q { next = suc q.next; opened = q.opened ++ q.next ∷ [] })
connect_broker usable q = (
  ok q.next,
  record q {
    connection = some q.next;
    channel = some q.next;
    next = suc q.next;
    opened = q.opened ++ q.next ∷ [];
  },
)

unfoldable pub ensure_channel : Connecting → RabbitQueue → Result String ℕ × RabbitQueue
unfolding connect_broker
ensure_channel answer q = elim q.channel [
  | some channel ↦ (ok channel, q)
  | none ↦ connect_broker answer q
]

abbrev pub publish_failed : FailureRecord → String → RabbitQueue → RabbitQueue
publish_failed r message q = record q {
  warnings =
      q.warnings
      ++ concat (
          "rabbitmq publish failed for '" ∷ r.id ∷ "': " ∷ message
          ∷ "; record is replayable locally" ∷ [])
        ∷ [];
}

-- publish and waitForConfirms, `none` where the broker confirms.
abbrev pub confirm : FailureRecord → Option String → RabbitQueue → RabbitQueue
confirm r none q = record q { published = q.published ++ r ∷ [] }
confirm r (some message) q = publish_failed r message q

abbrev pub publish_on : FailureRecord → Option String → Result String ℕ × RabbitQueue → RabbitQueue
publish_on r confirmation (err message, q) = publish_failed r message q
publish_on r confirmation (ok channel, q) = confirm r confirmation q

unfoldable pub publish : FailureRecord → Connecting → Option String → RabbitQueue → RabbitQueue
unfolding ensure_channel
publish r answer confirmation q = publish_on r confirmation (ensure_channel answer q)

-- What `enqueue` does once the index has answered: an error is thrown on, and nothing is published.
abbrev pub after_index :
    FailureRecord
    → Connecting
    → Option String
    → RabbitQueue
    → Result QueueError String × Db
    → Result QueueError String × RabbitQueue
after_index r answer confirmation q (err e, db) = (err e, record q { index = db })
after_index r answer confirmation q (ok id, db) =
    (ok r.id, publish r answer confirmation (record q { index = db }))

unfoldable pub enqueue_rabbit :
    FailureRecord
    → Connecting
    → Option String
    → RabbitQueue
    → Result QueueError String × RabbitQueue
unfolding publish
enqueue_rabbit r answer confirmation q = after_index r answer confirmation q (enqueue r q.index)

-- The operations that only pass on.
unfoldable pub list_rabbit : FailureFilter → RabbitQueue → List FailureRecord
list_rabbit f q = list f q.index

unfoldable pub get_rabbit : String → RabbitQueue → Option FailureRecord
get_rabbit id q = get id q.index

-- resolve, claim and release
unfoldable pub run_rabbit :
    String → Action → RabbitQueue → Result QueueError (Unit {0}) × RabbitQueue
run_rabbit id a q = let (reply, db) = run id a q.index in (reply, record q { index = db })

unfoldable pub purge_rabbit : FailureFilter → RabbitQueue → ℕ × RabbitQueue
purge_rabbit f q = let (count, db) = purge f q.index in (count, record q { index = db })

unfoldable pub record_execution_rabbit : ExecutionEntry → RabbitQueue → RabbitQueue
record_execution_rabbit e q = record q { index = record_execution e q.index }

unfoldable pub last_execution_rabbit : String → RabbitQueue → Option ExecutionEntry
last_execution_rabbit key q = last_execution key q.index

unfoldable pub last_execution_by_hash_rabbit : String → RabbitQueue → Option ExecutionEntry
last_execution_by_hash_rabbit hash q = last_execution_by_hash hash q.index

-- The health of the index and of the broker, of which `has_queue` says whether checkQueue succeeds.
unfoldable pub health : Bool → Connecting → Bool → RabbitQueue → Bool × RabbitQueue
unfolding ensure_channel
health index_ok answer has_queue q =
    let (channel, r) = ensure_channel answer q in
    (elim channel [ err message ↦ false | ok c ↦ has_queue && index_ok ], r)

-- The connection of the given number closes: the handlers of `close`.
abbrev pub is_current : ℕ → Option ℕ → Bool
is_current n none = false
is_current n (some m) = nat_eq m n

unfoldable pub connection_closed : ℕ → RabbitQueue → RabbitQueue
connection_closed n q =
    let rest = filter (λ m. not (nat_eq m n)) q.opened in
    if is_current n q.connection
    then record q { connection = none; channel = none; opened = rest }
    else record q { opened = rest }

unfoldable pub channel_closed : ℕ → RabbitQueue → RabbitQueue
channel_closed n q = if is_current n q.channel then record q { channel = none } else q

-- close(): the channel's and the connection's errors are ignored.
abbrev without : Option ℕ → List ℕ → List ℕ
without none opened = opened
without (some n) opened = filter (λ m. not (nat_eq m n)) opened

unfoldable pub close : RabbitQueue → RabbitQueue
close q = record q { connection = none; channel = none; opened = without q.connection q.opened }
