-- ===== src/Queue/Rabbit/Mirror.antt =====
-- Whatever the broker does, the queue answers as the SQLite queue alone does.
use mathlib.Core.List.{append-nil, append_assoc}
use mcprelay.Base.{
  ℕ, ◌≡◌, refl, sym, ap, ◌∙◌, String, Bool, Option, none, some, List, [], ◌∷◌, ◌++◌, arith,
}
use mcprelay.Base.Parts.{IsPart, nothing, left_out, taken, IsPart-append}
use mcprelay.Base.Result.{Result, err, ok}
use mcprelay.Queue.Port.{QueueError}
use mcprelay.Queue.Record.{FailureRecord}
use mcprelay.Queue.Sqlite.{Db, enqueue, purge}
use mcprelay.Queue.Sqlite.Refines.{run}
use mcprelay.Queue.Sqlite.Ops.{Op, to_enqueue, to_act, to_index, to_purge, apply}
use mcprelay.Queue.Rabbit.{
  RabbitQueue, Connecting, unreachable, unusable, usable, connect_broker, ensure_channel, publish,
  publish_on, after_index, enqueue_rabbit, run_rabbit, purge_rabbit, record_execution_rabbit,
  health, connection_closed, channel_closed,
}

-- What may happen: a request, with what the broker answers to it, a look at the health, and the
-- close of a connection or a channel.
pub data Event : Type 0 where
  request : Op → Connecting → Option String → Event
  check : Bool → Connecting → Bool → Event
  connection_lost : ℕ → Event
  channel_lost : ℕ → Event

pub data Reply : Type 0 where
  queued : Result QueueError String → Reply
  acted : Result QueueError (Unit {0}) → Reply
  purged : ℕ → Reply
  indexed : Reply

-- The reply of the SQLite queue.
abbrev pub reply_of : Op → Db → Reply
reply_of (to_enqueue r) db = queued (enqueue r db).0
reply_of (to_act id a) db = acted (run id a db).0
reply_of (to_index e) db = indexed
reply_of (to_purge f) db = purged (purge f db).0

abbrev pub serve : Op → Connecting → Option String → RabbitQueue → Reply × RabbitQueue
serve (to_enqueue r) answer confirmation q =
    let (reply, next) = enqueue_rabbit r answer confirmation q in (queued reply, next)
serve (to_act id a) answer confirmation q =
    let (reply, next) = run_rabbit id a q in (acted reply, next)
serve (to_index e) answer confirmation q = (indexed, record_execution_rabbit e q)
serve (to_purge f) answer confirmation q =
    let (count, next) = purge_rabbit f q in (purged count, next)

-- The replies of a history, and the queue after it.
unfoldable pub serve_all : List Event → RabbitQueue → List Reply × RabbitQueue
serve_all [] q = ([], q)
serve_all (request op answer confirmation ∷ es) q =
    let (reply, next) = serve op answer confirmation q in
    let (replies, last) = serve_all es next in (reply ∷ replies, last)
serve_all (check index_ok answer has_queue ∷ es) q =
    serve_all es (health index_ok answer has_queue q).1
serve_all (connection_lost n ∷ es) q = serve_all es (connection_closed n q)
serve_all (channel_lost n ∷ es) q = serve_all es (channel_closed n q)

-- The same requests, put to the SQLite queue alone.
unfoldable pub serve_alone : List Event → Db → List Reply × Db
unfolding apply
serve_alone [] db = ([], db)
serve_alone (request op answer confirmation ∷ es) db =
    let (replies, last) = serve_alone es (apply op db) in (reply_of op db ∷ replies, last)
serve_alone (check index_ok answer has_queue ∷ es) db = serve_alone es db
serve_alone (connection_lost n ∷ es) db = serve_alone es db
serve_alone (channel_lost n ∷ es) db = serve_alone es db

-- The record that a request adds to the SQLite queue.
abbrev offered : FailureRecord → Result QueueError String → List FailureRecord
offered r (err e) = []
offered r (ok id) = r ∷ []

abbrev offer : Op → Db → List FailureRecord
offer (to_enqueue r) db = offered r (enqueue r db).0
offer _ db = []

-- The records that the SQLite queue takes in, in order.
unfoldable pub taken_in : List Event → Db → List FailureRecord
unfolding apply
taken_in [] db = []
taken_in (request op answer confirmation ∷ es) db = offer op db ++ taken_in es (apply op db)
taken_in (check index_ok answer has_queue ∷ es) db = taken_in es db
taken_in (connection_lost n ∷ es) db = taken_in es db
taken_in (channel_lost n ∷ es) db = taken_in es db

connect_broker-keeps :
    (answer : Connecting) (q : RabbitQueue)
    → ((connect_broker answer q).1.index ≡ q.index)
      × ((connect_broker answer q).1.published ≡ q.published)
unfolding connect_broker
connect_broker-keeps (unreachable message) q = (refl, refl)
connect_broker-keeps (unusable message) q = (refl, refl)
connect_broker-keeps usable q = (refl, refl)

ensure_channel-keeps :
    (answer : Connecting) (q : RabbitQueue)
    → ((ensure_channel answer q).1.index ≡ q.index)
      × ((ensure_channel answer q).1.published ≡ q.published)
unfolding ensure_channel
ensure_channel-keeps answer q = ground (arith, connect_broker-keeps answer q)

-- From a queue of the given index, nothing but a part of `new` is published.
record Moves (q : RabbitQueue) (db : Db) (new : List FailureRecord) (p : RabbitQueue) : Type 0 where
  at_index : p.index ≡ db
  part : List FailureRecord
  is_part : IsPart part new
  has_published : p.published ≡ q.published ++ part

idle : {q p : RabbitQueue} {db : Db} → p.index ≡ db → p.published ≡ q.published → Moves q db [] p
idle {q} i k = record {
  at_index = i;
  part = [];
  is_part = nothing;
  has_published = k ∙ sym (append-nil q.published);
}

publish_on-Moves :
    (r : FailureRecord) (confirmation : Option String) (q : RabbitQueue)
    (c : Result String ℕ × RabbitQueue)
    → (c.1.index ≡ q.index)
    → (c.1.published ≡ q.published)
    → Moves q q.index (r ∷ []) (publish_on r confirmation c)
publish_on-Moves r confirmation q (err message, p) i k = record {
  at_index = i;
  part = [];
  is_part = left_out r nothing;
  has_published = k ∙ sym (append-nil q.published);
}
publish_on-Moves r (some message) q (ok channel, p) i k = record {
  at_index = i;
  part = [];
  is_part = left_out r nothing;
  has_published = k ∙ sym (append-nil q.published);
}
publish_on-Moves r none q (ok channel, p) i k = record {
  at_index = i;
  part = r ∷ [];
  is_part = taken r nothing;
  has_published = ap (λ xs. xs ++ r ∷ []) k;
}

after_index-Moves :
    (r : FailureRecord) (answer : Connecting) (confirmation : Option String) (q : RabbitQueue)
    (reply : Result QueueError String × Db)
    → Moves q reply.1 (offered r reply.0) (after_index r answer confirmation q reply).1
unfolding publish
after_index-Moves r answer confirmation q (err e, db) = idle refl refl
after_index-Moves r answer confirmation q (ok id, db) =
    let p : RabbitQueue = record q { index = db } in
    let kept = ensure_channel-keeps answer p in
    let moved = publish_on-Moves r confirmation p (ensure_channel answer p) kept.0 kept.1 in
    record {
      at_index = moved.at_index;
      part = moved.part;
      is_part = moved.is_part;
      has_published = moved.has_published;
    }

-- The index answers with the id of the record.
after_index-reply :
    (r : FailureRecord) (answer : Connecting) (confirmation : Option String) (q : RabbitQueue)
    → (after_index r answer confirmation q (enqueue r q.index)).0 ≡ (enqueue r q.index).0
unfolding enqueue
after_index-reply r answer confirmation q = ground arith

serve-Moves :
    (op : Op) (answer : Connecting) (confirmation : Option String) (q : RabbitQueue)
    → Moves q (apply op q.index) (offer op q.index) (serve op answer confirmation q).1
unfolding apply enqueue_rabbit run_rabbit purge_rabbit record_execution_rabbit
serve-Moves (to_enqueue r) answer confirmation q =
    after_index-Moves r answer confirmation q (enqueue r q.index)
serve-Moves (to_act id a) answer confirmation q = idle refl refl
serve-Moves (to_index e) answer confirmation q = idle refl refl
serve-Moves (to_purge f) answer confirmation q = idle refl refl

serve-reply :
    (op : Op) (answer : Connecting) (confirmation : Option String) (q : RabbitQueue)
    → (serve op answer confirmation q).0 ≡ reply_of op q.index
unfolding enqueue_rabbit run_rabbit purge_rabbit
serve-reply (to_enqueue r) answer confirmation q =
    ap queued (after_index-reply r answer confirmation q)
serve-reply (to_act id a) answer confirmation q = refl
serve-reply (to_index e) answer confirmation q = refl
serve-reply (to_purge f) answer confirmation q = refl

Moves-trans :
    {q p r : RabbitQueue} {db db' : Db} {xs ys : List FailureRecord}
    → Moves q db xs p
    → Moves p db' ys r
    → Moves q db' (xs ++ ys) r
Moves-trans {q} h k = record {
  at_index = k.at_index;
  part = h.part ++ k.part;
  is_part = IsPart-append h.is_part k.is_part;
  has_published =
      k.has_published
      ∙ ap (λ zs. zs ++ k.part) h.has_published
      ∙ append_assoc q.published h.part k.part;
}

health-keeps :
    (index_ok : Bool) (answer : Connecting) (has_queue : Bool) (q : RabbitQueue)
    → ((health index_ok answer has_queue q).1.index ≡ q.index)
      × ((health index_ok answer has_queue q).1.published ≡ q.published)
unfolding health
health-keeps index_ok answer has_queue q = ensure_channel-keeps answer q

connection_closed-keeps :
    (n : ℕ) (q : RabbitQueue)
    → ((connection_closed n q).index ≡ q.index) × ((connection_closed n q).published ≡ q.published)
unfolding connection_closed
connection_closed-keeps n q = ground arith

channel_closed-keeps :
    (n : ℕ) (q : RabbitQueue)
    → ((channel_closed n q).index ≡ q.index) × ((channel_closed n q).published ≡ q.published)
unfolding channel_closed
channel_closed-keeps n q = ground arith

abbrev Mirrors : List Event → RabbitQueue → Db → Type 0
Mirrors es q db =
    ((serve_all es q).0 ≡ (serve_alone es db).0)
    × Moves q (serve_alone es db).1 (taken_in es db) (serve_all es q).1

-- After a step that publishes nothing.
Moves-from :
    {q p r : RabbitQueue} {db : Db} {xs : List FailureRecord}
    → p.published ≡ q.published
    → Moves p db xs r
    → Moves q db xs r
Moves-from k m = record {
  at_index = m.at_index;
  part = m.part;
  is_part = m.is_part;
  has_published = m.has_published ∙ ap (λ zs. zs ++ m.part) k;
}

mirrors : (es : List Event) (q : RabbitQueue) (db : Db) → q.index ≡ db → Mirrors es q db
unfolding serve_all serve_alone taken_in
mirrors [] q db h = (refl, idle h refl)
mirrors (request op answer confirmation ∷ es) q db h =
    let next : RabbitQueue = (serve op answer confirmation q).1 in
    let moved = serve-Moves op answer confirmation q in
    let (replies, moves) = mirrors es next (apply op q.index) moved.at_index in
    rw (← h) (λ i. serve-reply op answer confirmation q i ∷ replies i, Moves-trans moved moves)
mirrors (check index_ok answer has_queue ∷ es) q db h =
    let kept = health-keeps index_ok answer has_queue q in
    let (replies, moves) = mirrors es (health index_ok answer has_queue q).1 db (kept.0 ∙ h) in
    (replies, Moves-from kept.1 moves)
mirrors (connection_lost n ∷ es) q db h =
    let kept = connection_closed-keeps n q in
    let (replies, moves) = mirrors es (connection_closed n q) db (kept.0 ∙ h) in
    (replies, Moves-from kept.1 moves)
mirrors (channel_lost n ∷ es) q db h =
    let kept = channel_closed-keeps n q in
    let (replies, moves) = mirrors es (channel_closed n q) db (kept.0 ∙ h) in
    (replies, Moves-from kept.1 moves)

-- Whatever the broker answers, and whenever connections and channels close: the queue gives every
-- reply that the SQLite queue alone gives to the same requests, and its index is the database that
-- this leaves. The broker confirms a part of the records that were taken in, in their order, and
-- nothing else.
pub serve_all-mirrors :
    (es : List Event) (q : RabbitQueue)
    → ((serve_all es q).0 ≡ (serve_alone es q.index).0)
      × ((serve_all es q).1.index ≡ (serve_alone es q.index).1)
      × (part : List FailureRecord) × IsPart part (taken_in es q.index)
      × ((serve_all es q).1.published ≡ q.published ++ part)
serve_all-mirrors es q =
    let (replies, moves) = mirrors es q q.index refl in
    (replies, moves.at_index, moves.part, moves.is_part, moves.has_published)
