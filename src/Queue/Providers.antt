-- ===== src/Queue/Providers.antt =====
-- src/queue/providers.ts: the queue and the store of a configuration, each opened at its first use.
use mcprelay.Base.{ℕ, String, Option, none, some, List, [], ◌∷◌, ◌++◌}
use mcprelay.Base.Result.{Result, err, ok}
use mcprelay.Config.{RelayConfig, RabbitMqConfig, QueueChoice, sqlite, rabbitmq}

pub data Adapter : Type 0 where
  sqlite_queue : (path : String) → Adapter
  rabbitmq_queue : (broker : RabbitMqConfig) (mirror_path : String) → Adapter
  sqlite_store : (path : String) (retention_days : ℕ) → Adapter

-- The adapters that were opened, and those that were closed, in their order.
pub record Persistence : Type 0 where
  pub queue : Option Adapter
  pub store : Option Adapter
  pub opened : List Adapter
  pub closed : List Adapter

-- createPersistence
abbrev pub no_persistence : Persistence
no_persistence = record { queue = none; store = none; opened = []; closed = [] }

abbrev pub adapter_of : QueueChoice → RelayConfig → Adapter
adapter_of rabbitmq config = rabbitmq_queue config.queue.broker config.queue.sqlite_path
adapter_of sqlite config = sqlite_queue config.queue.sqlite_path

abbrev pub store_of : RelayConfig → Adapter
store_of config = sqlite_store config.store.sqlite_path config.store.retention_days

-- `queue ??= …`: `failure` is the message with which the constructor throws; the next use tries again.
abbrev pub open_queue :
    Option Adapter → Adapter → Option String → Persistence → Result String Adapter × Persistence
open_queue (some a) fresh failure p = (ok a, p)
open_queue none fresh (some message) p = (err message, p)
open_queue none fresh none p =
    (ok fresh, record p { queue = some fresh; opened = p.opened ++ fresh ∷ [] })

unfoldable pub get_queue :
    RelayConfig → Option String → Persistence → Result String Adapter × Persistence
get_queue config failure p = open_queue p.queue (adapter_of config.queue.provider config) failure p

abbrev pub open_store :
    Option Adapter → Adapter → Option String → Persistence → Result String Adapter × Persistence
open_store (some a) fresh failure p = (ok a, p)
open_store none fresh (some message) p = (err message, p)
open_store none fresh none p =
    (ok fresh, record p { store = some fresh; opened = p.opened ++ fresh ∷ [] })

unfoldable pub get_store :
    RelayConfig → Option String → Persistence → Result String Adapter × Persistence
get_store config failure p = open_store p.store (store_of config) failure p

abbrev pub given : Option Adapter → List Adapter
given none = []
given (some a) = a ∷ []

-- The queue, then the store, where they were opened.
unfoldable pub close_persistence : Persistence → Persistence
close_persistence p = record p { closed = p.closed ++ given p.queue ++ given p.store }
