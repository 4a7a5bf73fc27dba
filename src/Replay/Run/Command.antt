-- ===== src/Replay/Run/Command.antt =====
-- src/replay/replay-run.ts: what surrounds a run, the loading of its configuration, the opening and
-- the closing of its stores, and which server a record is replayed to.
use mcprelay.Base.{ℕ, ◌≡◌, ◌∙◌, ap, String, Option, List, [], ◌∷◌, ◌++◌, concat, map, units}
use mcprelay.Base.Result.{Result, err, ok}
use mcprelay.Config.{RelayConfig}
use mcprelay.Config.Load.{Surroundings, load_config}
use mcprelay.Shell.{no_overrides}
use mcprelay.Queue.Record.{FailureRecord, ServerTransport, stdio, http}
use mcprelay.Queue.Providers.{
  Adapter, Persistence, no_persistence, get_queue, get_store, close_persistence,
}
use mcprelay.Proxy.Run.{stdio_target}
use mcprelay.Proxy.Wiring.{server_command_of}
use mcprelay.Replay.CommandLine.{ParseError, parse_command_line}
use mcprelay.Replay.CommandLine.RoundTrip.{parse_command_line-quote_command_line}
use mcprelay.Replay.Run.{ReplayDeps, ReplayWorld, ReplayOptions, complain}
use mcprelay.Replay.Run.Record.{run_replay_record}
use mcprelay.Replay.Run.Batch.{run_replay_batch}

abbrev warned : List String → ReplayWorld → ReplayWorld
warned warnings w = record w {
  stderr =
      w.stderr ++ map (λ warning. concat ("mcprelay: warning: " ∷ warning ∷ "\n" ∷ [])) warnings;
}

unfoldable pub load_replay_config :
    Surroundings → ReplayOptions → ReplayWorld → Result ReplayWorld (RelayConfig × ReplayWorld)
load_replay_config env o w =
    elim (load_config env (record { path = o.config_path; overrides = no_overrides })) [
      | err message ↦ err (complain (concat ("mcprelay: " ∷ message ∷ "\n" ∷ [])) w)
      | ok config ↦ ok (config, warned config.warnings w)
    ]

abbrev pub with_store :
    RelayConfig
    → Option String
    → Result String Adapter × Persistence
    → Result String Adapter × Persistence
with_store config failure (err message, p) = (err message, p)
with_store config failure (ok queue, p) = get_store config failure p

-- The queue, then the store; the failures are the messages with which their constructors throw. A
-- queue that was opened stays open where the store throws.
unfoldable pub open_providers :
    RelayConfig → Option String → Option String → Result String Adapter × Persistence
unfolding get_queue get_store
open_providers config queue_failure store_failure =
    with_store config store_failure (get_queue config queue_failure no_persistence)

pub record ReplaySession {ℓ} (A : Type ℓ) : Type ℓ where
  pub exit : A
  pub world : ReplayWorld
  pub persistence : Persistence

-- The `try` and its `finally`.
abbrev pub run_opened {ℓ} :
    {A : Type ℓ}
    → (ℕ → A)
    → (ReplayWorld → A × ReplayWorld)
    → ReplayWorld
    → Result String Adapter × Persistence
    → ReplaySession A
run_opened exit run w (err message, p) = record {
  exit = exit 1;
  world = complain (concat ("mcprelay: cannot open the queue/store: " ∷ message ∷ "\n" ∷ [])) w;
  persistence = p;
}
run_opened exit run w (ok store, p) =
    let (out, ended) = run w in
    record { exit = out; world = ended; persistence = close_persistence p }

unfoldable pub replay_session {ℓ} :
    {A : Type ℓ}
    → (ℕ → A)
    → (ReplayDeps → ReplayWorld → A × ReplayWorld)
    → Surroundings
    → ReplayDeps
    → (queue_failure store_failure : Option String) → ReplayWorld
    → ReplaySession A
unfolding load_replay_config open_providers close_persistence
replay_session exit run env deps queue_failure store_failure w =
    elim (load_replay_config env deps.options w) [
      | err v ↦ record { exit = exit 2; world = v; persistence = no_persistence }
      | ok (config, v) ↦
          run_opened exit (run (record deps { config = config })) v
            (open_providers config queue_failure store_failure)
    ]

-- runReplayRecord and runReplayBatch, from their start.
unfoldable pub run_record_session :
    Surroundings → ReplayDeps → Option String → Option String → ReplayWorld → ReplaySession ℕ
unfolding replay_session run_replay_record
run_record_session = replay_session (λ exit. exit) run_replay_record

unfoldable pub run_batch_session :
    Surroundings
    → ReplayDeps
    → Option String
    → Option String
    → ReplayWorld
    → ReplaySession (Result String ℕ)
unfolding replay_session run_replay_batch
run_batch_session = replay_session ok run_replay_batch

-- connectStoredServer: the link that a record is replayed over, in UTF-16 code units.
pub data StoredServer : Type 0 where
  http_server : (url : String) (headers : List (String × String)) → StoredServer
  stdio_server : (command : List ℕ) (args : List (List ℕ)) → StoredServer

abbrev pub as_stdio : Result ParseError (List ℕ × List (List ℕ)) → Result ParseError StoredServer
as_stdio (err e) = err e
as_stdio (ok (command, args)) = ok (stdio_server command args)

abbrev pub server_over :
    ServerTransport → FailureRecord → RelayConfig → Result ParseError StoredServer
server_over http r config = ok (http_server r.server.command config.upstream_headers)
server_over stdio r config = as_stdio (parse_command_line (units r.server.command))

unfoldable pub stored_server : FailureRecord → RelayConfig → Result ParseError StoredServer
stored_server r config = server_over r.server.transport r config

-- A record that was captured over stdio is replayed to the command, with the arguments, of the bridge
-- that captured it.
stored_server-server_command_of :
    (command : String) (args : List String) (r : FailureRecord) (config : RelayConfig)
    → r.server.transport ≡ stdio
    → units r.server.command ≡ server_command_of (stdio_target command args)
    → stored_server r config ≡ ok (stdio_server (units command) (map units args))
unfolding stored_server server_command_of
stored_server-server_command_of command args r config h k =
    ap (λ transport. server_over transport r config) h
    ∙ ap (λ text. as_stdio (parse_command_line text)) k
    ∙ ap as_stdio (parse_command_line-quote_command_line (units command) (map units args))
