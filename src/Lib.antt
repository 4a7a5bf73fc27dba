-- ===== src/Lib.antt =====
-- A model of mcprelay, a relay that stands between an MCP client and an MCP server: it resolves who
-- calls, decides on the call by a policy, retries it, keeps what fails in a dead-letter queue, and
-- lets an operator replay it.
--
-- The parts and how they interact. `src/proxy/bridge.ts` intercepts each tool call: it strips the
-- credentials (`src/identity`), asks the policy (`src/policy`), runs the attempts
-- (`src/pipeline/retry.ts`, on the classes of `src/pipeline/classify.ts`), writes a line
-- (`src/observability/call-log.ts`) and an event (`src/store`), and captures a failure, redacted by
-- `src/redaction`, in the queue (`src/queue`). `src/replay` takes a record from the queue, checks its
-- guards, claims it, calls the tool once and resolves the record. `src/cli` parses a command line,
-- `src/config` reads the file that it names, and `src/proxy/run.ts` starts a bridge with both: the
-- bridge connects to the upstream over a link of `src/proxy/transports.ts`, relays what is no tool
-- call between the two sides, and ends with the side that closes first. `src/report` and the commands
-- of `src/policy` and `src/replay` read the same stores.
--
-- The files, with the code that each models:
--   Base              shared helpers: tests, lists, texts and their UTF-16 units, sorting, results,
--                     tables with a primary key
--   Json              the values called `unknown`; a number is a dyadic rational, infinity or NaN
--   Runtime           what JavaScript and its libraries answer (RegExp, Number, String, SHA-256, lower
--                     case), a parameter everywhere
--   Pipeline.Classify src/pipeline/classify.ts: classify_attempt is classifyAttempt
--   Pipeline.Idempotency  src/pipeline/idempotency.ts
--   Pipeline.Retry    src/pipeline/retry.ts: run_with_retry is runWithRetry, over any state
--   Queue.Record      src/queue/failure-record.ts
--   Queue.Port        src/queue/port.ts: the errors
--   Queue.Sqlite      src/queue/sqlite-queue.ts: Db is its two tables; enqueue, claim, resolve,
--                     release, list, get, purge and the idempotency index are its operations
--   Policy.Glob, Policy.Redos, Policy.Matchers, Policy.Compile   src/policy/matchers.ts
--   Policy.Rules      src/policy/policy.ts: parse_policy_config, evaluate_call
--   Identity          src/identity/identity.ts
--   Redaction         src/redaction/redact.ts
--   Config            src/config/config.ts: the types, the defaults and resolveToolPolicy;
--                     Config.Readers, Config.Reliability and Config.Sections are the readers of the
--                     settings, Config.Load is loadConfig
--   Proxy.World       the state that the bridge changes and what it asks of its surroundings
--   Proxy.Metadata    src/proxy/bridge.ts: prepareCallMetadata, prepareCallContext
--   Proxy.Record      src/proxy/bridge.ts: logCall, captureFailure, the audits
--   Proxy.Intercept   src/proxy/bridge.ts: interceptToolCall and what it calls
--   Proxy.Frames, Proxy.Lifecycle   src/proxy/transports.ts: splitLines and FrameDecoder, and the closing
--                     of UpstreamTransport and ClientTransport
--   Proxy.Run         src/proxy/run.ts: runProxy, with its exit codes
--   Queue.Rabbit      src/queue/rabbitmq-queue.ts, over Queue.Sqlite
--   Proxy.Links, Proxy.Session, Queue.Providers   the links of src/proxy/transports.ts,
--                     src/proxy/session.ts, src/queue/providers.ts
--   Proxy.Wiring      src/proxy/bridge.ts: the relays; Proxy.Wiring.Start is startBridge, what may
--                     happen to a bridge, and closeBridge
--   Store             src/store/sqlite-store.ts: the tables, metrics, listAudit, the retention
--   Replay.CommandLine, Replay.Guards, Replay.Run   src/replay: command-line.ts, guards.ts,
--                     replay-run.ts (Replay.Run.DryRun, Replay.Run.Redrive and
--                     Replay.Run.Record are its run of one record, Replay.Run.Batch is runReplayBatch,
--                     and Replay.Run.Command what surrounds a run)
--   Replay.Options, Replay.Cli   src/replay/replay-cli.ts: its parsers, and runReplay
--   Policy.Cli        src/policy/policy-cli.ts
--   Report            src/report/report-cli.ts; Report.Table is the table
--   Tokens            the loop over the tokens that every parser of a command line runs
--   Shell             what the commands that read the stores share: their output, the configuration
--   Cli               src/cli/run.ts and src/cli/index.ts: Cli.Run is parseRunInvocation
-- The other children of a module hold the proofs about it; each part has its tests in a module Tests.
--
-- State is passed explicitly: a handler takes the state and gives its reply with the new one. Code
-- that throws returns a Result, or the message of what it throws. Answers of the outside (the time,
-- the upstream, a store that throws) are functions of a count of the questions asked, so they may
-- change from one question to the next. Handlers run one after another here: the calls that
-- overlap in one process interleave only at the queue, whose operations are single statements, and
-- the queue's theorems are about any sequence of them.
--
-- Bounds. The retry loop recurs on the attempts that are left, which is the bound of its condition,
-- so no fuel can run out; all other loops recur on their data, those over tokens on the tokens that
-- are left. A duration is exact, as the source's is below 2^53. Lengths count UTF-16 code units.
-- Numbers of attempts, bytes and milliseconds are natural numbers without a bound; the one product
-- that may grow large, that of the backoff, is cut at its cap, in floating point as in the model (with
-- a base of 0 the source's delay is NaN after more than 1024 attempts, and 0 here).
--
-- Not modelled: the processes and streams behind the transports, the pairing of requests with their
-- answers, which is the SDK's, and the texts of the help. The file system, the environment, the
-- YAML parser, `new URL`, JSON.parse and Date.parse are parameters; the broker of RabbitMQ is what
-- answers to each request. Regular expressions from the policy, the replacement in messages and the
-- hash are parameters of Runtime, since they are the language's library. Values are trees: sharing
-- and cycles between objects, which a parsed document does not have, are left out. The arguments that
-- a record holds are an object, as those of tools/call are: what a replay makes of an array or a text
-- in their place is left out.
mod Base
pub mod Json
pub mod Pipeline
pub mod Queue
pub mod Runtime
pub mod Policy
pub mod Identity
pub mod Redaction
pub mod Config
pub mod Tokens
pub mod Proxy
pub mod Replay
pub mod Store
pub mod Shell
pub mod Report
pub mod Cli
