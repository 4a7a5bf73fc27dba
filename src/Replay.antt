-- ===== src/Replay.antt =====
-- src/replay: the redrive of captured failures. `CommandLine` is command-line.ts, `Guards` is
-- guards.ts, `Run` is replay-run.ts, `Options` and `Cli` are replay-cli.ts.
pub mod CommandLine
pub mod Guards
pub mod Run
pub mod Options
pub mod Cli
mod Tests
