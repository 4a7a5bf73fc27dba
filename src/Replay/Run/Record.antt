-- ===== src/Replay/Run/Record.antt =====
-- src/replay/replay-run.ts: runReplayRecord, once the configuration is read and the stores are open.
use mcprelay.Base.{ℕ, Bool, true, false, none, some, [], ◌∷◌, concat}
use mcprelay.Queue.Record.{FailureRecord}
use mcprelay.Queue.Sqlite.{get}
use mcprelay.Replay.Run.{ReplayWorld, ReplayDeps, exit_failure, complain, plan_run, is_refused}
use mcprelay.Replay.Run.Redrive.{redrive, exit_of}
use mcprelay.Replay.Run.DryRun.{run_dry_run}

unfoldable pub replay_record : ReplayDeps → FailureRecord → Bool → ReplayWorld → ℕ × ReplayWorld
unfolding run_dry_run exit_of redrive is_refused plan_run
replay_record deps r true w = run_dry_run deps r (plan_run deps r w) deps.options.json w
replay_record deps r false w =
    let plan = plan_run deps r w in exit_of deps r (redrive deps r plan (is_refused deps plan) w)

unfoldable pub run_replay_record : ReplayDeps → ReplayWorld → ℕ × ReplayWorld
unfolding replay_record
run_replay_record deps w = elim (get deps.options.id w.queue) [
  | none ↦ (
    exit_failure,
    complain (concat ("mcprelay: failure record '" ∷ deps.options.id ∷ "' not found\n" ∷ [])) w,
  )
  | some r ↦ replay_record deps r deps.options.dry_run w
]
