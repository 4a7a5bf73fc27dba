-- ===== src/Replay/Run/Guarded.antt =====
-- When the redrive of a record calls its tool, and what is stored of it.
use mathlib.Core.Path.{subst}
use mcprelay.Base.{
  ℕ, String, ◌≡◌, refl, sym, ◌∙◌, ◌⊎◌, inl, inr, Bool, true, false, Option, none, some, List, [],
  ◌∷◌, ◌++◌, arith, Option-cases,
}
use mcprelay.Base.Result.{Result, err, ok}
use mcprelay.Json.{Fields, obj}
use mcprelay.Queue.Record.{FailureRecord}
use mcprelay.Queue.Sqlite.{Db, get, claim, resolve}
use mcprelay.Queue.Port.{QueueError}
use mcprelay.Replay.Run.{
  ReplayDeps, ReplayWorld, RunPlan, plan_run, claim_lease_ms, ReplayAttempt, unreachable, executed,
  RunOutcome, next,
}
use mcprelay.Replay.Run.Redrive.{
  attempt_replay, persist_outcome, after_resolve, audit_outcome, index_outcome, replay_outcome,
  report_outcome, Redrive, refused, unclaimed, attempted, after_claim, redrive, exit_of,
  replayed_entry,
}
use mcprelay.Replay.Run.DryRun.{
  report_dry_run_summary, report_dry_run_guards, look_up_tool, inspect_server, run_dry_run,
}
use mcprelay.Replay.Run.Safe.{arguments_of, IsSafe}
use mcprelay.Replay.Run.Record.{replay_record, run_replay_record}

-- No tool is called and the queue is as it was.
abbrev pub IsIdle : ReplayWorld → ReplayWorld → Type 0
IsIdle w w' = (w'.called ≡ w.called) × (w'.queue ≡ w.queue)

-- One call of the record's tool, after a claim of the record succeeded.
abbrev pub IsCalled : ReplayDeps → FailureRecord → Fields → ReplayWorld → ReplayWorld → Type 0
IsCalled deps r args w w' =
    (w'.called ≡ w.called ++ (r.tool.name, obj args) ∷ [])
    × ((claim r.id claim_lease_ms (deps.now_ms w.asked) w.queue).0 ≡ ok tt)

module _ (deps : ReplayDeps) (r : FailureRecord) where
  look_up_tool-IsIdle :
      (plan : RunPlan) (json : Bool) (tools : Result String (List String)) (w : ReplayWorld)
      → IsIdle w (look_up_tool deps r plan json tools w).1
  unfolding look_up_tool
  look_up_tool-IsIdle plan json (err message) w = (refl, refl)
  look_up_tool-IsIdle plan json (ok tools) w = ground arith

  inspect_server-IsIdle :
      (plan : RunPlan) (json : Bool) (down : Option String) (w : ReplayWorld)
      → IsIdle w (inspect_server deps r plan json down w).1
  unfolding inspect_server
  inspect_server-IsIdle plan json (some message) w =
      look_up_tool-IsIdle plan json (err message) (next w)
  inspect_server-IsIdle plan json none w =
      look_up_tool-IsIdle plan json (deps.list_tools w.asked r) (next w)

  report_dry_run_guards-IsIdle :
      (plan : RunPlan) (w : ReplayWorld) → IsIdle w (report_dry_run_guards deps r plan w)
  unfolding report_dry_run_guards
  report_dry_run_guards-IsIdle plan w = ground arith

  pub run_dry_run-IsIdle :
      (plan : RunPlan) (json : Bool) (w : ReplayWorld) → IsIdle w (run_dry_run deps r plan json w).1
  unfolding run_dry_run report_dry_run_summary
  run_dry_run-IsIdle plan json w =
      let told = report_dry_run_summary deps r w in
      let (called, queue) = report_dry_run_guards-IsIdle plan told in
      let (called', queue') =
        inspect_server-IsIdle plan json (deps.connect w.asked r)
          (report_dry_run_guards deps r plan told) in
      (called' ∙ called, queue' ∙ queue)

  index_outcome-called :
      (o : RunOutcome) (key : Option String) (w : ReplayWorld)
      → (index_outcome deps r o key w).called ≡ w.called
  unfolding index_outcome
  index_outcome-called o none w = refl
  index_outcome-called o (some key) w = ground arith

  audit_outcome-called :
      (o : RunOutcome) (key : Option String) (w : ReplayWorld)
      → (audit_outcome deps r o key w).1.called ≡ w.called
  unfolding audit_outcome
  audit_outcome-called o key w = elim (Option-cases (deps.store_failure w.asked)) [
    | inl fine ↦
        let audited = record w { audits = w.audits ++ replayed_entry r o ∷ [] } in
        ground (arith, fine, index_outcome-called o key audited)
    | inr (message, fails) ↦ ground (arith, fails)
  ]

  after_resolve-called :
      (o : RunOutcome) (key : Option String) (done : Result QueueError (Unit {0})) (w : ReplayWorld)
      → (after_resolve deps r o key done w).1.called ≡ w.called
  unfolding after_resolve
  after_resolve-called o key (err e) w = refl
  after_resolve-called o key (ok done) w = audit_outcome-called o key w

  persist_outcome-called :
      (attempt : ReplayAttempt) (key : Option String) (w : ReplayWorld)
      → (persist_outcome deps r attempt key w).1.called ≡ w.called
  unfolding persist_outcome
  persist_outcome-called (unreachable message) key w = refl
  persist_outcome-called (executed o) key w =
      let (done, db) = resolve r.id (replay_outcome deps r o w) (deps.now_ms w.asked) w.queue in
      after_resolve-called o key done (record w { queue = db })

  pub exit_of-called :
      (how : Redrive) (w : ReplayWorld) → (exit_of deps r (how, w)).1.called ≡ w.called
  unfolding exit_of report_outcome
  exit_of-called refused w = refl
  exit_of-called (unclaimed e) w = refl
  exit_of-called (attempted (unreachable message) none) w = refl
  exit_of-called (attempted (executed o) none) w = ground arith
  exit_of-called (attempted attempt (some message)) w = refl

  -- The attempt calls the tool once, or not at all.
  attempt_replay-called :
      (args : Fields) (w : ReplayWorld)
      → ((attempt_replay deps r args w).1.called ≡ w.called)
        ⊎ ((attempt_replay deps r args w).1.called ≡ w.called ++ (r.tool.name, obj args) ∷ [])
  unfolding attempt_replay
  attempt_replay-called args w = elim (Option-cases (deps.connect w.asked r)) [
    | inl up ↦ inr (ground (arith, up))
    | inr (message, down) ↦ inl (ground (arith, down))
  ]

  -- Nothing is called, or the tool is, once.
  unfoldable IsOneCall : Fields → ReplayWorld → ReplayWorld → Type 0
  IsOneCall args w w' =
      (w'.called ≡ w.called) ⊎ (w'.called ≡ w.called ++ (r.tool.name, obj args) ∷ [])

  after_claim-IsOneCall :
      (plan : RunPlan) (w : ReplayWorld)
      → IsOneCall plan.replay_arguments w (exit_of deps r (after_claim deps r plan (ok tt) w)).1
  unfolding IsOneCall after_claim
  after_claim-IsOneCall plan w =
      let (attempt, tried) = attempt_replay deps r plan.replay_arguments w in
      let (thrown, stored) = persist_outcome deps r attempt plan.key tried in
      let same =
        exit_of-called (attempted attempt thrown) stored
        ∙ persist_outcome-called attempt plan.key tried in
      elim (attempt_replay-called plan.replay_arguments w) [
        | inl untouched ↦ inl (same ∙ untouched)
        | inr once ↦ inr (same ∙ once)
      ]

  -- What a redrive calls: nothing, or, after a claim that succeeded, the tool.
  pub redrive-calls :
      (plan : RunPlan) (stopped : Bool) (w : ReplayWorld)
      → ((exit_of deps r (redrive deps r plan stopped w)).1.called ≡ w.called)
        ⊎ ((stopped ≡ false)
            × IsCalled deps r plan.replay_arguments w
                (exit_of deps r (redrive deps r plan stopped w)).1)
  unfolding redrive exit_of after_claim IsOneCall
  redrive-calls plan true w = inl refl
  redrive-calls plan false w =
      go (claim r.id claim_lease_ms (deps.now_ms w.asked) w.queue).0
        (claim r.id claim_lease_ms (deps.now_ms w.asked) w.queue).1
    where
      go :
          (done : Result QueueError (Unit {0})) (db : Db)
          → ((exit_of deps r (after_claim deps r plan done (record w { queue = db }))).1.called
              ≡ w.called)
            ⊎ ((false ≡ false)
                × (((exit_of deps r
                        (after_claim deps r plan done (record w { queue = db }))).1.called
                      ≡ w.called ++ (r.tool.name, obj plan.replay_arguments) ∷ [])
                    × (done ≡ ok tt)))
      go (err e) db = inl refl
      go (ok done) db = elim (after_claim-IsOneCall plan (record w { queue = db })) [
        | inl untouched ↦ inl untouched
        | inr once ↦ inr (refl, (once, refl))
      ]

-- A call that is safe, after the claim of the record.
abbrev pub IsGuardedCall : ReplayDeps → FailureRecord → ReplayWorld → ReplayWorld → Type 0
IsGuardedCall deps r w w' =
    (deps.options.dry_run ≡ false)
    × (get deps.options.id w.queue ≡ some r)
    × IsSafe deps r w
    × IsCalled deps r (arguments_of deps r) w w'

-- A dry run calls no tool and leaves the queue as it is, whatever it finds.
pub run_replay_record-IsIdle :
    (deps : ReplayDeps) (w : ReplayWorld)
    → deps.options.dry_run ≡ true
    → IsIdle w (run_replay_record deps w).1
unfolding run_replay_record replay_record
run_replay_record-IsIdle deps w dry = elim (Option-cases (get deps.options.id w.queue)) [
  | inl missing ↦ ground (arith, missing)
  | inr (r, found) ↦
      let same : run_replay_record deps w
          ≡ run_dry_run deps r (plan_run deps r w) deps.options.json w =
        rw (found, run_replay_record) (rw (dry, replay_record) refl) in
      subst (λ (out : ℕ × ReplayWorld). IsIdle w out.1) (sym same)
        (run_dry_run-IsIdle deps r (plan_run deps r w) deps.options.json w)
]
