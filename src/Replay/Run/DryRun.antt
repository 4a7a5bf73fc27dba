-- ===== src/Replay/Run/DryRun.antt =====
-- src/replay/replay-run.ts: a dry run, which looks at the server and calls no tool.
use mcprelay.Base.{
  ℕ, String, Bool, true, false, Option, none, some, List, [], ◌∷◌, ◌==◌, any, concat, length, ltb,
  if◌then◌else◌,
}
use mcprelay.Base.Result.{Result, err, ok}
use mcprelay.Json.{str, bool, obj, no_prop, prop}
use mcprelay.Config.{ToolOverride, read, override_of}
use mcprelay.Pipeline.Classify.{
  RecordFailureClass, transport, timeout_class, upstream_class, non_retryable_class, tool_class,
}
use mcprelay.Queue.Record.{FailureRecord}
use mcprelay.Replay.Run.{
  ReplayWorld, ReplayDeps, exit_ok, exit_failure, next, tell, complain, RunPlan, join_names,
  matched_text, previous_key, previous_time, tell_if,
}

abbrev pub class_text : RecordFailureClass → String
class_text transport = "transport"
class_text timeout_class = "timeout"
class_text upstream_class = "upstream_error"
class_text non_retryable_class = "non_retryable"
class_text tool_class = "tool_error"

unfoldable pub report_dry_run_summary : ReplayDeps → FailureRecord → ReplayWorld → ReplayWorld
report_dry_run_summary deps r w = tell "dry-run:     no upstream tools/call will be made\n" (
    tell (concat ("arguments:   " ∷ deps.runtime.stringify r.tool.arguments ∷ "\n" ∷ [])) (
      tell (concat ("server:      " ∷ r.server.command ∷ "\n" ∷ [])) (
        tell
          (concat (
            "class:       "
            ∷ class_text r.failure.failure_class
            ∷ " (attempts "
            ∷ deps.runtime.text_of_nat r.failure.attempts
            ∷ ")\n"
            ∷ []))
          (tell (concat ("tool:        " ∷ r.tool.name ∷ "\n" ∷ []))
            (tell (concat ("record:      " ∷ r.id ∷ "\n" ∷ [])) w)))))

abbrev pub is_read_only : Option ToolOverride → Bool
is_read_only none = false
is_read_only (some o) = elim o.effects [ some read ↦ true | _ ↦ false ]

unfoldable pub report_dry_run_guards :
    ReplayDeps → FailureRecord → RunPlan → ReplayWorld → ReplayWorld
report_dry_run_guards deps r plan w =
    tell_if (is_read_only (override_of r.tool.name deps.config.reliability.per_tool))
      "hint:        effects: read — a read-only tool is rarely worth replaying\n"
      (tell_if plan.verdict.duplicate
        (concat (
          "duplicate:   "
          ∷ previous_key plan.verdict
          ∷ " succeeded at "
          ∷ previous_time plan.verdict
          ∷ " ("
          ∷ matched_text plan.verdict.matched_by
          ∷ "); --force required\n"
          ∷ []))
        (tell_if (ltb 0 (length plan.remaining_markers))
          (concat
            ("redacted:    requires --set for: " ∷ join_names plan.remaining_markers ∷ "\n" ∷ []))
          w))

abbrev pub present_line : ReplayDeps → FailureRecord → String
present_line deps r = concat (
    deps.runtime.stringify (
      obj
        (prop "id" (str r.id) (prop "dryRun" (bool true) (prop "toolPresent" (bool true) no_prop))))
    ∷ "\n"
    ∷ [])

-- The tool is looked up in the list, no call is made.
unfoldable pub look_up_tool :
    ReplayDeps
    → FailureRecord
    → RunPlan
    → Bool
    → Result String (List String)
    → ReplayWorld
    → ℕ × ReplayWorld
look_up_tool deps r plan json (err message) w = (
  exit_failure,
  complain (concat ("mcprelay: could not reach the stored server: " ∷ message ∷ "\n" ∷ [])) w,
)
look_up_tool deps r plan json (ok tools) w =
    if any (λ name. name == r.tool.name) tools
    then (
      exit_ok,
      tell_if json (present_line deps r) (
          tell
            (concat
              ("arguments:   " ∷ deps.runtime.stringify (obj plan.replay_arguments) ∷ "\n" ∷ []))
            (tell
              (concat (
                "tool check:  present ("
                ∷ deps.runtime.text_of_nat (length tools)
                ∷ " tools)\n"
                ∷ []))
              w)),
    )
    else (
      exit_failure,
      complain
          (concat
            ("mcprelay: tool '" ∷ r.tool.name ∷ "' does not exist upstream; replay aborted\n" ∷ []))
          w,
    )

unfoldable pub inspect_server :
    ReplayDeps → FailureRecord → RunPlan → Bool → Option String → ReplayWorld → ℕ × ReplayWorld
unfolding look_up_tool
inspect_server deps r plan json (some message) w =
    look_up_tool deps r plan json (err message) (next w)
inspect_server deps r plan json none w =
    look_up_tool deps r plan json (deps.list_tools w.asked r) (next w)

unfoldable pub run_dry_run :
    ReplayDeps → FailureRecord → RunPlan → Bool → ReplayWorld → ℕ × ReplayWorld
unfolding inspect_server report_dry_run_summary report_dry_run_guards
run_dry_run deps r plan json w =
    inspect_server deps r plan json (deps.connect w.asked r)
      (report_dry_run_guards deps r plan (report_dry_run_summary deps r w))
