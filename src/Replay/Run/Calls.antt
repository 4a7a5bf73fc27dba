-- ===== src/Replay/Run/Calls.antt =====
-- What a batch calls, and what its summary counts.
use mcprelay.Base.{ℕ, String, ◌≡◌, true, List, ◌++◌, map, length}
use mcprelay.Base.Parts.{IsPart}
use mcprelay.Base.Result.{Result, ok}
use mcprelay.Base.Ensures.{Ensures}
use mcprelay.Json.{Value, obj}
use mcprelay.Proxy.Metadata.{as_fields}
use mcprelay.Queue.Record.{FailureRecord}
use mcprelay.Queue.Sqlite.{list}
use mcprelay.Replay.Guards.{apply_overrides}
use mcprelay.Replay.Run.{exit_ok, ReplayDeps, ReplayWorld}
use mcprelay.Replay.Run.Redrive.{Redrive}
use mcprelay.Replay.Run.Batch.{succeeded, BatchRecordResult, replay_all, count, pending_filter}
use mcprelay.Replay.Run.Guarded.{IsIdle}

-- The call that a record stands for: its tool, with its arguments under the overrides.
abbrev pub call_of : ReplayDeps → FailureRecord → String × Value
call_of deps r =
    (r.tool.name, obj (apply_overrides (as_fields r.tool.arguments) deps.options.overrides))

-- The pending records that match the filter.
abbrev pub selected : ReplayDeps → ReplayWorld → List FailureRecord
selected deps w = list (pending_filter deps.options.filter) w.queue

module _ (deps : ReplayDeps) where
  -- From one world to another, nothing is called, or the given calls in part.
  record Calls (w : ReplayWorld) (planned : List (String × Value)) (w' : ReplayWorld) : Type 0 where
    calls : List (String × Value)
    is_part : IsPart calls planned
    has_called : w'.called ≡ w.called ++ calls

  -- As many results as records.
  abbrev HasLength : ℕ → Result String (List BatchRecordResult) → Type 0
  HasLength n = Ensures (λ results. length results ≡ n)

-- What a batch did.
pub record IsBatch (deps : ReplayDeps) (w : ReplayWorld) (out : Result String ℕ × ReplayWorld)
    : Type 0 where
  pub calls : List (String × Value)
  pub is_part : IsPart calls (map (call_of deps) (selected deps w))
  pub has_called : out.1.called ≡ w.called ++ calls
  pub dry : deps.options.dry_run ≡ true → IsIdle w out.1
  pub complete :
      out.0 ≡ ok exit_ok
      → (results : List BatchRecordResult) × ((replay_all deps (selected deps w) w).0 ≡ ok results)
        × (count succeeded results ≡ length (selected deps w))
