-- ===== src/Replay/Run/Safe.antt =====
-- When it is safe to replay a record: src/replay/guards.ts, and runReplayRecord of
-- src/replay/replay-run.ts.
use mcprelay.Base.{
  ℕ, ◌+◌, ◌<◌, String, ◌≡◌, refl, ◌∙◌, ◌⊎◌, inl, inr, Bool, true, false, ◌||◌, ◌&&◌, not, Option,
  none, some, arith, Bool-cases, if◌then◌else◌,
}
use mcprelay.Json.{Fields, obj, undefined}
use mcprelay.Pipeline.Idempotency.{extract_idempotency_key}
use mcprelay.Proxy.Metadata.{as_fields}
use mcprelay.Queue.Record.{FailureRecord, ExecutionEntry}
use mcprelay.Queue.Sqlite.{last_execution, last_execution_by_hash}
use mcprelay.Replay.Guards.{
  contains_redacted_markers, apply_overrides, dedup_verdict, within_window, duplicate_of,
  no_duplicate, MatchedBy, by_key, by_hash,
}
use mcprelay.Replay.Guards.Markers.{redacted_marker_keys_complete}
use mcprelay.Replay.Run.{
  ReplayDeps, ReplayWorld, resolve_arguments, compute_dedup_verdict, plan_run, is_refused,
}

-- The arguments of the record, under the overrides of the run.
abbrev pub arguments_of : ReplayDeps → FailureRecord → Fields
arguments_of deps r = apply_overrides (as_fields r.tool.arguments) deps.options.overrides

-- The latest execution that stands for the same call: by its idempotency key where the arguments
-- have one, and by the hash of its arguments otherwise.
abbrev pub same_call : ReplayDeps → FailureRecord → ReplayWorld → Option ExecutionEntry
same_call deps r w =
    elim (extract_idempotency_key deps.runtime.string_of_number undefined
      (obj (as_fields r.tool.arguments))) [
        | none ↦ last_execution_by_hash r.tool.arguments_hash w.queue
        | some key ↦ last_execution key w.queue
      ]

-- The execution is over for longer than the window, or its time is none.
abbrev pub IsOver : (String → Option ℕ) → (window_ms now : ℕ) → ExecutionEntry → Type 0
IsOver parse_date window_ms now e =
    (t : ℕ) → parse_date e.executed_at ≡ some t → t + window_ms < now

-- No marker is left in the arguments, and the call was not executed within the window, or it is
-- forced.
pub record IsSafe (deps : ReplayDeps) (r : FailureRecord) (w : ReplayWorld) : Type 0 where
  pub no_marker : contains_redacted_markers (obj (arguments_of deps r)) ≡ false
  pub no_duplicate :
      (deps.options.force ≡ true)
      ⊎ ((e : ExecutionEntry)
          → same_call deps r w ≡ some e
          → IsOver deps.parse_date deps.config.reliability.dedup_window_ms (deps.now_ms w.asked) e)

module _ (parse_date : String → Option ℕ) (window_ms now : ℕ) where
  outside-IsOver :
      (e : ExecutionEntry)
      → within_window parse_date window_ms now e ≡ false
      → IsOver parse_date window_ms now e
  outside-IsOver e h t parsed = ground (arith, h, parsed)

  verdict-IsOver :
      (by : MatchedBy) (e : ExecutionEntry)
      → (if within_window parse_date window_ms now e
          then duplicate_of by e
          else no_duplicate).duplicate
        ≡ false
      → IsOver parse_date window_ms now e
  verdict-IsOver by e h = elim (Bool-cases (within_window parse_date window_ms now e)) [
    | inl within ↦ absurd (ground (arith, h, within))
    | inr outside ↦ outside-IsOver e outside
  ]

  -- A verdict of no duplicate, on the execution that was looked up.
  dedup_verdict-IsOver :
      (key : Option String) (find : String → Option ExecutionEntry) (found : Option ExecutionEntry)
      → (dedup_verdict parse_date key window_ms now
          (elim key [ none ↦ none | some k ↦ find k ])
          found).duplicate
        ≡ false
      → (e : ExecutionEntry) → elim key [ none ↦ found | some k ↦ find k ] ≡ some e
      → IsOver parse_date window_ms now e
  unfolding dedup_verdict
  dedup_verdict-IsOver none find found h e same = verdict-IsOver by_hash e (rw same at h)
  dedup_verdict-IsOver (some k) find found h e same = verdict-IsOver by_key e (rw same at h)

or_cases : (a b c : Bool) → (a || (b && not c)) ≡ false → (a ≡ false) × ((c ≡ true) ⊎ (b ≡ false))
or_cases false b true h = (refl, inl refl)
or_cases false false false h = (refl, inr refl)
or_cases false true false h = absurd cc
or_cases true b c h = absurd cc

-- A run that is not refused is safe.
pub is_refused-IsSafe :
    (deps : ReplayDeps) (r : FailureRecord) (w : ReplayWorld)
    → is_refused deps (plan_run deps r w) ≡ false
    → IsSafe deps r w
unfolding is_refused plan_run resolve_arguments compute_dedup_verdict
is_refused-IsSafe deps r w h =
    let (clear, free) = or_cases _ _ _ h in
    record {
      no_marker = redacted_marker_keys_complete deps.runtime "" (obj (arguments_of deps r)) ∙ clear;
      no_duplicate = elim free [
        | inl forced ↦ inl forced
        | inr fresh ↦ inr (
            dedup_verdict-IsOver deps.parse_date deps.config.reliability.dedup_window_ms
              (deps.now_ms w.asked) _ (λ k. last_execution k w.queue) _ fresh)
      ];
    }
