-- ===== src/Config/Valid.antt =====
-- What the readers of the sections of a configuration ensure: here, those of `reliability`.
pub mod Sections
pub mod Loaded
use mcprelay.Base.{◌≤◌, String, Option, List, [], ◌∷◌, arith, All}
use mcprelay.Base.Ensures.{Ensures, threw, gave, Ensures-bind, Ensures-after}
use mcprelay.Json.{Value, obj, entries}
use mcprelay.Runtime.{Runtime}
use mcprelay.Config.{RetryOverride, ToolOverride, ReliabilityConfig, merge_retry, RetryConfig}
use mcprelay.Config.Readers.{set_given, read_given}
use mcprelay.Config.Readers.Ensured.{IfGiven, Ensures-set, Ensures-read, Ensures-integer}
use mcprelay.Config.Reliability.{
  parse_retry_fields, parse_per_tool_override, assign, apply_overrides_of, apply_per_tool,
  apply_reliability,
}

-- At least one attempt.
abbrev IsRetryOverride : RetryOverride → Type 0
IsRetryOverride o = IfGiven (λ n. 1 ≤ n) o.max_attempts

pub record IsOverride (o : ToolOverride) : Type 0 where
  pub timeout : IfGiven (λ n. 1 ≤ n) o.timeout_ms
  pub attempts : IfGiven IsRetryOverride o.retry

abbrev pub IsTool : String × ToolOverride → Type 0
IsTool (tool, o) = IsOverride o

pub record IsReliability (r : ReliabilityConfig) : Type 0 where
  pub timeout : 1 ≤ r.timeout_ms
  pub attempts : 1 ≤ r.retry.max_attempts
  pub tools : All IsTool r.per_tool

module _ (rt : Runtime) where
  retry-Ensures :
      (raw : Value) (label : String) → Ensures IsRetryOverride (parse_retry_fields rt raw label)
  unfolding parse_retry_fields
  retry-Ensures raw label = Ensures-after _ λ fs.
      Ensures-bind (Ensures-read "max_attempts" fs _ (λ v. Ensures-integer rt v _ 1)) λ attempts h.
        Ensures-after (set_given "backoff" fs _ _) λ _.
          Ensures-after (read_given "base_ms" fs _)
            λ base_ms. Ensures-after (read_given "jitter" fs _) λ jitter. gave _ h

  IsOverride-Ensures :
      (raw : Value) (label : String) → Ensures IsOverride (parse_per_tool_override rt raw label)
  unfolding parse_per_tool_override
  IsOverride-Ensures raw label = Ensures-after _ λ fs.
      Ensures-bind (Ensures-read "timeout_ms" fs _ (λ v. Ensures-integer rt v _ 1)) λ timeout h.
        Ensures-after (read_given "idempotent" fs _) λ idempotent.
          Ensures-after (read_given "effects" fs _) λ effects.
            Ensures-bind (Ensures-read "retry" fs _ (λ v. retry-Ensures v _)) λ retry k.
              Ensures-after (read_given "capture_tool_errors" fs _)
                λ capture. gave _ (record { timeout = h; attempts = k })

  assign-All :
      (tool : String) (o : ToolOverride) (target : List (String × ToolOverride))
      → IsOverride o
      → All IsTool target
      → All IsTool (assign tool o target)
  unfolding assign
  assign-All tool o [] h ks = (h, tt)
  assign-All tool o ((name, p) ∷ target) h (k, ks) = ground (arith, assign-All tool o target h ks)

  overrides-Ensures :
      (label : String) (es : List (String × Value)) (target : List (String × ToolOverride))
      → All IsTool target
      → Ensures (All IsTool) (apply_overrides_of rt label es target)
  unfolding apply_overrides_of
  overrides-Ensures label [] target ks = gave target ks
  overrides-Ensures label ((tool, raw) ∷ es) target ks =
      Ensures-bind (IsOverride-Ensures raw _)
        λ o h. overrides-Ensures label es (assign tool o target) (assign-All tool o target h ks)

  applied-Ensures :
      (raw : Value) (label : String) (target : List (String × ToolOverride))
      → All IsTool target
      → Ensures (All IsTool) (apply_per_tool rt raw label target)
  unfolding apply_per_tool
  applied-Ensures (obj fs) label target ks = overrides-Ensures label (entries fs) target ks
  applied-Ensures _ label target ks = threw _

  merge_retry-bound :
      (r : RetryConfig) (o : Option RetryOverride)
      → 1 ≤ r.max_attempts
      → IfGiven IsRetryOverride o
      → 1 ≤ (merge_retry r o).max_attempts
  merge_retry-bound r o h k = ground arith

  pub IsReliability-Ensures :
      (raw : Value) (path : String) (r : ReliabilityConfig)
      → IsReliability r
      → Ensures IsReliability (apply_reliability rt raw path r)
  unfolding apply_reliability
  IsReliability-Ensures raw path r v = Ensures-after _ λ fs.
      Ensures-bind (Ensures-set "timeout_ms" fs _ _ v.timeout (λ w. Ensures-integer rt w _ 1))
        λ timeout h. Ensures-after (set_given "idempotent_default" fs _ _) λ idempotent.
          Ensures-bind (Ensures-read "retry" fs _ (λ w. retry-Ensures w _)) λ retry k.
            Ensures-after (set_given "replay" fs _ _) λ window.
              Ensures-bind
                (Ensures-set "per_tool" fs _ _ v.tools (λ w. applied-Ensures w _ _ v.tools))
                λ tools l. gave _ (record {
                  timeout = h;
                  attempts = merge_retry-bound r.retry retry v.attempts k;
                  tools = l;
                })
