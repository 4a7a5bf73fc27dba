-- ===== src/Store/Totals.antt =====
-- No call is lost or counted twice.
use mcprelay.Base.{
  ℕ, suc, ◌+◌, String, ◌≡◌, refl, Bool, List, [], ◌∷◌, map, length, length-append, filter, arith,
}
use mcprelay.Base.Int.{ℤ}
use mcprelay.Base.Sort.{insert_by, sort_by}
use mcprelay.Proxy.World.{
  CallDecision, was_allowed, was_denied, was_failed, was_cancelled, CallEvent,
}
use mcprelay.Store.{
  MetricsFilter, DecisionTotals, ToolMetrics, Store, to_tool_metrics, count_decision,
  count_decisions, no_decision, Group, add_row, group_rows, metrics_leb, metrics_of, metrics,
  event_leb, build_call_where,
}

abbrev pub calls_of : List ToolMetrics → ℕ
calls_of [] = 0
calls_of (t ∷ ts) = t.calls + calls_of ts

abbrev pub total : DecisionTotals → ℕ
total d = d.allowed + d.denied + d.failed + d.cancelled

calls_of-insert_by :
    (leb : ToolMetrics → ToolMetrics → Bool) (t : ToolMetrics) (ts : List ToolMetrics)
    → calls_of (insert_by leb t ts) ≡ t.calls + calls_of ts
unfolding insert_by
calls_of-insert_by leb t [] = refl
calls_of-insert_by leb t (u ∷ us) = ground (arith, calls_of-insert_by leb t us)

calls_of-sort_by :
    (leb : ToolMetrics → ToolMetrics → Bool) (ts : List ToolMetrics)
    → calls_of (sort_by leb ts) ≡ calls_of ts
unfolding sort_by
calls_of-sort_by leb [] = refl
calls_of-sort_by leb (t ∷ ts) =
    omega (arith, calls_of-insert_by leb t (sort_by leb ts), calls_of-sort_by leb ts)

abbrev rows_in : List Group → ℕ
rows_in [] = 0
rows_in ((key, first, others) ∷ groups) = suc (length others) + rows_in groups

rows_in-add_row :
    (e : CallEvent) (groups : List Group) → rows_in (add_row e groups) ≡ suc (rows_in groups)
unfolding add_row
rows_in-add_row e [] = omega arith
rows_in-add_row e ((key, first, others) ∷ groups) =
    ground (arith, rows_in-add_row e groups, length-append others (e ∷ []))

rows_in-group_rows :
    (es : List CallEvent) (groups : List Group)
    → rows_in (group_rows es groups) ≡ length es + rows_in groups
unfolding group_rows
rows_in-group_rows [] groups = omega arith
rows_in-group_rows (e ∷ es) groups =
    omega (arith, rows_in-group_rows es (add_row e groups), rows_in-add_row e groups)

calls_of-metrics_of : (groups : List Group) → calls_of (map metrics_of groups) ≡ rows_in groups
unfolding to_tool_metrics
calls_of-metrics_of [] = refl
calls_of-metrics_of ((key, first, others) ∷ groups) = omega (arith, calls_of-metrics_of groups)

total-count_decision :
    (c : CallDecision) (d : DecisionTotals) → total (count_decision c d) ≡ suc (total d)
total-count_decision was_allowed d = omega arith
total-count_decision was_denied d = omega arith
total-count_decision was_failed d = omega arith
total-count_decision was_cancelled d = omega arith

total-count_decisions :
    (es : List CallEvent) (d : DecisionTotals) → total (count_decisions es d) ≡ length es + total d
unfolding count_decisions
total-count_decisions [] d = omega arith
total-count_decisions (e ∷ es) d = omega (
  arith,
  total-count_decisions es (count_decision e.decision d),
  total-count_decision e.decision d,
)

-- Whatever the filter, the calls of the rows of the table add up to the calls of the four decisions:
-- the grouping by caller and tool loses no call and counts none twice.
pub metrics-totals :
    (locale : String → String → ℤ) (f : MetricsFilter) (s : Store)
    → calls_of (metrics locale f s).tools ≡ total (metrics locale f s).decisions
unfolding metrics
metrics-totals locale f s =
    let rows = sort_by event_leb (filter (build_call_where f) s.call_events) in
    let groups = group_rows rows [] in
    omega (
      arith,
      calls_of-sort_by (metrics_leb locale) (map metrics_of groups),
      calls_of-metrics_of groups,
      rows_in-group_rows rows [],
      total-count_decisions rows no_decision,
    )
