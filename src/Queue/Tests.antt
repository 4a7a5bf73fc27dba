-- ===== src/Queue/Tests.antt =====
-- The queue on concrete records.
use mcprelay.Base.{
  String, ◌≡◌, ◌≢◌, eq_iff, inl, inr, refl, true, none, some, List, [], ◌∷◌, ◌==◌, filter,
  if◌then◌else◌, is_some, arith,
}
use mcprelay.Base.Result.{ok, err}
use mcprelay.Base.Table.{select, update, changes, insert}
use mcprelay.Base.Sort.{sort_by}
use mcprelay.Base.{lex_leb}
use mcprelay.Json.{null, str, obj, prop, no_prop, no_item, through_json}
use mcprelay.Pipeline.Classify.{timeout_class}
use mcprelay.Queue.Port.{already_claimed, already_resolved, record_not_found, constraint_failed}
use mcprelay.Queue.Record.{
  pending, stdio, FailureRecord, FailureFilter, ReplayOutcome, as_replayed, ExecutionEntry, live,
}
use mcprelay.Queue.Sqlite.{
  Db, row_id, enqueue, claim, resolve, release, list, get, to_record, build_where, record_execution,
  last_execution, last_execution_by_hash, latest,
}
use mcprelay.Queue.Sqlite.Views.{IsValid, view, phase_of}
use mcprelay.Queue.Sqlite.Refines.{to_claim, to_resolve, run, run-refines, spec_reply, spec_next}
use mcprelay.Queue.Sqlite.Ops.{Op, to_enqueue, to_act, apply, apply_all, apply_all-IsValid}
use mcprelay.Queue.Sqlite.Claims.{claim_exclusive, is_settled, apply_all-settled}
use mcprelay.Queue.Sqlite.Leases.{claim-after_leases}
use mcprelay.Queue.Sqlite.Listing.{IsListing, list-IsListing}
use mcprelay.Queue.Sqlite.Reads.{IsJson, get-enqueue}
use mcprelay.Queue.Sqlite.Executions.{IsLatest, last_execution_by_hash-IsLatest}

queue : Unit {0}
unfolding enqueue claim resolve release list get to_record build_where record_execution
    last_execution last_execution_by_hash latest select update changes insert sort_by lex_leb
    through_json apply apply_all run phase_of
queue = tt

abbrev failure : String → FailureRecord
failure id = record {
  id = id;
  correlation_id = "c";
  captured_at = "2026-01-01T00:00:00.000Z";
  caller = record { caller_type = stdio; identity = "local" };
  server = record { name = "echo"; command = "node echo.js"; transport = stdio };
  tool = record {
    name = "pay";
    arguments_hash = "h";
    arguments = obj (prop "to" (str "ann") no_prop);
  };
  failure = record { failure_class = timeout_class; message = "timed out"; attempts = 3 };
  replay = record { status = pending; attempts = no_item; last_outcome = null };
}

abbrev empty : Db
empty = record { failures = []; executions = [] }

empty-IsValid : IsValid empty
empty-IsValid = record { failures_keyed = tt; executions_keyed = tt }

abbrev two : List Op
two = to_enqueue (failure "01A") ∷ to_enqueue (failure "01B") ∷ []

abbrev stored : Db
stored = apply_all two empty

stored-IsValid : IsValid stored
stored-IsValid = apply_all-IsValid two empty empty-IsValid

abbrev no_filter : FailureFilter
no_filter = record {
  status = none;
  tool = none;
  correlation_id = none;
  since = none;
  until = none;
  limit = none;
}

abbrev outcome : ReplayOutcome
outcome = record { status = as_replayed; attempts = none; last_outcome = some (str "done") }

list_newest_first : list no_filter stored ≡ failure "01B" ∷ failure "01A" ∷ []
unfolding queue
list_newest_first = refl

lifecycle_tests :
    ((claim "01A" 1000 5 stored).0 ≡ ok tt)
    × ((claim "01A" 1000 1005 (claim "01A" 1000 5 stored).1).0 ≡ err (already_claimed "01A"))
    × ((claim "01A" 1000 1006 (claim "01A" 1000 5 stored).1).0 ≡ ok tt)
    × ((claim "01A" 1000 6 (release "01A" (claim "01A" 1000 5 stored).1)).0 ≡ ok tt)
    × ((claim "01A" 1000 6 (resolve "01A" outcome 9 stored).1).0 ≡ err (already_resolved "01A"))
    × ((claim "01C" 1000 6 stored).0 ≡ err (record_not_found "01C"))
unfolding queue
lifecycle_tests = (refl, refl, refl, refl, refl, refl)

run-refines_example :
    ((run "01A" (to_claim 1000 5) stored).0
      ≡ spec_reply "01A" (to_claim 1000 5) (view "01A" stored))
    × ((j : String)
        → view j (run "01A" (to_claim 1000 5) stored).1
          ≡ (if "01A" == j then spec_next (to_claim 1000 5) (view "01A" stored) else view j stored))
run-refines_example = run-refines "01A" (to_claim 1000 5) stored stored-IsValid

claim_exclusive_example :
    claim "01A" 50 1005 (claim "01A" 1000 5 stored).1
    ≡ (err (already_claimed "01A"), (claim "01A" 1000 5 stored).1)
claim_exclusive_example =
    claim_exclusive "01A" stored stored-IsValid 1000 5 lifecycle_tests.0 50 1005 (omega arith)

not_found : (run "01C" (to_claim 1000 6) stored).0 ≡ err (record_not_found "01C")
unfolding queue
not_found = refl

abbrev settled_db : Db
settled_db = apply (to_act "01A" (to_resolve outcome 9)) stored

settled_db-settled : is_settled "01A" settled_db ≡ true
unfolding queue
settled_db-settled = refl

apply_all-settled_example :
    select row_id "01A" (apply_all (to_act "01A" (to_claim 10 10) ∷ two) settled_db).failures
    ≡ select row_id "01A" settled_db.failures
apply_all-settled_example =
    apply_all-settled "01A" (to_act "01A" (to_claim 10 10) ∷ two) settled_db settled_db-settled refl

list-IsListing_example : IsListing no_filter stored (list no_filter stored)
list-IsListing_example = list-IsListing no_filter stored stored-IsValid

failure-IsJson : IsJson (failure "01C")
unfolding through_json
failure-IsJson = record { arguments = refl; attempts = refl; last_outcome = refl }

get-enqueue_example :
    ((enqueue (failure "01C") stored).0
      ≡ (if is_some (get "01C" stored) then err (constraint_failed "01C") else ok "01C"))
    × (get "01A" (enqueue (failure "01C") stored).1 ≡ (
        if is_some (get "01A" stored)
        then get "01A" stored
        else if "01C" == "01A"
        then some (failure "01C")
        else none))
get-enqueue_example = get-enqueue (failure "01C") stored "01A" failure-IsJson

abbrev run_at : String → String → ExecutionEntry
run_at key at = record {
  key = key;
  tool_name = "pay";
  arguments_hash = "h";
  executed_at = at;
  source = live;
}

abbrev indexed : Db
indexed =
    record_execution (run_at "b" "2026-01-02") (record_execution (run_at "a" "2026-01-01") empty)

found_latest : last_execution_by_hash "h" indexed ≡ some (run_at "b" "2026-01-02")
unfolding queue
found_latest = refl

last_execution_by_hash-IsLatest_example :
    ((run_at "b" "2026-01-02").arguments_hash ≡ "h")
    × IsLatest (run_at "b" "2026-01-02") (filter (λ x. x.arguments_hash == "h") indexed.executions)
last_execution_by_hash-IsLatest_example =
    last_execution_by_hash-IsLatest "h" indexed (run_at "b" "2026-01-02") found_latest

-- Two replays claim the record and are not heard of again; a release of another record and a new one
-- come in between.
abbrev crashes : List Op
crashes =
    to_act "01A" (to_claim 1000 5)
    ∷ to_enqueue (failure "01C")
    ∷ to_act "01B" (to_resolve outcome 9)
    ∷ to_act "01A" (to_claim 1000 1006)
    ∷ []

B-differs : ◌≢◌ {A = String} "01B" "01A"
B-differs e = ground (arith, eq_iff "01B" "01A")

claim-after_leases_example : (claim "01A" 1000 2007 (apply_all crashes stored)).0 ≡ ok tt
unfolding queue
claim-after_leases_example =
    claim-after_leases "01A" 2006 crashes stored 1000 2007 stored-IsValid tt
      (inr (omega arith), (tt, (inl B-differs, (inr (omega arith), tt)))) (omega arith)
