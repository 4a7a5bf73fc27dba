-- ===== src/Replay/Run/Batch.antt =====
-- src/replay/replay-run.ts, replayBatchRecord and runReplayBatch: the redrive of all pending records
-- that match a filter. The error is the message with which the run throws.
use mcprelay.Base.{
  ℕ, String, Bool, true, false, ◌||◌, Option, none, some, List, [], ◌∷◌, nat_eq, ltb, length,
  filter, concat, or_default, if◌then◌else◌,
}
use mcprelay.Base.Result.{Result, err, ok}
use mcprelay.Json.{
  Value, Fields, Items, no_prop, prop, no_item, item, str, num, bool, obj, arr, of_nat,
}
use mcprelay.Queue.Record.{FailureRecord, FailureFilter, pending}
use mcprelay.Queue.Sqlite.{list}
use mcprelay.Replay.Run.{
  ReplayDeps, ReplayWorld, exit_ok, exit_failure, plan_run, is_refused, ReplayAttempt, unreachable,
  executed, tell, complain,
}
use mcprelay.Replay.Run.Redrive.{Redrive, refused, unclaimed, attempted, redrive}
use mcprelay.Replay.Run.DryRun.{run_dry_run}

pub data BatchStatus : Type 0 where
  succeeded failed skipped : BatchStatus

pub record BatchRecordResult : Type 0 where
  pub id : String
  pub status : BatchStatus
  pub error : Option String

abbrev good : FailureRecord → BatchRecordResult
good r = record { id = r.id; status = succeeded; error = none }

abbrev bad : FailureRecord → BatchStatus → String → BatchRecordResult
bad r status text = record { id = r.id; status = status; error = some text }

abbrev attempt_result : FailureRecord → ReplayAttempt → BatchRecordResult
attempt_result r (unreachable message) = bad r failed message
attempt_result r (executed o) =
    if o.is_ok then good r else bad r failed (or_default o.error "unknown error")

-- What the batch makes of a redrive: an error in storing its outcome is not caught.
unfoldable pub result_of :
    FailureRecord → Redrive × ReplayWorld → Result String BatchRecordResult × ReplayWorld
result_of r (refused, w) = (ok (bad r skipped "guard refused"), w)
result_of r (unclaimed e, w) = (ok (bad r skipped "claimed by another replay"), w)
result_of r (attempted attempt none, w) = (ok (attempt_result r attempt), w)
result_of r (attempted attempt (some message), w) = (err message, w)

abbrev dry_result : FailureRecord → ℕ × ReplayWorld → Result String BatchRecordResult × ReplayWorld
dry_result r (code, w) =
    (ok (if nat_eq code exit_ok then good r else bad r failed "dry-run inspection failed"), w)

unfoldable pub replay_batch_record :
    ReplayDeps → FailureRecord → Bool → ReplayWorld → Result String BatchRecordResult × ReplayWorld
unfolding result_of redrive run_dry_run plan_run is_refused
replay_batch_record deps r true w = dry_result r (run_dry_run deps r (plan_run deps r w) false w)
replay_batch_record deps r false w =
    let plan = plan_run deps r w in result_of r (redrive deps r plan (is_refused deps plan) w)

abbrev error_of : BatchRecordResult → String → String
error_of result default = or_default result.error default

abbrev pub line_of : BatchRecordResult → ReplayWorld → ReplayWorld
line_of result w = elim result.status [
  | succeeded ↦ tell (concat ("replay ok: " ∷ result.id ∷ "\n" ∷ [])) w
  | failed ↦
      complain
        (concat
          ("replay failed: " ∷ result.id ∷ ": " ∷ error_of result "unknown error" ∷ "\n" ∷ []))
        w
  | skipped ↦
      complain
        (concat ("replay skipped: " ∷ result.id ∷ ": " ∷ error_of result "skipped" ∷ "\n" ∷ [])) w
]

abbrev pub report_line : Bool → BatchRecordResult → ReplayWorld → ReplayWorld
report_line json result w = if json then w else line_of result w

abbrev BatchResults : Type 0
BatchResults = Result String (List BatchRecordResult) × ReplayWorld

unfoldable pub put_first : BatchRecordResult → BatchResults → BatchResults
put_first result (err message, w) = (err message, w)
put_first result (ok results, w) = (ok (result ∷ results), w)

-- After one record: its line and the other records, or the error that ends the run.
unfoldable pub after_record :
    Bool
    → (ReplayWorld → BatchResults)
    → Result String BatchRecordResult × ReplayWorld
    → BatchResults
unfolding put_first
after_record json continue (err message, w) = (err message, w)
after_record json continue (ok result, w) = put_first result (continue (report_line json result w))

-- The loop over the records.
unfoldable pub replay_all : ReplayDeps → List FailureRecord → ReplayWorld → BatchResults
unfolding replay_batch_record after_record
replay_all deps [] w = (ok [], w)
replay_all deps (r ∷ rs) w =
    after_record deps.options.json (replay_all deps rs)
      (replay_batch_record deps r deps.options.dry_run w)

abbrev is_status : BatchStatus → BatchRecordResult → Bool
is_status succeeded result = elim result.status [ succeeded ↦ true | _ ↦ false ]
is_status failed result = elim result.status [ failed ↦ true | _ ↦ false ]
is_status skipped result = elim result.status [ skipped ↦ true | _ ↦ false ]

abbrev pub count : BatchStatus → List BatchRecordResult → ℕ
count status results = length (filter (is_status status) results)

abbrev status_text : BatchStatus → String
status_text succeeded = "ok"
status_text failed = "failed"
status_text skipped = "skipped"

abbrev with_error : Option String → Fields
with_error none = no_prop
with_error (some text) = prop "error" (str text) no_prop

abbrev result_values : List BatchRecordResult → Items
result_values [] = no_item
result_values (result ∷ results) =
    item
      (obj (
        prop "id" (str result.id)
          (prop "status" (str (status_text result.status)) (with_error result.error))))
      (result_values results)

abbrev summary_value : List FailureRecord → List BatchRecordResult → Value
summary_value records results = obj (
    prop "all" (bool true) (
      prop "selected" (num (of_nat (length records))) (
        prop "ok" (num (of_nat (count succeeded results))) (
          prop "failed" (num (of_nat (count failed results))) (
            prop "skipped" (num (of_nat (count skipped results)))
              (prop "records" (arr (result_values results)) no_prop))))))

abbrev summary_line : ReplayDeps → List FailureRecord → List BatchRecordResult → String
summary_line deps records results =
    let text = deps.runtime.text_of_nat in
    if deps.options.json
    then concat (deps.runtime.stringify (summary_value records results) ∷ "\n" ∷ [])
    else concat (
        "replay --all: "
        ∷ text (length records)
        ∷ " selected, "
        ∷ text (count succeeded results)
        ∷ " ok, "
        ∷ text (count failed results)
        ∷ " failed, "
        ∷ text (count skipped results)
        ∷ " skipped\n"
        ∷ [])

abbrev exit_code : List BatchRecordResult → ℕ
exit_code results =
    if ltb 0 (count failed results) || ltb 0 (count skipped results) then exit_failure else exit_ok

unfoldable pub finish_batch :
    ReplayDeps → List FailureRecord → BatchResults → Result String ℕ × ReplayWorld
finish_batch deps records (err message, w) = (err message, w)
finish_batch deps records (ok results, w) =
    (ok (exit_code results), tell (summary_line deps records results) w)

-- `{ ...filter, status: 'pending' }`
abbrev pub pending_filter : FailureFilter → FailureFilter
pending_filter f = record f { status = some pending }

unfoldable pub run_replay_batch : ReplayDeps → ReplayWorld → Result String ℕ × ReplayWorld
unfolding finish_batch replay_all
run_replay_batch deps w =
    let records = list (pending_filter deps.options.filter) w.queue in
    finish_batch deps records (replay_all deps records w)
