-- ===== src/Shell.antt =====
-- What the commands that read (src/replay/replay-cli.ts, src/report/report-cli.ts,
-- src/policy/policy-cli.ts) have in common: their output, the stores that they open, and the loading
-- of the configuration.
mod Tests
use mcprelay.Base.{ℕ, suc, String, Option, none, List, [], ◌∷◌, ◌++◌, concat, map}
use mcprelay.Base.Result.{Result, err, ok}
use mcprelay.Config.{RelayConfig, ConfigOverrides}
use mcprelay.Config.Load.{Surroundings, load_config}
use mcprelay.Queue.Sqlite.{Db}
use mcprelay.Store.{Store}

-- `opened` and `shut` count the stores that were opened and closed.
pub record Shell : Type 0 where
  pub stdout : List String
  pub stderr : List String
  pub queue : Db
  pub store : Store
  pub opened : ℕ
  pub shut : ℕ

-- What the commands ask: the surroundings of the configuration, and the message with which the
-- opening of a store, or the reading from it, throws.
pub record Given : Type 0 where
  pub env : Surroundings
  pub open_failure : Option String
  pub read_failure : Option String

abbrev pub tell : String → Shell → Shell
tell text s = record s { stdout = s.stdout ++ text ∷ [] }

abbrev pub complain : String → Shell → Shell
complain text s = record s { stderr = s.stderr ++ text ∷ [] }

abbrev pub report_error : String → Shell → Shell
report_error message s = complain (concat ("mcprelay: " ∷ message ∷ "\n" ∷ [])) s

abbrev pub no_overrides : ConfigOverrides
no_overrides = record { timeout_ms = none; max_attempts = none; policy_dry_run = none }

abbrev pub warn : List String → Shell → Shell
warn warnings s = record s {
  stderr =
      s.stderr ++ map (λ warning. concat ("mcprelay: warning: " ∷ warning ∷ "\n" ∷ [])) warnings;
}

-- The configuration with its warnings printed, or the message printed.
unfoldable pub load_for : Surroundings → Option String → Shell → Result Shell (RelayConfig × Shell)
load_for env path s = elim (load_config env (record { path = path; overrides = no_overrides })) [
  | err message ↦ err (report_error message s)
  | ok config ↦ ok (config, warn config.warnings s)
]

abbrev pub open_store : Shell → Shell
open_store s = record s { opened = suc s.opened }

abbrev pub shut_store : Shell → Shell
shut_store s = record s { shut = suc s.shut }
