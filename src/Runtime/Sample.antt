-- ===== src/Runtime/Sample.antt =====
-- A runtime for the tests: no pattern is refused, and a pattern matches itself.
use mcprelay.Base.{◌==◌, nat_eq, none, if◌then◌else◌}
use mcprelay.Json.{nan}
use mcprelay.Runtime.{Runtime}

abbrev pub sample : Runtime
sample = record {
  regex_error = λ source. none;
  regex_test = λ source value. source == value;
  number_of = λ text. nan;
  text_of_nat = λ n. if nat_eq n 0 then "0" else "n";
  string_of_number = λ n. "n";
  stringify = λ value. "value";
  to_lower = λ text. text;
  sha256 = λ text. text;
  replace_all = λ source replacement text. text;
}
