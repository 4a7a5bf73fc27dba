-- ===== src/Runtime.antt =====
-- What the program takes from the JavaScript runtime and its libraries, as a parameter of the model.
pub mod Sample
use mcprelay.Base.{ℕ, String, Bool, Option}
use mcprelay.Json.{Number, Value}

pub record Runtime : Type 0 where
  -- The message with which `new RegExp(source)` throws, `none` where it does not.
  pub regex_error : String → Option String
  -- new RegExp(source).test(value)
  pub regex_test : String → String → Bool
  -- Number(text)
  pub number_of : String → Number
  -- String(n) of a non-negative integer
  pub text_of_nat : ℕ → String
  -- String(n)
  pub string_of_number : Number → String
  -- JSON.stringify
  pub stringify : Value → String
  -- text.toLowerCase()
  pub to_lower : String → String
  -- createHash('sha256').update(text).digest('hex')
  pub sha256 : String → String
  -- text.replace(new RegExp(source, 'gi'), replacement): the source, the replacement, the text
  pub replace_all : String → String → String → String
