-- ===== src/Tokens.antt =====
-- The loop over the tokens of a command line, which src/cli/run.ts, src/replay/replay-cli.ts,
-- src/report/report-cli.ts and src/policy/policy-cli.ts have alike. The tokens from the index on stand
-- for the list and the index; a step that reads a value moves on by two.
pub mod Laws
use mcprelay.Base.{
  ℕ, ◌/◌, ◌%◌, ◌^◌, String, Bool, true, false, Option, none, some, List, [], ◌∷◌, nat_eq, concat,
  if◌then◌else◌,
}
use mcprelay.Base.Int.{pos}
use mcprelay.Base.Result.{Result, err, ok}
use mcprelay.Json.{Number, dyadic}

-- The message of a usage error, or the options after one token, or after a token and its value.
pub data Step {ℓ} (S : Type ℓ) : Type ℓ where
  refused : String → Step S
  flag_read : S → Step S
  value_read : S → Step S

-- The step on a token, with the token after it.
abbrev pub Consume {ℓ} : Type ℓ → Type ℓ
Consume S = String → Option String → S → Step S

module _ {ℓ} {S : Type ℓ} where
  -- readOptionValue, and what is done with the value.
  abbrev pub with_value : String → Option String → (String → Step S) → Step S
  with_value flag none use_value = refused (concat ("Missing value for '" ∷ flag ∷ "'." ∷ []))
  with_value flag (some value) use_value = use_value value

  -- The options and the tokens that are left where the loop stops.
  unfoldable pub consume_tokens :
      Consume S → (String → Bool) → List String → S → Result String (S × List String)
  consume_tokens consume stops [] s = ok (s, [])
  consume_tokens consume stops (token ∷ []) s =
      if stops token then ok (s, token ∷ []) else elim (consume token none s) [
        | refused message ↦ err message
        | flag_read t ↦ ok (t, [])
        | value_read t ↦ ok (t, [])
      ]
  consume_tokens consume stops (token ∷ value ∷ rest) s = elim (stops token) [
    | true ↦ ok (s, token ∷ value ∷ rest)
    | false ↦ elim (consume token (some value) s) [
      | refused message ↦ err message
      | flag_read t ↦ consume_tokens consume stops (value ∷ rest) t
      | value_read t ↦ consume_tokens consume stops rest t
    ]
  ]

  -- Without a token that stops it.
  unfoldable pub consume_all : Consume S → List String → S → Result String S
  unfolding consume_tokens
  consume_all consume tokens s = elim (consume_tokens consume (λ token. false) tokens s) [
    | err message ↦ err message
    | ok (t, rest) ↦ ok t
  ]

-- A number that is an integer and not negative, as one.
abbrev pub to_count : Number → Option ℕ
to_count (dyadic (pos m) k) = if nat_eq (m % 2 ^ k) 0 then some (m / 2 ^ k) else none
to_count _ = none
