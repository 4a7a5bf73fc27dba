-- ===== src/Tokens/Laws.antt =====
-- The loop over the tokens keeps an invariant of the options, and reads what it is given piece by
-- piece.
use mcprelay.Base.{
  ◌≡◌, refl, if◌then◌else◌, inl, inr, String, Bool, true, false, Option, none, some, List, [], ◌∷◌,
  Bool-cases,
}
use mcprelay.Base.Result.{Result, err}
use mcprelay.Base.Ensures.{Ensures, threw, gave, Ensures-if, Ensures-bind}
use mcprelay.Tokens.{
  Step, refused, flag_read, value_read, Consume, with_value, consume_tokens, consume_all,
}

-- The options after a step, if it is not refused.
abbrev pub Keeps {ℓ κ} : {S : Type ℓ} → (S → Type κ) → Step S → Type κ
Keeps P (refused message) = Unit
Keeps P (flag_read t) = P t
Keeps P (value_read t) = P t

pub Keeps-if {ℓ κ} :
    {S : Type ℓ} (P : S → Type κ) (b : Bool) (x y : Step S)
    → (b ≡ true → Keeps P x)
    → (b ≡ false → Keeps P y)
    → Keeps P (if b then x else y)
Keeps-if P true x y h k = h refl
Keeps-if P false x y h k = k refl

-- A flag with a value keeps what its use keeps.
pub Keeps-with_value {ℓ κ} :
    {S : Type ℓ} (P : S → Type κ) (flag : String) (next : Option String)
    (use_value : String → Step S)
    → ((value : String) → Keeps P (use_value value))
    → Keeps P (with_value flag next use_value)
Keeps-with_value P flag none use_value h = tt
Keeps-with_value P flag (some value) use_value h = h value

-- The tokens that are left begin with one that stops the loop.
abbrev pub Stopped : (String → Bool) → List String → Type 0
Stopped stops [] = Unit
Stopped stops (token ∷ rest) = stops token ≡ true

module _ {ℓ κ} {S : Type ℓ} (P : S → Type κ) (consume : Consume S) (stops : String → Bool)
    (keep : (token : String) (next : Option String) (s : S)
      → P s
      → Keeps P (consume token next s)) where
  abbrev Ended : S × List String → Type κ
  Ended (s, rest) = P s × Stopped stops rest

  step-Ensures :
      (step : Step S) {one two : S → Result String (S × List String)}
      → Keeps P step
      → ((t : S) → P t → Ensures Ended (one t))
      → ((t : S) → P t → Ensures Ended (two t))
      → Ensures Ended
          (elim step [ refused message ↦ err message | flag_read t ↦ one t | value_read t ↦ two t ])
  step-Ensures (refused message) k h l = threw message
  step-Ensures (flag_read t) k h l = h t k
  step-Ensures (value_read t) k h l = l t k

  pub consume_tokens-Ensures :
      (tokens : List String) (s : S) → P s → Ensures Ended (consume_tokens consume stops tokens s)
  unfolding consume_tokens
  consume_tokens-Ensures [] s p = gave (s, []) (p, tt)
  consume_tokens-Ensures (token ∷ []) s p =
      Ensures-if (stops token) (λ h. gave (s, token ∷ []) (p, h))
        (λ h.
          step-Ensures (consume token none s) (keep token none s p) (λ t q. gave (t, []) (q, tt))
            (λ t q. gave (t, []) (q, tt)))
  consume_tokens-Ensures (token ∷ value ∷ rest) s p = elim (Bool-cases (stops token)) [
    | inl h ↦ rw (h, consume_tokens) (gave (s, token ∷ value ∷ rest) (p, h))
    | inr h ↦
        rw (h, consume_tokens)
          (step-Ensures (consume token (some value) s) (keep token (some value) s p)
            (λ t q. consume_tokens-Ensures (value ∷ rest) t q)
            (λ t q. consume_tokens-Ensures rest t q))
  ]

-- A step that reads a value moves on by two.
pub consume_tokens-value {ℓ} :
    {S : Type ℓ} (consume : Consume S) (stops : String → Bool) (token value : String)
    (rest : List String) (s t : S)
    → stops token ≡ false
    → consume token (some value) s ≡ value_read t
    → consume_tokens consume stops (token ∷ value ∷ rest) s ≡ consume_tokens consume stops rest t
unfolding consume_tokens
consume_tokens-value consume stops token value rest s t h k =
    rw (h, consume_tokens) (rw (k, consume_tokens) refl)

pub consume_all-Ensures {ℓ κ} :
    {S : Type ℓ} (P : S → Type κ) (consume : Consume S)
    → ((token : String) (next : Option String) (s : S) → P s → Keeps P (consume token next s))
    → (tokens : List String) (s : S) → P s
    → Ensures P (consume_all consume tokens s)
unfolding consume_all
consume_all-Ensures P consume keep tokens s p =
    Ensures-bind (consume_tokens-Ensures P consume (λ token. false) keep tokens s p)
      (λ (t, rest) h. gave t h.0)
