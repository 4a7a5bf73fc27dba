-- ===== src/Config/Readers/Ensured.antt =====
-- What the shared readers of the configuration ensure.
use mcprelay.Base.{
  ℕ, ◌≤◌, ◌/◌, ◌%◌, ◌^◌, ◌≢◌, inl, inr, String, ◌&&◌, Option, none, some, ◌==◌, eq_iff, nat_eq, leb,
  arith, Option-cases,
}
use mcprelay.Base.Int.{pos}
use mcprelay.Base.Result.{Result, err, ok}
use mcprelay.Base.Ensures.{Ensures, threw, gave, Ensures-if}
use mcprelay.Json.{Value, str, num, dyadic, Fields, get}
use mcprelay.Runtime.{Runtime}
use mcprelay.Config.Readers.{require_integer, require_text, set_given, read_given}

-- What holds of a field that may be missing.
abbrev pub IfGiven {ℓ κ} : {A : Type ℓ} → (A → Type κ) → Option A → Type κ
IfGiven P none = Unit
IfGiven P (some a) = P a

module _ {ℓ κ} {A : Type ℓ} {P : A → Type κ} where
  pub Ensures-set :
      (key : String) (fs : Fields) (target : A) (reader : Value → Result String A)
      → P target
      → ((v : Value) → Ensures P (reader v))
      → Ensures P (set_given key fs target reader)
  unfolding set_given
  Ensures-set key fs target reader p k = elim (Option-cases (get key fs)) [
    | inl missing ↦ rw (missing, set_given) (gave target p)
    | inr (v, given) ↦ rw (given, set_given) (k v)
  ]

  given-Ensures :
      {r : Result String A}
      → Ensures P r
      → Ensures (IfGiven P) (elim r [ err e ↦ err e | ok a ↦ ok (some a) ])
  given-Ensures (threw e) = threw e
  given-Ensures (gave a p) = gave (some a) p

  pub Ensures-read :
      (key : String) (fs : Fields) (reader : Value → Result String A)
      → ((v : Value) → Ensures P (reader v))
      → Ensures (IfGiven P) (read_given key fs reader)
  unfolding read_given
  Ensures-read key fs reader k = elim (Option-cases (get key fs)) [
    | inl missing ↦ rw (missing, read_given) (gave none tt)
    | inr (v, given) ↦ rw (given, read_given) (given-Ensures (k v))
  ]

pub Ensures-integer :
    (rt : Runtime) (value : Value) (label : String) (minimum : ℕ)
    → Ensures (λ n. minimum ≤ n) (require_integer rt value label minimum)
unfolding require_integer
Ensures-integer rt (num (dyadic (pos m) k)) label minimum =
    Ensures-if (nat_eq (m % 2 ^ k) 0 && leb minimum (m / 2 ^ k))
      (λ h. gave (m / 2 ^ k) (ground arith)) (λ h. threw _)
Ensures-integer rt _ label minimum = threw _

pub Ensures-text :
    (value : Value) (message : String) → Ensures (λ s. s ≢ "") (require_text value message)
Ensures-text (str s) message =
    Ensures-if (s == "") (λ h. threw message) (λ h. gave s (λ e. ground (arith, eq_iff s "")))
Ensures-text _ message = threw message
