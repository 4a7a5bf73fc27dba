-- ===== src/Config/Known/Keys.antt =====
-- The settings that each mapping of the file may have, and what the readers find out about them.
use mcprelay.Base.{
  ◌≡◌, refl, inl, inr, String, Bool, true, not, ◌||◌, none, some, Option, List, [], ◌∷◌, ◌==◌,
  arith, All, any, find, Option-cases,
}
use mcprelay.Base.Result.{Result, err, ok, ◌>>=◌}
use mcprelay.Base.Ensures.{Ensures, threw, gave, to_ensures, of_ok, Ensures-bind}
use mcprelay.Json.{Value, obj, arr, Fields, Items, items, entries, keys, get}
use mcprelay.Config.Readers.{assert_known_keys, open_section, set_given, read_given}
use mcprelay.Config.Readers.Ensured.{IfGiven}

abbrev pub one_of : List String → String → Bool
one_of names key = any (λ name. name == key) names

-- A mapping with none but the given keys, and what else holds of its fields.
abbrev pub IsSection : (String → Bool) → (Fields → Type 0) → Value → Type 0
IsSection known P raw = (fs : Fields) × (raw ≡ obj fs) × All (λ k. known k ≡ true) (keys fs) × P fs

abbrev pub IsMapping : (String → Bool) → Value → Type 0
IsMapping known raw = IsSection known (λ fs. Unit) raw

abbrev pub IsSqlite : Value → Type 0
IsSqlite raw = IsMapping (one_of ("path" ∷ [])) raw

abbrev pub IsRetry : Value → Type 0
IsRetry raw = IsMapping (one_of ("max_attempts" ∷ "backoff" ∷ "base_ms" ∷ "jitter" ∷ [])) raw

abbrev pub IsToolEntry : Value → Type 0
IsToolEntry raw =
    IsSection
      (one_of ("timeout_ms" ∷ "idempotent" ∷ "effects" ∷ "retry" ∷ "capture_tool_errors" ∷ []))
      (λ fs. IfGiven IsRetry (get "retry" fs)) raw

-- A mapping from the names of tools, whatever they are.
abbrev pub IsToolTable : Value → Type 0
IsToolTable raw =
    (fs : Fields) × (raw ≡ obj fs) × All (λ (e : String × Value). IsToolEntry e.1) (entries fs)

-- The settings below `reliability`, down to the last.
abbrev pub IsReliability : Value → Type 0
IsReliability raw =
    IsSection (one_of ("timeout_ms" ∷ "idempotent_default" ∷ "retry" ∷ "replay" ∷ "per_tool" ∷ []))
      (λ fs.
        IfGiven IsRetry (get "retry" fs)
        × IfGiven (IsMapping (one_of ("dedup_window" ∷ []))) (get "replay" fs)
        × IfGiven IsToolTable (get "per_tool" fs))
      raw

abbrev pub IsQueue : Value → Type 0
IsQueue raw =
    IsSection (one_of ("provider" ∷ "sqlite" ∷ "rabbitmq" ∷ []))
      (λ fs.
        IfGiven IsSqlite (get "sqlite" fs)
        × IfGiven (IsMapping (one_of ("url" ∷ "exchange" ∷ "queue" ∷ []))) (get "rabbitmq" fs))
      raw

abbrev pub IsStore : Value → Type 0
IsStore raw =
    IsSection (one_of ("provider" ∷ "sqlite" ∷ "retention_days" ∷ []))
      (λ fs. IfGiven IsSqlite (get "sqlite" fs)) raw

-- A list of mappings with none but the given keys.
abbrev pub IsListOf : (String → Bool) → Value → Type 0
IsListOf known raw = (vs : Items) × (raw ≡ arr vs) × All (λ v. IsMapping known v) (items vs)

abbrev pub IsIdentity : Value → Type 0
IsIdentity raw =
    IsSection (one_of ("profile" ∷ "keys" ∷ []))
      (λ fs. IfGiven (IsListOf (one_of ("key" ∷ "identity" ∷ []))) (get "keys" fs)) raw

abbrev pub IsPolicy : Value → Type 0
IsPolicy raw =
    IsSection (λ k. k == "default" || k == "rules")
      (λ fs.
        IfGiven (IsListOf (λ k. k == "tool" || k == "caller" || k == "args" || k == "action"))
          (get "rules" fs))
      raw

abbrev pub IsUpstream : Value → Type 0
IsUpstream raw =
    IsSection (one_of ("http" ∷ []))
      (λ fs. IfGiven (IsMapping (one_of ("headers" ∷ []))) (get "http" fs)) raw

pub All-known :
    (known : String → Bool) (ks : List String)
    → find (λ k. not (known k)) ks ≡ none
    → All (λ k. known k ≡ true) ks
All-known known [] h = tt
All-known known (k ∷ ks) h = ground (arith, All-known known ks)

open-Ensures :
    (raw : Value) (known : String → Bool) (label message : String)
    → Ensures
        (λ fs. (raw ≡ obj fs) × All (λ k. known k ≡ true) (keys fs))
        (open_section raw known label message)
unfolding open_section assert_known_keys
open-Ensures (obj fs) known label message =
    elim (Option-cases (find (λ k. not (known k)) (keys fs))) [
      | inl clean ↦
          rw (clean, open_section, assert_known_keys)
            (gave fs (refl, All-known known (keys fs) clean))
      | inr (k, strange) ↦ rw (strange, open_section, assert_known_keys) (threw _)
    ]
open-Ensures _ known label message = threw _

module _ {A : Type 0} where
  pub Ensures-const : {X : Type 0} (r : Result String A) → X → Ensures (λ _. X) r
  Ensures-const r x = to_ensures r (λ _ _. x)

  pub Ensures-implied :
      {X Y : Type 0} {r : Result String A} → Ensures (λ _. X) r → (X → Y) → Ensures (λ _. Y) r
  Ensures-implied (threw e) k = threw e
  Ensures-implied (gave a x) k = gave a (k x)

  -- What the reader of a section finds out about it.
  pub Ensures-IsSection :
      (raw : Value) (known : String → Bool) (label message : String)
      (rest : Fields → Result String A) (P : Fields → Type 0)
      → ((fs : Fields) → Ensures (λ _. P fs) (rest fs))
      → Ensures (λ _. IsSection known P raw) (open_section raw known label message >>= rest)
  Ensures-IsSection raw known label message rest P k =
      Ensures-bind (open-Ensures raw known label message)
        (λ fs h. to_ensures (rest fs) (λ a e. (fs, h.0, h.1, of_ok {P = λ _. P fs} (k fs) e)))

  -- A section of which only the keys are told.
  pub Ensures-IsMapping :
      (raw : Value) (known : String → Bool) (label message : String)
      (rest : Fields → Result String A)
      → Ensures (λ _. IsMapping known raw) (open_section raw known label message >>= rest)
  Ensures-IsMapping raw known label message rest =
      Ensures-IsSection raw known label message rest (λ fs. Unit) (λ fs. Ensures-const (rest fs) tt)

  pub Ensures-given :
      (key : String) (fs : Fields) (target : A) (reader : Value → Result String A)
      (X : Value → Type 0)
      → ((v : Value) → Ensures (λ _. X v) (reader v))
      → Ensures (λ _. IfGiven X (get key fs)) (set_given key fs target reader)
  unfolding set_given
  Ensures-given key fs target reader X k = elim (Option-cases (get key fs)) [
    | inl missing ↦ rw (missing, set_given) (gave target tt)
    | inr (v, given) ↦ rw (given, set_given) (k v)
  ]

  kept_value :
      {X : Type 0} (r : Result String A)
      → Ensures (λ _. X) r
      → Ensures
          (λ _. X)
          (elim r as (λ _. Result String (Option A)) [ err e ↦ err e | ok a ↦ ok (some a) ])
  kept_value (err e) h = threw e
  kept_value (ok a) h = gave (some a) (of_ok h refl)

  pub Ensures-reading :
      (key : String) (fs : Fields) (reader : Value → Result String A) (X : Value → Type 0)
      → ((v : Value) → Ensures (λ _. X v) (reader v))
      → Ensures (λ _. IfGiven X (get key fs)) (read_given key fs reader)
  unfolding read_given
  Ensures-reading key fs reader X k = elim (Option-cases (get key fs)) [
    | inl missing ↦ rw (missing, read_given) (gave none tt)
    | inr (v, given) ↦ rw (given, read_given) (kept_value (reader v) (k v))
  ]

-- One entry of a list, and those after it.
pub Ensures-each :
    {A B X Y : Type 0} {r : Result String A} {rest : A → Result String B}
    → Ensures (λ _. X) r
    → ((a : A) → Ensures (λ _. Y) (rest a))
    → Ensures (λ _. X × Y) (elim r as (λ _. Result String B) [ err e ↦ err e | ok a ↦ rest a ])
Ensures-each (threw e) k = threw e
Ensures-each (gave a x) k = Ensures-implied (k a) (λ y. (x, y))
