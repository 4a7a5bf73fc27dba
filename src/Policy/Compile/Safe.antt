-- ===== src/Policy/Compile/Safe.antt =====
-- What compilePathMatchers accepts: the bounds that the evaluation relies on.
use mathlib.Core.Path.{subst}
use mcprelay.Base.{
  ◌≤◌, ◌≡◌, ◌≢◌, refl, ◌⊎◌, inl, inr, String, Bool, true, false, ◌&&◌, none, List, [], ◌∷◌, ◌==◌,
  eq_iff, arith, and_true, All, length, units, if◌then◌else◌,
}
use mcprelay.Base.Result.{Result, ok, err, try_map}
use mcprelay.Json.{
  Number, Value, str, obj, arr, num, prop, items, item, entries, is_finite, is_integer, num_leb,
  of_nat,
}
use mcprelay.Runtime.{Runtime}
use mcprelay.Policy.Redos.{find_redos_risk}
use mcprelay.Policy.Matchers.{Matcher, equals, one_of, prefix, regex, max_length, at_least, at_most}
use mcprelay.Policy.Compile.{
  max_pattern_length, compile_in, compile_prefix, compile_max_length, compile_bound, compile_regex,
  compile_pattern, compile_matcher, compile_path_matchers,
}

-- A pattern that is short, compiles and has no repetition that the scanner finds; a text, a list or
-- a bound that is not empty, and numbers of the right kind.
unfoldable pub IsSafe : Runtime → Matcher → Type 0
IsSafe rt (equals v) = Unit
IsSafe rt (one_of vs) = vs ≢ []
IsSafe rt (prefix p) = p ≢ ""
IsSafe rt (regex source) =
    (length (units source) ≤ max_pattern_length)
    × (find_redos_risk (units source) ≡ none)
    × (rt.regex_error source ≡ none)
IsSafe rt (max_length n) = (is_integer n ≡ true) × (num_leb (of_nat 0) n ≡ true)
IsSafe rt (at_least n) = is_finite n ≡ true
IsSafe rt (at_most n) = is_finite n ≡ true

pub Result-cases :
    {A : Type 0} (r : Result String A) → ((e : String) × (r ≡ err e)) ⊎ ((a : A) × (r ≡ ok a))
Result-cases (err e) = inl (e, refl)
Result-cases (ok a) = inr (a, refl)

module _ {A B : Type 0} (P : B → Type 0) (f : A → Result String B) where
  try_map-cons :
      (x : A) (xs : List A) (ys : List B)
      → try_map f (x ∷ xs) ≡ ok ys
      → (z : B) × (zs : List B) × (f x ≡ ok z) × (try_map f xs ≡ ok zs) × (ys ≡ z ∷ zs)
  unfolding try_map
  try_map-cons x xs ys k = elim (Result-cases (f x)) [
    | inl (e, fails) ↦ absurd (ground (arith, fails, k))
    | inr (z, first) ↦ elim (Result-cases (try_map f xs)) [
      | inl (e, fails) ↦ absurd (ground (arith, fails, first, k))
      | inr (zs, more) ↦ (z, zs, first, more, ground (arith, first, more, k))
    ]
  ]

  pub All-try_map :
      ((x : A) (y : B) → f x ≡ ok y → P y)
      → (xs : List A) (ys : List B) → try_map f xs ≡ ok ys
      → All P ys
  unfolding try_map
  All-try_map h [] [] k = tt
  All-try_map h [] (y ∷ ys) k = absurd cc
  All-try_map h (x ∷ xs) ys k =
      let (z, zs, first, rest, same) = try_map-cons x xs ys k in
      rw (same) (h x z first, All-try_map h xs zs rest)

compile_regex-IsSafe :
    (rt : Runtime) (pattern label source : String)
    → compile_regex rt pattern label ≡ ok source
    → (length (units source) ≤ max_pattern_length)
      × (find_redos_risk (units source) ≡ none)
      × (rt.regex_error source ≡ none)
unfolding compile_regex
compile_regex-IsSafe rt pattern label source h = ground arith

module _ {A : Type 0} where
  pub unwrap_ok : (x y : A) → ◌≡◌ {A = Result String A} (ok x) (ok y) → x ≡ y
  unwrap_ok x y h = cc

  pub if_ok :
      (b : Bool) (x y : Result String A) (a : A)
      → (if b then x else y) ≡ ok a
      → ((b ≡ true) × (x ≡ ok a)) ⊎ ((b ≡ false) × (y ≡ ok a))
  if_ok true x y a h = inl (refl, h)
  if_ok false x y a h = inr (refl, h)

module _ (rt : Runtime) where
  safe : (n m : Matcher) → ◌≡◌ {A = Result String Matcher} (ok n) (ok m) → IsSafe rt n → IsSafe rt m
  safe n m h k = subst (IsSafe rt) (unwrap_ok n m h) k

  compile_in-IsSafe :
      (label : String) (value : Value) (m : Matcher) → compile_in label value ≡ ok m → IsSafe rt m
  unfolding IsSafe
  compile_in-IsSafe label (arr (item v vs)) m h = safe (one_of (v ∷ items vs)) m h (λ e. cc)
  compile_in-IsSafe label _ m h = absurd cc

  compile_prefix-IsSafe :
      (label : String) (value : Value) (m : Matcher)
      → compile_prefix label value ≡ ok m
      → IsSafe rt m
  unfolding IsSafe
  compile_prefix-IsSafe label (str s) m h = elim (if_ok (s == "") _ _ m h) [
    | inl (empty, k) ↦ absurd cc
    | inr (filled, k) ↦ safe (prefix s) m k (λ e. ground (arith, eq_iff s ""))
  ]
  compile_prefix-IsSafe label _ m h = absurd cc

  compile_pattern-IsSafe :
      (label : String) (value : Value) (m : Matcher)
      → compile_pattern rt label value ≡ ok m
      → IsSafe rt m
  unfolding IsSafe compile_pattern
  compile_pattern-IsSafe label (str s) m h = elim (if_ok (s == "") _ _ m h) [
    | inl (empty, k) ↦ absurd cc
    | inr (filled, k) ↦ elim (Result-cases (compile_regex rt s label)) [
      | inl (e, fails) ↦ absurd (ground (arith, fails, k))
      | inr (source, compiles) ↦
          safe (regex source) m (ground (arith, compiles, k))
            (compile_regex-IsSafe rt s label source compiles)
    ]
  ]
  compile_pattern-IsSafe label _ m h = absurd cc

  compile_max_length-IsSafe :
      (label : String) (value : Value) (m : Matcher)
      → compile_max_length label value ≡ ok m
      → IsSafe rt m
  unfolding IsSafe
  compile_max_length-IsSafe label (num n) m h =
      elim (if_ok (is_integer n && num_leb (of_nat 0) n) _ _ m h) [
        | inl (valid, k) ↦
            safe (max_length n) m k (and_true (is_integer n) (num_leb (of_nat 0) n) valid)
        | inr (other, k) ↦ absurd cc
      ]
  compile_max_length-IsSafe label _ m h = absurd cc

  compile_bound-IsSafe :
      (label key : String) (matcher : Number → Matcher) (value : Value) (m : Matcher)
      → ((n : Number) → is_finite n ≡ true → IsSafe rt (matcher n))
      → compile_bound label key matcher value ≡ ok m
      → IsSafe rt m
  compile_bound-IsSafe label key matcher (num n) m given h = elim (if_ok (is_finite n) _ _ m h) [
    | inl (finite, k) ↦ safe (matcher n) m k (given n finite)
    | inr (other, k) ↦ absurd cc
  ]
  compile_bound-IsSafe label key matcher _ m given h = absurd cc

  compile_matcher-IsSafe :
      (label : String) (entry : String × Value) (m : Matcher)
      → compile_matcher rt label entry ≡ ok m
      → IsSafe rt m
  unfolding IsSafe compile_matcher
  compile_matcher-IsSafe label (key, value) m h = elim (if_ok (key == "equals") _ _ m h) [
    | inl (c, k) ↦ safe (equals value) m k tt
    | inr (c, h) ↦ elim (if_ok (key == "in") _ _ m h) [
      | inl (c, k) ↦ compile_in-IsSafe label value m k
      | inr (c, h) ↦ elim (if_ok (key == "prefix") _ _ m h) [
        | inl (c, k) ↦ compile_prefix-IsSafe label value m k
        | inr (c, h) ↦ elim (if_ok (key == "regex") _ _ m h) [
          | inl (c, k) ↦ compile_pattern-IsSafe label value m k
          | inr (c, h) ↦ elim (if_ok (key == "max_length") _ _ m h) [
            | inl (c, k) ↦ compile_max_length-IsSafe label value m k
            | inr (c, h) ↦ elim (if_ok (key == "min") _ _ m h) [
              | inl (c, k) ↦ compile_bound-IsSafe label key at_least value m (λ n finite. finite) k
              | inr (c, h) ↦ elim (if_ok (key == "max") _ _ m h) [
                | inl (c, k) ↦ compile_bound-IsSafe label key at_most value m (λ n finite. finite) k
                | inr (c, h) ↦ absurd cc
              ]
            ]
          ]
        ]
      ]
    ]
  ]

  -- A mapping of matchers that is accepted has at least one, and each is safe.
  pub compile_path_matchers-IsSafe :
      (raw : Value) (label : String) (ms : List Matcher)
      → compile_path_matchers rt raw label ≡ ok ms
      → (ms ≢ []) × All (IsSafe rt) ms
  unfolding compile_path_matchers
  compile_path_matchers-IsSafe (obj (prop key v fs)) label ms h =
      let compile = compile_matcher rt label in
      let (m, more, first, rest, same) =
        try_map-cons (IsSafe rt) compile (key, v) (entries fs) ms h in
      (
        λ e. cc,
        All-try_map (IsSafe rt) compile (compile_matcher-IsSafe label) ((key, v) ∷ entries fs) ms h,
      )
  compile_path_matchers-IsSafe _ label ms h = absurd cc
