-- ===== src/Redaction/Patterns.antt =====
-- The names that hold a secret: matchesPattern of src/redaction/redact.ts.
use mcprelay.Base.{
  ℕ, String, ◌≡◌, refl, sym, ap, ◌∙◌, ◌↔◌, ◌⊎◌, inl, inr, true, List, [], ◌∷◌, ◌++◌, units, arith,
  Bool-cases,
}
use mcprelay.Runtime.{Runtime}
use mcprelay.Redaction.{is_prefix, includes, matches_pattern}

-- The part stands somewhere in the text.
abbrev pub HasPart : List ℕ → List ℕ → Type 0
HasPart text part = (before : List ℕ) × (after : List ℕ) × (text ≡ before ++ (part ++ after))

-- One of the patterns stands somewhere in the name, whatever the case of either.
abbrev pub IsSecret : Runtime → List String → String → Type 0
IsSecret rt [] key = ⊥
IsSecret rt (pattern ∷ patterns) key =
    HasPart (units (rt.to_lower key)) (units (rt.to_lower pattern)) ⊎ IsSecret rt patterns key

prefix-rest :
    (part text : List ℕ) → is_prefix part text ≡ true → (after : List ℕ) × (text ≡ part ++ after)
prefix-rest [] text h = (text, refl)
prefix-rest (p ∷ part) [] h = absurd cc
prefix-rest (p ∷ part) (u ∷ text) h =
    let first : p ≡ u = ground (arith, h) in
    let (after, same) = prefix-rest part text (ground (arith, h)) in
    (after, ap (λ us. u ∷ us) same ∙ ap (λ v. v ∷ (part ++ after)) (sym first))

prefix-append : (part after : List ℕ) → is_prefix part (part ++ after) ≡ true
prefix-append [] after = refl
prefix-append (p ∷ part) after = ground (arith, prefix-append part after)

includes-prefix : (part text : List ℕ) → is_prefix part text ≡ true → includes text part ≡ true
unfolding includes
includes-prefix part [] h = h
includes-prefix part (u ∷ text) h = rw h refl

includes-append : (before part after : List ℕ) → includes (before ++ (part ++ after)) part ≡ true
unfolding includes
includes-append [] part after = includes-prefix part (part ++ after) (prefix-append part after)
includes-append (u ∷ before) part after = ground (arith, includes-append before part after)

includes-HasPart : (text part : List ℕ) → includes text part ≡ true → HasPart text part
unfolding includes
includes-HasPart [] part h = let (after, same) = prefix-rest part [] h in ([], after, same)
includes-HasPart (u ∷ text) part h = elim (Bool-cases (is_prefix part (u ∷ text))) [
  | inl here ↦ let (after, same) = prefix-rest part (u ∷ text) here in ([], after, same)
  | inr later ↦
      let (before, after, same) = includes-HasPart text part (rw later at h) in
      (u ∷ before, after, ap (λ us. u ∷ us) same)
]

module _ (rt : Runtime) (key : String) where
  IsSecret-matches :
      (patterns : List String) → IsSecret rt patterns key → matches_pattern rt patterns key ≡ true
  unfolding matches_pattern
  IsSecret-matches [] h = absurd h
  IsSecret-matches (pattern ∷ patterns) (inl (before, after, same)) =
      let here : includes (units (rt.to_lower key)) (units (rt.to_lower pattern)) ≡ true =
        rw same (includes-append before (units (rt.to_lower pattern)) after) in
      ground (arith, here)
  IsSecret-matches (pattern ∷ patterns) (inr h) = ground (arith, IsSecret-matches patterns h)

  matches-IsSecret :
      (patterns : List String) → matches_pattern rt patterns key ≡ true → IsSecret rt patterns key
  unfolding matches_pattern
  matches-IsSecret [] h = absurd cc
  matches-IsSecret (pattern ∷ patterns) h =
      elim (Bool-cases (includes (units (rt.to_lower key)) (units (rt.to_lower pattern)))) [
        | inl here ↦ inl (includes-HasPart _ _ here)
        | inr later ↦ inr (matches-IsSecret patterns (rw later at h))
      ]

pub matches_pattern_iff :
    (rt : Runtime) (patterns : List String) (key : String)
    → (matches_pattern rt patterns key ≡ true) ↔ IsSecret rt patterns key
matches_pattern_iff rt patterns key =
    (matches-IsSecret rt key patterns, IsSecret-matches rt key patterns)
