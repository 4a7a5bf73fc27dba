-- ===== src/Policy/Glob/Laws.antt =====
-- What a glob means, stated without the matcher.
use Prim.Native.Char.{code}
use mcprelay.Base.{
  ℕ, String, ◌≡◌, ◌≢◌, refl, ap, ◌∙◌, ◌↔◌, ◌⊎◌, inl, inr, true, false, List, [], ◌∷◌, ◌++◌, arith,
  All, map, nat_eq, units, push_units, Bool-cases,
}
use mcprelay.Policy.Glob.{
  character_atoms, Atom, run, one, unit, glob_to_regex, is_dot, regex_matches, glob_matches,
}

-- `run` reads any stretch without line terminators, `one` one unit that is none, `unit u` reads u;
-- together they read the whole text.
abbrev Denotes : List Atom → List ℕ → Type 0
Denotes [] us = us ≡ []
Denotes (run ∷ atoms) us =
    (front back : List ℕ) × (us ≡ front ++ back)
    × All (λ u. is_dot u ≡ true) front
    × Denotes atoms back
Denotes (one ∷ atoms) us =
    (u : ℕ) × (back : List ℕ) × (us ≡ u ∷ back) × (is_dot u ≡ true) × Denotes atoms back
Denotes (unit v ∷ atoms) us = (back : List ℕ) × (us ≡ v ∷ back) × Denotes atoms back

sound : (atoms : List Atom) (us : List ℕ) → regex_matches atoms us ≡ true → Denotes atoms us
unfolding regex_matches
sound [] [] h = refl
sound [] (u ∷ us) h = cc
sound (run ∷ atoms) [] h = ([], [], refl, tt, sound atoms [] h)
sound (run ∷ atoms) (u ∷ us) h = elim (Bool-cases (regex_matches atoms (u ∷ us))) [
  | inl now ↦ ([], u ∷ us, refl, tt, sound atoms (u ∷ us) now)
  | inr later ↦
      let dot : is_dot u ≡ true = ground (arith, h, later) in
      let rest : regex_matches (run ∷ atoms) us ≡ true = ground (arith, h, later) in
      let (front, back, e, dots, d) = sound (run ∷ atoms) us rest in
      (u ∷ front, back, ap (λ (xs : List ℕ). u ∷ xs) e, (dot, dots), d)
]
sound (one ∷ atoms) [] h = cc
sound (one ∷ atoms) (u ∷ us) h =
    (u, us, refl, ground (arith, h), sound atoms us (ground (arith, h)))
sound (unit v ∷ atoms) [] h = cc
sound (unit v ∷ atoms) (u ∷ us) h = (us, ground (arith, h), sound atoms us (ground (arith, h)))

run_front :
    (atoms : List Atom) (front back : List ℕ)
    → All (λ u. is_dot u ≡ true) front
    → regex_matches atoms back ≡ true
    → regex_matches (run ∷ atoms) (front ++ back) ≡ true
unfolding regex_matches
run_front atoms [] [] h k = k
run_front atoms [] (u ∷ us) h k = ground (arith, k)
run_front atoms (u ∷ us) back h k = ground (arith, h.0, run_front atoms us back h.1 k)

complete : (atoms : List Atom) (us : List ℕ) → Denotes atoms us → regex_matches atoms us ≡ true
unfolding regex_matches
complete [] us d = rw d
complete (run ∷ atoms) us (front, back, e, dots, d) =
    rw e (run_front atoms front back dots (complete atoms back d))
complete (one ∷ atoms) us (u, back, e, dot, d) = rw e (ground (arith, dot, complete atoms back d))
complete (unit v ∷ atoms) us (back, e, d) = rw e (ground (arith, complete atoms back d))

-- One character in front of a text that the rest of the glob reads.
abbrev pub ReadsCharacter : ℕ → (List ℕ → Type 0) → List ℕ → Type 0
ReadsCharacter c Rest us =
    ((c ≡ b'*')
      × ((front back : List ℕ) × (us ≡ front ++ back)
          × All (λ u. is_dot u ≡ true) front
          × Rest back))
    ⊎ ((c ≡ b'?') × ((u : ℕ) × (back : List ℕ) × (us ≡ u ∷ back) × (is_dot u ≡ true) × Rest back))
    ⊎ ((c ≢ b'*') × (c ≢ b'?') × ((back : List ℕ) × (us ≡ push_units c [] ++ back) × Rest back))

-- What a glob reads, by its characters alone: `*` any stretch, `?` one code unit, neither of them a
-- line terminator, and any other character its own code units; the whole of it reads the whole text.
abbrev pub Reads : String → List ℕ → Type 0
Reads String.[] us = us ≡ []
Reads (String.◌∷◌ c pattern) us = ReadsCharacter (code c) (Reads pattern) us

before_units :
    (vs : List ℕ) (atoms : List Atom) (us : List ℕ)
    → Denotes (map unit vs ++ atoms) us
    → (back : List ℕ) × (us ≡ vs ++ back) × Denotes atoms back
before_units [] atoms us d = (us, refl, d)
before_units (v ∷ vs) atoms us (rest, e, d) =
    let (back, f, k) = before_units vs atoms rest d in (back, e ∙ ap (λ (xs : List ℕ). v ∷ xs) f, k)

after_units :
    (vs : List ℕ) (atoms : List Atom) (us back : List ℕ)
    → us ≡ vs ++ back
    → Denotes atoms back
    → Denotes (map unit vs ++ atoms) us
after_units [] atoms us back e d = rw e d
after_units (v ∷ vs) atoms us back e d =
    (vs ++ back, e, after_units vs atoms (vs ++ back) back refl d)

module _ (c : ℕ) (atoms : List Atom) (Rest : List ℕ → Type 0) where
  to_reads :
      ((back : List ℕ) → Denotes atoms back → Rest back)
      → (us : List ℕ) → Denotes (character_atoms c ++ atoms) us
      → ReadsCharacter c Rest us
  to_reads k us d = elim (Bool-cases (nat_eq c b'*')) [
    | inl star ↦
        let (front, back, e, dots, rest) = rw star at d in
        inl (ground (arith, star), (front, back, e, dots, k back rest))
    | inr plain ↦ elim (Bool-cases (nat_eq c b'?')) [
      | inl mark ↦
          let (u, back, e, dot, rest) = rw (plain, mark) at d in
          inr (inl (ground (arith, mark), (u, back, e, dot, k back rest)))
      | inr other ↦
          let (back, e, rest) = before_units (push_units c []) atoms us (rw (plain, other) at d) in
          inr (inr (ground (arith, plain), ground (arith, other), (back, e, k back rest)))
    ]
  ]

  from_reads :
      ((back : List ℕ) → Rest back → Denotes atoms back)
      → (us : List ℕ) → ReadsCharacter c Rest us
      → Denotes (character_atoms c ++ atoms) us
  from_reads k us (inl (star, (front, back, e, dots, rest))) =
      rw star (front, back, e, dots, k back rest)
  from_reads k us (inr (inl (mark, (u, back, e, dot, rest)))) =
      rw mark (u, back, e, dot, k back rest)
  from_reads k us (inr (inr (plain, other, (back, e, rest)))) =
      let not_star : nat_eq c b'*' ≡ false = ground (arith, plain) in
      let not_mark : nat_eq c b'?' ≡ false = ground (arith, other) in
      rw (not_star, not_mark) (after_units (push_units c []) atoms us back e (k back rest))

Denotes-Reads :
    (pattern : String) (us : List ℕ) → Denotes (glob_to_regex pattern) us → Reads pattern us
unfolding glob_to_regex
Denotes-Reads String.[] us d = d
Denotes-Reads (String.◌∷◌ c pattern) us d =
    to_reads (code c) (glob_to_regex pattern) (Reads pattern) (Denotes-Reads pattern) us d

Reads-Denotes :
    (pattern : String) (us : List ℕ) → Reads pattern us → Denotes (glob_to_regex pattern) us
unfolding glob_to_regex
Reads-Denotes String.[] us d = d
Reads-Denotes (String.◌∷◌ c pattern) us d =
    from_reads (code c) (glob_to_regex pattern) (Reads pattern) (Reads-Denotes pattern) us d

-- A glob accepts exactly the tool names that its characters read: `*` any stretch, `?` one code unit,
-- neither of them a line terminator, and every other character itself.
pub glob_matches_iff :
    (pattern tool : String) → (glob_matches pattern tool ≡ true) ↔ Reads pattern (units tool)
unfolding glob_matches
glob_matches_iff pattern tool = (
  λ h. Denotes-Reads pattern (units tool) (sound (glob_to_regex pattern) (units tool) h),
  λ r. complete (glob_to_regex pattern) (units tool) (Reads-Denotes pattern (units tool) r),
)
