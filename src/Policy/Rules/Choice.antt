-- ===== src/Policy/Rules/Choice.antt =====
-- Which rule a decision follows.
use mcprelay.Base.{
  ℕ, zero, suc, ◌+◌, ◌≤◌, ◌<◌, ◌≡◌, refl, ap, ◌∙◌, ◌⊎◌, inl, inr, Bool, true, false, ◌&&◌, Option,
  none, some, List, [], ◌∷◌, arith, get_elem?, or_default, Bool-cases,
}
use mcprelay.Runtime.{Runtime}
use mcprelay.Policy.Rules.{
  CompiledRule, PolicyConfig, PolicyCall, PolicyDecision, Best, better, keep_better, select_rule,
  rule_matches, evaluate_call,
}

-- One more than the specificity, 0 for none.
abbrev score : Best → ℕ
score none = 0
score (some (rule, index)) = suc rule.specificity

unwrap : (x y : CompiledRule) → ◌≡◌ {A = Option CompiledRule} (some x) (some y) → x ≡ y
unwrap x y h = cc

module _ (matches : CompiledRule → Bool) where
  score-keep_better :
      (x : CompiledRule) (k : ℕ) (best : Best) → score best ≤ score (keep_better matches x k best)
  score-keep_better x k none = ground arith
  score-keep_better x k (some (b, i)) = ground arith

  score-keep_better_hit :
      (x : CompiledRule) (k : ℕ) (best : Best)
      → matches x ≡ true
      → suc x.specificity ≤ score (keep_better matches x k best)
  score-keep_better_hit x k none h = ground arith
  score-keep_better_hit x k (some (b, i)) h = ground arith

  keep_better-cases :
      (x : CompiledRule) (k : ℕ) (best : Best)
      → (keep_better matches x k best ≡ best)
        ⊎ ((keep_better matches x k best ≡ some (x, k))
            × (matches x ≡ true)
            × (score best ≤ x.specificity))
  keep_better-cases x k none = elim (Bool-cases (matches x)) [
    | inl hit ↦ inr (rw (hit) refl, hit, omega arith)
    | inr miss ↦ inl (rw (miss) refl)
  ]
  keep_better-cases x k (some (b, i)) = elim (Bool-cases (matches x && better x (some (b, i)))) [
    | inl hit ↦ inr (rw (hit) refl, ground arith, ground arith)
    | inr miss ↦ inl (rw (miss) refl)
  ]

  -- No rule that matches is above the choice, and none is passed over for a lesser one.
  score-select_rule :
      (k : ℕ) (rules : List CompiledRule) (best : Best)
      → score best ≤ score (select_rule matches k rules best)
  unfolding select_rule
  score-select_rule k [] best = omega arith
  score-select_rule k (x ∷ xs) best = omega (
    arith,
    score-keep_better x k best,
    score-select_rule (suc k) xs (keep_better matches x k best),
  )

  select_rule-bound :
      (k : ℕ) (rules : List CompiledRule) (best : Best) (j : ℕ) (x : CompiledRule)
      → get_elem? rules j ≡ some x
      → matches x ≡ true
      → suc x.specificity ≤ score (select_rule matches k rules best)
  unfolding select_rule
  select_rule-bound k [] best j x h hit = absurd cc
  select_rule-bound k (y ∷ ys) best zero x h hit =
      let same = unwrap y x h in
      omega (
        arith,
        score-keep_better_hit y k best (ap matches same ∙ hit),
        score-select_rule (suc k) ys (keep_better matches y k best),
        ap (λ (r : CompiledRule). r.specificity) same,
      )
  select_rule-bound k (y ∷ ys) best (suc j) x h hit =
      select_rule-bound (suc k) ys (keep_better matches y k best) j x h hit

  -- The choice of the loop: the best so far, or the rule at an index of the list, and then every
  -- rule that matches before it is less specific.
  IsChoice : ℕ → List CompiledRule → Best → Best → Type 0
  IsChoice k rules best result =
      (result ≡ best)
      ⊎ ((j : ℕ) × (r : CompiledRule) × (result ≡ some (r, k + j))
          × (get_elem? rules j ≡ some r)
          × (matches r ≡ true)
          × (score best ≤ r.specificity)
          × ((i : ℕ) (x : CompiledRule)
              → i < j
              → get_elem? rules i ≡ some x
              → matches x ≡ true
              → x.specificity < r.specificity))

  earlier_step :
      (k : ℕ) (y : CompiledRule) (ys : List CompiledRule) (best : Best) (r : CompiledRule) (i j : ℕ)
      (x : CompiledRule)
      → i < suc j
      → get_elem? (y ∷ ys) i ≡ some x
      → matches x ≡ true
      → score (keep_better matches y k best) ≤ r.specificity
      → ((i : ℕ) (x : CompiledRule)
          → i < j
          → get_elem? ys i ≡ some x
          → matches x ≡ true
          → x.specificity < r.specificity)
      → x.specificity < r.specificity
  earlier_step k y ys best r zero j x below h m above earlier =
      let same = unwrap y x h in
      omega (
        arith,
        score-keep_better_hit y k best (ap matches same ∙ m),
        ap (λ (r : CompiledRule). r.specificity) same,
      )
  earlier_step k y ys best r (suc i) j x below h m above earlier = earlier i x (omega arith) h m

  select_rule-IsChoice :
      (k : ℕ) (rules : List CompiledRule) (best : Best)
      → IsChoice k rules best (select_rule matches k rules best)
  unfolding IsChoice select_rule
  select_rule-IsChoice k [] best = inl refl
  select_rule-IsChoice k (y ∷ ys) best =
      let kept = keep_better matches y k best in
      elim (select_rule-IsChoice (suc k) ys kept) [
        | inl same ↦ elim (keep_better-cases y k best) [
          | inl stays ↦ inl (same ∙ stays)
          | inr (taken, hit, above) ↦ inr (
            0,
            y,
            same ∙ taken ∙ ap (λ (n : ℕ). some (y, n)) (omega arith),
            refl,
            hit,
            above,
            λ i x below h m. absurd (omega arith),
          )
        ]
        | inr (j, r, chosen, at, hit, above, earlier) ↦ inr (
          suc j,
          r,
          chosen ∙ ap (λ (n : ℕ). some (r, n)) (omega arith),
          at,
          hit,
          omega (arith, score-keep_better y k best),
          λ i x below h m. earlier_step k y ys best r i j x below h m above earlier,
        )
      ]

zero_add : (j : ℕ) → 0 + j ≡ j
zero_add j = omega arith

-- The call's caller, `local` where it names none, and whether a rule matches the call.
abbrev matches_call : Runtime → PolicyCall → CompiledRule → Bool
matches_call rt call rule = rule_matches rt rule call (or_default call.caller "local")

-- The default, and no rule matches; or the rule of a 1-based number, which matches, no rule that
-- matches being more specific, and every one before it less.
unfoldable pub IsDecision : Runtime → PolicyConfig → PolicyCall → PolicyDecision → Type 0
IsDecision rt policy call d =
    ((d.rule ≡ none)
      × (d.action ≡ policy.default_action)
      × ((i : ℕ) (x : CompiledRule)
          → get_elem? policy.rules i ≡ some x
          → matches_call rt call x ≡ false))
    ⊎ ((j : ℕ) × (r : CompiledRule) × (d.rule ≡ some (suc j))
        × (d.action ≡ r.action)
        × (get_elem? policy.rules j ≡ some r)
        × (matches_call rt call r ≡ true)
        × ((i : ℕ) (x : CompiledRule)
            → get_elem? policy.rules i ≡ some x
            → matches_call rt call x ≡ true
            → (x.specificity ≤ r.specificity) × (i < j → x.specificity < r.specificity)))

-- The decision on a call is the default action exactly if no rule matches; otherwise it is that of
-- the most specific rule that matches, the first of them in file order, and names its number.
pub evaluate_call-IsDecision :
    (rt : Runtime) (policy : PolicyConfig) (call : PolicyCall)
    → IsDecision rt policy call (evaluate_call rt policy call)
unfolding IsDecision evaluate_call IsChoice
evaluate_call-IsDecision rt policy call =
    let matches = matches_call rt call in
    let result = select_rule matches 0 policy.rules none in
    let bound = select_rule-bound matches 0 policy.rules none in
    elim (select_rule-IsChoice matches 0 policy.rules none) [
      | inl same ↦ inl (
        rw (same) refl,
        rw (same) refl,
        λ i x at. elim (Bool-cases (matches x)) [
          | inl hit ↦ absurd (omega (arith, bound i x at hit, ap score same))
          | inr miss ↦ miss
        ],
      )
      | inr (j, r, chosen, at, hit, above, earlier) ↦
          let at_index = chosen ∙ ap (λ (n : ℕ). some (r, n)) (zero_add j) in
          inr (
            j,
            r,
            rw (at_index) refl,
            rw (at_index) refl,
            at,
            hit,
            λ i x there m. (
              omega (arith, bound i x there m, ap score chosen),
              λ below. earlier i x below there m,
            ),
          )
    ]
