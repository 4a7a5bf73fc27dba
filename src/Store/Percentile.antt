-- ===== src/Store/Percentile.antt =====
-- The percentile of the latencies.
use mcprelay.Base.{
  ℕ, zero, suc, ◌+◌, ◌-◌, ◌*◌, ◌≤◌, ◌<◌, min, max, ◌≡◌, refl, sym, ap, ◌∙◌, Option, some, List, [],
  ◌∷◌, length, get_elem?, or_default, arith,
}
use mcprelay.Base.Int.{ℤ, pos}
use mcprelay.Store.{AskedPercentile, p50, p95, percent, rank_of, nearest_rank}

module _ {A : Type 0} where
  get_elem?-below : (xs : List A) (i : ℕ) → i < length xs → (x : A) × (get_elem? xs i ≡ some x)
  get_elem?-below [] i h = absurd (omega arith)
  get_elem?-below (x ∷ xs) zero h = (x, refl)
  get_elem?-below (x ∷ xs) (suc i) h = get_elem?-below xs i (omega arith)

abbrev index_of : AskedPercentile → ℕ → ℕ
index_of p n = min (max (rank_of p n) 1) n - 1

index_lem :
    (p : AskedPercentile) (n : ℕ)
    → 1 ≤ n
    → (index_of p n < n)
      × (percent p * n ≤ 100 * (index_of p n + 1))
      × (100 * index_of p n < percent p * n)
index_lem p50 n h = (omega arith, omega arith, omega arith)
index_lem p95 n h = (omega arith, omega arith, omega arith)

-- The 50th or 95th percentile of a list is one of its values, at an index that at least 50, or 95, in
-- a hundred of the values reach, up to it, and fewer than that before it. The list is not empty.
pub nearest_rank-at :
    (xs : List ℤ) (p : AskedPercentile)
    → 1 ≤ length xs
    → (i : ℕ) × (get_elem? xs i ≡ some (nearest_rank xs p))
      × (percent p * length xs ≤ 100 * (i + 1))
      × (100 * i < percent p * length xs)
unfolding nearest_rank
nearest_rank-at xs p filled =
    let (inside, above, under) = index_lem p (length xs) filled in
    let (x, found) = get_elem?-below xs (index_of p (length xs)) inside in
    (
      index_of p (length xs),
      found ∙ ap (λ (o : Option ℤ). some (or_default o (pos 0))) (sym found),
      above,
      under,
    )
