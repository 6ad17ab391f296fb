-- ===== src/MaxSat/Clique/Balance.antt =====
-- processAtMostOne: the arithmetic of a round, in which each literal or its opposite is true.
use eval_max_sat.Common.{
  ℕ, suc, ◌+◌, ◌*◌, ◌%◌, ◌^◌, ◌≤◌, ◌<◌, ◌≡◌, refl, sym, ap, ◌∙◌, [], ◌∷◌, if◌then◌else◌, Bool, true,
  false, not, length, All, map, arith, inl, inr, Bool-cases, ◌||◌,
}
use native.Mathlib.Nat.{mul-suc}
use eval_max_sat.Common.Int.{ℤ, neg, abs}
use eval_max_sat.Common.Assign.{Assignment, Clause, holds, holds_clause, holds-neg}
use eval_max_sat.Weights.{WeightVector, get, size}
use eval_max_sat.Card.Trues.{trues}
use eval_max_sat.MaxSat.{add_cost}
use eval_max_sat.MaxSat.Objective.{weight_limit}
use eval_max_sat.MaxSat.Core.Correct.{IsHeavy}
use eval_max_sat.MaxSat.Clique.Rotate.{weight_sum}

-- Each literal is true or its opposite is.
pub trues-both :
    (a : Assignment) (c : Clause)
    → All (λ l. 0 < abs l) c
    → trues a (map neg c) + trues a c ≡ length c
trues-both a [] p = refl
trues-both a (l ∷ c) (p, ps) =
    let n : holds a (neg l) ≡ not (holds a l) = holds-neg a l p in
    let rest = trues-both a c ps in ground (arith, n, rest)

pub holds_clause-trues : (a : Assignment) (c : Clause) → holds_clause a c ≡ true → 0 < trues a c
holds_clause-trues a [] h = cc
holds_clause-trues a (l ∷ c) h = elim (Bool-cases (holds a l)) [
  | inl y ↦ rw y (omega arith)
  | inr z ↦
      rw z (omega (arith, holds_clause-trues a c (sym (ap (λ b. b || holds_clause a c) z) ∙ h)))
]

pub no_clause-trues : (a : Assignment) (c : Clause) → holds_clause a c ≡ false → trues a c ≡ 0
no_clause-trues a [] h = refl
no_clause-trues a (l ∷ c) h = elim (Bool-cases (holds a l)) [
  | inl y ↦ absurd (clash (holds_clause a c) (sym (ap (λ b. b || holds_clause a c) y) ∙ h))
  | inr z ↦ rw z (omega (arith, no_clause-trues a c (sym (ap (λ b. b || holds_clause a c) z) ∙ h)))
]
  where
    clash : (b : Bool) → (true || b) ≡ false → ⊥
    clash b e = absurd (ground (arith, e))

-- What was charged to all but one literal, and to the clause, was charged to the literals.
pub balance :
    (cost new old m k falsified true_ones : ℕ) (test : Bool)
    → new + m * falsified ≡ old
    → falsified + true_ones ≡ suc k
    → true_ones ≤ 1
    → (test ≡ true → 0 < true_ones)
    → (test ≡ false → true_ones ≡ 0)
    → cost + m * k + new + (if test then 0 else m) ≡ cost + old
balance cost new old m k f t true e s b p q =
    let one : f ≡ k = omega (arith, p refl) in
    let e2 : new + m * k ≡ old = ap (λ y. new + m * y) (sym one) ∙ e in sums (m * k) e2
  where
    sums : (z : ℕ) → new + z ≡ old → cost + z + new + 0 ≡ cost + old
    sums z e = omega arith
balance cost new old m k f t false e s b p q =
    let all : f ≡ suc k = omega (arith, q refl) in
    let e2 : new + (m * k + m) ≡ old =
      ap (λ y. new + y) (sym (mul-suc m k)) ∙ ap (λ y. new + m * y) (sym all) ∙ e in
    sums (m * k) e2
  where
    sums : (z : ℕ) → new + (z + m) ≡ old → cost + z + new + m ≡ cost + old
    sums z e = omega arith

-- A `t_weight` is paid as it is where the sum fits.
pub add_cost-wrapped : (c p : ℕ) → c + p < weight_limit → add_cost c (p % 2 ^ 64) ≡ c + p
unfolding add_cost
add_cost-wrapped c p h = omega arith

pub IsHeavy-reads :
    (ws us : WeightVector) (c : Clause)
    → ((l : ℤ) → abs l < size ws → get us l ≡ get ws l)
    → size ws ≤ size us
    → All (IsHeavy ws 1) c
    → All (IsHeavy us 1) c
IsHeavy-reads ws us [] f le h = tt
IsHeavy-reads ws us (l ∷ c) f le ((ha, hs, (x, e, p, q, r)), h) =
    ((ha, omega arith, (x, f l hs ∙ e, p, q, r)), IsHeavy-reads ws us c f le h)

pub weight_sum-reads :
    (ws us : WeightVector) (c : Clause)
    → ((l : ℤ) → abs l < size ws → get us l ≡ get ws l)
    → All (IsHeavy ws 1) c
    → weight_sum us c ≡ weight_sum ws c
weight_sum-reads ws us [] f h = refl
weight_sum-reads ws us (l ∷ c) f ((ha, hs, x), h) =
    omega (arith, ap abs (f l hs), weight_sum-reads ws us c f h)
