-- ===== src/Optimizer/Improve.antt =====
-- EvalMaxSAT.h, LocalOptimizer2::optimize: a solution is improved one soft literal after another.
-- What is passed to the solver as its budget of conflicts is computed from a time in floating point: it
-- is the parameter `budget`.
use eval_max_sat.Common.{
  All-snoc, All-In, In, In-append_left, In-append_right, ◌<◌, ◌↔◌, ◌⊎◌, inl, inr, Bool-cases, arith,
  ℕ, zero, suc, List, [], ◌∷◌, ◌++◌, if◌then◌else◌, Bool, true, false, not, All, ◌≡◌, ◌≤◌, refl, ap,
  ◌∙◌,
}
use eval_max_sat.Common.Int.{ℤ, pos, negsuc, neg, abs, abs-neg, is_pos, is_neg, eqb_ℤ}
use eval_max_sat.Common.Loop.{for_to, for_to_inv, for_to_hits}
use eval_max_sat.Common.Assign.{Assignment, holds}
use eval_max_sat.Weights.{WeightVector, get, size}
use eval_max_sat.Weights.Laws.{get-neg}
use eval_max_sat.Optimizer.{Solution, at, calculate_cost_assign}
use eval_max_sat.Lazy.{ClauseSink}
use eval_max_sat.MaxSat.Oracle.{SatSolver}

-- softVarFalsified, without the weights, which nothing reads, and assumSatisfied.
pub record Split : Type 0 where
  pub soft_var_falsified : List ℤ
  pub assum_satisfied : List ℤ

abbrev pub falsify : Split → ℤ → Split
falsify p lit = record p { soft_var_falsified = p.soft_var_falsified ++ lit ∷ [] }

abbrev pub satisfy : Split → ℤ → Split
satisfy p lit = record p { assum_satisfied = p.assum_satisfied ++ lit ∷ [] }

unfoldable pub split_var : WeightVector → Solution → ℕ → Split → Split
split_var poids solution lit p =
    if is_pos (get poids (pos lit))
    then (if at solution lit then satisfy p (pos lit) else falsify p (pos lit))
    else if is_neg (get poids (pos lit))
    then (if at solution lit then falsify p (neg (pos lit)) else satisfy p (neg (pos lit)))
    else p

unfoldable pub split_soft : WeightVector → Solution → Split
unfolding split_var
split_soft poids solution =
    for_to 1 (size poids) (λ lit p. split_var poids solution lit p)
      (record { soft_var_falsified = []; assum_satisfied = [] })

module _ (T : ClauseSink) (O : SatSolver T) where
  open T use {State}

  -- for(int id = size - 1; id >= 0; id--): the last literal is tried first.
  unfoldable pub try_soft : State → List ℤ → List ℤ → ℤ → State × List ℤ × Bool
  try_soft st [] assum budget = (st, assum, false)
  try_soft st (lit ∷ lits) assum budget =
      let (st1, assum1, modify) = try_soft st lits assum budget in
      let (st2, answer) = O.solve_limited st1 (assum1 ++ lit ∷ []) budget (pos 0) in
      if eqb_ℤ answer (pos 1) then (st2, assum1 ++ lit ∷ [], true) else (st2, assum1, modify)

  -- The new solution, if a literal was gained, and its cost.
  unfoldable pub optimize :
      State → WeightVector → ℕ → (List ℤ → ℤ) → Solution → State × Solution × ℕ
  unfolding try_soft split_soft
  optimize st poids initial_weight budget solution =
      let p = split_soft poids solution in
      let (st1, assum, modify) =
        try_soft st p.soft_var_falsified p.assum_satisfied (budget p.soft_var_falsified) in
      let (st2, answer) = O.solve st1 assum in
      if modify
      then (
        st2,
        O.get_solution st2,
        calculate_cost_assign poids initial_weight (O.get_solution st2),
      )
      else (st1, solution, calculate_cost_assign poids initial_weight solution)

-- A literal of positive weight, of a variable in use.
abbrev pub IsSoft : WeightVector → ℤ → Type 0
IsSoft poids l = (0 < abs l) × (abs l < size poids) × (is_pos (get poids l) ≡ true)

abbrev IsSplit : WeightVector → Solution → Split → Type 0
IsSplit poids solution p =
    All (λ l. IsSoft poids l × (holds (at solution) l ≡ true)) p.assum_satisfied
    × All (λ l. IsSoft poids l × (holds (at solution) l ≡ false)) p.soft_var_falsified

holds-neg_pos : (a : Assignment) (k : ℕ) → 1 ≤ k → holds a (neg (pos k)) ≡ not (a k)
holds-neg_pos a zero h = elim h [ ]
holds-neg_pos a (suc k) h = refl

is_pos-neg : (v : ℤ) → is_neg v ≡ true → is_pos (neg v) ≡ true
is_pos-neg (pos n) h = cc
is_pos-neg (negsuc n) h = refl

is_neg-neg : (v : ℤ) → is_pos v ≡ true → (is_pos (neg v) ≡ false) × (is_neg (neg v) ≡ true)
is_neg-neg (pos zero) h = cc
is_neg-neg (pos (suc n)) h = (refl, refl)
is_neg-neg (negsuc n) h = cc

split_var-IsSplit :
    (poids : WeightVector) (solution : Solution) (k : ℕ) (p : Split)
    → 1 ≤ k
    → k < size poids
    → IsSplit poids solution p
    → IsSplit poids solution (split_var poids solution k p)
unfolding split_var
split_var-IsSplit poids solution k p l lt (s, f) =
    by_cases (is_pos (get poids (pos k))) (is_neg (get poids (pos k))) (at solution k) refl refl
      refl
  where
    negated : is_neg (get poids (pos k)) ≡ true → IsSoft poids (neg (pos k))
    negated e = (
      omega (arith, abs-neg (pos k)),
      omega (arith, abs-neg (pos k)),
      ap is_pos (get-neg poids (pos k) l) ∙ is_pos-neg (get poids (pos k)) e,
    )

    by_cases :
        (u v b : Bool)
        → is_pos (get poids (pos k)) ≡ u
        → is_neg (get poids (pos k)) ≡ v
        → at solution k ≡ b
        → IsSplit poids solution (
            if u
            then (if b then satisfy p (pos k) else falsify p (pos k))
            else if v
            then (if b then falsify p (neg (pos k)) else satisfy p (neg (pos k)))
            else p)
    by_cases true v true g h e = (All-snoc _ p.assum_satisfied (pos k) s ((l, lt, g), e), f)
    by_cases true v false g h e = (s, All-snoc _ p.soft_var_falsified (pos k) f ((l, lt, g), e))
    by_cases false true true g h e = (
      s,
      All-snoc _ p.soft_var_falsified (neg (pos k)) f
          (negated h, holds-neg_pos (at solution) k l ∙ ap not e),
    )
    by_cases false true false g h e = (
      All-snoc _ p.assum_satisfied (neg (pos k)) s
          (negated h, holds-neg_pos (at solution) k l ∙ ap not e),
      f,
    )
    by_cases false false b g h e = (s, f)

-- A literal that stands in one of the lists.
abbrev Stands : ℤ → Split → Type 0
Stands l p = In l p.assum_satisfied ⊎ In l p.soft_var_falsified

satisfy-Stands : (l k : ℤ) (p : Split) → Stands l p → Stands l (satisfy p k)
satisfy-Stands l k p (inl i) = inl (In-append_left l p.assum_satisfied (k ∷ []) i)
satisfy-Stands l k p (inr i) = inr i

falsify-Stands : (l k : ℤ) (p : Split) → Stands l p → Stands l (falsify p k)
falsify-Stands l k p (inl i) = inl i
falsify-Stands l k p (inr i) = inr (In-append_left l p.soft_var_falsified (k ∷ []) i)

satisfied-Stands : (l : ℤ) (p : Split) → Stands l (satisfy p l)
satisfied-Stands l p = inl (In-append_right l p.assum_satisfied (l ∷ []) (inl refl))

falsified-Stands : (l : ℤ) (p : Split) → Stands l (falsify p l)
falsified-Stands l p = inr (In-append_right l p.soft_var_falsified (l ∷ []) (inl refl))

split_var-Stands :
    (poids : WeightVector) (solution : Solution) (l : ℤ) (k : ℕ) (p : Split)
    → Stands l p
    → Stands l (split_var poids solution k p)
unfolding split_var
split_var-Stands poids solution l k p h =
    by_cases (is_pos (get poids (pos k))) (is_neg (get poids (pos k))) (at solution k)
  where
    by_cases :
        (u v b : Bool)
        → Stands l (
            if u
            then (if b then satisfy p (pos k) else falsify p (pos k))
            else if v
            then (if b then falsify p (neg (pos k)) else satisfy p (neg (pos k)))
            else p)
    by_cases true v true = satisfy-Stands l (pos k) p h
    by_cases true v false = falsify-Stands l (pos k) p h
    by_cases false true true = falsify-Stands l (neg (pos k)) p h
    by_cases false true false = satisfy-Stands l (neg (pos k)) p h
    by_cases false false b = h

-- The round of its variable puts a soft literal in a list.
split_var-soft :
    (poids : WeightVector) (solution : Solution) (l : ℤ) (p : Split)
    → IsSoft poids l
    → Stands l (split_var poids solution (abs l) p)
unfolding split_var
split_var-soft poids solution (pos n) p (h, lt, e) = elim (Bool-cases (at solution n)) [
  | inl y ↦ rw (e, y) (satisfied-Stands (pos n) p)
  | inr z ↦ rw (e, z) (falsified-Stands (pos n) p)
]
split_var-soft poids solution (negsuc n) p (h, lt, e) =
    let opposite : get poids (pos (suc n)) ≡ neg (get poids (negsuc n)) =
      get-neg poids (negsuc n) h in
    let (u, v) = is_neg-neg (get poids (negsuc n)) e in
    let u' : is_pos (get poids (pos (suc n))) ≡ false = ap is_pos opposite ∙ u in
    let v' : is_neg (get poids (pos (suc n))) ≡ true = ap is_neg opposite ∙ v in
    elim (Bool-cases (at solution (suc n))) [
      | inl y ↦ rw (u', v', y) (falsified-Stands (negsuc n) p)
      | inr z ↦ rw (u', v', z) (satisfied-Stands (negsuc n) p)
    ]

-- The literals that optimize takes for satisfied are just the soft literals that hold in the solution,
-- and those it takes for falsified just the soft literals that do not.
pub split_soft_lem :
    (poids : WeightVector) (solution : Solution) (l : ℤ)
    → (In l (split_soft poids solution).assum_satisfied
        ↔ (IsSoft poids l × (holds (at solution) l ≡ true)))
      × (In l (split_soft poids solution).soft_var_falsified
          ↔ (IsSoft poids l × (holds (at solution) l ≡ false)))
unfolding split_soft
split_soft_lem poids solution l = (
  (
    λ i. All-In _ p.assum_satisfied l both.0 i,
    λ (soft, t). elim (stands soft) [
      | inl i ↦ i
      | inr i ↦ absurd (clash t (All-In _ p.soft_var_falsified l both.1 i).1)
    ],
  ),
  (
    λ i. All-In _ p.soft_var_falsified l both.1 i,
    λ (soft, f). elim (stands soft) [
      | inl i ↦ absurd (clash (All-In _ p.assum_satisfied l both.0 i).1 f)
      | inr i ↦ i
    ],
  ),
)
  where
    start : Split
    start = record { soft_var_falsified = []; assum_satisfied = [] }

    p : Split
    p = for_to 1 (size poids) (λ lit q. split_var poids solution lit q) start

    both : IsSplit poids solution p
    both =
        for_to_inv (IsSplit poids solution) (λ lit q. split_var poids solution lit q) 1 (size poids)
          (λ k q lo hi h. split_var-IsSplit poids solution k q lo hi h) start (tt, tt)

    stands : IsSoft poids l → Stands l p
    stands soft =
        for_to_hits (Stands l) (λ lit q. split_var poids solution lit q) (abs l)
          (λ k q h. split_var-Stands poids solution l k q h)
          (λ q. split_var-soft poids solution l q soft) 1 (size poids) start soft.0 soft.1

    clash : holds (at solution) l ≡ true → holds (at solution) l ≡ false → ⊥
    clash t f = cc
