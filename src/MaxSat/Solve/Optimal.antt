-- ===== src/MaxSat/Solve/Optimal.antt =====
-- The answer of a full search in the last stratum is an optimum of the formula as it stands.
use eval_max_sat.Common.{
  All-In, ℕ, zero, suc, ◌+◌, ◌≤◌, ◌<◌, ◌≡◌, refl, ap, ◌∙◌, subst, List, [], ◌∷◌, Bool, true, false,
  not, ltb, leb, get_or, any, All, arith, ◌&&◌,
}
use eval_max_sat.Common.Int.{ℤ, pos, negsuc, neg, abs, eqb_ℤ, eqb_ℤ_iff}
use eval_max_sat.Common.Assign.{Assignment, holds, holds_all}
use eval_max_sat.Lazy.{ClauseSink}
use eval_max_sat.Weights.{WeightVector, get}
use eval_max_sat.Weights.Laws.{get_pos, get_negsuc}
use eval_max_sat.WeightMap.{WeightMap, bucket, has}
use eval_max_sat.Optimizer.Cost.{charge, charges, soft_cost}
use eval_max_sat.MaxSat.{MaxSat, ok}
use eval_max_sat.MaxSat.Index.{Indexed}
use eval_max_sat.MaxSat.Objective.{objective}
use eval_max_sat.MaxSat.Query.{init_assum}
use eval_max_sat.MaxSat.Strata.Assumptions.{In-init_assum}
use eval_max_sat.MaxSat.Oracle.{SatSolver, valued}
use eval_max_sat.MaxSat.AtMostOne.{with_solver}
use eval_max_sat.MaxSat.Solve.{Environment, returns, next_stratum, outer_round}

charges-none :
    (i : ℕ) (ws : List ℤ) (a : Assignment)
    → ((k : ℕ) → charge (get_or ws k (pos 0)) (a (i + k)) ≡ 0)
    → charges i ws a ≡ 0
unfolding charges
charges-none i [] a h = refl
charges-none i (w ∷ ws) a h =
    let first : charge w (a (i + 0)) ≡ 0 = h 0 in
    let at_i : i + 0 ≡ i = omega arith in
    let first' : charge w (a i) ≡ 0 = subst (λ n. charge w (a n) ≡ 0) at_i first in
    omega (
      arith,
      first',
      charges-none (suc i) ws a
          (λ k. subst (λ n. charge (get_or ws k (pos 0)) (a n) ≡ 0) (moved i k) (h (suc k))),
    )
  where
    moved : (m n : ℕ) → m + suc n ≡ suc m + n
    moved m n = omega arith

charge-none :
    (w : ℤ) (b : Bool)
    → ((n : ℕ) → w ≡ pos (suc n) → b ≡ true)
    → ((n : ℕ) → w ≡ negsuc n → b ≡ false)
    → charge w b ≡ 0
charge-none (pos zero) b p q = ground arith
charge-none (pos (suc n)) b p q = rw (p n refl) refl
charge-none (negsuc n) b p q = rw (q n refl) refl

one_add : (n : ℕ) → suc n ≡ 1 + n
one_add n = omega arith

-- Nothing is charged where every literal of a positive weight holds.
soft_cost-none :
    (ws : WeightVector) (a : Assignment)
    → ((l : ℤ) (n : ℕ) → 0 < abs l → get ws l ≡ pos (suc n) → holds a l ≡ true)
    → soft_cost ws a ≡ 0
unfolding soft_cost
soft_cost-none [] a h = refl
soft_cost-none (w ∷ ws) a h = charges-none 1 ws a (λ k. charge-none _ _ (plain k) (negated k))
  where
    plain : (k n : ℕ) → get_or ws k (pos 0) ≡ pos (suc n) → a (1 + k) ≡ true
    plain k n e =
        subst (λ i. a i ≡ true) (one_add k)
          (h (pos (suc k)) n (omega arith) (get_pos (w ∷ ws) (suc k) ∙ e))

    negated : (k n : ℕ) → get_or ws k (pos 0) ≡ negsuc n → a (1 + k) ≡ false
    negated k n e =
        let held : not (a (suc k)) ≡ true =
          h (negsuc k) n (omega arith) (get_negsuc (w ∷ ws) k ∙ ap neg e) in
        subst (λ i. a i ≡ false) (one_add k) (ground (arith, held))

soft_cost-assumed :
    (m : WeightMap) (ws : WeightVector) (a : Assignment)
    → Indexed m ws
    → All (λ l. holds a l ≡ true) (init_assum m 1)
    → soft_cost ws a ≡ 0
unfolding has
soft_cost-assumed m ws a ix h = soft_cost-none ws a (λ l n p e.
    All-In (λ k. holds a k ≡ true) (init_assum m 1) l h
      (In-init_assum m 1 (suc n) l (omega arith) (found l n p e)))
  where
    found :
        (l : ℤ) (n : ℕ)
        → 0 < abs l
        → get ws l ≡ pos (suc n)
        → any (eqb_ℤ l) (bucket m (suc n)) ≡ true
    found l n p e =
        let wide : ltb 0 (suc n) ≡ true = ground arith in
        ix (suc n) l p
        ∙ ap (λ b. b && eqb_ℤ (get ws l) (pos (suc n))) wide
        ∙ (eqb_ℤ_iff (get ws l) (pos (suc n))).1 e

module _ (T : ClauseSink) (O : SatSolver T) (E : Environment) where
  -- What `solve` promises of the state it returns with.
  pub record IsOptimum (s s' : MaxSat T) : Type 0 where
    pub satisfies : holds_all (valued s'.solution) (T.clauses s.solver) ≡ true
    pub cost_is : s'.solution_cost ≡ objective T s (valued s'.solution)
    pub least :
        (a : Assignment)
        → holds_all a (T.clauses s.solver) ≡ true
        → s'.solution_cost ≤ objective T s a

  -- In the last stratum, the weight map in step with the weights and the cost below the best
  -- solution's, a satisfiable answer of the full search ends solve with the answer true: the solution
  -- satisfies the clauses, its cost is its objective, and no assignment that satisfies the clauses has
  -- a smaller one.
  pub outer_round_optimal :
      (fuel : ℕ) (poids0 : WeightVector) (cost0 : ℕ) (s : MaxSat T)
      → Indexed s.map_weight s.poids
      → s.cost < s.solution_cost
      → (O.solve s.solver (init_assum s.map_weight 1)).1 ≡ true
      → (s' : MaxSat T) × (outer_round T O E fuel poids0 cost0 s (init_assum s.map_weight 1) 1
          ≡ ok (returns s' true))
        × IsOptimum s s'
  unfolding outer_round next_stratum
  outer_round_optimal fuel poids0 cost0 s ix lt sat =
      let st : T.State = (O.solve s.solver (init_assum s.map_weight 1)).0 in
      let found = O.solve_sat s.solver (init_assum s.map_weight 1) sat in
      let a : Assignment = valued (O.get_solution st) in
      let free : soft_cost s.poids a ≡ 0 = soft_cost-assumed s.map_weight s.poids a ix found.1 in
      let z : leb s.solution_cost s.cost ≡ false = ground arith in
      (
        record (with_solver T O s st) { solution_cost = s.cost; solution = O.get_solution st },
        rw (z, sat) refl,
        record { satisfies = found.0; cost_is = omega (arith, free); least = λ b h. omega arith },
      )
