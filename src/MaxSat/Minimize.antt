-- ===== src/MaxSat/Minimize.antt =====
-- EvalMaxSAT.h, oneMinimize: literals are taken out of a core as long as it stays one.
-- The clock is the parameter `time_up`, asked with the number of readings made before.
pub mod Removal
pub mod Core
use eval_max_sat.Common.{
  ℕ, zero, suc, ◌+◌, ◌-◌, ◌*◌, List, [], ◌∷◌, ◌++◌, if◌then◌else◌, Bool, true, false, ltb, length,
  get_or, take, ◌==◌,
}
use eval_max_sat.Common.Int.{ℤ, pos, negsuc, neg, abs, ltb_ℤ, eqb_ℤ, is_zero}
use eval_max_sat.Common.Assign.{Clause}
use eval_max_sat.Lazy.{ClauseSink}
use eval_max_sat.Weights.{WeightVector, get}
use eval_max_sat.MaxSat.Oracle.{SatSolver}
use eval_max_sat.MaxSat.Clique.{back, pop_back, swap_remove}

-- The comparison that the sort is given: heavier first, then the smaller variable.
unfoldable pub heavier : WeightVector → ℤ → ℤ → Bool
heavier poids lit_a lit_b =
    if ltb_ℤ (get poids lit_b) (get poids lit_a)
    then true
    else if ltb_ℤ (get poids lit_a) (get poids lit_b)
    then false
    else ltb (abs lit_a) (abs lit_b)

unfoldable pub sort_insert : (ℤ → ℤ → Bool) → ℤ → Clause → Clause
sort_insert before l [] = l ∷ []
sort_insert before l (k ∷ c) = if before k l then k ∷ sort_insert before l c else l ∷ k ∷ c

-- std::sort: any sort gives this list, if no two literals are of one variable.
unfoldable pub sort : (ℤ → ℤ → Bool) → Clause → Clause
unfolding sort_insert
sort before [] = []
sort before (l ∷ c) = sort_insert before l (sort before c)

-- The value returned, conflict.size() / (double)weight, as the two numbers.
pub data Quality : Type 0 where
  nothing_left : Quality
  quality : ℕ → ℤ → Quality

module _ (T : ClauseSink) (O : SatSolver T) (poids : WeightVector) (time_up : ℕ → Bool) where
  open T use {State}

  -- What the first loop ends with: a return, or the core for the second loop.
  pub data FirstLoop : Type 0 where
    stop : State → Clause → Quality → FirstLoop
    go_on : State → Clause → ℕ → FirstLoop

  -- while(solver->solveLimited(conflict, 10*B, conflict.back()) == 0): each round takes the last
  -- literal out, and as many rounds as literals are enough.
  unfoldable pub drop_last : ℕ → State → Clause → ℕ → ℕ → FirstLoop
  drop_last zero s conflict b readings = stop s conflict nothing_left
  drop_last (suc fuel) s conflict b readings =
      let (s', answer) = O.solve_limited s conflict (pos (10 * b)) (back conflict) in
      let rest = drop_last fuel s' (pop_back conflict) b (suc readings) in
      if is_zero answer
      then (if length (pop_back conflict) == 0
          then stop s' (pop_back conflict) nothing_left
          else if time_up readings
          then stop s' (pop_back conflict)
              (quality (length (pop_back conflict)) (get poids (back (pop_back conflict))))
          else rest)
      else go_on s' conflict readings

  -- for(int i = conflict.size() - 2; i >= 0; i--): the first argument is i + 1.
  unfoldable pub drop_others : ℕ → State → Clause → ℕ → ℕ → State × Clause
  drop_others zero s conflict b readings = (s, conflict)
  drop_others (suc i) s conflict b readings =
      let (s', answer) = O.solve_limited s conflict (pos b) (get_or conflict i (pos 0)) in
      let left = (if is_zero answer then swap_remove conflict i else conflict) in
      let rest = drop_others i s' left b (suc readings) in
      if time_up readings then (s', left) else rest

  abbrev pub second_loop : FirstLoop → ℕ → State × Clause × Quality
  second_loop (stop s conflict p) b = (s, conflict, p)
  second_loop (go_on s conflict readings) b =
      let (s', left) = drop_others (length conflict - 1) s conflict b readings in
      (s', left, quality (length left) (get poids (back conflict)))

  unfoldable pub one_minimize : State → Clause → ℕ → Bool → State × Clause × Quality
  unfolding drop_last drop_others heavier sort
  one_minimize s conflict b sorted =
      let c = (if sorted then sort (heavier poids) conflict else conflict) in
      if length c == 0 then (s, c, nothing_left) else second_loop (drop_last (length c) s c b 0) b
