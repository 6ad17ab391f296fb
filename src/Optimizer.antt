-- ===== src/Optimizer.antt =====
-- lib/EvalMaxSAT/src/EvalMaxSAT.h, class LocalOptimizer2: the cost of a solution under the weights.
-- A `t_weight` is an unsigned 64-bit number: sums of costs wrap at 2 ^ 64.
pub mod Cost
pub mod Improve
use eval_max_sat.Common.{
  ℕ, zero, suc, ◌+◌, ◌%◌, ◌^◌, List, [], ◌∷◌, if◌then◌else◌, Bool, true, false, get_or,
}
use eval_max_sat.Common.Int.{ℤ, pos, negsuc, abs, is_pos, is_neg}
use eval_max_sat.Common.Assign.{Assignment}
use eval_max_sat.Common.Loop.{for_to}
use eval_max_sat.Weights.{WeightVector, get, size}

-- One value for each variable; the source asserts that no index is out of range.
abbrev pub Solution : Type 0
Solution = List Bool

abbrev pub at : Solution → Assignment
at solution i = get_or solution i false

unfoldable pub add_weight : ℕ → ℕ → ℕ
add_weight a b = (a + b) % 2 ^ 64

-- The body of the loop over the variables.
unfoldable pub charge_var : WeightVector → Assignment → ℕ → ℕ → ℕ
unfolding add_weight
charge_var poids a lit cost =
    if is_pos (get poids (pos lit))
    then (if a lit then cost else add_weight cost (abs (get poids (pos lit))))
    else if is_neg (get poids (pos lit))
    then (if a lit then add_weight cost (abs (get poids (pos lit))) else cost)
    else cost

unfoldable pub calculate_cost_assign : WeightVector → ℕ → Solution → ℕ
unfolding charge_var
calculate_cost_assign poids initial_weight solution =
    add_weight (for_to 1 (size poids) (λ lit cost. charge_var poids (at solution) lit cost) 0)
      initial_weight
