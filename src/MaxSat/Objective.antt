-- ===== src/MaxSat/Objective.antt =====
-- EvalMaxSAT.h: the objective, that is the cost already paid and the weight of the falsified literals,
-- and the state before any cardinality constraint is attached.
use eval_max_sat.Common.{ℕ, ◌+◌, ◌<◌, ◌≡◌, arith, none, get_or}
use eval_max_sat.Common.Int.{ℤ, pos, abs}
use eval_max_sat.Common.Assign.{Assignment}
use eval_max_sat.Lazy.{ClauseSink}
use eval_max_sat.Weights.{size}
use eval_max_sat.Optimizer.Cost.{soft_cost}
use eval_max_sat.MaxSat.{MaxSat, CardMap, ok, to_weight, add_cost, relax}
use eval_max_sat.MaxSat.Index.{Indexed}

-- 2 ^ 63, the bound of a `long long`.
abbrev pub long_limit : ℕ
long_limit = 9_223_372_036_854_775_808

-- 2 ^ 64, the bound of a `t_weight`.
abbrev pub weight_limit : ℕ
weight_limit = 18_446_744_073_709_551_616

pub to_weight-pos : (n : ℕ) → n < long_limit → to_weight (pos n) ≡ n
unfolding to_weight
to_weight-pos n h = omega arith

pub add_cost-eq : (c w : ℕ) → c + w < weight_limit → add_cost c w ≡ c + w
unfolding add_cost
add_cost-eq c w h = omega arith

-- No literal is the output of a cardinality constraint.
abbrev NoCards : CardMap → Type 0
NoCards m = (i : ℕ) → get_or m i none ≡ none

module _ (T : ClauseSink) where
  pub record IsValid (s : MaxSat T) : Type 0 where
    pub indexed : Indexed s.map_weight s.poids
    pub no_cards : NoCards s.map_card
    pub sized : 0 < size s.poids

  -- The cost already paid, and what the falsified soft literals weigh.
  abbrev pub objective : MaxSat T → Assignment → ℕ
  objective s a = s.cost + soft_cost s.poids a

  pub relax-none :
      (s : MaxSat T) (lit : ℤ)
      → get_or s.map_card (abs lit) none ≡ none
      → relax T s lit ≡ ok (s, none)
  unfolding relax
  relax-none s lit e = rw (e, relax)
