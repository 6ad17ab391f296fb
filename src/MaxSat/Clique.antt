-- ===== src/MaxSat/Clique.antt =====
-- EvalMaxSAT.h, processAtMostOne: soft literals of which at most one can be true give up their
-- common weight for one soft clause over them all.
pub mod Rotate
pub mod Left
pub mod GiveUp
pub mod Round
pub mod Balance
pub mod AllRounds
use eval_max_sat.Common.{
  ℕ, zero, suc, ◌-◌, ◌*◌, ◌%◌, ◌^◌, List, [], ◌∷◌, ◌++◌, some, if◌then◌else◌, length, get_or, set,
  take,
}
use eval_max_sat.Common.Int.{ℤ, pos, neg, is_zero}
use eval_max_sat.Common.Assign.{Clause}
use eval_max_sat.Lazy.{ClauseSink}
use eval_max_sat.Weights.{get, size, write}
use eval_max_sat.Weights
use eval_max_sat.WeightMap.{insert, erase}
use eval_max_sat.MaxSat.{
  MaxSat, ok, err, unreachable, Result, ◌>>=◌, to_weight, add_cost, weight_of, with_poids, relax,
  add_clause,
}
use eval_max_sat.MaxSat.Core.{min_weight}

-- clause.back()
abbrev pub back : Clause → ℤ
back [] = pos 0
back (l ∷ []) = l
back (l ∷ k ∷ c) = back (k ∷ c)

-- clause.pop_back()
abbrev pub pop_back : Clause → Clause
pop_back [] = []
pop_back (l ∷ []) = []
pop_back (l ∷ k ∷ c) = l ∷ pop_back (k ∷ c)

-- clause[i] = clause.back(); clause.pop_back();
abbrev pub swap_remove : Clause → ℕ → Clause
swap_remove c i = pop_back (set c i (back c))

module _ (T : ClauseSink) where
  -- One literal of the clause gives up the weight `w`.
  unfoldable pub give_up : MaxSat T → ℤ → ℤ → MaxSat T
  give_up s lit w =
      with_poids T
        (record s { map_weight = erase s.map_weight (to_weight (weight_of T s lit)) lit })
        (Weights.add s.poids lit (neg w))

  -- for(i = 0; i < clause.size(); ): with `n` rounds left, one for each literal that was there.
  unfoldable pub give_up_all : ℕ → MaxSat T → Clause → ℕ → ℤ → Result (MaxSat T × Clause)
  give_up_all zero s c i w = ok (s, c)
  give_up_all (suc n) s c i w =
      let lit = get_or c i (pos 0) in
      let s1 = give_up s lit w in
      let gone : Result (MaxSat T × Clause) = (do
        (s2, _) ← relax T s1 lit
        give_up_all n s2 (swap_remove c i) i w) in
      let kept =
        give_up_all n
          (record s1 { map_weight = insert s1.map_weight (to_weight (weight_of T s1 lit)) lit }) c
          (suc i) w in
      if is_zero (weight_of T s1 lit) then gone else kept

  -- One round of the outer loop: the weight, the literals, the cost and the new soft clause.
  unfoldable pub clique_round : MaxSat T → Clause → Result (MaxSat T × Clause × ℤ)
  clique_round s c =
      let w = min_weight T s c (weight_of T s (get_or c 0 (pos 0))) in
      do
        (s1, rest) ← give_up_all (length c) s c 0 w
        (s2, soft) ←
            add_clause T
              (record s1 { cost = add_cost s1.cost ((to_weight w * (length c - 1)) % 2 ^ 64) }) c
              (some w)
        ok (s2, rest, soft)

  -- while(clause.size() > 1): a round takes out one literal at least, the one of least weight.
  unfoldable pub clique_rounds : ℕ → MaxSat T → Clause → List ℤ → Result (MaxSat T × List ℤ)
  clique_rounds fuel s [] new = ok (s, new)
  clique_rounds fuel s (l ∷ []) new = ok (s, new ++ l ∷ [])
  clique_rounds zero s (l ∷ k ∷ c) new = err unreachable
  clique_rounds (suc fuel) s (l ∷ k ∷ c) new = do
    (s', rest, soft) ← clique_round s (l ∷ k ∷ c)
    clique_rounds fuel s' rest (new ++ soft ∷ [])

  unfoldable pub process_at_most_one : MaxSat T → Clause → Result (MaxSat T × List ℤ)
  process_at_most_one s c = clique_rounds (length c) s c []
