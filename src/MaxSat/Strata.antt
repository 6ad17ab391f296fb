-- ===== src/MaxSat/Strata.antt =====
-- EvalMaxSAT.h, chooseNextMinWeight: the next weight from which on the soft literals are assumed.
-- The test `w < previousWeight * 0.5` is in floating point: it is the parameter `below_half`.
-- Where the map's begin() is decremented, which is undefined, it ends with the error `before_begin`.
pub mod Outcome
pub mod Choice
pub mod Entries
pub mod Assumptions
use eval_max_sat.Common.{
  ℕ, zero, suc, List, [], ◌∷◌, Option, none, some, if◌then◌else◌, Bool, true, false, ltb, leb,
  length, ◌==◌,
}
use eval_max_sat.Common.Int.{ℤ}
use eval_max_sat.WeightMap.{WeightMap}
use eval_max_sat.MaxSat.{Result, ok, err, unreachable, before_begin}
use eval_max_sat.MaxSat.Rounds.{greatest, drop_greatest}

-- The entries in front of lower_bound(weight).
unfoldable pub below : ℕ → WeightMap → WeightMap
below weight [] = []
below weight ((w, lits) ∷ m) =
    let rest = below weight m in if ltb w weight then (w, lits) ∷ rest else []

-- _mapWeight2Assum.erase(it)
unfoldable pub drop_weight : ℕ → WeightMap → WeightMap
drop_weight weight [] = []
drop_weight weight ((w, lits) ∷ m) =
    let rest = drop_weight weight m in if w == weight then m else (w, lits) ∷ rest

module _ (below_half : ℕ → ℕ → Bool) where
  -- One round, by the entry in front of the bound, `it`, and the one in front of that, `it2`: `rec` is
  -- the rest of the loop.
  unfoldable pub choose_below :
      (WeightMap → ℕ → Result (WeightMap × ℕ))
      → WeightMap
      → ℕ
      → ℕ
      → Option (ℕ × List ℤ)
      → Result (WeightMap × ℕ)
  choose_below rec m previous w none = err before_begin
  choose_below rec m previous w (some (w2, lits2)) =
      let rest = rec m w in if below_half w2 previous then ok (m, w) else rest

  unfoldable pub choose_round :
      (WeightMap → ℕ → Result (WeightMap × ℕ))
      → WeightMap
      → ℕ
      → ℕ
      → Option (ℕ × List ℤ)
      → Result (WeightMap × ℕ)
  unfolding choose_below drop_weight below
  choose_round rec m weight previous none = ok (m, 1)
  choose_round rec m weight previous (some (w, [])) =
      let rest = rec (drop_weight w m) weight in
      if leb (length (drop_weight w m)) 1 then ok (drop_weight w m, 1) else rest
  choose_round rec m weight previous (some (w, l ∷ lits)) =
      choose_below rec m previous w (greatest (drop_greatest (below weight m)))

  -- `unreachable` where the fuel is spent.
  unfoldable pub choose_loop : ℕ → ℕ → WeightMap → ℕ → Result (WeightMap × ℕ)
  unfolding choose_round
  choose_loop zero previous m weight = err unreachable
  choose_loop (suc fuel) previous m weight =
      choose_round (choose_loop fuel previous) m weight previous (greatest (below weight m))

  -- A round erases an entry or goes on below a smaller one.
  unfoldable pub choose_next_min_weight : WeightMap → ℕ → Result (WeightMap × ℕ)
  unfolding choose_loop
  choose_next_min_weight m weight =
      if leb (length m) 1 then ok (m, 1) else choose_loop (suc (length m)) weight m weight
