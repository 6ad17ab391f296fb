-- ===== src/MaxSat/Strata/Choice.antt =====
-- chooseNextMinWeight ends, with the weight it is to choose or where it goes wrong.
use eval_max_sat.Common.{
  ℕ, zero, suc, ◌<◌, ◌≡◌, refl, List, [], ◌∷◌, Option, none, some, Bool, leb, length, arith, inl,
  inr, Bool-cases,
}
use eval_max_sat.Common.Int.{ℤ}
use eval_max_sat.WeightMap.{WeightMap}
use eval_max_sat.MaxSat.{Result}
use eval_max_sat.MaxSat.Rounds.{greatest, drop_greatest}
use eval_max_sat.MaxSat.Strata.{
  below, drop_weight, choose_below, choose_round, choose_loop, choose_next_min_weight,
}
use eval_max_sat.MaxSat.Strata.Entries.{
  IsAscending, drop_weight-IsAscending, length-below, length-below_down, length-below_drop,
}
use eval_max_sat.MaxSat.Strata.Outcome.{
  it_stands, same_left, Outcome-left, Outcome-down, Outcome-found, Outcome-first, Outcome-none,
  Outcome,
}

module _ (below_half : ℕ → ℕ → Bool) (previous : ℕ) where
  module _ (rec : WeightMap → ℕ → Result (WeightMap × ℕ)) (m : WeightMap) (weight : ℕ)
      (a : IsAscending m)
      (ih : (n : WeightMap) (y : ℕ)
        → IsAscending n
        → length (below y n) < length (below weight m)
        → Outcome below_half previous n y (rec n y)) where
    below-Outcome :
        (w : ℕ) (l : ℤ) (lits : List ℤ) (o : Option (ℕ × List ℤ))
        → greatest (below weight m) ≡ some (w, l ∷ lits)
        → greatest (drop_greatest (below weight m)) ≡ o
        → Outcome below_half previous m weight (choose_below below_half rec m previous w o)
    unfolding choose_below
    below-Outcome w l lits none e alone =
        Outcome-first below_half previous m weight w l lits a e alone
    below-Outcome w l lits (some h) e f = elim (Bool-cases (below_half h.0 previous)) [
      | inl y ↦ rw y (Outcome-found below_half previous m weight w l lits h a e f y)
      | inr z ↦
          let (lt, i) = it_stands below_half previous m weight w (l ∷ lits) a e in
          rw z (
            Outcome-down below_half previous m weight w l lits h a e f z (rec m w)
              (ih m w a (length-below_down m w weight (l ∷ lits) a lt i)))
    ]

    round-Outcome :
        (o : Option (ℕ × List ℤ))
        → greatest (below weight m) ≡ o
        → Outcome below_half previous m weight (choose_round below_half rec m weight previous o)
    unfolding choose_round
    round-Outcome none e = Outcome-none below_half previous m weight a e
    round-Outcome (some (w, [])) e =
        let n = drop_weight w m in
        let (lt, i) = it_stands below_half previous m weight w [] a e in
        elim (Bool-cases (leb (length n) 1)) [
          | inl y ↦
              rw y (inl (n, refl, same_left below_half previous m weight w a e, inl (ground arith)))
          | inr z ↦ rw z (
              Outcome-left below_half previous m weight w a e (rec n weight) (
                ih n weight (drop_weight-IsAscending w m a)
                  (length-below_drop m w weight [] a lt i)))
        ]
    round-Outcome (some (w, l ∷ lits)) e =
        below-Outcome w l lits (greatest (drop_greatest (below weight m))) e refl

  choose_loop-Outcome :
      (fuel : ℕ) (m : WeightMap) (weight : ℕ)
      → IsAscending m
      → length (below weight m) < fuel
      → Outcome below_half previous m weight (choose_loop below_half fuel previous m weight)
  unfolding choose_loop
  choose_loop-Outcome zero m weight a h = elim h [ ]
  choose_loop-Outcome (suc fuel) m weight a h =
      round-Outcome (choose_loop below_half fuel previous) m weight a
        (λ n y b l. choose_loop-Outcome fuel n y b (omega arith)) (greatest (below weight m)) refl

-- On a map with ascending weights, however the comparison with the half of the bound is rounded,
-- chooseNextMinWeight ends in one of three ways. It returns the greatest weight below the bound at which
-- a literal stands and in front of which a weight below the half stands. Or it returns 1, where at most
-- one entry is left, or where there is no such weight and no literal stands at the first one, if that is
-- below the bound. Or it decrements begin(), where there is no such weight and a literal stands at the
-- first one, which is below the bound. Where it returns, the map is in order, and the same literals
-- stand at the same weights.
pub choose_next_min_weight_correct :
    (below_half : ℕ → ℕ → Bool) (m : WeightMap) (weight : ℕ)
    → IsAscending m
    → Outcome below_half weight m weight (choose_next_min_weight below_half m weight)
unfolding choose_next_min_weight
choose_next_min_weight_correct below_half m weight a = elim (Bool-cases (leb (length m) 1)) [
  | inl y ↦ rw y (inl (m, refl, (a, λ v l. refl), inl (ground arith)))
  | inr z ↦ rw z (
      choose_loop-Outcome below_half weight (suc (length m)) m weight a
        (omega (arith, length-below m weight)))
]
