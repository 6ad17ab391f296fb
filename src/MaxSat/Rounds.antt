-- ===== src/MaxSat/Rounds.antt =====
-- EvalMaxSAT.h: what solve does before its loop and after each round of it, and harden.
pub mod Harden
pub mod Better
pub mod Last
use eval_max_sat.Common.{
  ℕ, zero, suc, ◌+◌, ◌-◌, ◌%◌, ◌^◌, List, [], ◌∷◌, Option, none, some, if◌then◌else◌, Bool, true,
  false, leb, length, ◌==◌, ◌||◌,
}
use eval_max_sat.Common.Int.{ℤ}
use eval_max_sat.Lazy.{ClauseSink}
use eval_max_sat.WeightMap.{WeightMap, set_erase}
use eval_max_sat.MaxSat.{MaxSat, ok, err, unreachable, Result, ◌>>=◌, max_weight, add_hard}
use eval_max_sat.MaxSat.Core.{Assum, add_cards, relax_all}

-- *_mapWeight2Assum.rbegin()
abbrev pub greatest : WeightMap → Option (ℕ × List ℤ)
greatest [] = none
greatest (entry ∷ []) = some entry
greatest (entry ∷ e ∷ m) = greatest (e ∷ m)

-- _mapWeight2Assum.erase(prev(_mapWeight2Assum.end()))
abbrev pub drop_greatest : WeightMap → WeightMap
drop_greatest [] = []
drop_greatest (entry ∷ []) = []
drop_greatest (entry ∷ e ∷ m) = entry ∷ drop_greatest (e ∷ m)

abbrev pub drop_empty : Option (ℕ × List ℤ) → WeightMap → WeightMap
drop_empty (some (w, [])) m = drop_greatest m
drop_empty e m = m

-- There is nothing to harden: no weight, or no weight but 1.
abbrev pub nothing_to_harden : WeightMap → Bool
nothing_to_harden [] = true
nothing_to_harden ((w, lits) ∷ []) = w == 1
nothing_to_harden (e ∷ f ∷ m) = false

module _ (T : ClauseSink) where
  -- for(auto lit: lits) { addClause({lit}); assum.erase(lit); nbHarden++; }
  unfoldable pub harden_lits : MaxSat T → Assum → List ℤ → ℕ → Result (MaxSat T × Assum × ℕ)
  harden_lits s assum [] nb_harden = ok (s, assum, nb_harden)
  harden_lits s assum (lit ∷ lits) nb_harden = do
    s' ← add_hard T s (lit ∷ [])
    harden_lits s' (set_erase lit assum) lits (nb_harden + 1)

  -- while(_mapWeight2Assum.rbegin()->first >= maxCostLit): a round empties the greatest set, and the
  -- number of weights is fuel enough.
  unfoldable pub harden_rounds : ℕ → MaxSat T → Assum → ℕ → ℕ → Result (MaxSat T × Assum × ℕ)
  unfolding harden_lits
  harden_rounds zero s assum max_cost_lit nb_harden = err unreachable
  harden_rounds (suc fuel) s assum max_cost_lit nb_harden = elim (greatest s.map_weight) [
    | none ↦ err unreachable
    | some (w, lits) ↦ elim (leb max_cost_lit w) [
      | false ↦ ok (s, assum, nb_harden)
      | true ↦ do
        (s1, assum1, nb) ← harden_lits s assum lits nb_harden
        elim (length s1.map_weight == 1) [
          | true ↦ ok (s1, assum1, nb)
          | false ↦
              harden_rounds fuel
                (record s1 { map_weight = drop_empty (greatest s1.map_weight) s1.map_weight })
                assum1 max_cost_lit nb
        ]
    ]
  ]

  -- The weights that exceed what the best solution leaves are hard. The difference is of `t_weight`.
  unfoldable pub harden : MaxSat T → Assum → Result (MaxSat T × Assum × ℕ)
  unfolding harden_rounds
  harden s assum =
      if s.is_incremental || nothing_to_harden s.map_weight
      then ok (s, assum, 0)
      else harden_rounds (suc (length s.map_weight)) s assum
          ((s.solution_cost + (2 ^ 64 - s.cost)) % 2 ^ 64) 0

  -- The cards to relax, then the cards in line.
  unfoldable pub end_round : MaxSat T → Assum → ℕ → Result (MaxSat T × Assum)
  end_round s assum stratum = do
    (s1, assum1) ← relax_all T s assum s.lit_to_relax stratum
    add_cards T s1 assum1 s1.card_to_add stratum

  -- solve up to its first search: there are no assumptions yet, and what joins them is dropped.
  unfoldable pub start_round : MaxSat T → Result (MaxSat T)
  unfolding end_round
  start_round s = do
    (s', _) ← end_round (record s { start_solve = true; solution_cost = max_weight }) [] 0
    ok s'
