-- ===== src/MaxSat/Core.antt =====
-- EvalMaxSAT.h, solve: what becomes of an unsatisfiable core. The weight of its cheapest literal is
-- taken off every literal of it and paid, and a totalizer over the negated literals is put in line.
pub mod Correct
pub mod Keeps
pub mod Exchange
pub mod Step
pub mod Charge
pub mod AddCard
pub mod Relax
use eval_max_sat.Common.{
  ℕ, zero, suc, ◌+◌, List, [], ◌∷◌, ◌++◌, Option, none, some, if◌then◌else◌, Bool, true, false, ltb,
  leb, map, get_or, set, get_elem?, length, ◌==◌,
}
use eval_max_sat.Common.Int.{ℤ, pos, negsuc, neg, abs, is_zero, ltb_ℤ}
use eval_max_sat.Common.Assign.{Clause}
use eval_max_sat.Lazy.{ClauseSink}
use eval_max_sat.Card.{Card, new_card, at_most}
use eval_max_sat.Weights.{get, size, write}
use eval_max_sat.Weights
use eval_max_sat.WeightMap.{WeightMap, insert, erase, set_insert, set_erase}
use eval_max_sat.MaxSat.{
  MaxSat, LitCard, ok, err, Result, or_fail, ◌>>=◌, to_weight, add_cost, weight_of, with_poids,
  relax, sink,
}

-- std::set<int>, in ascending order.
abbrev pub Assum : Type 0
Assum = List ℤ

-- The running minimum of the weights, from std::numeric_limits<long long>::max() on.
abbrev pub long_max : ℤ
long_max = pos 9_223_372_036_854_775_807

module _ (T : ClauseSink) where
  unfoldable pub min_weight : MaxSat T → Clause → ℤ → ℤ
  min_weight s [] least = least
  min_weight s (lit ∷ c) least =
      min_weight s c (if ltb_ℤ (weight_of T s lit) least then weight_of T s lit else least)

  -- A literal that is out of weight is to be relaxed if it is the output of a card.
  unfoldable pub after_lowering : MaxSat T → ℤ → MaxSat T
  after_lowering s lit =
      if is_zero (weight_of T s lit)
      then elim (get_or s.map_card (abs lit) none) [
        | none ↦ s
        | some _ ↦ record s { lit_to_relax = s.lit_to_relax ++ lit ∷ [] }
      ]
      else record s { map_weight = insert s.map_weight (to_weight (weight_of T s lit)) lit }

  unfoldable pub lower : MaxSat T → ℤ → ℤ → MaxSat T
  lower s lit least =
      after_lowering
        (with_poids T
          (record s { map_weight = erase s.map_weight (to_weight (weight_of T s lit)) lit })
          (Weights.add s.poids lit (neg least)))
        lit

  -- The literals whose weight fell below the stratum leave the assumptions.
  unfoldable pub lower_all : MaxSat T → Assum → Clause → ℤ → ℕ → MaxSat T × Assum
  lower_all s assum [] least stratum = (s, assum)
  lower_all s assum (lit ∷ c) least stratum =
      let s' = lower s lit least in
      let rest =
        (if ltb (to_weight (weight_of T s' lit)) stratum then set_erase lit assum else assum) in
      lower_all s' rest c least stratum

  unfoldable pub take_core : MaxSat T → Assum → Clause → ℕ → MaxSat T × Assum
  take_core s assum conflict stratum =
      let least = min_weight s conflict long_max in
      let (s', assum') = lower_all s assum conflict least stratum in
      (
        record s' {
          card_to_add = s'.card_to_add ++ (map neg conflict, least) ∷ [];
          cost = add_cost s'.cost (to_weight least);
        },
        assum',
      )

  -- The output of a new card becomes a soft literal.
  unfoldable pub soft_output : MaxSat T → Assum → ℕ → ℤ → ℤ → ℕ → MaxSat T × Assum
  soft_output s assum card lit weight stratum =
      let s' : MaxSat T = record s {
        base = record s.base {
          poids = write s.poids lit weight;
          map_card =
              set s.map_card (abs lit)
                (some (record { card = card; at_most = 1; initial_weight = weight }));
        };
        map_weight = insert s.map_weight (to_weight weight) lit;
      } in
      if is_zero lit then (s, assum) else (
        s',
        if leb stratum (to_weight (weight_of T s' lit)) then set_insert lit assum else assum,
      )

  -- One entry of `_cardToAdd`: its card, asked for "at most 1".
  unfoldable pub add_card : MaxSat T → Assum → Clause → ℤ → ℕ → Result (MaxSat T × Assum)
  add_card s assum clause weight stratum = do
    (h, c) ← or_fail (new_card s.heap clause 1)
    (b, h', c', lit) ← or_fail (at_most (sink T) s.base h c 1)
    ok (
        soft_output (record s { base = b; heap = h'; cards = s.cards ++ c' ∷ [] }) assum
          (length s.cards) lit weight stratum)

  unfoldable pub add_cards : MaxSat T → Assum → List (Clause × ℤ) → ℕ → Result (MaxSat T × Assum)
  add_cards s assum [] stratum = ok (record s { card_to_add = [] }, assum)
  add_cards s assum ((clause, weight) ∷ rest) stratum = do
    (s', assum') ← add_card s assum clause weight stratum
    add_cards s' assum' rest stratum

  -- The literal that a relaxed card brings joins the assumptions of its stratum.
  abbrev joined : MaxSat T × Option ℤ → Assum → ℕ → Assum
  joined (s, none) assum stratum = assum
  joined (s, some lit) assum stratum =
      if leb stratum (to_weight (weight_of T s lit)) then set_insert lit assum else assum

  unfoldable pub relax_all : MaxSat T → Assum → List ℤ → ℕ → Result (MaxSat T × Assum)
  relax_all s assum [] stratum = ok (record s { lit_to_relax = [] }, assum)
  relax_all s assum (lit ∷ rest) stratum = do
    (s', found) ← relax T s lit
    relax_all s' (joined (s', found) assum stratum) rest stratum
