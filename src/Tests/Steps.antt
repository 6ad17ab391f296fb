-- ===== src/Tests/Steps.antt =====
-- The theorems on cores and cards applied to small formulas, with the solver that tries every assignment.
use eval_max_sat.Common.{
  ℕ, ◌<◌, ◌≡◌, refl, List, [], ◌∷◌, Option, none, some, arith, All, In, ◌↔◌, ◌≤◌, sym, subst,
}
use eval_max_sat.Common.Int.{ℤ, pos, negsuc, abs}
use eval_max_sat.Common.Assign.{Clause}
use eval_max_sat.Lazy.{
  Heap, empty_heap, alloc_leaf, get_new, get_fresh, emit, inputs, add_impliquant,
}
use eval_max_sat.Common.Loop.{for_range}
use mathlib.Core.Option.{some-injective}
use eval_max_sat.Card.{Card, leaf, new_card, at_most, leaf_queue, merge_queue, join, grow}
use eval_max_sat.Card.New.{AreLiterals, empty_heap-IsReady}
use eval_max_sat.Card.Encoding.{new_card_lem, NewCard}
use eval_max_sat.MaxSat.{MaxSat, Base, ok, sink, base_new_var}
use eval_max_sat.Weights.{push_back, get}
use eval_max_sat.MaxSat.Oracle.{IsDistinct}
use eval_max_sat.MaxSat.Query.{init_assum}
use eval_max_sat.MaxSat.Core.Correct.{IsHeavy}
use eval_max_sat.MaxSat.Strata.Assumptions.{init_assum_correct}
use eval_max_sat.Lazy
use eval_max_sat.MaxSat.Core.{add_cards}
use eval_max_sat.MaxSat.Core.Exchange.{InStep, Exchanges}
use eval_max_sat.MaxSat.Core.Charge.{reweighed-IsReady}
use eval_max_sat.MaxSat.Core.AddCard.{pending, add_cards_correct}
use eval_max_sat.MaxSat.Core.Step.{StepsOn, core_step_correct}
use eval_max_sat.MaxSat.Core.Relax.{Relaxes, relax_correct}
use eval_max_sat.Tests.Brute.{best-IsCore, brute, guess, best, bound, bound_all}
use eval_max_sat.Tests.Search.{
  implication, clashing, clashing-Indexed, both, both-IsDistinct, both-IsHeavy,
}

clashing-InStep : InStep brute clashing
clashing-InStep = record {
  ready = empty_heap-IsReady (sink brute) clashing.base ((omega arith, (omega arith, tt)), tt);
  aligned = refl;
  indexed = clashing-Indexed;
}

core_step_correct_example : StepsOn brute clashing both both 1
unfolding guess best bound bound_all
core_step_correct_example =
    core_step_correct brute clashing both both 1 clashing-InStep
      (best-IsCore implication.stored both refl) (omega arith) both-IsDistinct both-IsHeavy
      (omega arith) tt

-- Two cores in line: one of three literals with weight 5, one of a single literal with weight 2.
abbrev in_line : List (Clause × ℤ)
in_line = (negsuc 0 ∷ pos 2 ∷ pos 3 ∷ [], pos 5) ∷ (negsuc 2 ∷ [], pos 2) ∷ []

add_cards_correct_example :
    (s' : MaxSat brute) × (assum' : List ℤ) × (add_cards brute clashing both in_line 1
      ≡ ok (s', assum'))
    × InStep brute s'
    × (s'.card_to_add ≡ [])
    × Exchanges brute clashing s' (pending 1 in_line) (pending 2 in_line)
add_cards_correct_example = add_cards_correct brute clashing both in_line 1 clashing-InStep (
  (
    ((omega arith, omega arith), ((omega arith, omega arith), ((omega arith, omega arith), tt))),
    omega arith,
    omega arith,
    omega arith,
  ),
  ((((omega arith, omega arith), tt), omega arith, omega arith, omega arith), tt),
)

-- A card over three literals.
abbrev three : Clause
three = negsuc 0 ∷ pos 2 ∷ pos 3 ∷ []

three-AreLiterals : AreLiterals 3 three
three-AreLiterals =
    ((omega arith, omega arith), ((omega arith, omega arith), ((omega arith, omega arith), tt)))

abbrev or_else {ℓ} : {A : Type ℓ} → A → Option A → A
or_else a none = a
or_else a (some b) = b

abbrev planted : Heap × Card
planted =
    or_else (empty_heap, record { nb_lit = 0; bound = 0; tree = leaf 0; max_vars = 0 })
      (new_card empty_heap three 1)

planted-NewCard : NewCard (sink brute) clashing.base empty_heap three planted.0 planted.1
unfolding new_card leaf_queue merge_queue alloc_leaf join
planted-NewCard =
    let (h, c, e, n) =
      new_card_lem (sink brute) clashing.base empty_heap three 1 clashing-InStep.ready
        three-AreLiterals (omega arith) in
    let same : ◌≡◌ {A = Heap × Card} (h, c) planted = some-injective _ _ (sym e) in
    subst (λ x. NewCard (sink brute) clashing.base empty_heap three x.0 x.1) same n

-- The literal 1 stands for the card's bound 1.
abbrev carded : MaxSat brute
carded = record clashing {
  base = record clashing.base {
    map_card =
        none ∷ some (record { card = 0; at_most = 1; initial_weight = pos 5 }) ∷ none ∷ none ∷ [];
  };
  heap = planted.0;
  cards = planted.1 ∷ [];
}

carded-InStep : InStep brute carded
carded-InStep = record {
  ready =
      reweighed-IsReady brute clashing.base planted.0 clashing.poids carded.map_card
        planted-NewCard.planted.ready;
  aligned = refl;
  indexed = clashing-Indexed;
}

abbrev answer : Base brute × Heap × Card × ℤ
answer =
    or_else (carded.base, carded.heap, planted.1, pos 0)
      (at_most (sink brute) carded.base carded.heap planted.1 2)

is_answer :
    at_most (sink brute) carded.base carded.heap planted.1 2
    ≡ some (answer.0, answer.1, answer.2, answer.3)
unfolding new_card leaf_queue merge_queue alloc_leaf join at_most grow Lazy.get get_new get_fresh
    emit inputs for_range add_impliquant
is_answer = refl

relax_correct_example : Relaxes brute carded (pos 1) 0 1 5 planted.1
unfolding new_card leaf_queue merge_queue alloc_leaf join at_most grow Lazy.get get_new get_fresh
    emit inputs for_range add_impliquant base_new_var push_back get
relax_correct_example =
    relax_correct brute carded (pos 1) 0 1 5 planted.1 carded-InStep refl refl planted-NewCard.card
      (omega arith) (omega arith) answer.0 answer.1 answer.2 answer.3 is_answer refl
      (λ h. (refl, refl))

init_assum_correct_example :
    IsDistinct (init_assum clashing.map_weight 5)
    × All (IsHeavy clashing.poids 1) (init_assum clashing.map_weight 5)
    × ((l : ℤ)
        → In l (init_assum clashing.map_weight 5)
          ↔ ((0 < abs l) × (x : ℕ) × (get clashing.poids l ≡ pos x) × (0 < x) × (5 ≤ x)))
init_assum_correct_example =
    init_assum_correct clashing.map_weight clashing.poids 5 ((omega arith, tt), (tt, tt))
      (
        (omega arith, omega arith, ((omega arith, omega arith), tt), (tt, tt)),
        ((omega arith, omega arith, ((omega arith, omega arith), tt), (tt, tt)), tt),
      )
      clashing-Indexed
