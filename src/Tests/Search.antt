-- ===== src/Tests/Search.antt =====
-- The theorems on the search applied to small formulas, with the solver that tries every assignment.
use eval_max_sat.Common.{
  ℕ, zero, suc, ◌≡◌, refl, List, [], ◌∷◌, Option, none, true, false, All, arith, ◌⊎◌, get_or,
}
use eval_max_sat.Common.Int.{ℤ, pos, negsuc}
use eval_max_sat.Common.Assign.{holds_clause}
use eval_max_sat.Lazy.{empty_heap}
use eval_max_sat.Weights.{WeightVector, get}
use eval_max_sat.WeightMap.{WeightMap, has, bucket, set_insert}
use eval_max_sat.MaxSat.{MaxSat, LitCard, ok, add_soft, add_hard}
use eval_max_sat.MaxSat.Index.{Indexed}
use eval_max_sat.MaxSat.Objective.{IsValid}
use eval_max_sat.MaxSat.NewSoft.{holds_each}
use eval_max_sat.MaxSat.AddSoft.{PaysUnless, add_soft_correct, add_soft_negative}
use eval_max_sat.MaxSat.AddHard.{AddsHard, add_hard_correct}
use eval_max_sat.MaxSat.Core.Correct.{IsHeavy}
use eval_max_sat.MaxSat.Oracle.{IsCore, IsDistinct}
use eval_max_sat.MaxSat.Query.{init_assum}
use eval_max_sat.MaxSat.Minimize.{one_minimize}
use eval_max_sat.MaxSat.Minimize.Removal.{IsPart}
use eval_max_sat.MaxSat.Minimize.Core.{one_minimize_correct}
use eval_max_sat.MaxSat.Clique.{process_at_most_one}
use eval_max_sat.MaxSat.Clique.AllRounds.{KeepsPrice, process_at_most_one_correct}
use eval_max_sat.MaxSat.Rounds.{harden}
use eval_max_sat.MaxSat.Rounds.Better.{KeepsBetter, harden_correct}
use eval_max_sat.MaxSat.AtMostOne.{with_solver}
use eval_max_sat.MaxSat.Solve.{Environment, returns, outer_round}
use eval_max_sat.MaxSat.Solve.Optimal.{IsOptimum, outer_round_optimal}
use eval_max_sat.MaxSat.Solve.Unsat.{EndsUnsat, TakesCore, unsat_part_correct}
use eval_max_sat.Tests.Brute.{best-IsCore, Known, brute, engine, guess, best, bound, bound_all}

abbrev pub env : Environment
env = record {
  delay_strategy = true;
  multi_solve_strategy = true;
  ub_strategy = true;
  to_optimize = true;
  time_left = λ n. false;
  time_over = λ n. true;
  time_up = λ n k. false;
  shuffle = λ n c. c;
  better = λ p q. false;
  below_half = λ a b. false;
  max_clique = λ g n. [];
  budget = λ c. pos 100;
}

-- Three variables and the clause that 1 implies 2.
abbrev pub implication : Known
implication = record { number = 3; stored = (negsuc 0 ∷ pos 2 ∷ []) ∷ []; found = [] }

abbrev pub formula : WeightVector → WeightMap → MaxSat brute
formula ws m = record {
  base = record { solver = implication; poids = ws; map_card = none ∷ none ∷ none ∷ none ∷ [] };
  heap = empty_heap;
  cards = [];
  map_weight = m;
  cost = 0;
  card_to_add = [];
  lit_to_relax = [];
  start_solve = true;
  is_incremental = false;
  solution = [];
  solution_cost = 10;
  n_input_vars = 3;
}

no_cards : (i : ℕ) → get_or {A = Option LitCard} (none ∷ none ∷ none ∷ none ∷ []) i none ≡ none
no_cards zero = refl
no_cards (suc zero) = refl
no_cards (suc (suc zero)) = refl
no_cards (suc (suc (suc zero))) = refl
no_cards (suc (suc (suc (suc i)))) = refl

-- The literal 1 with weight 4, and -2 with weight 6.
abbrev pub clashing : MaxSat brute
clashing =
    formula (pos 0 ∷ pos 4 ∷ negsuc 5 ∷ pos 0 ∷ []) ((4, pos 1 ∷ []) ∷ (6, negsuc 1 ∷ []) ∷ [])

pub clashing-Indexed : Indexed clashing.map_weight clashing.poids
unfolding has bucket get
clashing-Indexed w (pos zero) h = elim h [ ]
clashing-Indexed w (pos (suc n)) h = ground arith
clashing-Indexed w (negsuc n) h = ground arith

clashing-IsValid : IsValid brute clashing
clashing-IsValid = record { indexed = clashing-Indexed; no_cards = no_cards; sized = omega arith }

abbrev pub both : List ℤ
both = negsuc 1 ∷ pos 1 ∷ []

pub both-IsDistinct : IsDistinct both
both-IsDistinct = ((λ e. omega (arith, e), tt), (tt, tt))

pub both-IsHeavy : All (IsHeavy clashing.poids 1) both
unfolding get
both-IsHeavy = (
  (omega arith, omega arith, (6, refl, omega arith, omega arith, omega arith)),
  ((omega arith, omega arith, (4, refl, omega arith, omega arith, omega arith)), tt),
)

unsat_part_correct_example :
    let s = with_solver brute engine clashing (engine.solve implication both).0 in
    EndsUnsat brute engine env 100 s both 1 ⊎ TakesCore brute engine env 100 s both 1
unfolding engine guess best bound bound_all
unsat_part_correct_example =
    unsat_part_correct brute engine env 100 clashing both 1 refl refl both-IsDistinct both-IsHeavy
      clashing-Indexed (omega arith)

-- The literal 1 alone, with weight 4.
abbrev consistent : MaxSat brute
consistent = formula (pos 0 ∷ pos 4 ∷ pos 0 ∷ pos 0 ∷ []) ((4, pos 1 ∷ []) ∷ [])

consistent-Indexed : Indexed consistent.map_weight consistent.poids
unfolding has bucket get
consistent-Indexed w (pos zero) h = elim h [ ]
consistent-Indexed w (pos (suc n)) h = ground arith
consistent-Indexed w (negsuc n) h = ground arith

outer_round_optimal_example :
    (s' : MaxSat brute) × (outer_round brute engine env 100 consistent.poids 0 consistent
        (init_assum consistent.map_weight 1)
        1
      ≡ ok (returns s' true))
    × IsOptimum brute engine env consistent s'
unfolding engine guess best bound bound_all init_assum set_insert
outer_round_optimal_example =
    outer_round_optimal brute engine env 100 consistent.poids 0 consistent consistent-Indexed
      (omega arith) refl

add_soft_correct_example :
    (s' : MaxSat brute) × (add_soft brute clashing (pos 1 ∷ pos 3 ∷ []) (pos 5) ≡ ok (s', pos 4))
    × PaysUnless brute clashing s' 5 (λ a. holds_clause a (pos 1 ∷ pos 3 ∷ []))
add_soft_correct_example =
    add_soft_correct brute clashing (pos 1) (pos 3) [] clashing-IsValid refl
      (omega arith, (omega arith, tt)) ((omega arith, (omega arith, tt)), tt) 5 (omega arith)
      (omega arith)

add_soft_negative_example :
    (s' : MaxSat brute) × (add_soft brute clashing (pos 1 ∷ pos 3 ∷ []) (negsuc 4) ≡ ok (s', pos 4))
    × PaysUnless brute clashing s' 5 (λ a. holds_each a (pos 1 ∷ pos 3 ∷ []))
add_soft_negative_example =
    add_soft_negative brute clashing (pos 1) (pos 3) [] clashing-IsValid refl
      (omega arith, (omega arith, tt)) ((omega arith, (omega arith, tt)), tt) 4 (omega arith)

add_hard_correct_example :
    (s' : MaxSat brute) × (add_hard brute clashing (negsuc 0 ∷ []) ≡ ok s')
    × AddsHard brute clashing s' (negsuc 0 ∷ [])
unfolding get
add_hard_correct_example =
    add_hard_correct brute clashing (negsuc 0 ∷ []) clashing-IsValid
      (omega arith, omega arith, omega arith, omega arith)

-- The best solution costs 10, so that a weight of 12 is as good as a hard clause.
abbrev heavy_one : MaxSat brute
heavy_one =
    formula (pos 0 ∷ pos 4 ∷ negsuc 11 ∷ pos 0 ∷ []) ((4, pos 1 ∷ []) ∷ (12, negsuc 1 ∷ []) ∷ [])

heavy_one-Indexed : Indexed heavy_one.map_weight heavy_one.poids
unfolding has bucket get
heavy_one-Indexed w (pos zero) h = elim h [ ]
heavy_one-Indexed w (pos (suc n)) h = ground arith
heavy_one-Indexed w (negsuc n) h = ground arith

harden_correct_example :
    (s' : MaxSat brute) × (assum' : List ℤ) × (nb : ℕ) × (harden brute heavy_one both
      ≡ ok (s', assum', nb))
    × KeepsBetter brute heavy_one s'
harden_correct_example =
    harden_correct brute heavy_one both
      (record {
        valid = record { indexed = heavy_one-Indexed; no_cards = no_cards; sized = omega arith };
        ascending = ((omega arith, tt), (tt, tt));
        entries = (
          (omega arith, omega arith, ((omega arith, omega arith), tt), (tt, tt)),
          ((omega arith, omega arith, ((omega arith, omega arith), tt), (tt, tt)), tt),
        );
      })
      (omega arith) (omega arith)

process_at_most_one_correct_example :
    (s' : MaxSat brute) × (found : List ℤ) × (process_at_most_one brute clashing both
      ≡ ok (s', found))
    × KeepsPrice brute clashing s' both
unfolding get
process_at_most_one_correct_example = process_at_most_one_correct brute clashing both (record {
  valid = clashing-IsValid;
  aligned = refl;
  known = ((omega arith, (omega arith, tt)), tt);
  started = refl;
  distinct = both-IsDistinct;
  heavy = both-IsHeavy;
  room = omega arith;
})

one_minimize_correct_example :
    let (s', c', p) =
      one_minimize brute engine clashing.poids (λ n. false) implication both 1000 true in
    (s'.stored ≡ implication.stored) × IsCore implication.stored c' × IsPart c' both
unfolding engine guess best bound bound_all
one_minimize_correct_example =
    one_minimize_correct brute engine clashing.poids (λ n. false) implication both 1000 true
      (best-IsCore implication.stored both refl)
