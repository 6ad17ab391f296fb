-- ===== src/Tests.antt =====
-- Concrete runs: a solver that stores the clauses it is given, and the theorems applied to small
-- formulas and files.
pub mod Brute
mod Steps
mod Toy
mod Files
mod Search
mod Interfaces
use eval_max_sat.Common.{
  ◌↔◌, In, all, inl, inr, Bool-cases, Bool, ◌≢◌, ap, sym, ◌∙◌, and_left, and_right, ℕ, zero, suc,
  ◌+◌, ◌<◌, ◌≡◌, refl, subst, List, [], ◌∷◌, ◌++◌, Option, none, some, true, false, All, arith,
  length, get_or, map, if◌then◌else◌, ◌*◌, ◌%◌, ◌^◌, not, ◌&&◌, ◌||◌, ◌==◌,
}
use eval_max_sat.Common.Int.{ℤ, pos, negsuc, neg, abs, eqb_ℤ, eqb_ℤ_iff, ◌+ℤ◌}
use eval_max_sat.Common.Assign.{Clause, Assignment, holds, holds_all, holds_clause}
use eval_max_sat.Lazy.{ClauseSink, empty_heap}
use eval_max_sat.Card.New.{empty_heap-IsReady}
use eval_max_sat.Card.Encoding.{totalizer_correct, BuildsBound}
use eval_max_sat.Card.Ready.{IsReady}
use eval_max_sat.Card.Trues.{trues}
use eval_max_sat.Weights.{WeightVector, get, write}
use eval_max_sat.Weights
use eval_max_sat.Weights.Laws.{get-write, get-neg, add-write}
use eval_max_sat.WeightMap.{has, bucket, insert, erase}
use eval_max_sat.WeightMap.Laws.{has-insert, has-erase}
use eval_max_sat.Optimizer.Improve.{IsSoft, split_soft, split_soft_lem}
use eval_max_sat.Optimizer.{at, calculate_cost_assign}
use eval_max_sat.Optimizer.Cost.{soft_cost, calculate_cost_assign_correct}
use eval_max_sat.MaxSat.{MaxSat, LitCard}
use eval_max_sat.MaxSat.Objective.{IsValid, objective}
use eval_max_sat.MaxSat.AddWeight.{AddsWeight, add_weight_correct}
use eval_max_sat.MaxSat.Core.{take_core}
use eval_max_sat.MaxSat.Core.Correct.{IsHeavy, Attains, take_core_correct}
use eval_max_sat.MaxSat.Query.{
  get_solution, get_value, n_vars, get_solution_correct, get_value_past_end,
}
use eval_max_sat.Solver.{Cadical, SolverCadical}
use eval_max_sat.Solver
use eval_max_sat.Solver.Liveness.{Returns, solve-Returns}
use eval_max_sat.Solver.Answers.{
  highest, add_clause_correct, solve-get_conflict, solve-get_solution,
}
use eval_max_sat.Parse.{parse_int, parse_weight, hard_weight}
use eval_max_sat.Parse.Digits.{decimal, print_int, parse_int-print_int, parse_weight-decimal}
use eval_max_sat.Parse.File.{got, read_clause, read_clause_into}
use eval_max_sat.Parse.File.Clauses.{
  print_clause, max_var, read_clause-print_clause, read_clause_into-print_clause,
}
use eval_max_sat.Parse.Cost.{calculate_cost, find_satisfied, find_satisfied_lem, valued}
use eval_max_sat.Parse.File.Print.{Line, hard, soft, print_file}
use eval_max_sat.Parse.Cost.Total.{all_hard, falsified, calculate_cost_correct}
use eval_max_sat.MaxSat.Index.{Indexed}

record Store : Type 0 where
  number : ℕ
  stored : List Clause

-- A solver that only stores clauses.
abbrev store : ClauseSink
store = record {
  State = Store;
  new_var = λ s. (record s { number = suc s.number }, pos (suc s.number));
  add_clause = λ s c. record s { stored = c ∷ s.stored };
  vars = λ s. s.number;
  clauses = λ s. s.stored;
  new_var_lit = λ s. refl;
  vars-new_var = λ s. refl;
  clauses-new_var = λ s. refl;
  clauses-add_clause = λ s c. refl;
  vars-add_clause = λ s c w. refl;
}

abbrev three_vars : Store
three_vars = record { number = 3; stored = [] }

abbrev three_lits : Clause
three_lits = pos 1 ∷ negsuc 1 ∷ pos 3 ∷ []

three_vars-IsReady : IsReady store three_vars empty_heap
three_vars-IsReady = empty_heap-IsReady store three_vars tt

totalizer_correct_example : BuildsBound store three_vars empty_heap three_lits 2 1
totalizer_correct_example =
    totalizer_correct store three_vars empty_heap three_lits 2 1 three_vars-IsReady
      ((omega arith, omega arith), ((omega arith, omega arith), ((omega arith, omega arith), tt)))
      (omega arith)

-- Three variables without weights, and two soft literals: 1 with weight 4 and -2 with weight 6.
abbrev two_soft : MaxSat store
two_soft = record {
  base = record {
    solver = three_vars;
    poids = pos 0 ∷ pos 4 ∷ negsuc 5 ∷ pos 0 ∷ [];
    map_card = none ∷ none ∷ none ∷ none ∷ [];
  };
  heap = empty_heap;
  cards = [];
  map_weight = (4, pos 1 ∷ []) ∷ (6, negsuc 1 ∷ []) ∷ [];
  cost = 0;
  card_to_add = [];
  lit_to_relax = [];
  start_solve = false;
  is_incremental = false;
  solution = false ∷ true ∷ true ∷ [];
  solution_cost = 10;
  n_input_vars = 3;
}

has_two_soft : Indexed two_soft.map_weight two_soft.poids
unfolding has bucket get
has_two_soft w (pos zero) h = elim h [ ]
has_two_soft w (pos (suc n)) h = ground arith
has_two_soft w (negsuc n) h = ground arith

two_soft-IsValid : IsValid store two_soft
two_soft-IsValid = record { indexed = has_two_soft; no_cards = no_cards; sized = omega arith }
  where
    no_cards : (i : ℕ) → get_or {A = Option LitCard} (none ∷ none ∷ none ∷ none ∷ []) i none ≡ none
    no_cards zero = refl
    no_cards (suc zero) = refl
    no_cards (suc (suc zero)) = refl
    no_cards (suc (suc (suc zero))) = refl
    no_cards (suc (suc (suc (suc i)))) = refl

add_weight_correct_example : AddsWeight store two_soft (negsuc 0) (pos 7)
unfolding get
add_weight_correct_example =
    add_weight_correct store two_soft (negsuc 0) (pos 7) two_soft-IsValid (omega arith)
      (omega arith) (omega arith) (omega arith)

abbrev core : Clause
core = pos 1 ∷ negsuc 1 ∷ []

take_core_correct_example :
    let s' = (take_core store two_soft core core 1).0 in
    (m : ℕ) × (0 < m)
    × Indexed s'.map_weight s'.poids
    × All (IsHeavy two_soft.poids m) core
    × Attains two_soft.poids m core
    × (s'.card_to_add ≡ (map neg core, pos m) ∷ [])
    × ((a : Assignment)
        → objective store s' a + m * trues a (map neg core) ≡ objective store two_soft a + m)
unfolding get
take_core_correct_example =
    take_core_correct store two_soft core core 1 has_two_soft (omega arith)
      ((omega arith, tt), (tt, tt))
      (
        (omega arith, omega arith, (4, refl, omega arith, omega arith, omega arith)),
        ((omega arith, omega arith, (6, refl, omega arith, omega arith, omega arith)), tt),
      )
      (omega arith)

get_solution_correct_example :
    (length (get_solution store two_soft) ≡ 4)
    × ((i : ℕ)
        → i < 4
        → get_or (get_solution store two_soft) i false ≡ get_or two_soft.solution i false)
get_solution_correct_example = get_solution_correct store two_soft

get_value_past_end_example : get_value store two_soft (negsuc 2) ≡ none
get_value_past_end_example = get_value_past_end store two_soft (negsuc 2) (omega arith) refl

-- h 1 -2 0 and 5 2 0
abbrev small_file : List Line
small_file = hard (pos 1 ∷ negsuc 1 ∷ []) ∷ soft 5 (pos 2 ∷ []) ∷ []

calculate_cost_correct_example :
    calculate_cost (print_file small_file) (false ∷ true ∷ [])
    ≡ got (
        if all_hard (valued (false ∷ true ∷ [])) small_file
        then falsified (valued (false ∷ true ∷ [])) small_file % 2 ^ 64
        else hard_weight)
calculate_cost_correct_example =
    calculate_cost_correct small_file (false ∷ true ∷ [])
      ((omega arith, (omega arith, tt)), ((omega arith, (omega arith, tt)), tt))

calculate_cost_assign_correct_example :
    calculate_cost_assign (pos 0 ∷ pos 4 ∷ negsuc 5 ∷ []) 3 (false ∷ false ∷ true ∷ [])
    ≡ (soft_cost (pos 0 ∷ pos 4 ∷ negsuc 5 ∷ []) (at (false ∷ false ∷ true ∷ [])) + 3) % 2 ^ 64
calculate_cost_assign_correct_example =
    calculate_cost_assign_correct (pos 0) (pos 4 ∷ negsuc 5 ∷ []) 3 (false ∷ false ∷ true ∷ [])

read_clause_into-print_clause_example :
    (t' : MaxSat store) × (read_clause_into store
        (suc (length (print_clause (pos 5 ∷ core) ++ 10 ∷ [])))
        two_soft
        []
        (print_clause (pos 5 ∷ core) ++ 10 ∷ [])
      ≡ got (t', pos 5 ∷ core, 10 ∷ []))
    × (n_vars store t' ≡ max_var 3 (pos 5 ∷ core))
read_clause_into-print_clause_example =
    read_clause_into-print_clause store two_soft (pos 5 ∷ core) (10 ∷ []) 3 refl
      (omega arith, (omega arith, (omega arith, tt))) refl

parse_int-print_int_example :
    parse_int (print_int (negsuc 41) ++ b' ' ∷ []) ≡ some (negsuc 41, b' ' ∷ [])
parse_int-print_int_example = parse_int-print_int (negsuc 41) (b' ' ∷ []) refl

parse_weight-decimal_example : parse_weight (decimal 42 ++ b' ' ∷ []) ≡ some (42, b' ' ∷ [])
parse_weight-decimal_example = parse_weight-decimal 42 (b' ' ∷ []) (omega arith) refl

abbrev three_weights : WeightVector
three_weights = pos 0 ∷ pos 4 ∷ negsuc 5 ∷ []

get-write_example : get (write three_weights (negsuc 0) (pos 7)) (negsuc 0) ≡ pos 7
get-write_example = get-write three_weights (negsuc 0) (pos 7) (omega arith)

add-write_example :
    Weights.add three_weights (negsuc 1) (pos 2)
    ≡ write three_weights (negsuc 1) (get three_weights (negsuc 1) +ℤ pos 2)
add-write_example = add-write three_weights (negsuc 1) (pos 2)

read_clause-print_clause_example :
    read_clause (suc (length (print_clause core ++ 10 ∷ []))) [] (print_clause core ++ 10 ∷ [])
    ≡ got (core, 10 ∷ [])
read_clause-print_clause_example =
    read_clause-print_clause core (10 ∷ []) (omega arith, (omega arith, tt)) refl

split_soft_lem_example :
    (In (negsuc 1) (split_soft three_weights (false ∷ true ∷ true ∷ [])).assum_satisfied ↔ (
      IsSoft three_weights (negsuc 1) × (holds (at (false ∷ true ∷ true ∷ [])) (negsuc 1) ≡ true)))
    × (In (negsuc 1) (split_soft three_weights (false ∷ true ∷ true ∷ [])).soft_var_falsified ↔ (
        IsSoft three_weights (negsuc 1)
        × (holds (at (false ∷ true ∷ true ∷ [])) (negsuc 1) ≡ false)))
split_soft_lem_example = split_soft_lem three_weights (false ∷ true ∷ true ∷ []) (negsuc 1)
