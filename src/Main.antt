-- ===== src/Main.antt =====
-- src/main.cpp of the main program: a file is solved and the answer printed, at the end or when a signal
-- ends the run. The options are arguments, and so is the running time, which is printed as it is given;
-- comment lines of the solver are left out.
pub mod Values
use eval_max_sat.Common.{
  ℕ, zero, suc, ◌+◌, List, [], ◌∷◌, ◌++◌, Option, none, some, if◌then◌else◌, Bool, true, false, not,
  length, ◌==◌,
}
use eval_max_sat.Lazy.{ClauseSink}
use eval_max_sat.Parse.{Stream}
use eval_max_sat.Parse.Digits.{decimal}
use eval_max_sat.Parse.File.{Read, got, rejected, ◌>>=◌, parse, or_error}
use eval_max_sat.Parse.Cost.{calculate_cost}
use eval_max_sat.MaxSat.{MaxSat, init, max_weight}
use eval_max_sat.MaxSat.Query.{get_solution, is_weighted}
use eval_max_sat.MaxSat.Oracle.{SatSolver}
use eval_max_sat.MaxSat.Solve.{Environment, solve}

-- What the command line sets.
pub record Options : Type 0 where
  pub file : List ℕ
  pub old_output_format : Bool
  pub bench : Bool
  pub no_ds : Bool
  pub no_ms : Bool
  pub no_ubs : Bool

abbrev newline : List ℕ
newline = 10 ∷ []

-- A variable's value in the old format: its number, with a minus sign where it is false.
unfoldable pub old_value : ℕ → Bool → List ℕ
old_value i b = if b then b' ' ∷ decimal i else b' ' ∷ b'-' ∷ decimal i

-- for(unsigned int i=1; i<solution.size(); i++): the values from the variable `i` on.
unfoldable pub old_values : ℕ → List Bool → List ℕ
unfolding old_value
old_values i [] = []
old_values i (b ∷ bs) = old_value i b ++ old_values (suc i) bs

-- The same in the new format, a digit for each.
unfoldable pub new_values : List Bool → List ℕ
new_values [] = []
new_values (b ∷ bs) = (if b then b'1' else b'0') ∷ new_values bs

-- The entries from index 1 on.
abbrev pub variables : List Bool → List Bool
variables [] = []
variables (b ∷ bs) = bs

unfoldable pub value_line : Bool → List Bool → List ℕ
unfolding old_values new_values
value_line old solution =
    if old
    then b'v' ∷ old_values 1 (variables solution) ++ newline
    else b'v' ∷ b' ' ∷ new_values (variables solution) ++ newline

abbrev o_line : ℕ → List ℕ
o_line cost = b'o' ∷ b' ' ∷ decimal cost ++ newline

-- cur_file, the cost and the seconds, with tabs between.
abbrev bench_line : List ℕ → ℕ → List ℕ → List ℕ
bench_line file cost seconds = (file ++ 9 ∷ []) ++ (decimal cost ++ 9 ∷ []) ++ seconds ++ newline

abbrev satisfiable : List ℕ
satisfiable =
    b's' ∷ b' ' ∷ b'S' ∷ b'A' ∷ b'T' ∷ b'I' ∷ b'S' ∷ b'F' ∷ b'I' ∷ b'A' ∷ b'B' ∷ b'L' ∷ b'E'
    ∷ newline

abbrev pub unsatisfiable : List ℕ
unsatisfiable =
    b's' ∷ b' ' ∷ b'U' ∷ b'N' ∷ b'S' ∷ b'A' ∷ b'T' ∷ b'I' ∷ b'S' ∷ b'F' ∷ b'I' ∷ b'A' ∷ b'B' ∷ b'L'
    ∷ b'E' ∷ newline

abbrev optimum_found : List ℕ
optimum_found =
    b's' ∷ b' ' ∷ b'O' ∷ b'P' ∷ b'T' ∷ b'I' ∷ b'M' ∷ b'U' ∷ b'M' ∷ b' ' ∷ b'F' ∷ b'O' ∷ b'U' ∷ b'N'
    ∷ b'D' ∷ newline

abbrev unknown : List ℕ
unknown = b's' ∷ b' ' ∷ b'U' ∷ b'N' ∷ b'K' ∷ b'N' ∷ b'O' ∷ b'W' ∷ b'N' ∷ newline

module _ (T : ClauseSink) (O : SatSolver T) where
  -- The three flags that take a strategy off.
  abbrev pub with_flags : Options → Environment → Environment
  with_flags o e = record e {
    delay_strategy = if o.no_ds then false else e.delay_strategy;
    multi_solve_strategy = if o.no_ms then false else e.multi_solve_strategy;
    ub_strategy = if o.no_ubs then false else e.ub_strategy;
  }

  -- if(monMaxSat->isWeighted() == false) monMaxSat->disableOptimize();
  abbrev for_weights : MaxSat T → Environment → Environment
  for_weights s e = if is_weighted T s then e else record e { to_optimize = false }

  -- solveFile: the answer, the solution and its cost; without a solution the cost is -1.
  unfoldable pub solve_file :
      Environment → ℕ → T.State → Stream → Read (MaxSat T × Bool × List Bool × ℕ)
  solve_file e fuel solver input = elim (parse T (init T solver) input) [
    | rejected ↦ got (init T solver, false, [], max_weight)
    | got s ↦ do
      (s1, sat) ← or_error (solve T O (for_weights s e) fuel s)
      elim sat [
        | false ↦ got (s1, false, [], max_weight)
        | true ↦ do
          cost ← calculate_cost input (get_solution T s1)
          got (s1, true, get_solution T s1, cost)
      ]
    | other ↦ do s ← other; got (s, false, [], max_weight)
  ]

  -- main from the call of solveFile on: the exit status and what is printed.
  unfoldable pub main : Options → Environment → ℕ → T.State → Stream → List ℕ → Read (ℕ × List ℕ)
  unfolding solve_file value_line
  main o e fuel solver input seconds = do
    (s, sat, solution, c) ← solve_file (with_flags o e) fuel solver input
    elim o.bench [
      | true ↦ do cost ← calculate_cost input solution; got (0, bench_line o.file cost seconds)
      | false ↦ elim sat [
        | true ↦ do
          cost ← calculate_cost input solution
          got (30, o_line cost ++ optimum_found ++ value_line o.old_output_format solution)
        | false ↦ got (20, unsatisfiable)
      ]
    ]

  -- signalHandler, behind its comment line: before the solver is made there is nothing to print.
  unfoldable pub signal_handler : Options → Option (MaxSat T) → Stream → List ℕ → Read (ℕ × List ℕ)
  unfolding value_line
  signal_handler o none input seconds = got (0, [])
  signal_handler o (some s) input seconds = do
    cost ← calculate_cost input (get_solution T s)
    got (
        if o.bench
        then (0, bench_line o.file cost seconds)
        else if not (cost == max_weight)
        then (10, o_line cost ++ satisfiable ++ value_line o.old_output_format (get_solution T s))
        else (0, unknown))
