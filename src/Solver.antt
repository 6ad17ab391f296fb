-- ===== src/Solver.antt =====
-- lib/EvalMaxSAT/src/cadicalinterface.h, class Solver_cadical: the SAT solver as the rest sees it.
-- CaDiCaL is the parameter `Cadical`. A call that repeats itself until CaDiCaL answers runs on fuel.
pub mod Answers
pub mod Liveness
use eval_max_sat.Common.{
  ℕ, zero, suc, ◌+◌, ◌≤◌, ◌<◌, ◌≡◌, ◌≢◌, refl, ap, ◌∙◌, List, [], ◌∷◌, ◌++◌, Option, none, some,
  if◌then◌else◌, Bool, true, false, not, leb, ltb, length, get_or, All, In, ◌==◌, arith, any,
}
use eval_max_sat.Common.Int.{ℤ, pos, negsuc, neg, abs, eqb_ℤ, ltb_ℤ, is_zero}
use eval_max_sat.Common.Assign.{Clause, Assignment, holds, holds_all}
use eval_max_sat.Lazy.{ClauseSink}
use eval_max_sat.MaxSat.Query.{resize}

-- The assignment a solution stands for: false past its end.
abbrev pub valued : List Bool → Assignment
valued solution i = get_or solution i false

-- CaDiCaL. `formula`, `pending` and `assumed` observe it: the clauses that are closed, the literals
-- added since, and the assumptions of the next solve.
pub record Cadical : Type 1 where
  pub Engine : Type 0
  pub add : Engine → ℤ → Engine
  pub assume : Engine → ℤ → Engine
  pub solve : Engine → Engine × ℕ
  pub reset_assumptions : Engine → Engine
  pub limit_conflicts : Engine → ℤ → Engine
  pub set_timeout : Engine → ℕ → Engine
  pub failed : Engine → ℤ → Bool
  pub val : Engine → ℤ → ℤ
  pub solution : Engine → List Bool
  pub find_up_implicants : Engine → List ℤ → Bool × List ℤ
  pub simplify : Engine → Engine
  -- What exportClauses reads of its internals: the variables, the sign a variable is fixed to (0 if it
  -- is not), and the clauses, each with the mark that it is garbage.
  pub internal_vars : Engine → List ℕ
  pub fixed : Engine → ℕ → ℤ
  pub internal_clauses : Engine → List (Bool × Clause)
  pub formula : Engine → List Clause
  pub pending : Engine → Clause
  pub assumed : Engine → List ℤ
  pub formula-add : (e : Engine) (l : ℤ) → 0 < abs l → formula (add e l) ≡ formula e
  pub pending-add : (e : Engine) (l : ℤ) → 0 < abs l → pending (add e l) ≡ pending e ++ l ∷ []
  pub formula-close : (e : Engine) → formula (add e (pos 0)) ≡ pending e ∷ formula e
  pub pending-close : (e : Engine) → pending (add e (pos 0)) ≡ []
  pub formula-assume : (e : Engine) (l : ℤ) → formula (assume e l) ≡ formula e
  pub assumed-assume : (e : Engine) (l : ℤ) → assumed (assume e l) ≡ assumed e ++ l ∷ []
  -- A call of solve keeps the clauses and drops the assumptions.
  pub formula-solve : (e : Engine) → formula (solve e).0 ≡ formula e
  pub assumed-solve : (e : Engine) → assumed (solve e).0 ≡ []
  -- Answer 10: the solution satisfies the clauses and the assumptions.
  pub solve-sat :
      (e : Engine)
      → (solve e).1 ≡ 10
      → (holds_all (valued (solution (solve e).0)) (formula e) ≡ true)
        × All (λ l. holds (valued (solution (solve e).0)) l ≡ true) (assumed e)
  -- Answer 20: an assignment that satisfies the clauses falsifies an assumption that failed.
  pub solve-unsat :
      (e : Engine) (a : Assignment)
      → (solve e).1 ≡ 20
      → holds_all a (formula e) ≡ true
      → (l : ℤ) × In l (assumed e) × (failed (solve e).0 l ≡ true) × (holds a l ≡ false)

module _ (K : Cadical) where
  open K use {Engine}

  pub record SolverCadical : Type 0 where
    pub solver : Engine
    pub n_var : ℕ

  abbrev pub get_value : SolverCadical → ℤ → Bool
  get_value s lit = elim (K.val s.solver lit) [
    | pos zero ↦ false
    | pos (suc n) ↦ true
    | negsuc n ↦ false
  ]

  unfoldable pub get_solution : SolverCadical → List Bool
  unfolding resize
  get_solution s =
      if leb (length (K.solution s.solver)) s.n_var
      then resize (K.solution s.solver) (s.n_var + 1)
      else K.solution s.solver

  abbrev pub n_vars : SolverCadical → ℕ
  n_vars s = s.n_var

  abbrev pub new_var : SolverCadical → SolverCadical × ℤ
  new_var s = (record s { n_var = suc s.n_var }, pos (suc s.n_var))

  -- for(int lit : clause)
  unfoldable pub add_literals : SolverCadical → Clause → SolverCadical
  add_literals s [] = s
  add_literals s (lit ∷ c) =
      add_literals
        (record {
          solver = K.add s.solver lit;
          n_var = if ltb s.n_var (abs lit) then abs lit else s.n_var;
        })
        c

  unfoldable pub add_clause : SolverCadical → Clause → SolverCadical
  unfolding add_literals
  add_clause s c = let s' = add_literals s c in record s' { solver = K.add s'.solver (pos 0) }

  -- for(int lit : assumption) solver->assume(lit);
  unfoldable pub assume_all : Engine → List ℤ → Engine
  assume_all e [] = e
  assume_all e (lit ∷ ls) = assume_all (K.assume e lit) ls

  abbrev pub simplify : SolverCadical → SolverCadical
  simplify s = record s { solver = K.simplify s.solver }

  -- solve without assumptions.
  unfoldable pub solve_plain : ℕ → SolverCadical → Option (SolverCadical × Bool)
  solve_plain zero s = none
  solve_plain (suc fuel) s =
      let (e, result) = K.solve s.solver in
      let again = solve_plain fuel (record s { solver = e }) in
      if result == 10
      then some (record s { solver = e }, true)
      else if result == 20
      then some (record s { solver = e }, false)
      else again

  -- for(i=1; i<solution.size(); i++): each variable is assumed to have its value, from `i` on.
  unfoldable pub assume_values : ℕ → Engine → List Bool → Engine
  assume_values i e [] = e
  assume_values i e (b ∷ bs) =
      assume_values (suc i) (K.assume e (if b then pos i else neg (pos i))) bs

  -- solve with the values of a solution, its first entry being no variable's.
  unfoldable pub solve_values : ℕ → SolverCadical → List Bool → Option (SolverCadical × Bool)
  unfolding assume_values
  solve_values zero s solution = none
  solve_values (suc fuel) s [] = solve_plain (suc fuel) s
  solve_values (suc fuel) s (b ∷ bs) =
      let (e, result) = K.solve (assume_values 1 s.solver bs) in
      let again = solve_values fuel (record s { solver = e }) (b ∷ bs) in
      if result == 10
      then some (record s { solver = e }, true)
      else if result == 20
      then some (record s { solver = e }, false)
      else again

  -- Neither 10 nor 20 is no answer, and the call repeats itself.
  unfoldable pub solve : ℕ → SolverCadical → List ℤ → Option (SolverCadical × Bool)
  unfolding assume_all
  solve zero s assumption = none
  solve (suc fuel) s assumption =
      let (e, result) = K.solve (assume_all s.solver assumption) in
      let again = solve fuel (record s { solver = e }) assumption in
      if result == 10
      then some (record s { solver = e }, true)
      else if result == 20
      then some (record s { solver = e }, false)
      else again

  -- The assumptions whose opposite is not forced, behind the forced ones.
  unfoldable pub assume_unforced : Engine → List ℤ → List ℤ → Engine
  assume_unforced e forced [] = e
  assume_unforced e forced (lit ∷ ls) =
      assume_unforced (if any (eqb_ℤ (neg lit)) forced then e else K.assume e lit) forced ls

  unfoldable pub solve_forced : ℕ → SolverCadical → List ℤ → List ℤ → Option (SolverCadical × Bool)
  unfolding assume_all assume_unforced
  solve_forced zero s assumption forced = none
  solve_forced (suc fuel) s assumption forced =
      let (e, result) = K.solve (assume_unforced (assume_all s.solver forced) forced assumption) in
      let again = solve_forced fuel (record s { solver = e }) assumption forced in
      if result == 10
      then some (record s { solver = e }, true)
      else if result == 20
      then some (record s { solver = e }, false)
      else again

  -- The assumptions but one.
  unfoldable pub assume_except : Engine → List ℤ → ℤ → Engine
  assume_except e [] except = e
  assume_except e (lit ∷ ls) except =
      assume_except (if eqb_ℤ lit except then e else K.assume e lit) ls except

  -- 1 satisfiable, 0 unsatisfiable, -1 the limit; another answer is 0, the assertion being off.
  abbrev pub verdict : ℕ → ℤ
  verdict result =
      if result == 10
      then pos 1
      else if result == 20
      then pos 0
      else if result == 0
      then negsuc 0
      else pos 0

  unfoldable pub solve_limited : SolverCadical → List ℤ → ℤ → ℤ → SolverCadical × ℤ
  unfolding assume_except
  solve_limited s assumption conf_budget except =
      let (e, result) =
        K.solve (K.limit_conflicts (assume_except s.solver assumption except) conf_budget) in
      (record s { solver = e }, verdict result)

  unfoldable pub solve_with_timeout : SolverCadical → List ℤ → ℕ → ℤ → SolverCadical × ℤ
  unfolding assume_except
  solve_with_timeout s assumption timeout except =
      let (e, result) =
        K.solve (
          K.set_timeout (assume_except (K.reset_assumptions s.solver) assumption except) timeout) in
      (record s { solver = e }, verdict result)

  unfoldable pub solve_with_timeout_and_limit :
      SolverCadical → List ℤ → ℕ → ℤ → ℤ → SolverCadical × ℤ
  unfolding assume_except
  solve_with_timeout_and_limit s assumption timeout conf_budget except =
      let (e, result) = K.solve (
        K.set_timeout
          (K.limit_conflicts (assume_except (K.reset_assumptions s.solver) assumption except)
            conf_budget)
          timeout) in
      (record s { solver = e }, verdict result)

  -- The assumptions that failed.
  unfoldable pub get_conflict : SolverCadical → List ℤ → List ℤ
  get_conflict s [] = []
  get_conflict s (lit ∷ ls) =
      let rest = get_conflict s ls in if K.failed s.solver lit then lit ∷ rest else rest

  abbrev pub propagate : SolverCadical → List ℤ → Bool × List ℤ
  propagate s assum = K.find_up_implicants s.solver assum

  -- exportClauses: the fixed variables as unit clauses, then the clauses that are not garbage.
  module _ (T : ClauseSink) where
    unfoldable pub export_units : Engine → List ℕ → T.State → T.State
    export_units e [] to = to
    export_units e (idx ∷ is) to =
        let unit = if ltb_ℤ (K.fixed e idx) (pos 0) then neg (pos idx) else pos idx in
        export_units e is (if is_zero (K.fixed e idx) then to else T.add_clause to (unit ∷ []))

    unfoldable pub export_stored : List (Bool × Clause) → T.State → T.State
    export_stored [] to = to
    export_stored ((garbage, c) ∷ cs) to =
        export_stored cs (if garbage then to else T.add_clause to c)

    unfoldable pub export_clauses : SolverCadical → T.State → T.State
    unfolding export_units export_stored
    export_clauses s to =
        export_stored (K.internal_clauses s.solver)
          (export_units s.solver (K.internal_vars s.solver) to)
