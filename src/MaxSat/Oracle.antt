-- ===== src/MaxSat/Oracle.antt =====
-- EvalMaxSAT.h, the template parameter SAT_SOLVER: what the class calls of its solver besides the
-- calls that a totalizer makes too. The laws are what those answers mean.
use eval_max_sat.Common.{◌≡◌, ◌≢◌, List, [], ◌∷◌, Bool, true, false, if◌then◌else◌, All, In, get_or}
use eval_max_sat.Common.Int.{ℤ, pos, abs, eqb_ℤ}
use eval_max_sat.Common.Assign.{Assignment, Clause, holds, holds_all}
use eval_max_sat.Lazy.{ClauseSink}

-- The assignment a solution stands for: false past its end.
abbrev pub valued : List Bool → Assignment
valued solution i = get_or solution i false

-- Each assignment that satisfies the clauses falsifies one of the literals.
abbrev pub IsCore : List Clause → List ℤ → Type 0
IsCore clauses c =
    (a : Assignment) → holds_all a clauses ≡ true → (l : ℤ) × In l c × (holds a l ≡ false)

-- The assumptions that a call with the argument `except` makes.
unfoldable pub without : ℤ → List ℤ → List ℤ
without except [] = []
without except (l ∷ c) = let rest = without except c in if eqb_ℤ l except then rest else l ∷ rest

-- No variable stands in the clause twice.
abbrev pub IsDistinct : Clause → Type 0
IsDistinct [] = Unit
IsDistinct (l ∷ c) = All (λ k. abs l ≢ abs k) c × IsDistinct c

pub record SatSolver (T : ClauseSink) : Type 0 where
  pub propagate : T.State → List ℤ → T.State × Bool × List ℤ
  pub solve_limited : T.State → List ℤ → ℤ → ℤ → T.State × ℤ
  pub solve : T.State → List ℤ → T.State × Bool
  -- solveWithTimeout; the time limit is the solver's own here.
  pub solve_with_timeout : T.State → List ℤ → T.State × ℤ
  pub get_conflict : T.State → List ℤ → List ℤ
  pub get_solution : T.State → List Bool
  pub clauses-propagate : (s : T.State) (c : List ℤ) → T.clauses (propagate s c).0 ≡ T.clauses s
  pub vars-propagate : (s : T.State) (c : List ℤ) → T.vars (propagate s c).0 ≡ T.vars s
  pub clauses-solve_limited :
      (s : T.State) (c : List ℤ) (budget except : ℤ)
      → T.clauses (solve_limited s c budget except).0 ≡ T.clauses s
  pub vars-solve_limited :
      (s : T.State) (c : List ℤ) (budget except : ℤ)
      → T.vars (solve_limited s c budget except).0 ≡ T.vars s
  -- A propagation that fails has found a contradiction.
  pub propagate-IsCore :
      (s : T.State) (c : List ℤ) → (propagate s c).1 ≡ false → IsCore (T.clauses s) c
  -- What it finds follows from the literals.
  pub propagate_implies :
      (s : T.State) (c : List ℤ) (a : Assignment)
      → (propagate s c).1 ≡ true
      → holds_all a (T.clauses s) ≡ true
      → All (λ l. holds a l ≡ true) c
      → All (λ l. holds a l ≡ true) (propagate s c).2
  -- The answer 0 is unsatisfiable.
  pub solve_limited-IsCore :
      (s : T.State) (c : List ℤ) (budget except : ℤ)
      → (solve_limited s c budget except).1 ≡ pos 0
      → IsCore (T.clauses s) (without except c)
  pub clauses-solve : (s : T.State) (c : List ℤ) → T.clauses (solve s c).0 ≡ T.clauses s
  pub vars-solve : (s : T.State) (c : List ℤ) → T.vars (solve s c).0 ≡ T.vars s
  pub clauses-solve_with_timeout :
      (s : T.State) (c : List ℤ) → T.clauses (solve_with_timeout s c).0 ≡ T.clauses s
  pub vars-solve_with_timeout :
      (s : T.State) (c : List ℤ) → T.vars (solve_with_timeout s c).0 ≡ T.vars s
  -- A positive answer comes with a solution of the clauses and the assumptions.
  pub solve_sat :
      (s : T.State) (c : List ℤ)
      → (solve s c).1 ≡ true
      → (holds_all (valued (get_solution (solve s c).0)) (T.clauses s) ≡ true)
        × All (λ l. holds (valued (get_solution (solve s c).0)) l ≡ true) c
  -- A negative one with a core of assumptions.
  pub solve_unsat :
      (s : T.State) (c : List ℤ)
      → (solve s c).1 ≡ false
      → IsCore (T.clauses s) (get_conflict (solve s c).0 c)
        × ((l : ℤ) → In l (get_conflict (solve s c).0 c) → In l c)
  -- The core names no variable twice if the assumptions do not.
  pub get_conflict-IsDistinct :
      (s : T.State) (c : List ℤ) → IsDistinct c → IsDistinct (get_conflict s c)
