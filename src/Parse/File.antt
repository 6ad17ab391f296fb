-- ===== src/Parse/File.antt =====
-- lib/EvalMaxSAT/src/utile.h, readClause and parse: reading a WCNF file into the solver.
-- The loops run on fuel: each round consumes a byte at least, so one more than the length of the
-- stream is enough.
pub mod Clauses
pub mod Print
pub mod Load
pub mod Ends
use eval_max_sat.Common.{
  ℕ, zero, suc, ◌+◌, ◌-◌, ◌^◌, List, [], ◌∷◌, ◌++◌, Option, none, some, if◌then◌else◌, Bool, true,
  false, ltb, leb, length, ◌==◌,
}
use eval_max_sat.Common.Int.{ℤ, pos, negsuc, neg, abs, is_zero}
use eval_max_sat.Common.Assign.{Clause}
use eval_max_sat.Common.Loop.{for_range}
use eval_max_sat.Lazy.{ClauseSink}
use eval_max_sat.Parse.{
  Stream, skip_whitespace, skip_line, parse_int, parse_weight, eager_match, hard_weight,
}
use eval_max_sat.MaxSat.{MaxSat, Result, ok, err, Error, new_var, add_clause}
use eval_max_sat.MaxSat.Query.{n_vars, set_n_input_vars}

-- What a read ends with: a value, `return false`, `exit(3)`, an error of the solver, or no fuel.
pub data Read (A : Type 0) : Type 0 where
  got : A → Read A
  rejected aborted out_of_fuel : Read A
  failed : Error → Read A

infixl 5 ◌>>=◌
abbrev pub ◌>>=◌ : {A B : Type 0} → Read A → (A → Read B) → Read B
got a >>= f = f a
rejected >>= f = rejected
aborted >>= f = aborted
out_of_fuel >>= f = out_of_fuel
failed e >>= f = failed e

abbrev pub or_exit : {A : Type 0} → Option A → Read A
or_exit none = aborted
or_exit (some a) = got a

abbrev pub or_error : {A : Type 0} → Result A → Read A
or_error (ok a) = got a
or_error (err e) = failed e

-- readClause(in): literals up to a 0.
unfoldable pub read_clause : ℕ → Clause → Stream → Read (Clause × Stream)
read_clause zero clause input = out_of_fuel
read_clause (suc fuel) clause input = do
  (lit, rest) ← or_exit (parse_int input)
  elim (is_zero lit) [
    | true ↦ got (clause, rest)
    | false ↦ read_clause fuel (clause ++ lit ∷ []) rest
  ]

-- "wcnf"
abbrev wcnf : List ℕ
wcnf = b'w' ∷ b'c' ∷ b'n' ∷ b'f' ∷ []

-- The weight of a hard clause, which the old format's first line states, behind its 'p'.
unfoldable pub problem_line : Stream → Read (ℕ × Stream)
problem_line [] = rejected
problem_line (c ∷ s) =
    let (matched, rest) = eager_match wcnf (skip_whitespace (c ∷ s)) in
    let numbers : Read (ℕ × Stream) = (do
      (variables, rest1) ← or_exit (parse_int rest)
      (clauses, rest2) ← or_exit (parse_int rest1)
      or_exit (parse_weight rest2)) in
    if c == b' ' then if matched then numbers else rejected else rejected

-- An unsigned 64-bit weight as a `long long`.
abbrev pub long_of : ℕ → ℤ
long_of w = if ltb w (2 ^ 63) then pos w else neg (pos (2 ^ 64 - w))

module _ (T : ClauseSink) where
  -- while(abs(lit) > solveur->nVars()) solveur->newVar();
  abbrev pub declare : MaxSat T → ℤ → MaxSat T
  declare s lit = for_range (abs lit - n_vars T s) 0 (λ _ s'. new_var T s') s

  -- readClause(in, solveur)
  unfoldable pub read_clause_into :
      ℕ → MaxSat T → Clause → Stream → Read (MaxSat T × Clause × Stream)
  unfolding for_range new_var
  read_clause_into zero s clause input = out_of_fuel
  read_clause_into (suc fuel) s clause input = do
    (lit, rest) ← or_exit (parse_int input)
    elim (is_zero lit) [
      | true ↦ got (s, clause, rest)
      | false ↦ read_clause_into fuel (declare s lit) (clause ++ lit ∷ []) rest
    ]

  -- The variables of parse's loop: the solver, the soft clauses put by, the weight of a hard clause
  -- and the rest of the file.
  pub record Progress : Type 0 where
    pub solver : MaxSat T
    pub soft_clauses : List (Clause × ℕ)
    pub top : ℕ
    pub input : Stream

  -- A clause with its weight in front.
  unfoldable pub clause_line : Progress → Read Progress
  unfolding read_clause_into
  clause_line p = do
    (weight, input) ← or_exit (parse_weight p.input)
    (s, clause, rest) ← read_clause_into (suc (length input)) p.solver [] input
    elim (leb p.top weight) [
      | true ↦ do
        (s', _) ← or_error (add_clause T s clause none)
        got (record p { solver = s'; input = rest })
      | false ↦ got (record p {
        solver = s;
        soft_clauses = p.soft_clauses ++ (clause, weight) ∷ [];
        input = rest;
      })
    ]

  -- One round of the loop, from the first byte behind the blanks.
  unfoldable pub one_line : Progress → ℕ → Stream → Read Progress
  unfolding clause_line problem_line skip_line
  one_line p c s = elim (c == b'c') [
    | true ↦ got (record p { input = skip_line (c ∷ s) })
    | false ↦ elim (c == b'p') [
      | true ↦ do (top, rest) ← problem_line s; got (record p { top = top; input = rest })
      | false ↦ clause_line (record p { input = c ∷ s })
    ]
  ]

  unfoldable pub all_lines : ℕ → Progress → Read Progress
  unfolding one_line
  all_lines zero p = out_of_fuel
  all_lines (suc fuel) p = elim (skip_whitespace p.input) [
    | [] ↦ got (record p { input = [] })
    | c ∷ s ↦ do p' ← one_line p c s; all_lines fuel p'
  ]

  unfoldable pub add_all_soft : MaxSat T → List (Clause × ℕ) → Read (MaxSat T)
  add_all_soft s [] = got s
  add_all_soft s ((clause, weight) ∷ rest) = do
    (s', _) ← or_error (add_clause T s clause (some (long_of weight)))
    add_all_soft s' rest

  -- The soft clauses are added once the number of variables is known.
  unfoldable pub parse : MaxSat T → Stream → Read (MaxSat T)
  unfolding all_lines add_all_soft
  parse s [] = rejected
  parse s (c ∷ input) = do
    p ←
        all_lines (suc (suc (length input)))
          (record { solver = s; soft_clauses = []; top = hard_weight; input = c ∷ input })
    add_all_soft (set_n_input_vars T p.solver (n_vars T p.solver)) p.soft_clauses
