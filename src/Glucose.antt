-- ===== src/Glucose.antt =====
-- lib/EvalMaxSAT/src/glucoseinterface.h, class MonGlucose41: Glucose as the rest sees a SAT solver.
-- Glucose is the parameter `Glucose`; its variable 0 is made by the constructor and never used.
pub mod Answers
use eval_max_sat.Common.{
  ℕ, zero, suc, ◌+◌, ◌-◌, ◌≤◌, ◌<◌, ◌≡◌, List, [], ◌∷◌, ◌++◌, if◌then◌else◌, Bool, true, false, not,
  leb, length, map, any, In, get_or,
}
use eval_max_sat.Common.Int.{ℤ, pos, negsuc, neg, abs, is_neg, is_pos, eqb_ℤ}
use eval_max_sat.Common.Assign.{Clause, Assignment, holds, holds_all}
use eval_max_sat.MaxSat.Query.{resize}

-- lbool
pub data LBool : Type 0 where
  l_true l_false l_undef : LBool

abbrev pub is_true : LBool → Bool
is_true l_true = true
is_true _ = false

-- The integer for a variable and a sign.
abbrev pub signed : Bool → ℕ → ℤ
signed b v = if b then neg (pos v) else pos v

-- What the class calls. `formula` observes the clauses, as integers with a sign.
pub record Glucose : Type 1 where
  pub Solver : Type 0
  pub Lit : Type 0
  pub mk_lit : ℕ → Bool → Lit
  pub sign : Lit → Bool
  pub var : Lit → ℕ
  pub new_var : Solver → Bool → Bool → Solver × ℕ
  pub set_decision_var : Solver → ℕ → Bool → Solver
  pub add_clause : Solver → List Lit → Solver
  pub prop_check : Solver → List Lit → ℕ → Solver × Bool × List Lit
  pub set_conf_budget : Solver → ℤ → Solver
  pub solve : Solver → List Lit → Solver × Bool
  pub solve_limited : Solver → List Lit → Solver × LBool
  pub conflict : Solver → List Lit
  pub model : Solver → List LBool
  pub n_vars : Solver → ℕ
  pub n_clauses : Solver → ℕ
  pub formula : Solver → List (List Lit)
  pub sign-mk_lit : (v : ℕ) (b : Bool) → sign (mk_lit v b) ≡ b
  pub var-mk_lit : (v : ℕ) (b : Bool) → var (mk_lit v b) ≡ v
  -- After a negative answer the final conflict is over the opposites of assumptions, and the clauses
  -- imply it.
  pub conflict_assumed :
      (s : Solver) (c : List Lit) (l : Lit)
      → (solve s c).1 ≡ false
      → In l (conflict (solve s c).0)
      → (k : Lit) × In k c × (sign k ≡ not (sign l)) × (var k ≡ var l)
  pub conflict_implied :
      (s : Solver) (c : List Lit) (a : Assignment)
      → (solve s c).1 ≡ false
      → holds_all a (map (map (λ l. signed (sign l) (var l))) (formula s)) ≡ true
      → (l : Lit) × In l (conflict (solve s c).0) × (holds a (signed (sign l) (var l)) ≡ true)
  pub formula-add_clause : (s : Solver) (c : List Lit) → formula (add_clause s c) ≡ c ∷ formula s

module _ (G : Glucose) where
  open G use {Solver, Lit}

  -- if(e < 0) mkLit(-e, true) else mkLit(e, false)
  unfoldable pub to_lit : ℤ → Lit
  to_lit e = if is_neg e then G.mk_lit (abs e) true else G.mk_lit (abs e) false

  -- -Glucose::var(lit) if the sign is set, else Glucose::var(lit)
  unfoldable pub of_lit : Lit → ℤ
  of_lit l = signed (G.sign l) (G.var l)

  -- The loops that fill a vec<Lit>.
  abbrev pub to_lits : List ℤ → List Lit
  to_lits c = map to_lit c

  -- The literals other than `except`.
  unfoldable pub lits_except : List ℤ → ℤ → List Lit
  unfolding to_lit
  lits_except [] except = []
  lits_except (e ∷ c) except =
      let rest = lits_except c except in if eqb_ℤ e except then rest else to_lit e ∷ rest

  -- The constructor, over a solver that was just made.
  unfoldable pub new_solver : Solver → Solver
  new_solver s = G.set_decision_var (G.new_var s false true).0 0 false

  unfoldable pub propagate : Solver → List ℤ → List ℤ → Solver × Bool × List ℤ
  unfolding to_lit of_lit
  propagate s assum result =
      let (s', consistent, found) = G.prop_check s (to_lits assum) 2 in
      (s', consistent, if consistent then map of_lit found else result)

  -- A literal 0 is left out; the assertion is off.
  unfoldable pub clause_lits : Clause → List Lit
  unfolding to_lit
  clause_lits [] = []
  clause_lits (e ∷ c) =
      let rest = clause_lits c in
      if is_neg e then to_lit e ∷ rest else if is_pos e then to_lit e ∷ rest else rest

  unfoldable pub add_clause : Solver → Clause → Solver
  unfolding clause_lits
  add_clause s c = G.add_clause s (clause_lits c)

  abbrev pub solve_all : Solver → Solver × Bool
  solve_all s = G.solve s []

  -- getConflict()
  unfoldable pub final_conflict : Solver → List ℤ
  unfolding of_lit
  final_conflict s = map of_lit (G.conflict s)

  -- getConflict(assumptions): the assumptions whose opposites the final conflict holds.
  unfoldable pub assumed_part : List ℤ → List Lit → List ℤ
  unfolding of_lit
  assumed_part assumptions [] = []
  assumed_part assumptions (l ∷ c) =
      let rest = assumed_part assumptions c in
      if any (eqb_ℤ (neg (of_lit l))) assumptions then neg (of_lit l) ∷ rest else rest

  unfoldable pub get_conflict : Solver → List ℤ → List ℤ
  unfolding assumed_part
  get_conflict s assumptions = assumed_part assumptions (G.conflict s)

  abbrev pub size_conflict : Solver → ℕ
  size_conflict s = length (G.conflict s)

  -- 1 satisfiable, 0 unsatisfiable, -1 the budget is spent.
  abbrev pub verdict : LBool → ℤ
  verdict l_true = pos 1
  verdict l_false = pos 0
  verdict l_undef = negsuc 0

  unfoldable pub solve_limited : Solver → List ℤ → ℤ → ℤ → Solver × ℤ
  unfolding lits_except
  solve_limited s assumption conf_budget except =
      let (s', result) =
        G.solve_limited (G.set_conf_budget s conf_budget) (lits_except assumption except) in
      (s', verdict result)

  -- The time limit is not used.
  unfoldable pub solve_with_timeout_and_limit : Solver → List ℤ → ℕ → ℤ → ℤ → Solver × ℤ
  unfolding lits_except
  solve_with_timeout_and_limit s assumption timeout conf_budget except =
      let (s', result) =
        G.solve_limited (G.set_conf_budget s conf_budget) (lits_except assumption except) in
      (s', verdict result)

  unfoldable pub solve_with_timeout : Solver → List ℤ → ℕ → Solver × ℤ
  unfolding to_lit
  solve_with_timeout s assumption timeout =
      let (s', result) = G.solve_limited s (to_lits assumption) in (s', verdict result)

  abbrev pub n_vars : Solver → ℕ
  n_vars s = G.n_vars s - 1

  unfoldable pub solve : Solver → List ℤ → Solver × Bool
  unfolding to_lit
  solve s assumption = G.solve s (to_lits assumption)

  abbrev pub get_value : Solver → ℕ → Bool
  get_value s v = is_true (get_or (G.model s) v l_undef)

  -- The values of the model from place 1 on.
  abbrev pub model_values : List LBool → List Bool
  model_values [] = false ∷ []
  model_values (v ∷ vs) = false ∷ map is_true vs

  unfoldable pub get_solution : Solver → List Bool
  unfolding resize
  get_solution s =
      let res = model_values (G.model s) in
      if leb (length res) (n_vars s) then resize res (n_vars s + 1) else res

  -- The argument is overwritten: each variable is a decision variable.
  abbrev pub new_var : Solver → Bool → Solver × ℕ
  new_var s decision_var = G.new_var s true true

  abbrev pub set_decision_var : Solver → ℕ → Bool → Solver
  set_decision_var s v b = G.set_decision_var s v b

  abbrev pub n_clauses : Solver → ℕ
  n_clauses s = G.n_clauses s
