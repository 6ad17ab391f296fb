-- ===== src/Tests/Toy.antt =====
-- The theorems on Solver_cadical at a solver that tries one assignment.
use eval_max_sat.Common.{
  In, all, inl, inr, Bool-cases, Bool, ◌≢◌, ap, sym, ◌∙◌, and_left, and_right, ℕ, zero, suc, ◌<◌,
  ◌≡◌, refl, subst, List, [], ◌∷◌, ◌++◌, some, true, false, All, arith, length, map, if◌then◌else◌,
  not, ◌&&◌, ◌||◌, ◌==◌,
}
use eval_max_sat.Common.Int.{ℤ, pos, negsuc, neg, abs, eqb_ℤ, eqb_ℤ_iff}
use eval_max_sat.Common.Assign.{Clause, Assignment, holds, holds_all}
use eval_max_sat.Solver.{Cadical, SolverCadical}
use eval_max_sat.Solver
use eval_max_sat.Solver.Liveness.{Returns, solve-Returns}
use eval_max_sat.Solver.Answers.{
  highest, add_clause_correct, solve-get_conflict, solve-get_solution,
}

-- A solver that tries the assignment that is false everywhere, and knows one reason for a conflict: the
-- newest clause is the opposite of the first assumption.
record Toy : Type 0 where
  toy_clauses : List Clause
  open_clause : Clause
  assumptions : List ℤ
  culprit : ℤ

abbrev unit_conflict : List Clause → List ℤ → ℕ × ℤ
unit_conflict ((pos (suc n) ∷ []) ∷ cs) (negsuc m ∷ ls) =
    if n == m then (20, negsuc m) else (0, pos 0)
unit_conflict cs ls = (0, pos 0)

abbrev all_false : List Clause → List ℤ → Bool
all_false cs ls = holds_all (λ i. false) cs && all (holds (λ i. false)) ls

abbrev answer : List Clause → List ℤ → ℕ × ℤ
answer cs ls = if all_false cs ls then (10, pos 0) else unit_conflict cs ls

unit_conflict-code :
    (cs : List Clause) (ls : List ℤ) (a : Assignment)
    → ((unit_conflict cs ls).0 ≢ 10)
      × ((unit_conflict cs ls).0 ≡ 20
          → holds_all a cs ≡ true
          → (l : ℤ) × In l ls × (eqb_ℤ l (unit_conflict cs ls).1 ≡ true) × (holds a l ≡ false))
unit_conflict-code ((pos (suc n) ∷ []) ∷ cs) (negsuc m ∷ ls) a = elim (Bool-cases (n == m)) [
  | inl y ↦
      let e : n ≡ m = ground arith in
      rw y (
        λ h. omega (arith, h),
        λ _ s. (negsuc m, inl refl, (eqb_ℤ_iff (negsuc m) (negsuc m)).1 refl, falsified_by n m e s),
      )
  | inr z ↦ rw z (λ h. omega (arith, h), λ h s. absurd (omega (arith, h)))
]
  where
    falsified_by :
        (n m : ℕ)
        → n ≡ m
        → ((a (suc n) || false) && holds_all a cs) ≡ true
        → not (a (suc m)) ≡ false
    falsified_by n m e s = subst (λ k. not (a (suc k)) ≡ false) e (ground (arith, s))
unit_conflict-code cs ls a = (λ h. omega (arith, h), λ h s. absurd (omega (arith, h)))

all_false_sound :
    (cs : List Clause) (ls : List ℤ)
    → all_false cs ls ≡ true
    → (holds_all (λ i. false) cs ≡ true) × All (λ l. holds (λ i. false) l ≡ true) ls
all_false_sound cs ls h = (
  and_left (holds_all (λ i. false) cs) (all (holds (λ i. false)) ls) h,
  each ls (and_right (holds_all (λ i. false) cs) (all (holds (λ i. false)) ls) h),
)
  where
    each :
        (ls : List ℤ)
        → all (holds (λ i. false)) ls ≡ true
        → All (λ l. holds (λ i. false) l ≡ true) ls
    each [] h = tt
    each (l ∷ ls) h = (
      and_left (holds (λ i. false) l) (all (holds (λ i. false)) ls) h,
      each ls (and_right (holds (λ i. false) l) (all (holds (λ i. false)) ls) h),
    )

answer-sat : (cs : List Clause) (ls : List ℤ) → (answer cs ls).0 ≡ 10 → all_false cs ls ≡ true
answer-sat cs ls h = elim (Bool-cases (all_false cs ls)) [
  | inl y ↦ y
  | inr z ↦ absurd ((unit_conflict-code cs ls (λ i. false)).0 (sym (ap code z) ∙ h))
]
  where
    code : Bool → ℕ
    code b = (if b then (10, pos 0) else unit_conflict cs ls).0

answer-unsat :
    (cs : List Clause) (ls : List ℤ) → (answer cs ls).0 ≡ 20 → answer cs ls ≡ unit_conflict cs ls
answer-unsat cs ls h = elim (Bool-cases (all_false cs ls)) [
  | inl y ↦
      absurd
        (ten_not_twenty (sym (ap (λ b. (if b then (10, pos 0) else unit_conflict cs ls).0) y) ∙ h))
  | inr z ↦ ap (λ b. if b then (10, pos 0) else unit_conflict cs ls) z
]
  where
    ten_not_twenty : ◌≢◌ {A = ℕ} 10 20
    ten_not_twenty h = omega (arith, h)

toy_conflict :
    (cs : List Clause) (ls : List ℤ) (a : Assignment)
    → (answer cs ls).0 ≡ 20
    → holds_all a cs ≡ true
    → (l : ℤ) × In l ls × (eqb_ℤ l (answer cs ls).1 ≡ true) × (holds a l ≡ false)
toy_conflict cs ls a h s =
    let e = answer-unsat cs ls h in
    let (l, i, x, y) = (unit_conflict-code cs ls a).1 (sym (ap (λ r. r.0) e) ∙ h) s in
    (l, i, ap (λ r. eqb_ℤ l r.1) e ∙ x, y)

abbrev l_zero : ℤ → Bool
l_zero (pos zero) = true
l_zero (pos (suc n)) = false
l_zero (negsuc n) = false

l_zero-pos : (l : ℤ) → 0 < abs l → l_zero l ≡ false
l_zero-pos (pos zero) h = elim h [ ]
l_zero-pos (pos (suc n)) h = refl
l_zero-pos (negsuc n) h = refl

abbrev toy : Cadical
toy = record {
  Engine = Toy;
  add = λ e l.
      if l_zero l
      then record e { toy_clauses = e.open_clause ∷ e.toy_clauses; open_clause = [] }
      else record e { open_clause = e.open_clause ++ l ∷ [] };
  assume = λ e l. record e { assumptions = e.assumptions ++ l ∷ [] };
  solve = λ e. (
    record e { assumptions = []; culprit = (answer e.toy_clauses e.assumptions).1 },
    (answer e.toy_clauses e.assumptions).0,
  );
  reset_assumptions = λ e. record e { assumptions = [] };
  limit_conflicts = λ e n. e;
  set_timeout = λ e n. e;
  failed = λ e l. eqb_ℤ l e.culprit;
  val = λ e l. neg l;
  solution = λ e. [];
  find_up_implicants = λ e ls. (true, ls);
  simplify = λ e. e;
  internal_vars = λ e. [];
  fixed = λ e i. pos 0;
  internal_clauses = λ e. map (λ c. (false, c)) e.toy_clauses;
  formula = λ e. e.toy_clauses;
  pending = λ e. e.open_clause;
  assumed = λ e. e.assumptions;
  formula-add = λ e l h. rw (l_zero-pos l h) refl;
  pending-add = λ e l h. rw (l_zero-pos l h) refl;
  formula-close = λ e. refl;
  pending-close = λ e. refl;
  formula-assume = λ e l. refl;
  assumed-assume = λ e l. refl;
  formula-solve = λ e. refl;
  assumed-solve = λ e. refl;
  solve-sat =
      λ e h. all_false_sound e.toy_clauses e.assumptions (answer-sat e.toy_clauses e.assumptions h);
  solve-unsat = λ e a h s. toy_conflict e.toy_clauses e.assumptions a h s;
}

-- The clause 1, and no clause.
abbrev with_unit : SolverCadical toy
with_unit = record {
  solver = record {
    toy_clauses = (pos 1 ∷ []) ∷ [];
    open_clause = [];
    assumptions = [];
    culprit = pos 0;
  };
  n_var = 1;
}

abbrev without_clauses : SolverCadical toy
without_clauses = record {
  solver = record { toy_clauses = []; open_clause = []; assumptions = []; culprit = pos 0 };
  n_var = 3;
}

add_clause_correct_example :
    (toy.formula (Solver.add_clause toy with_unit (pos 1 ∷ negsuc 1 ∷ [])).solver
      ≡ (pos 1 ∷ negsuc 1 ∷ []) ∷ (pos 1 ∷ []) ∷ [])
    × (toy.pending (Solver.add_clause toy with_unit (pos 1 ∷ negsuc 1 ∷ [])).solver ≡ [])
    × ((Solver.add_clause toy with_unit (pos 1 ∷ negsuc 1 ∷ [])).n_var
        ≡ highest toy 1 (pos 1 ∷ negsuc 1 ∷ []))
add_clause_correct_example =
    add_clause_correct toy with_unit (pos 1 ∷ negsuc 1 ∷ []) refl (omega arith, (omega arith, tt))

solve-get_conflict_example :
    (s' : SolverCadical toy) × (Solver.solve toy 1 with_unit (negsuc 0 ∷ pos 2 ∷ [])
      ≡ some (s', false))
    × ((a : Assignment)
        → holds_all a ((pos 1 ∷ []) ∷ []) ≡ true
        → (l : ℤ) × In l (Solver.get_conflict toy s' (negsuc 0 ∷ pos 2 ∷ [])) × (holds a l ≡ false))
    × ((l : ℤ)
        → In l (Solver.get_conflict toy s' (negsuc 0 ∷ pos 2 ∷ []))
        → In l (negsuc 0 ∷ pos 2 ∷ []) × (toy.failed s'.solver l ≡ true))
unfolding Solver.assume_all
solve-get_conflict_example = solve-get_conflict toy with_unit (negsuc 0 ∷ pos 2 ∷ []) 0 refl refl

solve-get_solution_example :
    (s' : SolverCadical toy) × (Solver.solve toy 1 without_clauses (negsuc 1 ∷ [])
      ≡ some (s', true))
    × (3 < length (Solver.get_solution toy s'))
    × (holds_all (Solver.valued (Solver.get_solution toy s')) [] ≡ true)
    × All (λ l. holds (Solver.valued (Solver.get_solution toy s')) l ≡ true) (negsuc 1 ∷ [])
unfolding Solver.assume_all
solve-get_solution_example = solve-get_solution toy without_clauses (negsuc 1 ∷ []) 0 refl refl

solve-Returns_example :
    Returns toy with_unit
      (negsuc 0 ∷ pos 2 ∷ [])
      (Solver.solve toy 2 with_unit (negsuc 0 ∷ pos 2 ∷ []))
unfolding Solver.assume_all
solve-Returns_example =
    solve-Returns toy 0 2 with_unit (negsuc 0 ∷ pos 2 ∷ []) (omega arith) refl (inr refl)
