-- ===== src/Solver/Answers.antt =====
-- What a call of Solver_cadical brings: the clause it adds, a satisfying solution, a core.
use eval_max_sat.Common.{
  Bool, ℕ, suc, ◌+◌, ◌<◌, ◌≡◌, refl, sym, ap, ◌∙◌, subst, List, [], ◌∷◌, ◌++◌, some, if◌then◌else◌,
  true, false, leb, ltb, length, All, In, arith, append_assoc, append-nil, Bool-cases, inl, inr,
}
use eval_max_sat.Common.Int.{ℤ, pos, negsuc, abs}
use eval_max_sat.Common.Assign.{Clause, Assignment, holds, holds_all, same_clauses}
use eval_max_sat.MaxSat.Query.{length-resize, get_or-resize_wide}
use eval_max_sat.Solver.{
  Cadical, SolverCadical, valued, add_literals, add_clause, assume_all, solve, get_conflict,
  get_solution,
}

module _ (K : Cadical) where
  open K use {Engine}

  -- The greatest of a number and the variables of a clause.
  pub highest : ℕ → Clause → ℕ
  highest v [] = v
  highest v (lit ∷ c) = highest (if ltb v (abs lit) then abs lit else v) c

  add_literals_lem :
      (c : Clause) (s : SolverCadical K)
      → All (λ l. 0 < abs l) c
      → (K.formula (add_literals K s c).solver ≡ K.formula s.solver)
        × (K.pending (add_literals K s c).solver ≡ K.pending s.solver ++ c)
        × ((add_literals K s c).n_var ≡ highest s.n_var c)
  unfolding add_literals highest
  add_literals_lem [] s h = (refl, sym (append-nil (K.pending s.solver)), refl)
  add_literals_lem (lit ∷ c) s (h, hs) =
      let t : SolverCadical K = record {
        solver = K.add s.solver lit;
        n_var = if ltb s.n_var (abs lit) then abs lit else s.n_var;
      } in
      let (f, p, n) = add_literals_lem c t hs in
      (
        f ∙ K.formula-add s.solver lit h,
        p
            ∙ ap (λ x. x ++ c) (K.pending-add s.solver lit h)
            ∙ append_assoc (K.pending s.solver) (lit ∷ []) c,
        n,
      )

  -- Adding a clause of literals other than 0, where no clause is left open, adds that clause to
  -- CaDiCaL's, leaves none open, and raises nVar to the clause's greatest variable if it is below.
  pub add_clause_correct :
      (s : SolverCadical K) (c : Clause)
      → K.pending s.solver ≡ []
      → All (λ l. 0 < abs l) c
      → (K.formula (add_clause K s c).solver ≡ c ∷ K.formula s.solver)
        × (K.pending (add_clause K s c).solver ≡ [])
        × ((add_clause K s c).n_var ≡ highest s.n_var c)
  unfolding add_clause
  add_clause_correct s c o h =
      let (f, p, n) = add_literals_lem c s h in
      let e = (add_literals K s c).solver in
      (
        K.formula-close e ∙ ap (λ x. x ∷ K.formula e) (p ∙ ap (λ x. x ++ c) o) ∙ ap (λ x. c ∷ x) f,
        K.pending-close e,
        n,
      )

  pub assume_all_lem :
      (ls : List ℤ) (e : Engine)
      → (K.formula (assume_all K e ls) ≡ K.formula e)
        × (K.assumed (assume_all K e ls) ≡ K.assumed e ++ ls)
  unfolding assume_all
  assume_all_lem [] e = (refl, sym (append-nil (K.assumed e)))
  assume_all_lem (l ∷ ls) e =
      let (f, p) = assume_all_lem ls (K.assume e l) in
      (
        f ∙ K.formula-assume e l,
        p ∙ ap (λ x. x ++ ls) (K.assumed-assume e l) ∙ append_assoc (K.assumed e) (l ∷ []) ls,
      )

  In-get_conflict :
      (s : SolverCadical K) (ls : List ℤ) (l : ℤ)
      → In l ls
      → K.failed s.solver l ≡ true
      → In l (get_conflict K s ls)
  unfolding get_conflict
  In-get_conflict s [] l h f = absurd h
  In-get_conflict s (k ∷ ls) l (inl e) f = rw (ap (K.failed s.solver) (sym e) ∙ f) (inl e)
  In-get_conflict s (k ∷ ls) l (inr h) f = elim (Bool-cases (K.failed s.solver k)) [
    | inl y ↦ rw y (inr (In-get_conflict s ls l h f))
    | inr z ↦ rw z (In-get_conflict s ls l h f)
  ]

  get_conflict-In :
      (s : SolverCadical K) (ls : List ℤ) (l : ℤ)
      → In l (get_conflict K s ls)
      → In l ls × (K.failed s.solver l ≡ true)
  unfolding get_conflict
  get_conflict-In s [] l h = absurd h
  get_conflict-In s (k ∷ ls) l h =
      by_test (K.failed s.solver k) refl (λ i. get_conflict-In s ls l i) h
    where
      by_test :
          (b : Bool)
          → K.failed s.solver k ≡ b
          → (In l (get_conflict K s ls) → In l ls × (K.failed s.solver l ≡ true))
          → In l (if b then k ∷ get_conflict K s ls else get_conflict K s ls)
          → In l (k ∷ ls) × (K.failed s.solver l ≡ true)
      by_test true y ih (inl e) = (inl e, ap (K.failed s.solver) e ∙ y)
      by_test true y ih (inr i) = let (j, f) = ih i in (inr j, f)
      by_test false z ih i = let (j, f) = ih i in (inr j, f)

  -- If CaDiCaL answers 20 under the assumptions, solve returns false, and getConflict then gives a core:
  -- every assignment that satisfies the clauses falsifies one of its literals, and each of its literals
  -- is an assumption that CaDiCaL reports as failed.
  pub solve-get_conflict :
      (s : SolverCadical K) (assumption : List ℤ) (fuel : ℕ)
      → K.assumed s.solver ≡ []
      → (K.solve (assume_all K s.solver assumption)).1 ≡ 20
      → (s' : SolverCadical K) × (solve K (suc fuel) s assumption ≡ some (s', false))
        × ((a : Assignment)
            → holds_all a (K.formula s.solver) ≡ true
            → (l : ℤ) × In l (get_conflict K s' assumption) × (holds a l ≡ false))
        × ((l : ℤ)
            → In l (get_conflict K s' assumption)
            → In l assumption × (K.failed s'.solver l ≡ true))
  unfolding solve
  solve-get_conflict s assumption fuel o h =
      let e = assume_all K s.solver assumption in
      let (f, p) = assume_all_lem assumption s.solver in
      (
        record s { solver = (K.solve e).0 },
        rw h refl,
        λ a t.
            let (l, i, x, y) = K.solve-unsat e a h (ap (holds_all a) f ∙ t) in
            (
              l,
              In-get_conflict (record s { solver = (K.solve e).0 }) assumption l
                  (subst (In l) (p ∙ ap (λ z. z ++ assumption) o) i) x,
              y,
            ),
        get_conflict-In (record s { solver = (K.solve e).0 }) assumption,
      )

  get_solution_lem :
      (s : SolverCadical K)
      → (s.n_var < length (get_solution K s))
        × ((i : ℕ) → valued (get_solution K s) i ≡ valued (K.solution s.solver) i)
  unfolding get_solution
  get_solution_lem s = elim (Bool-cases (leb (length (K.solution s.solver)) s.n_var)) [
    | inl y ↦ rw y (
      omega (arith, length-resize (s.n_var + 1) (K.solution s.solver)),
      λ i. get_or-resize_wide (s.n_var + 1) i (K.solution s.solver) (ground arith),
    )
    | inr z ↦ rw z (ground arith, λ i. refl)
  ]

  same_lit : (a b : Assignment) (l : ℤ) → ((i : ℕ) → a i ≡ b i) → holds a l ≡ holds b l
  same_lit a b (pos n) e = e n
  same_lit a b (negsuc n) e = rw (e (suc n)) refl

  same_lits :
      (a b : Assignment) (ls : List ℤ)
      → ((i : ℕ) → a i ≡ b i)
      → All (λ l. holds b l ≡ true) ls
      → All (λ l. holds a l ≡ true) ls
  same_lits a b [] e h = tt
  same_lits a b (l ∷ ls) e (h, hs) = (same_lit a b l e ∙ h, same_lits a b ls e hs)

  -- If CaDiCaL answers 10 under the assumptions, solve returns true, and getSolution then gives a value
  -- to every variable up to nVar; its values satisfy the clauses and the assumptions.
  pub solve-get_solution :
      (s : SolverCadical K) (assumption : List ℤ) (fuel : ℕ)
      → K.assumed s.solver ≡ []
      → (K.solve (assume_all K s.solver assumption)).1 ≡ 10
      → (s' : SolverCadical K) × (solve K (suc fuel) s assumption ≡ some (s', true))
        × (s.n_var < length (get_solution K s'))
        × (holds_all (valued (get_solution K s')) (K.formula s.solver) ≡ true)
        × All (λ l. holds (valued (get_solution K s')) l ≡ true) assumption
  unfolding solve
  solve-get_solution s assumption fuel o h =
      let e = assume_all K s.solver assumption in
      let s' : SolverCadical K = record s { solver = (K.solve e).0 } in
      let (f, p) = assume_all_lem assumption s.solver in
      let (sat, lits) = K.solve-sat e h in
      let (long, same) = get_solution_lem s' in
      (
        s',
        rw h refl,
        long,
        same_clauses (valued (get_solution K s')) (valued (K.solution s'.solver))
              (K.formula s.solver) same
            ∙ ap (holds_all (valued (K.solution s'.solver))) (sym f)
            ∙ sat,
        same_lits (valued (get_solution K s')) (valued (K.solution s'.solver)) assumption same (
            subst (All (λ l. holds (valued (K.solution s'.solver)) l ≡ true))
              (p ∙ ap (λ z. z ++ assumption) o) lits),
      )
