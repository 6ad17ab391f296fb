-- ===== src/Solver/Liveness.antt =====
-- Solver_cadical::solve repeats its call until CaDiCaL answers: that it then returns, with the answer.
use eval_max_sat.Common.{
  ℕ, zero, suc, ◌<◌, ◌≡◌, ap, ◌∙◌, sym, List, [], some, true, false, All, In, arith, ◌⊎◌, inl, inr,
  ◌==◌, Bool, Bool-cases, Option,
}
use eval_max_sat.Common.Int.{ℤ}
use eval_max_sat.Common.Assign.{Assignment, holds, holds_all}
use eval_max_sat.Solver.{
  Cadical, SolverCadical, valued, assume_all, solve, get_conflict, get_solution,
}
use eval_max_sat.Solver.Answers.{assume_all_lem, solve-get_conflict, solve-get_solution}

module _ (K : Cadical) where
  open K use {Engine}

  -- CaDiCaL after `n` calls under the assumptions.
  abbrev pub after : ℕ → Engine → List ℤ → Engine
  after zero e assumption = e
  after (suc n) e assumption = after n (K.solve (assume_all K e assumption)).0 assumption

  -- The next call is answered.
  abbrev pub Answers : Engine → List ℤ → Type 0
  Answers e assumption =
      ((K.solve (assume_all K e assumption)).1 ≡ 10)
      ⊎ ((K.solve (assume_all K e assumption)).1 ≡ 20)

  -- A result: a solution of the clauses and the assumptions, or a core among the assumptions.
  abbrev pub Returns : SolverCadical K → List ℤ → Option (SolverCadical K × Bool) → Type 0
  Returns s assumption r =
      ((s' : SolverCadical K) × (r ≡ some (s', true))
        × (holds_all (valued (get_solution K s')) (K.formula s.solver) ≡ true)
        × All (λ l. holds (valued (get_solution K s')) l ≡ true) assumption)
      ⊎ ((s' : SolverCadical K) × (r ≡ some (s', false))
          × ((a : Assignment)
              → holds_all a (K.formula s.solver) ≡ true
              → (l : ℤ) × In l (get_conflict K s' assumption) × (holds a l ≡ false))
          × ((l : ℤ) → In l (get_conflict K s' assumption) → In l assumption))

  answered-Returns :
      (fuel : ℕ) (s : SolverCadical K) (assumption : List ℤ)
      → K.assumed s.solver ≡ []
      → Answers s.solver assumption
      → Returns s assumption (solve K (suc fuel) s assumption)
  answered-Returns fuel s assumption o (inl sat) =
      let (s', e, long, holds_it, lits) = solve-get_solution K s assumption fuel o sat in
      inl (s', e, holds_it, lits)
  answered-Returns fuel s assumption o (inr unsat) =
      let (s', e, core, own) = solve-get_conflict K s assumption fuel o unsat in
      inr (s', e, core, λ l i. (own l i).0)

  -- If CaDiCaL, without assumptions from before, answers one of the calls at last, solve returns with
  -- more fuel than calls went before: either true, with a solution of the clauses and the
  -- assumptions, or false, with a core among the assumptions.
  pub solve-Returns :
      (n fuel : ℕ) (s : SolverCadical K) (assumption : List ℤ)
      → n < fuel
      → K.assumed s.solver ≡ []
      → Answers (after n s.solver assumption) assumption
      → Returns s assumption (solve K fuel s assumption)
  unfolding solve
  solve-Returns n zero s assumption l o h = elim l [ ]
  solve-Returns zero (suc fuel) s assumption l o h = answered-Returns fuel s assumption o h
  solve-Returns (suc n) (suc fuel) s assumption l o h =
      let e = assume_all K s.solver assumption in
      let s1 : SolverCadical K = record s { solver = (K.solve e).0 } in
      elim (Bool-cases ((K.solve e).1 == 10)) [
        | inl y ↦ answered-Returns fuel s assumption o (inl (ground arith))
        | inr z ↦ elim (Bool-cases ((K.solve e).1 == 20)) [
          | inl y ↦ answered-Returns fuel s assumption o (inr (ground arith))
          | inr u ↦
              let same : K.formula s1.solver ≡ K.formula s.solver =
                K.formula-solve e ∙ (assume_all_lem K assumption s.solver).0 in
              rw (z, u)
                (again s1 same
                  (solve-Returns n fuel s1 assumption (omega arith) (K.assumed-solve e) h))
        ]
      ]
    where
      again :
          (t : SolverCadical K) {r : Option (SolverCadical K × Bool)}
          → K.formula t.solver ≡ K.formula s.solver
          → Returns t assumption r
          → Returns s assumption r
      again t same (inl (s', q, sat, lits)) =
          inl (s', q, sym (ap (holds_all (valued (get_solution K s'))) same) ∙ sat, lits)
      again t same (inr (s', q, core, own)) =
          inr (s', q, λ a hold. core a (ap (holds_all a) same ∙ hold), own)
