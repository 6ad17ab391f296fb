-- ===== src/MaxSat/Solve.antt =====
-- EvalMaxSAT.h, solve: the search for an optimum, from the start to the answer.
-- What the clock, the random numbers and floating point decide is the parameter `Environment`.
-- The loops have fuel: how long the search takes depends on the answers of the SAT solver.
pub mod Optimal
pub mod Unsat
use eval_max_sat.Common.{
  ℕ, zero, suc, ◌+◌, ◌-◌, ◌*◌, ◌%◌, ◌^◌, List, [], ◌∷◌, ◌++◌, Option, none, some, if◌then◌else◌,
  Bool, true, false, not, ◌&&◌, ◌||◌, ltb, leb, ◌==◌, length,
}
use eval_max_sat.Common.Int.{ℤ, pos, negsuc, is_zero, eqb_ℤ}
use eval_max_sat.Common.Assign.{Clause}
use eval_max_sat.Lazy.{ClauseSink}
use eval_max_sat.Weights.{WeightVector}
use eval_max_sat.WeightMap.{WeightMap}
use eval_max_sat.Optimizer.Improve.{optimize}
use eval_max_sat.MaxSat.{MaxSat, ok, err, unreachable, Result, ◌>>=◌, max_weight}
use eval_max_sat.MaxSat.Core.{Assum, take_core, add_cards, relax_all}
use eval_max_sat.MaxSat.Rounds.{greatest, harden, end_round, start_round}
use eval_max_sat.MaxSat.Query.{init_assum}
use eval_max_sat.MaxSat.Oracle.{SatSolver}
use eval_max_sat.MaxSat.Minimize.{Quality, one_minimize}
use eval_max_sat.MaxSat.Strata.{choose_next_min_weight}
use eval_max_sat.MaxSat.AtMostOne.{Graph, with_solver, very_fast_heuristic, fast_heuristic, exact}

pub record Environment : Type 0 where
  pub delay_strategy : Bool
  pub multi_solve_strategy : Bool
  pub ub_strategy : Bool
  pub to_optimize : Bool
  -- The clock while a core is improved, at a number of solves; and while it is minimized.
  pub time_left : ℕ → Bool
  pub time_over : ℕ → Bool
  pub time_up : ℕ → ℕ → Bool
  -- MonRand::shuffle
  pub shuffle : ℕ → List ℤ → List ℤ
  -- p < bestP, where bestP may be the greatest double.
  pub better : Quality → Option Quality → Bool
  pub below_half : ℕ → ℕ → Bool
  pub max_clique : Graph → ℕ → List ℕ
  pub budget : List ℤ → ℤ

-- t_weight solutionCost - cost
abbrev pub gap : ℕ → ℕ → ℕ
gap solution_cost cost = (solution_cost + (2 ^ 64 - cost)) % 2 ^ 64

module _ (T : ClauseSink) (O : SatSolver T) (E : Environment) where
  open T use {State}

  -- while(...): the conflict of every further solve is minimized, and the best is kept. The second
  -- argument is nbSolve; the loop ends below 1000 solves unless solves improve the core.
  unfoldable pub improve_core :
      ℕ → ℕ → ℕ → Option Quality → MaxSat T → Assum → Clause → Option (MaxSat T × Clause)
  unfolding one_minimize
  improve_core zero nb_solve last_improve best s assum conflict = none
  improve_core (suc fuel) nb_solve last_improve best s assum conflict =
      let nb = suc nb_solve in
      let (st1, tmp, p) =
        one_minimize T O s.poids (E.time_up nb) s.solver (O.get_conflict s.solver assum) 10 true in
      let (st2, res) = O.solve_with_timeout st1 (E.shuffle nb assum) in
      let go =
        ltb nb_solve (3 * last_improve)
        || ltb nb_solve 20
        || E.time_left nb_solve && ltb nb_solve 1000 in
      let improved = improve_core fuel nb nb (some p) (with_solver T O s st2) assum tmp in
      let unchanged =
        improve_core fuel nb last_improve best (with_solver T O s st2) assum conflict in
      let after_better : Option (MaxSat T × Clause) =
        (if leb (length tmp) 2 || E.time_over nb
          then some (with_solver T O s st1, tmp)
          else if eqb_ℤ res (negsuc 0)
          then some (with_solver T O s st2, tmp)
          else improved) in
      let after_other : Option (MaxSat T × Clause) =
        (if E.time_over nb
          then some (with_solver T O s st1, conflict)
          else if eqb_ℤ res (negsuc 0)
          then some (with_solver T O s st2, conflict)
          else unchanged) in
      if go then (if E.better p best then after_better else after_other) else some (s, conflict)

  -- A better core if the strategy looks for one, then a smaller one.
  unfoldable pub find_core : ℕ → MaxSat T → Assum → Clause → Option (MaxSat T × Clause)
  unfolding improve_core
  find_core fuel s assum conflict =
      let minimized : MaxSat T × Clause → MaxSat T × Clause = λ (s1, c).
        let (st, c', p) = one_minimize T O s1.poids (E.time_up 0) s1.solver c 1000 true in
        if ltb 1 (length c) then (with_solver T O s1 st, c') else (s1, c) in
      let better = improve_core fuel 0 0 none s assum conflict in
      if E.multi_solve_strategy && ltb 3 (length conflict)
      then elim better [ none ↦ none | some r ↦ some (minimized r) ]
      else some (minimized (s, conflict))

  -- What a part of solve ends with: it returns, or goes on.
  pub data Next (A : Type 0) : Type 0 where
    returns : MaxSat T → Bool → Next A
    continues : A → Next A

  -- if(harden(assum)) if(adapt_am1_VeryFastHeuristic()) assum = initAssum(minWeightToConsider);
  unfoldable pub harden_more : ℕ → MaxSat T → Assum → ℕ → Result (MaxSat T × Assum)
  harden_more fuel s assum stratum = do
    (s1, assum1, nb_harden) ← harden T s assum
    elim (nb_harden == 0) [
      | true ↦ ok (s1, assum1)
      | false ↦ do
        (s2, nb_cliques) ← very_fast_heuristic T O fuel s1
        ok (s2, if nb_cliques == 0 then assum1 else init_assum s2.map_weight stratum)
    ]

  -- Hardening is tried where the greatest weight is at least what the best solution leaves.
  unfoldable pub harden_if_gap : ℕ → MaxSat T → Assum → ℕ → Result (MaxSat T × Assum)
  unfolding harden_more
  harden_if_gap fuel s assum stratum = elim (greatest s.map_weight) [
    | none ↦ err unreachable
    | some (w, lits) ↦ elim (leb (gap s.solution_cost s.cost) w) [
      | true ↦ harden_more fuel s assum stratum
      | false ↦ ok (s, assum)
    ]
  ]

  -- return solutionCost != std::numeric_limits<t_weight>::max();
  abbrev pub found_any : MaxSat T → Bool
  found_any s = not (s.solution_cost == max_weight)

  -- An unsatisfiable answer.
  unfoldable pub unsat_part : ℕ → MaxSat T → Assum → ℕ → Result (Next (MaxSat T × Assum))
  unfolding find_core harden_if_gap
  unsat_part fuel s assum stratum =
      let conflict = O.get_conflict s.solver assum in
      let worked : Result (Next (MaxSat T × Assum)) = elim (find_core fuel s assum conflict) [
        | none ↦ err unreachable
        | some (s1, c) ↦ elim (length c == 0) [
          | true ↦ ok (returns s1 (found_any s1))
          | false ↦
              let (s2, assum2) = take_core T s1 assum c stratum in
              let hardened : Result (Next (MaxSat T × Assum)) = (do
                r ← harden_if_gap fuel s2 assum2 stratum
                ok (continues r)) in
              if s2.cost == s2.solution_cost then ok (returns s2 true) else hardened
        ]
      ] in
      if length conflict == 0 then ok (returns s (found_any s)) else worked

  -- A better solution that the local search found is kept, and may harden.
  unfoldable pub keep_better :
      ℕ → WeightVector → ℕ → MaxSat T → Assum → ℕ → Result (MaxSat T × Assum)
  unfolding harden_more
  keep_better fuel poids0 cost0 s assum stratum =
      let (st, cur_solution, cur_cost) =
        optimize T O s.solver poids0 cost0 E.budget (O.get_solution s.solver) in
      let s1 : MaxSat T = with_solver T O s st in
      let kept =
        harden_more fuel (record s1 { solution_cost = cur_cost; solution = cur_solution }) assum
          stratum in
      if E.ub_strategy && E.to_optimize
      then (if ltb cur_cost s1.solution_cost then kept else ok (s1, assum))
      else ok (s, assum)

  -- A satisfiable answer: cards are relaxed first; the flag says that the inner loop ends.
  unfoldable pub sat_part :
      ℕ → WeightVector → ℕ → MaxSat T → Assum → ℕ → Result (MaxSat T × Assum × Bool)
  unfolding keep_better
  sat_part fuel poids0 cost0 s assum stratum = elim s.lit_to_relax [
    | l ∷ lits ↦ do (s1, assum1) ← relax_all T s assum (l ∷ lits) stratum; ok (s1, assum1, false)
    | [] ↦ do
      (s1, assum1) ← keep_better fuel poids0 cost0 s assum stratum
      (s2, assum2) ← add_cards T s1 assum1 s1.card_to_add stratum
      ok (s2, assum2, true)
  ]

  abbrev pub as_answer : Bool → ℤ
  as_answer b = if b then pos 1 else pos 0

  -- resultLastSolve = solver->solveWithTimeout(assum, 60) or solver->solve(assum)
  unfoldable pub solve_again : MaxSat T → Assum → MaxSat T × ℤ
  solve_again s assum =
      let (st1, res) = O.solve_with_timeout s.solver assum in
      let (st2, sat) = O.solve s.solver assum in
      if leb (length s.map_weight) 1
      then (with_solver T O s st1, res)
      else (with_solver T O s st2, as_answer sat)

  -- The inner loop: cores are taken until the formula is satisfiable with the cores in line left out.
  unfoldable pub inner_loop :
      ℕ → WeightVector → ℕ → MaxSat T → Assum → ℕ → ℤ → Result (Next (MaxSat T × Assum × ℕ))
  unfolding unsat_part sat_part solve_again
  inner_loop zero poids0 cost0 s assum stratum answer = err unreachable
  inner_loop (suc fuel) poids0 cost0 s assum stratum answer =
      let again : MaxSat T → Assum → Result (Next (MaxSat T × Assum × ℕ)) = λ s1 assum1.
        let (s2, answer2) = solve_again s1 assum1 in
        let rest = inner_loop fuel poids0 cost0 s2 assum1 stratum answer2 in
        if E.delay_strategy then rest else ok (continues (s1, assum1, stratum)) in
      elim (is_zero answer) [
        | true ↦ do
          r ← unsat_part fuel s assum stratum
          elim r [ returns s1 b ↦ ok (returns s1 b) | continues (s1, assum1) ↦ again s1 assum1 ]
        | false ↦ elim (eqb_ℤ answer (pos 1)) [
          | true ↦ do
            (s1, assum1, ended) ← sat_part fuel poids0 cost0 s assum stratum
            elim ended [ true ↦ ok (continues (s1, assum1, stratum)) | false ↦ again s1 assum1 ]
          | false ↦ ok (continues (s, init_assum s.map_weight 1, 1))
        ]
      ]

  -- A satisfiable answer of the full search: the optimum in the last stratum, else the next stratum.
  unfoldable pub next_stratum : MaxSat T → ℕ → Result (Next (MaxSat T × Assum × ℕ))
  next_stratum s stratum = elim (stratum == 1) [
    | true ↦
        ok (returns (record s { solution_cost = s.cost; solution = O.get_solution s.solver }) true)
    | false ↦ do
      (m, w) ← choose_next_min_weight E.below_half s.map_weight stratum
      ok (continues (record s { map_weight = m }, init_assum m w, w))
  ]

  -- One round of the outer loop.
  unfoldable pub outer_round :
      ℕ → WeightVector → ℕ → MaxSat T → Assum → ℕ → Result (Next (MaxSat T × Assum × ℕ))
  unfolding inner_loop next_stratum
  outer_round fuel poids0 cost0 s assum stratum =
      let (st, sat) = O.solve s.solver assum in
      let s1 : MaxSat T = with_solver T O s st in
      let cored : Result (Next (MaxSat T × Assum × ℕ)) = (do
        r ← inner_loop fuel poids0 cost0 s1 assum stratum (pos 0)
        elim r [
          | returns s2 b ↦ ok (returns s2 b)
          | continues (s2, assum2, stratum2) ↦ do
            (s3, assum3) ← end_round T s2 assum2 stratum2
            ok (continues (s3, assum3, stratum2))
        ]) in
      if leb s.solution_cost s.cost
      then ok (returns s true)
      else if sat
      then next_stratum s1 stratum
      else cored

  unfoldable pub outer_loop : ℕ → WeightVector → ℕ → MaxSat T → Assum → ℕ → Result (MaxSat T × Bool)
  unfolding outer_round
  outer_loop zero poids0 cost0 s assum stratum = err unreachable
  outer_loop (suc fuel) poids0 cost0 s assum stratum = do
    r ← outer_round fuel poids0 cost0 s assum stratum
    elim r [
      | returns s1 b ↦ ok (s1, b)
      | continues (s1, assum1, stratum1) ↦ outer_loop fuel poids0 cost0 s1 assum1 stratum1
    ]

  -- The first stratum; the local search keeps the weights and the cost of this moment.
  unfoldable pub first_stratum : ℕ → MaxSat T → Result (MaxSat T × Bool)
  unfolding outer_loop
  first_stratum fuel s = elim (greatest s.map_weight) [
    | none ↦ err unreachable
    | some (w, lits) ↦ do
      (m, stratum) ← choose_next_min_weight E.below_half s.map_weight ((w + 1) % 2 ^ 64)
      outer_loop fuel s.poids s.cost (record s { map_weight = m }) (init_assum m stratum) stratum
  ]

  -- Without soft literals one call of the solver answers.
  unfoldable pub solve_hard : MaxSat T → MaxSat T × Bool
  solve_hard s =
      let (st, sat) = O.solve s.solver [] in
      let s1 : MaxSat T = with_solver T O s st in
      if sat
      then (record s1 { solution_cost = s1.cost; solution = O.get_solution st }, true)
      else (s1, false)

  -- if(harden(assum)) if(adapt_am1_VeryFastHeuristic()) if(cost >= solutionCost) return true;
  unfoldable pub harden_first : ℕ → MaxSat T → Result (Next (MaxSat T))
  harden_first fuel s = do
    (s1, assum1, nb_harden) ← harden T s []
    elim (nb_harden == 0) [
      | true ↦ ok (continues s1)
      | false ↦ do
        (s2, nb_cliques) ← very_fast_heuristic T O fuel s1
        ok (
            if not (nb_cliques == 0) && leb s2.solution_cost s2.cost
            then returns s2 true
            else continues s2)
    ]

  -- start_solve = false, as the object that set it is destroyed.
  abbrev pub stopped : MaxSat T × Bool → MaxSat T × Bool
  stopped (s, b) = (record s { start_solve = false }, b)

  unfoldable pub solve : ℕ → MaxSat T → Result (MaxSat T × Bool)
  unfolding first_stratum solve_hard harden_first
  solve fuel s = do
    s1 ← start_round T s
    (s2, done) ← exact T O E.max_clique fuel s1
    (s3, nb) ← fast_heuristic T O fuel s2
    elim (leb s3.solution_cost s3.cost) [
      | true ↦ ok (stopped (s3, true))
      | false ↦ elim (length s3.map_weight == 0) [
        | true ↦ ok (stopped (solve_hard s3))
        | false ↦ do
          r ← harden_first fuel s3
          elim r [
            | returns s4 b ↦ ok (stopped (s4, b))
            | continues s4 ↦ do r5 ← first_stratum fuel s4; ok (stopped r5)
          ]
      ]
    ]
