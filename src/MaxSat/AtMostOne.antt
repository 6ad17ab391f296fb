-- ===== src/MaxSat/AtMostOne.antt =====
-- EvalMaxSAT.h, the searches for soft literals of which at most one can be true: reduceCliqueV2,
-- adapt_am1_VeryFastHeuristic, adapt_am1_FastHeuristicV7, adapt_am1_exact and extractAM.
-- The class Maxclique is the parameter `max_clique`, from a graph and its size to the places of a clique.
-- A loop whose end moves while it runs has fuel.
pub mod Reduce
use eval_max_sat.Common.{
  ℕ, zero, suc, ◌+◌, ◌-◌, List, [], ◌∷◌, ◌++◌, Option, none, some, if◌then◌else◌, Bool, true, false,
  not, ◌&&◌, ◌||◌, ltb, leb, ◌==◌, length, get_or, set, map, replicate,
}
use eval_max_sat.Common.Int.{ℤ, pos, negsuc, neg, abs, is_zero, is_pos, is_neg, ltb_ℤ, eqb_ℤ}
use eval_max_sat.Common.Assign.{Clause}
use eval_max_sat.Common.Loop.{for_to}
use eval_max_sat.Lazy.{ClauseSink}
use eval_max_sat.Weights.{WeightVector, get, size}
use eval_max_sat.WeightMap.{WeightMap}
use eval_max_sat.MaxSat.{MaxSat, ok, err, unreachable, Result, ◌>>=◌, weight_of, add_hard}
use eval_max_sat.MaxSat.Oracle.{SatSolver}
use eval_max_sat.MaxSat.Clique.{back, pop_back, swap_remove, process_at_most_one}
use eval_max_sat.MaxSat.Minimize.{sort}

-- The comparison that the list's sort is given.
unfoldable pub lighter : WeightVector → ℤ → ℤ → Bool
lighter poids lit_a lit_b = ltb_ℤ (get poids (neg lit_a)) (get poids (neg lit_b))

-- The soft literals, from the least weight on.
unfoldable pub soft_literals : WeightMap → List ℤ
soft_literals [] = []
soft_literals ((w, lits) ∷ m) = lits ++ soft_literals m

-- A graph over the places of the assumptions.
abbrev pub Graph : Type 0
Graph = ℕ → ℕ → Bool

-- conn[i][j] = true; conn[j][i] = true;
unfoldable pub connect : ℕ → ℕ → Graph → Graph
connect i j conn a b = (a == i && b == j) || (a == j && b == i) || conn a b

-- conn[i][x] = false; conn[x][i] = false; for each x < size
unfoldable pub disconnect : ℕ → ℕ → Graph → Graph
disconnect i size conn a b =
    if (a == i && ltb b size) || (b == i && ltb a size) then false else conn a b

-- The places of the opposites of what was propagated are linked to `i`.
unfoldable pub link : (ℕ → Bool) → List ℤ → ℕ → List ℤ → Graph → Graph
unfolding connect
link allowed assumption i [] conn = conn
link allowed assumption i (lit2 ∷ prop) conn = link allowed assumption i prop (
    for_to 0 (length assumption)
      (λ j g.
        if allowed j && eqb_ℤ (get_or assumption j (pos 0)) (neg lit2) then connect i j g else g)
      conn)

module _ (T : ClauseSink) (O : SatSolver T) where
  open T use {State}

  abbrev pub with_solver : MaxSat T → State → MaxSat T
  with_solver s st = record s { base = record s.base { solver = st } }

  -- The rest of a clique, less what is not shown to exclude the literal.
  unfoldable pub keep_excluded : State → ℤ → List ℤ → State × List ℤ
  keep_excluded st lit [] = (st, [])
  keep_excluded st lit (lit2 ∷ clique) =
      let (st1, answer) = O.solve_limited st (neg lit ∷ neg lit2 ∷ []) (pos 10_000) (pos 0) in
      let (st2, rest) = keep_excluded st1 lit clique in
      (st2, if is_zero answer then lit2 ∷ rest else rest)

  -- The two nested loops; as many rounds as there are literals are enough.
  unfoldable pub reduce_rounds : ℕ → State → List ℤ → State × List ℤ
  unfolding keep_excluded
  reduce_rounds zero st clique = (st, [])
  reduce_rounds (suc fuel) st [] = (st, [])
  reduce_rounds (suc fuel) st (lit ∷ clique) =
      let (st1, rest) = keep_excluded st lit clique in
      let (st2, reduced) = reduce_rounds fuel st1 rest in (st2, lit ∷ reduced)

  unfoldable pub reduce_clique : MaxSat T → List ℤ → MaxSat T × List ℤ
  unfolding reduce_rounds lighter
  reduce_clique s clique =
      let c = (if ltb 1 (length s.map_weight) then sort (lighter s.poids) clique else clique) in
      let (st, reduced) = reduce_rounds (length c) s.solver c in (with_solver s st, reduced)

  -- int LIT = _poids[VAR]>0?VAR:-VAR;
  abbrev pub soft_lit : MaxSat T → ℕ → ℤ
  soft_lit s v = if is_pos (weight_of T s (pos v)) then pos v else neg (pos v)

  -- for(auto litProp: prop): a soft literal that was propagated to false makes a clique of two.
  unfoldable pub pair_cliques : MaxSat T → ℕ → ℤ → List ℤ → ℕ → Result (MaxSat T × ℕ)
  pair_cliques s v lit [] nb = ok (s, nb)
  pair_cliques s v lit (lit_prop ∷ prop) nb = elim (is_neg (weight_of T s lit_prop)) [
    | false ↦ pair_cliques s v lit prop nb
    | true ↦ do
      (s', new) ← process_at_most_one T s (neg lit_prop ∷ lit ∷ [])
      elim (is_zero (weight_of T s' (pos v))) [
        | true ↦ ok (s', nb + 1)
        | false ↦ pair_cliques s' v lit prop (nb + 1)
      ]
  ]

  -- A literal whose propagation fails is false.
  abbrev refuted : MaxSat T → ℤ → ℕ → Result (MaxSat T × ℕ)
  refuted s lit nb = do s' ← add_hard T s (neg lit ∷ []); ok (s', nb + 1)

  unfoldable pub very_fast_var : MaxSat T → ℕ → ℕ → Result (MaxSat T × ℕ)
  unfolding pair_cliques
  very_fast_var s v nb =
      let (st, consistent, prop) = O.propagate s.solver (soft_lit s v ∷ []) in
      let s' = with_solver s st in
      if is_zero (weight_of T s (pos v))
      then ok (s, nb)
      else if consistent
      then pair_cliques s' v (soft_lit s v) prop nb
      else refuted s' (soft_lit s v) nb

  -- for(int VAR = 1; VAR<_poids.size(); VAR++): a clique that was found adds a variable.
  unfoldable pub each_var :
      (MaxSat T → ℕ → ℕ → Result (MaxSat T × ℕ)) → ℕ → MaxSat T → ℕ → ℕ → Result (MaxSat T × ℕ)
  each_var body zero s v nb = err unreachable
  each_var body (suc fuel) s v nb = elim (ltb v (size s.poids)) [
    | false ↦ ok (s, nb)
    | true ↦ do (s', nb') ← body s v nb; each_var body fuel s' (suc v) nb'
  ]

  unfoldable pub very_fast_heuristic : ℕ → MaxSat T → Result (MaxSat T × ℕ)
  unfolding each_var very_fast_var
  very_fast_heuristic fuel s = each_var very_fast_var fuel s 1 0

  -- The propagated literals whose opposite is soft.
  unfoldable pub falsified_soft : MaxSat T → List ℤ → List ℤ
  falsified_soft s [] = []
  falsified_soft s (lit_prop ∷ prop) =
      let rest = falsified_soft s prop in
      if is_neg (weight_of T s lit_prop) then lit_prop ∷ rest else rest

  unfoldable pub reduced_clique : MaxSat T → ℤ → List ℤ → ℕ → Result (MaxSat T × ℕ)
  unfolding reduce_clique
  reduced_clique s lit [] nb = ok (s, nb)
  reduced_clique s lit (l ∷ clique) nb =
      let (s1, c) = reduce_clique s (l ∷ clique) in
      let found : Result (MaxSat T × ℕ) = (do
        (s2, new) ← process_at_most_one T s1 (map neg (c ++ neg lit ∷ []))
        ok (s2, nb + 1)) in
      if leb 2 (length (c ++ neg lit ∷ [])) then found else ok (s1, nb)

  unfoldable pub fast_var : MaxSat T → ℕ → ℕ → Result (MaxSat T × ℕ)
  unfolding reduced_clique falsified_soft
  fast_var s v nb =
      let (st, consistent, prop) = O.propagate s.solver (soft_lit s v ∷ []) in
      let s' = with_solver s st in
      if is_zero (weight_of T s (pos v))
      then ok (s, nb)
      else if consistent
      then reduced_clique s' (soft_lit s v) (falsified_soft s' prop) nb
      else refuted s' (soft_lit s v) nb

  unfoldable pub fast_heuristic : ℕ → MaxSat T → Result (MaxSat T × ℕ)
  unfolding each_var fast_var
  fast_heuristic fuel s = each_var fast_var fuel s 1 0

  -- for(unsigned int i=0; i<size; ): a round goes to the next place or takes a literal out.
  unfoldable pub build_graph :
      ℕ → MaxSat T → List ℤ → Graph → ℕ → Result (MaxSat T × List ℤ × Graph)
  unfolding link disconnect
  build_graph zero s assumption conn i = ok (s, assumption, conn)
  build_graph (suc fuel) s assumption conn i =
      let lit1 = get_or assumption i (pos 0) in
      let (st, consistent, prop) = O.propagate s.solver (lit1 ∷ []) in
      let linked = link (λ j. not (j == i)) assumption i prop conn in
      elim consistent [
        | true ↦ build_graph fuel (with_solver s st) assumption linked (suc i)
        | false ↦ do
          s' ← add_hard T (with_solver s st) (neg lit1 ∷ [])
          build_graph fuel s' (swap_remove assumption i) (disconnect i (length assumption) conn) i
      ]

  -- The literals of a clique leave the graph.
  unfoldable pub leave : List ℕ → ℕ → List Bool → Graph → List Bool × Graph
  unfolding disconnect
  leave [] size active conn = (active, conn)
  leave (q ∷ qs) size active conn = leave qs size (set active q false) (disconnect q size conn)

  -- The literals that replace a clique take the places of its first ones.
  unfoldable pub join_graph :
      MaxSat T
      → List ℕ
      → List ℤ
      → List ℤ
      → List Bool
      → Graph
      → Result (MaxSat T × List ℤ × List Bool × Graph)
  unfolding link
  join_graph s qs [] assumption active conn = ok (s, assumption, active, conn)
  join_graph s [] (lit ∷ lits) assumption active conn = err unreachable
  join_graph s (q ∷ qs) (lit ∷ lits) assumption active conn =
      let assumption' = set assumption q lit in
      let active' = set active q true in
      let (st, consistent, prop) = O.propagate s.solver (lit ∷ []) in
      elim consistent [
        | true ↦
            join_graph (with_solver s st) qs lits assumption' active'
              (link (λ k. get_or active' k false) assumption' q prop conn)
        | false ↦ do
          s' ← add_hard T (with_solver s st) (neg lit ∷ [])
          join_graph s' qs lits assumption' active' conn
      ]

  module _ (max_clique : Graph → ℕ → List ℕ) where
    -- Cliques are processed as long as there is one of three literals at least.
    unfoldable pub exact_rounds :
        ℕ → MaxSat T → List ℤ → List Bool → Graph → Result (MaxSat T × Bool)
    unfolding leave join_graph
    exact_rounds zero s assumption active conn = err unreachable
    exact_rounds (suc fuel) s assumption active conn =
        let qmax = max_clique conn (length assumption) in
        let (active1, conn1) = leave qmax (length assumption) active conn in
        elim (leb (length qmax) 2) [
          | true ↦ ok (s, true)
          | false ↦ do
            (s1, new_assum) ← process_at_most_one T s (map (λ q. get_or assumption q (pos 0)) qmax)
            (s2, assumption2, active2, conn2) ←
                join_graph s1 qmax new_assum assumption active1 conn1
            exact_rounds fuel s2 assumption2 active2 conn2
        ]

    unfoldable pub exact : ℕ → MaxSat T → Result (MaxSat T × Bool)
    unfolding build_graph exact_rounds soft_literals
    exact fuel s =
        let assumption = soft_literals s.map_weight in
        let searched : Result (MaxSat T × Bool) = (do
          (s1, assumption1, conn) ← build_graph (length assumption) s assumption (λ i j. false) 0
          elim (length assumption1 == 0) [
            | true ↦ ok (s1, true)
            | false ↦ exact_rounds fuel s1 assumption1 (replicate (length assumption1) true) conn
          ]) in
        if ltb 30_000 (length assumption) then ok (s, false) else searched

    unfoldable pub extract_am : ℕ → MaxSat T → Result (MaxSat T)
    unfolding exact fast_heuristic
    extract_am fuel s = do (s1, skipped) ← exact fuel s; (s2, nb) ← fast_heuristic fuel s1; ok s2
