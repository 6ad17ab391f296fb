-- ===== src/MaxSat/AtMostOne/Reduce.antt =====
-- What reduceCliqueV2 leaves is a clique.
use eval_max_sat.Common.{
  ℕ, zero, suc, ◌≤◌, ◌≡◌, refl, ap, ◌∙◌, List, [], ◌∷◌, true, length, ltb, In, All, arith, inl, inr,
  Bool-cases,
}
use eval_max_sat.Common.Int.{is_zero_eq, ℤ, pos, neg, is_zero}
use eval_max_sat.Common.Assign.{Clause, holds_all}
use eval_max_sat.Lazy.{ClauseSink}
use eval_max_sat.MaxSat.{MaxSat}
use eval_max_sat.MaxSat.Oracle.{SatSolver, IsCore}
use eval_max_sat.MaxSat.Minimize.{sort}
use eval_max_sat.MaxSat.Minimize.Removal.{Within, All-Within, In-without, In-sort}
use eval_max_sat.MaxSat.AtMostOne.{lighter, keep_excluded, reduce_rounds, reduce_clique}

-- The opposites of any two literals of the list contradict the clauses.
abbrev pub IsClique : List Clause → List ℤ → Type 0
IsClique cs [] = Unit
IsClique cs (l ∷ c) = All (λ k. IsCore cs (neg l ∷ neg k ∷ [])) c × IsClique cs c

module _ (T : ClauseSink) (O : SatSolver T) (cs : List Clause) where
  open T use {State, clauses}

  answered :
      (st : State) (l k : ℤ)
      → clauses st ≡ cs
      → is_zero (O.solve_limited st (neg l ∷ neg k ∷ []) (pos 10_000) (pos 0)).1 ≡ true
      → IsCore cs (neg l ∷ neg k ∷ [])
  answered st l k q z a h =
      let c = neg l ∷ neg k ∷ [] in
      let (m, i, f) =
        O.solve_limited-IsCore st c (pos 10_000) (pos 0) (is_zero_eq _ z) a
          (ap (holds_all a) q ∙ h) in
      (m, (In-without (pos 0) m c i).0, f)

  -- What stays of the rest excludes the literal, and was there.
  keep_excluded_lem :
      (st : State) (l : ℤ) (c : List ℤ)
      → clauses st ≡ cs
      → let (st', r) = keep_excluded T O st l c in
        (clauses st' ≡ cs)
        × All (λ k. IsCore cs (neg l ∷ neg k ∷ [])) r
        × Within r c
        × (length r ≤ length c)
  unfolding keep_excluded
  keep_excluded_lem st l [] q = (q, tt, λ k h. h, omega arith)
  keep_excluded_lem st l (k ∷ c) q =
      let st1 = (O.solve_limited st (neg l ∷ neg k ∷ []) (pos 10_000) (pos 0)).0 in
      let (q2, e, w, n) =
        keep_excluded_lem st1 l c
          (O.clauses-solve_limited st (neg l ∷ neg k ∷ []) (pos 10_000) (pos 0) ∙ q) in
      elim (Bool-cases (is_zero (O.solve_limited st (neg l ∷ neg k ∷ []) (pos 10_000) (pos 0)).1)) [
        | inl y ↦ rw y (q2, (answered st l k q y, e), add_both k _ c w, omega (arith, n))
        | inr z ↦ rw z (q2, e, λ m h. inr (w m h), omega (arith, n))
      ]
    where
      add_both : (k : ℤ) (r c : List ℤ) → Within r c → Within (k ∷ r) (k ∷ c)
      add_both k r c w m (inl e) = inl e
      add_both k r c w m (inr h) = inr (w m h)

  reduce_rounds_lem :
      (fuel : ℕ) (st : State) (c : List ℤ)
      → length c ≤ fuel
      → clauses st ≡ cs
      → let (st', r) = reduce_rounds T O fuel st c in
        (clauses st' ≡ cs) × IsClique cs r × Within r c
  unfolding reduce_rounds
  reduce_rounds_lem zero st c h q = (q, tt, λ l i. absurd i)
  reduce_rounds_lem (suc fuel) st [] h q = (q, tt, λ l i. i)
  reduce_rounds_lem (suc fuel) st (l ∷ c) h q =
      let (st1, rest) = keep_excluded T O st l c in
      let (q1, e, w, n) = keep_excluded_lem st l c q in
      let (q2, k, v) = reduce_rounds_lem fuel st1 rest (omega (arith, n)) q1 in
      (
        q2,
        (All-Within (λ m. IsCore cs (neg l ∷ neg m ∷ [])) _ rest v e, k),
        λ m. by_place m _ (λ i. w m (v m i)),
      )
    where
      by_place : (m : ℤ) (r : List ℤ) → (In m r → In m c) → In m (l ∷ r) → In m (l ∷ c)
      by_place m r f (inl e) = inl e
      by_place m r f (inr i) = inr (f i)

-- What reduceCliqueV2 leaves of a list of literals is a clique: no assignment that satisfies the clauses
-- makes two of its literals false. Its literals were all in the list, and neither the clauses nor the
-- weights have changed.
pub reduce_clique_correct :
    (T : ClauseSink) (O : SatSolver T) (s : MaxSat T) (clique : List ℤ)
    → let (s', reduced) = reduce_clique T O s clique in
      IsClique (T.clauses s.solver) reduced
      × Within reduced clique
      × (T.clauses s'.solver ≡ T.clauses s.solver)
      × (s'.poids ≡ s.poids)
unfolding reduce_clique
reduce_clique_correct T O s clique = elim (Bool-cases (ltb 1 (length s.map_weight))) [
  | inl y ↦
      let c = sort (lighter s.poids) clique in
      let (q, k, w) =
        reduce_rounds_lem T O (T.clauses s.solver) (length c) s.solver c (omega arith) refl in
      rw y (k, λ l i. (In-sort (lighter s.poids) clique l).1 (w l i), q, refl)
  | inr z ↦
      let (q, k, w) =
        reduce_rounds_lem T O (T.clauses s.solver) (length clique) s.solver clique (omega arith)
          refl in
      rw z (k, w, q, refl)
]
