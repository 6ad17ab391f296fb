-- ===== src/MaxSat/Solve/Unsat.antt =====
-- An unsatisfiable answer: the core is minimized and taken, and the cost is a lower bound still.
use eval_max_sat.Common.{
  ℕ, zero, suc, ◌+◌, ◌*◌, ◌≤◌, ◌<◌, ◌≡◌, refl, sym, ap, ◌∙◌, subst, List, [], ◌∷◌, ◌++◌,
  if◌then◌else◌, true, false, not, ltb, length, In, All, map, arith, ◌⊎◌, inl, inr, Bool-cases,
  ◌==◌, ◌&&◌, some,
}
use native.Mathlib.Nat.{mul-suc}
use eval_max_sat.Common.Int.{ℤ, pos, neg, abs}
use eval_max_sat.Common.Assign.{Assignment, Clause, holds, holds_all, holds-neg}
use eval_max_sat.Lazy.{ClauseSink}
use eval_max_sat.Card.Trues.{trues}
use eval_max_sat.MaxSat.{MaxSat, ok, Result, ◌>>=◌}
use eval_max_sat.MaxSat.Index.{Indexed}
use eval_max_sat.MaxSat.Objective.{objective, long_limit, weight_limit}
use eval_max_sat.MaxSat.Core.{Assum, take_core}
use eval_max_sat.MaxSat.Core.Keeps.{take_core-Keeps}
use eval_max_sat.MaxSat.Core.Correct.{IsHeavy, Attains, take_core_correct}
use eval_max_sat.MaxSat.Oracle.{SatSolver, IsDistinct, IsCore}
use eval_max_sat.MaxSat.Minimize.{one_minimize}
use eval_max_sat.MaxSat.Minimize.Core.{one_minimize_correct}
use eval_max_sat.MaxSat.Minimize.Removal.{All-Within, IsPart, IsPart-refl}
use eval_max_sat.MaxSat.AtMostOne.{with_solver}
use eval_max_sat.MaxSat.Solve.{
  Environment, returns, continues, Next, found_any, find_core, harden_if_gap, unsat_part,
}

-- A falsified literal counts among the negated ones.
pub trues-neg :
    (a : Assignment) (c : Clause) (l : ℤ)
    → All (λ k. 0 < abs k) c
    → In l c
    → holds a l ≡ false
    → 0 < trues a (map neg c)
trues-neg a [] l p i f = absurd i
trues-neg a (k ∷ c) l (p, ps) (inl e) f =
    let h : holds a (neg k) ≡ true = holds-neg a k p ∙ ap not (ap (holds a) (sym e) ∙ f) in
    rw h (omega arith)
trues-neg a (k ∷ c) l (p, ps) (inr i) f = let rest = trues-neg a c l ps i f in omega arith

module _ (T : ClauseSink) (O : SatSolver T) (E : Environment) where
  -- The conflict as it is minimized, with the solver after that: as it is if it has one literal.
  abbrev pub minimized : MaxSat T → Clause → T.State × Clause
  minimized s conflict =
      let (st, c, p) = one_minimize T O s.poids (E.time_up 0) s.solver conflict 1000 true in
      if ltb 1 (length conflict) then (st, c) else (s.solver, conflict)

  -- The core that is taken: of the same clauses, and of literals of the conflict.
  abbrev Finds : ℕ → MaxSat T → Assum → Clause → Type 0
  Finds fuel s assum conflict =
      (st : T.State) × (c : Clause) × (find_core T O E fuel s assum conflict
        ≡ some (with_solver T O s st, c))
      × (T.clauses st ≡ T.clauses s.solver)
      × IsCore (T.clauses s.solver) c
      × IsPart c conflict
      × (c ≡ (minimized s conflict).1)

  find_core-Finds :
      (fuel : ℕ) (s : MaxSat T) (assum : Assum) (conflict : Clause)
      → (E.multi_solve_strategy && ltb 3 (length conflict)) ≡ false
      → IsCore (T.clauses s.solver) conflict
      → Finds fuel s assum conflict
  unfolding find_core
  find_core-Finds fuel s assum conflict off k =
      let (q, k', p) =
        one_minimize_correct T O s.poids (E.time_up 0) s.solver conflict 1000 true k in
      elim (Bool-cases (ltb 1 (length conflict))) [
        | inl y ↦ (_, _, rw (off, y) refl, q, k', p, rw y refl)
        | inr z ↦ (s.solver, conflict, rw (off, z) refl, refl, k, IsPart-refl conflict, rw z refl)
      ]

  -- No assignment satisfies the clauses.
  abbrev pub IsUnsat : List Clause → Type 0
  IsUnsat cs = (a : Assignment) → holds_all a cs ≡ false

  empty-IsUnsat : (cs : List Clause) → IsCore cs [] → IsUnsat cs
  empty-IsUnsat cs k a = elim (Bool-cases (holds_all a cs)) [ inl y ↦ absurd (k a y).1 | inr z ↦ z ]

  -- What a round leaves once the conflict is minimized to a core of `s`, and that core is taken.
  pub record CoreTaken (s s' : MaxSat T) (conflict : Clause) : Type 0 where
    pub clauses_stay : T.clauses s'.solver ≡ T.clauses s.solver
    pub solution_stays : (s'.solution ≡ s.solution) × (s'.solution_cost ≡ s.solution_cost)
    pub indexed : Indexed s'.map_weight s'.poids
    pub core : Clause
    pub is_minimized : core ≡ (minimized s conflict).1
    pub is_core : IsCore (T.clauses s.solver) core
    pub of_conflict : IsPart core conflict
    pub paid : ℕ
    pub pays : 0 < paid
    pub at_most_each : All (IsHeavy s.poids paid) core
    pub attained : Attains s.poids paid core
    pub in_line : s'.card_to_add ≡ s.card_to_add ++ (map neg core, pos paid) ∷ []
    pub exchange :
        (a : Assignment) → objective T s' a + paid * trues a (map neg core) ≡ objective T s a + paid
    pub lower_bound :
        (a : Assignment)
        → holds_all a (T.clauses s.solver) ≡ true
        → objective T s' a ≤ objective T s a

  module _ (s : MaxSat T) (assum : Assum) (stratum : ℕ) (ix : Indexed s.map_weight s.poids)
      (room : s.cost + long_limit < weight_limit) where
    take-CoreTaken :
        (st : T.State) (c conflict : Clause)
        → T.clauses st ≡ T.clauses s.solver
        → IsCore (T.clauses s.solver) c
        → IsPart c conflict
        → c ≡ (minimized s conflict).1
        → 0 < length c
        → IsDistinct c
        → All (IsHeavy s.poids 1) c
        → CoreTaken s (take_core T (with_solver T O s st) assum c stratum).0 conflict
    take-CoreTaken st c conflict q k of_it is_it ne d h =
        let s1 = with_solver T O s st in
        let (m, p, ix', heavy, least, line, obj) =
          take_core_correct T s1 assum c stratum ix ne d h room in
        let (e1, _, _, e2, e3) = take_core-Keeps T s1 assum c stratum in
        record {
          clauses_stay = ap T.clauses e1 ∙ q;
          solution_stays = (e2, e3);
          indexed = ix';
          core = c;
          is_minimized = is_it;
          is_core = k;
          of_conflict = of_it;
          paid = m;
          pays = p;
          at_most_each = heavy;
          attained = least;
          in_line = line;
          exchange = obj;
          lower_bound = λ a sat.
              let (l, i, f) = k a sat in
              at_least_one m (trues a (map neg c)) _ _ (trues-neg a c l (in_use c h) i f) (obj a);
        }
      where
        in_use : (c : Clause) → All (IsHeavy s.poids 1) c → All (λ l. 0 < abs l) c
        in_use [] h = tt
        in_use (l ∷ c) (h, hs) = (h.0, in_use c hs)

        at_least_one : (m t x y : ℕ) → 0 < t → x + m * t ≡ y + m → x ≤ y
        at_least_one m zero x y h e = elim h [ ]
        at_least_one m (suc t) x y h e = weaken (m * t) (ap (λ z. x + z) (sym (mul-suc m t)) ∙ e)
          where
            weaken : (k : ℕ) → x + (k + m) ≡ y + m → x ≤ y
            weaken k e = omega arith

  -- What is done once a core is taken: the answer where both bounds meet, else hardening is tried.
  abbrev after_core : ℕ → MaxSat T → Assum → ℕ → Result (Next T O E (MaxSat T × Assum))
  after_core fuel s assum stratum =
      let hardened : Result (Next T O E (MaxSat T × Assum)) = (do
        r ← harden_if_gap T O E fuel s assum stratum
        ok (continues r)) in
      if s.cost == s.solution_cost then ok (returns s true) else hardened

  -- The two ends of the step.
  abbrev pub EndsUnsat : ℕ → MaxSat T → Assum → ℕ → Type 0
  EndsUnsat fuel s assum stratum =
      (s' : MaxSat T) × (unsat_part T O E fuel s assum stratum
        ≡ ok (returns s' (found_any T O E s)))
      × (s'.solution ≡ s.solution)
      × (s'.solution_cost ≡ s.solution_cost)
      × IsUnsat (T.clauses s.solver)

  abbrev pub TakesCore : ℕ → MaxSat T → Assum → ℕ → Type 0
  TakesCore fuel s assum stratum =
      (s' : MaxSat T) × (assum' : Assum) × (unsat_part T O E fuel s assum stratum
        ≡ after_core fuel s' assum' stratum)
      × CoreTaken s s' (O.get_conflict s.solver assum)

  -- After an unsatisfiable answer for assumptions of positive weight, of distinct variables in use, the
  -- weight map in step and the cost 2 ^ 63 below its bound, and where the core is not looked for anew,
  -- having three literals at most or the strategy being off: solve either ends, the best solution kept,
  -- and then no assignment satisfies the clauses, or takes a core, which is the conflict as oneMinimize
  -- leaves it if it has two literals or more: the same clauses, a core of them among the conflict's
  -- literals, its least weight paid and its negated literals in line with that, the exchange of the
  -- objective against them, and an objective that is no greater for any assignment that satisfies the
  -- clauses, so that the cost is a lower bound still; it then answers true if that bound is the best
  -- solution's cost, and else tries to harden.
  pub unsat_part_correct :
      (fuel : ℕ) (s0 : MaxSat T) (assum : Assum) (stratum : ℕ)
      → (O.solve s0.solver assum).1 ≡ false
      → (E.multi_solve_strategy
          && ltb 3 (length (O.get_conflict (O.solve s0.solver assum).0 assum)))
        ≡ false
      → IsDistinct assum
      → All (IsHeavy s0.poids 1) assum
      → Indexed s0.map_weight s0.poids
      → s0.cost + long_limit < weight_limit
      → let s = with_solver T O s0 (O.solve s0.solver assum).0 in
        EndsUnsat fuel s assum stratum ⊎ TakesCore fuel s assum stratum
  unfolding unsat_part
  unsat_part_correct fuel s0 assum stratum unsat off d h ix room =
      let st0 = (O.solve s0.solver assum).0 in
      let s : MaxSat T = with_solver T O s0 st0 in
      let conflict = O.get_conflict st0 assum in
      let (core, within) = O.solve_unsat s0.solver assum unsat in
      let k : IsCore (T.clauses st0) conflict =
        subst (λ cs. IsCore cs conflict) (sym (O.clauses-solve s0.solver assum)) core in
      let (st, c, e, q, k', (w, dc), is_it) = find_core-Finds fuel s assum conflict off k in
      let dist : IsDistinct c = dc (O.get_conflict-IsDistinct st0 assum d) in
      let heavy : All (IsHeavy s0.poids 1) c =
        All-Within (IsHeavy s0.poids 1) c assum (λ l i. within l (w l i)) h in
      elim (Bool-cases (length conflict == 0)) [
        | inl y ↦ inl (s, rw y refl, refl, refl, empty-IsUnsat _ (is_empty conflict y k))
        | inr z ↦ elim (Bool-cases (length c == 0)) [
          | inl y ↦ inl (
            with_solver T O s st,
            rw (z, e, y) refl,
            refl,
            refl,
            empty-IsUnsat _ (is_empty c y k'),
          )
          | inr n ↦ inr (
            (take_core T (with_solver T O s st) assum c stratum).0,
            (take_core T (with_solver T O s st) assum c stratum).1,
            rw (z, e, n) refl,
            take-CoreTaken s assum stratum ix room st c conflict q k' (w, dc) is_it (ground arith)
                dist heavy,
          )
        ]
      ]
    where
      is_empty :
          (c : Clause)
          → (length c == 0) ≡ true
          → IsCore (T.clauses (O.solve s0.solver assum).0) c
          → IsCore (T.clauses (O.solve s0.solver assum).0) []
      is_empty [] y k = k
      is_empty (l ∷ c) y k = absurd (ground arith)
