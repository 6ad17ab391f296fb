-- ===== src/MaxSat/Clique/Round.antt =====
-- One round of processAtMostOne: the objective of the solutions that make at most one of the literals
-- true is what it was.
use eval_max_sat.Common.{
  ℕ, zero, suc, ◌+◌, ◌-◌, ◌*◌, ◌%◌, ◌^◌, ◌≤◌, ◌<◌, ◌≡◌, refl, sym, ap, ◌∙◌, subst, [], ◌∷◌,
  if◌then◌else◌, true, not, length, get_or, All, In, map, arith, inl, inr, some, ◌&&◌, ◌==◌,
}
use native.Mathlib.Nat.{mul-suc}
use eval_max_sat.Common.Int.{ℤ, pos, neg, abs}
use eval_max_sat.Common.Assign.{Assignment, Clause, holds_clause, holds_all}
use eval_max_sat.Lazy.{ClauseSink}
use eval_max_sat.Lazy.Invariant.{Agree, Within}
use eval_max_sat.Weights.{get, size}
use eval_max_sat.Optimizer.Cost.{soft_cost}
use eval_max_sat.Card.Trues.{trues}
use eval_max_sat.MaxSat.{
  MaxSat, ok, err, not_incremental, max_weight, ◌>>=◌, to_weight, add_cost, add_soft, add_clause,
  weight_of,
}
use eval_max_sat.MaxSat.Objective.{IsValid, objective, long_limit, weight_limit, to_weight-pos}
use eval_max_sat.MaxSat.NewSoft.{IsAligned}
use eval_max_sat.MaxSat.AddSoft.{PaysUnless, add_soft_correct}
use eval_max_sat.MaxSat.Core.{min_weight}
use eval_max_sat.MaxSat.Core.Correct.{IsHeavy, min_weight-attained, min_weight-le}
use eval_max_sat.MaxSat.Oracle.{IsDistinct}
use eval_max_sat.MaxSat.Clique.{give_up_all, clique_round}
use eval_max_sat.MaxSat.Clique.Rotate.{weight_sum}
use eval_max_sat.MaxSat.Clique.Left.{Left}
use eval_max_sat.MaxSat.Clique.GiveUp.{GivenUp, give_up_all_lem}
use eval_max_sat.MaxSat.Clique.Balance.{
  IsHeavy-reads, add_cost-wrapped, balance, holds_clause-trues, no_clause-trues, trues-both,
  weight_sum-reads,
}

module _ (T : ClauseSink) where
  -- A clause for processAtMostOne: literals of distinct variables in use, each of a positive weight, in
  -- a formula without cardinality constraints; the cost and what they weigh fit a `t_weight`.
  pub record Ready (s : MaxSat T) (c : Clause) : Type 0 where
    pub valid : IsValid T s
    pub aligned : IsAligned T s
    pub known : All (Within (T.vars s.solver)) (T.clauses s.solver)
    pub started : s.start_solve ≡ true
    pub distinct : IsDistinct c
    pub heavy : All (IsHeavy s.poids 1) c
    pub room : s.cost + weight_sum s.poids c < weight_limit

  -- What a round leaves of the formula: fewer literals to go on with, and for the solutions that make
  -- at most one literal of the clause true the price they had.
  pub record Rounds (s s' : MaxSat T) (c rest : Clause) : Type 0 where
    pub ready : Ready s' rest
    pub shorter : length rest < length c
    pub fewer : (a : Assignment) → trues a rest ≤ trues a c
    pub grows : T.vars s.solver ≤ T.vars s'.solver
    pub sound :
        (a : Assignment)
        → holds_all a (T.clauses s'.solver) ≡ true
        → (holds_all a (T.clauses s.solver) ≡ true)
          × (trues a c ≤ 1 → objective T s a ≤ objective T s' a)
    pub complete :
        (a : Assignment)
        → holds_all a (T.clauses s.solver) ≡ true
        → trues a c ≤ 1
        → (b : Assignment) × Agree (T.vars s.solver) a b
          × (holds_all b (T.clauses s'.solver) ≡ true)
          × (objective T s' b ≡ objective T s a)

  -- While solving a soft clause is always taken.
  started-add_clause :
      (t : MaxSat T) (c : Clause) (m : ℕ)
      → t.start_solve ≡ true
      → add_clause T t c (some (pos (suc m))) ≡ add_soft T t c (pos (suc m))
  unfolding add_clause
  started-add_clause t c m e =
      ap
        (λ b.
          if not b && not (t.solution_cost == max_weight) && not t.is_incremental
          then err not_incremental
          else add_soft T t c (pos (suc m)))
        e

  -- The weight that a round moves.
  abbrev round_weight : MaxSat T → Clause → ℤ
  round_weight s c = min_weight T s c (weight_of T s (get_or c 0 (pos 0)))

  module _ (s : MaxSat T) (l k : ℤ) (c : Clause) (v : IsValid T s) (al : IsAligned T s)
      (known : All (Within (T.vars s.solver)) (T.clauses s.solver)) (dist : IsDistinct (l ∷ k ∷ c))
      (h : All (IsHeavy s.poids 1) (l ∷ k ∷ c)) where
    -- The state between the two halves of a round.
    abbrev paid_state : MaxSat T → ℕ → MaxSat T
    paid_state s1 m = record s1 {
      cost = add_cost s1.cost ((to_weight (pos m) * (length (l ∷ k ∷ c) - 1)) % 2 ^ 64);
    }

    inside : (d : Clause) → All (IsHeavy s.poids 1) d → Within (T.vars s.solver) d
    inside [] h = tt
    inside (j ∷ d) ((ha, hs, x), h) = (omega (arith, al), inside d h)

    in_use : (d : Clause) → All (IsHeavy s.poids 1) d → All (λ j. 0 < abs j) d
    in_use [] h = tt
    in_use (j ∷ d) ((ha, hs, x), h) = (ha, in_use d h)

    softened :
        (s1 : MaxSat T) (m : ℕ)
        → GivenUp T s s1 (l ∷ k ∷ c) m
        → 0 < m
        → m < long_limit
        → s.cost + m * suc (length c) < weight_limit
        → (s2 : MaxSat T) × (add_soft T (paid_state s1 m) (l ∷ k ∷ c) (pos m)
            ≡ ok (s2, pos (size s1.poids)))
          × PaysUnless T (paid_state s1 m) s2 m (λ a. holds_clause a (l ∷ k ∷ c))
          × ((paid_state s1 m).cost ≡ s.cost + m * suc (length c))
    softened s1 m g p lim room =
        let (s2, e, x) =
          add_soft_correct T (paid_state s1 m) l k c
            (record {
              indexed = g.valid.indexed;
              no_cards = g.valid.no_cards;
              sized = g.valid.sized;
            })
            (g.size_stays ∙ al ∙ ap (λ st. suc (T.vars st)) (sym g.solver_stays))
            (subst (λ st. Within (T.vars st) (l ∷ k ∷ c)) (sym g.solver_stays)
              (inside (l ∷ k ∷ c) h))
            (subst (λ st. All (Within (T.vars st)) (T.clauses st)) (sym g.solver_stays) known) m p
            lim in
        (
          s2,
          e,
          x,
          ap (λ y. add_cost s1.cost ((to_weight (pos m) * y) % 2 ^ 64)) fewer
              ∙ ap (λ w. add_cost s1.cost ((w * suc (length c)) % 2 ^ 64)) (to_weight-pos m lim)
              ∙ add_cost-wrapped s1.cost (m * suc (length c)) (over (m * suc (length c)) room)
              ∙ ap (λ y. y + m * suc (length c)) g.cost_stays,
        )
      where
        fewer : length (l ∷ k ∷ c) - 1 ≡ suc (length c)
        fewer = omega arith

        over : (z : ℕ) → s.cost + z < weight_limit → s1.cost + z < weight_limit
        over z r = omega (arith, g.cost_stays)

    soft_step :
        (s1 s2 : MaxSat T) (m : ℕ)
        → 0 < m
        → s1.start_solve ≡ true
        → add_soft T (paid_state s1 m) (l ∷ k ∷ c) (pos m) ≡ ok (s2, pos (size s1.poids))
        → add_clause T (paid_state s1 m) (l ∷ k ∷ c) (some (pos m)) ≡ ok (s2, pos (size s1.poids))
    soft_step s1 s2 zero p t e = elim p [ ]
    soft_step s1 s2 (suc m) p t e = started-add_clause (paid_state s1 (suc m)) (l ∷ k ∷ c) m t ∙ e

    price :
        (s1 : MaxSat T) (m : ℕ) (a : Assignment)
        → GivenUp T s s1 (l ∷ k ∷ c) m
        → (paid_state s1 m).cost ≡ s.cost + m * suc (length c)
        → trues a (l ∷ k ∷ c) ≤ 1
        → objective T (paid_state s1 m) a + (if holds_clause a (l ∷ k ∷ c) then 0 else m)
          ≡ objective T s a
    price s1 m a g e one =
        ap (λ y. y + soft_cost s1.poids a + (if holds_clause a (l ∷ k ∷ c) then 0 else m)) e
        ∙ balance s.cost (soft_cost s1.poids a) (soft_cost s.poids a) m (suc (length c))
            (trues a (map neg (l ∷ k ∷ c))) (trues a (l ∷ k ∷ c)) (holds_clause a (l ∷ k ∷ c))
            (g.exchange a) (trues-both a (l ∷ k ∷ c) (in_use (l ∷ k ∷ c) h)) one
            (holds_clause-trues a (l ∷ k ∷ c)) (no_clause-trues a (l ∷ k ∷ c))

    round_step :
        (s1 s2 : MaxSat T) (rest : Clause) (m : ℕ)
        → round_weight s (l ∷ k ∷ c) ≡ pos m
        → give_up_all T (length (l ∷ k ∷ c)) s (l ∷ k ∷ c) 0 (pos m) ≡ ok (s1, rest)
        → add_clause T (paid_state s1 m) (l ∷ k ∷ c) (some (pos m)) ≡ ok (s2, pos (size s1.poids))
        → clique_round T s (l ∷ k ∷ c) ≡ ok (s2, rest, pos (size s1.poids))
    unfolding clique_round
    round_step s1 s2 rest m q g t = rw (q, g, ◌>>=◌, t) refl

    -- What is left is ready for the next round.
    next-Ready :
        (s1 s2 : MaxSat T) (rest : Clause) (m : ℕ)
        → s.start_solve ≡ true
        → s.cost + weight_sum s.poids (l ∷ k ∷ c) < weight_limit
        → GivenUp T s s1 (l ∷ k ∷ c) m
        → Left T s s1 (l ∷ k ∷ c) rest m
        → PaysUnless T (paid_state s1 m) s2 m (λ a. holds_clause a (l ∷ k ∷ c))
        → (paid_state s1 m).cost ≡ s.cost + m * suc (length c)
        → Ready s2 rest
    next-Ready s1 s2 rest m started room g rem pays e = record {
      valid = pays.valid;
      aligned = pays.aligned;
      known = pays.within;
      started = pays.start_stays ∙ g.start_stays ∙ started;
      distinct = rem.distinct;
      heavy =
          IsHeavy-reads s1.poids s2.poids rest pays.reads (omega (arith, pays.bigger)) rem.heavy;
      room =
          fits s2.cost s.cost (m * suc (length c)) m _ _ _ _ (pays.cost_stays ∙ e)
            (mul-suc m (suc (length c))) rem.total
            (weight_sum-reads s1.poids s2.poids rest pays.reads rem.heavy) room;
    }
      where
        fits :
            (c2 c1 p m t left left2 all : ℕ)
            → c2 ≡ c1 + p
            → t ≡ p + m
            → left + t ≡ all
            → left2 ≡ left
            → c1 + all < weight_limit
            → c2 + left2 < weight_limit
        fits c2 c1 p m t left left2 all e1 e2 e3 e4 b = omega arith

    -- A round returns, and leaves the next one less to do.
    pub clique_round_lem :
        s.start_solve ≡ true
        → s.cost + weight_sum s.poids (l ∷ k ∷ c) < weight_limit
        → (s' : MaxSat T) × (rest : Clause) × (clique_round T s (l ∷ k ∷ c)
            ≡ ok (s', rest, pos (size s.poids)))
          × Rounds s s' (l ∷ k ∷ c) rest
    clique_round_lem started room =
        let (x, e, le, lp, lim) = h.0.2 in
        let (m, w, a1, a2, heavy) = min_weight-le T s (l ∷ k ∷ c) x h lp lim in
        let q : round_weight s (l ∷ k ∷ c) ≡ pos m = ap (min_weight T s (l ∷ k ∷ c)) e ∙ w in
        let mlim : m < long_limit = omega arith in
        let (s1, rest, given, g, short, less, rem) =
          give_up_all_lem T (length (l ∷ k ∷ c)) s (l ∷ k ∷ c) 0 m [] (l ∷ k ∷ c) refl refl refl v
            dist heavy in
        let room2 : s.cost + m * suc (length c) < weight_limit =
          below_sum s.cost (m * suc (length c)) m _ _ _ (mul-suc m (suc (length c))) rem.total
            room in
        let (s2, soft, pays, cost_is) = softened s1 m g a2 mlim room2 in
        let (j, i, o) = attained m q in
        (
          s2,
          rest,
          round_step s1 s2 rest m q given (soft_step s1 s2 m a2 (g.start_stays ∙ started) soft)
              ∙ ap (λ y. ok (s2, rest, pos y)) g.size_stays,
          record {
            ready = next-Ready s1 s2 rest m started room g rem pays cost_is;
            shorter = less j i o;
            fewer = rem.fewer;
            grows = omega (arith, pays.grows, ap T.vars g.solver_stays);
            sound = λ a t.
                let (u, ob) = pays.sound a t in
                (
                  ap (λ st. holds_all a (T.clauses st)) (sym g.solver_stays) ∙ u,
                  λ one. omega (arith, ob, price s1 m a g cost_is one),
                );
            complete = λ a t one.
                let (b, ag, u, ob) =
                  pays.complete a (ap (λ st. holds_all a (T.clauses st)) g.solver_stays ∙ t) in
                (
                  b,
                  subst (λ st. Agree (T.vars st) a b) g.solver_stays ag,
                  u,
                  ob ∙ price s1 m a g cost_is one,
                );
          },
        )
      where
        below_sum :
            (c1 p m t left all : ℕ)
            → t ≡ p + m
            → left + t ≡ all
            → c1 + all < weight_limit
            → c1 + p < weight_limit
        below_sum c1 p m t left all e2 e3 b = omega arith

        attained :
            (m : ℕ)
            → round_weight s (l ∷ k ∷ c) ≡ pos m
            → (j : ℤ) × In j (l ∷ k ∷ c) × (get s.poids j ≡ pos m)
        attained m q = elim (min_weight-attained T s (l ∷ k ∷ c) (weight_of T s l)) [
          | inl e ↦ (l, inl refl, sym e ∙ q)
          | inr (j, i, e) ↦ (j, i, e ∙ q)
        ]
