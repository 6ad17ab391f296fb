-- ===== src/MaxSat/Core/Exchange.antt =====
-- What holds of the formula between the steps of solve, and how a step may exchange a part of the
-- objective that is in line for another.
use eval_max_sat.Common.{ℕ, suc, ◌+◌, ◌≤◌, ◌≡◌, refl, sym, ap, ◌∙◌, true, arith}
use eval_max_sat.Common.Int.{ℤ, pos, neg}
use eval_max_sat.Common.Assign.{Assignment, holds_all}
use eval_max_sat.Lazy.{ClauseSink}
use eval_max_sat.Lazy.Invariant.{Agree, Agree-trans, Steps, none_yet, then_var, then_clause}
use eval_max_sat.Card.Ready.{IsReady, Faithful}
use eval_max_sat.Weights.{get, size}
use eval_max_sat.Weights.Laws.{get-neg, get-push_back_zero, get-push_back_new, size-push_back}
use eval_max_sat.WeightMap.{WeightMap}
use eval_max_sat.Optimizer.Cost.{charge, soft_cost, soft_cost-push_back}
use eval_max_sat.MaxSat.{MaxSat, Base, base_new_var, sink}
use eval_max_sat.MaxSat.Index.{Indexed, Indexed-push_back}
use eval_max_sat.MaxSat.Objective.{objective}

module _ (T : ClauseSink) where
  -- The next variable has the same number for the solver and for the weights.
  abbrev BaseAligned : Base T → Type 0
  BaseAligned b = size b.poids ≡ suc (T.vars b.solver)

  -- The totalizers are ready, and the weight map is in step with the weights.
  pub record InStep (s : MaxSat T) : Type 0 where
    pub ready : IsReady (sink T) s.base s.heap
    pub aligned : BaseAligned s.base
    pub indexed : Indexed s.map_weight s.poids

  -- Further variables without a weight.
  pub record SameWeights (b b' : Base T) : Type 0 where
    pub aligned : BaseAligned b'
    pub grows : T.vars b.solver ≤ T.vars b'.solver
    pub indexed : (m : WeightMap) → Indexed m b.poids → Indexed m b'.poids
    pub reads : (l : ℤ) → get b'.poids l ≡ get b.poids l
    pub charged : (a : Assignment) → soft_cost b'.poids a ≡ soft_cost b.poids a

  new_var-SameWeights : (b c : Base T) → SameWeights b c → SameWeights b (base_new_var T c).0
  unfolding base_new_var
  new_var-SameWeights b c x = record {
    aligned = omega (arith, size-push_back c.poids (pos 0), x.aligned, T.vars-new_var c.solver);
    grows = omega (arith, x.grows, T.vars-new_var c.solver);
    indexed = λ m ix. Indexed-push_back m c.poids (x.indexed m ix);
    reads = λ l. get-push_back_zero c.poids l ∙ x.reads l;
    charged = λ a.
        soft_cost-push_back c.poids (pos 0) a (omega (arith, x.aligned))
        ∙ no_charge (a (size c.poids)) (soft_cost c.poids a)
        ∙ x.charged a;
  }
    where
      no_charge : (v : _) (n : ℕ) → n + charge (pos 0) v ≡ n
      no_charge v n = ground arith

  -- The calls of a totalizer leave the objective alone.
  pub Steps-SameWeights :
      (b : Base T) {b' : Base T} → BaseAligned b → Steps (sink T) b b' → SameWeights b b'
  Steps-SameWeights b al none_yet = record {
    aligned = al;
    grows = omega arith;
    indexed = λ m ix. ix;
    reads = λ l. refl;
    charged = λ a. refl;
  }
  Steps-SameWeights b al (then_var {t = c} r) = new_var-SameWeights b c (Steps-SameWeights b al r)
  Steps-SameWeights b al (then_clause {t = c} d w r) =
      let x = Steps-SameWeights b al r in
      let n = T.vars-add_clause c.solver d w in
      record {
        aligned = omega (arith, x.aligned, n);
        grows = omega (arith, x.grows, n);
        indexed = x.indexed;
        reads = x.reads;
        charged = x.charged;
      }

  -- A variable that is not made yet has no weight.
  pub get-next_var :
      (b : Base T) → BaseAligned b → get b.poids (neg (pos (suc (T.vars b.solver)))) ≡ pos 0
  get-next_var b al =
      get-neg b.poids (pos (suc (T.vars b.solver))) (omega arith)
      ∙ ap (λ n. neg (get b.poids (pos n))) (sym al)
      ∙ ap neg (
          sym (get-push_back_zero b.poids (pos (size b.poids))) ∙ get-push_back_new b.poids (pos 0))

  -- A step from `s` to `s'` exchanges the part `before` of what is still to be paid for `after`: no
  -- solution of the new clauses is cheaper than the old objective makes it, and every solution of the
  -- old ones has one of the new that agrees on the old variables at the same price.
  pub record Exchanges (s s' : MaxSat T) (before after : Assignment → ℕ) : Type 0 where
    pub grows : T.vars s.solver ≤ T.vars s'.solver
    pub sound :
        (a : Assignment)
        → holds_all a (T.clauses s'.solver) ≡ true
        → (holds_all a (T.clauses s.solver) ≡ true)
          × (objective T s a + before a ≤ objective T s' a + after a)
    pub complete :
        (a : Assignment)
        → Faithful (sink T) s.base s.heap a
        → (b : Assignment) × Agree (T.vars s.solver) a b
          × Faithful (sink T) s'.base s'.heap b
          × (objective T s' b + after a ≡ objective T s a + before a)

  -- The two parts depend on the old variables alone.
  pub Exchanges-trans :
      (s t u : MaxSat T) (p q p' q' : Assignment → ℕ)
      → Exchanges s t p q
      → Exchanges t u p' q'
      → ((a b : Assignment) → Agree (T.vars s.solver) a b → (p' b ≡ p' a) × (q' b ≡ q' a))
      → Exchanges s u (λ a. p a + p' a) (λ a. q a + q' a)
  Exchanges-trans s t u p q p' q' x y same = record {
    grows = omega (arith, x.grows, y.grows);
    sound = λ a h. let (h1, le1) = y.sound a h in let (h2, le2) = x.sound a h1 in (h2, omega arith);
    complete = λ a f.
        let (b, ag, f1, e1) = x.complete a f in
        let (c, ag2, f2, e2) = y.complete b f1 in
        let (sp, sq) = same a b ag in
        (c, Agree-trans {a = a} {b = b} {c = c} x.grows ag ag2, f2, omega arith);
  }
