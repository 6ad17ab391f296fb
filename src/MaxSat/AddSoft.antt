-- ===== src/MaxSat/AddSoft.antt =====
-- EvalMaxSAT.h, addClause with a weight, for two literals or more: what the new soft variable does to
-- the formula and to the objective.
use eval_max_sat.Common.{
  All-snoc, ℕ, suc, ◌+◌, ◌≤◌, ◌<◌, ◌≡◌, refl, sym, ap, ◌∙◌, subst, List, [], ◌∷◌, ◌++◌,
  if◌then◌else◌, Bool, true, false, not, All, arith, ◌&&◌, ◌||◌,
}
use eval_max_sat.Common.Int.{ℤ, pos, negsuc, neg, abs, abs-neg}
use eval_max_sat.Common.Assign.{Assignment, Clause, holds, holds_clause, holds_all, holds-neg}
use eval_max_sat.Lazy.{ClauseSink, update}
use eval_max_sat.Lazy.Invariant.{
  Agree, Within, Within-mono, All-Within-mono, holds-Agree, holds_clause-Agree, holds_all-Agree,
}
use eval_max_sat.Card.Wire.{any-snoc}
use eval_max_sat.Weights.{get, size}
use eval_max_sat.Optimizer.Cost.{soft_cost-Agree}
use eval_max_sat.MaxSat.{
  MaxSat, ok, new_soft_var, push_soft, add_hard, add_implied, add_soft, solver_clause,
}
use eval_max_sat.MaxSat.Objective.{IsValid, objective, long_limit}
use eval_max_sat.MaxSat.NewSoft.{
  holds_each, implied, IsAligned, AddsSoft, push_soft-AddsSoft, clause-AddsSoft,
}

module _ (T : ClauseSink) where
  -- What the soft variable pays for: `w` where the test fails.
  pub record PaysUnless (s s' : MaxSat T) (w : ℕ) (test : Assignment → Bool) : Type 0 where
    pub valid : IsValid T s'
    pub aligned : IsAligned T s'
    pub grows : T.vars s.solver ≤ T.vars s'.solver
    pub within : All (Within (T.vars s'.solver)) (T.clauses s'.solver)
    pub reads : (l : ℤ) → abs l < size s.poids → get s'.poids l ≡ get s.poids l
    pub bigger : size s'.poids ≡ suc (size s.poids)
    pub cost_stays : s'.cost ≡ s.cost
    pub start_stays : s'.start_solve ≡ s.start_solve
    pub sound :
        (a : Assignment)
        → holds_all a (T.clauses s'.solver) ≡ true
        → (holds_all a (T.clauses s.solver) ≡ true)
          × (objective T s a + (if test a then 0 else w) ≤ objective T s' a)
    pub complete :
        (a : Assignment)
        → holds_all a (T.clauses s.solver) ≡ true
        → (b : Assignment) × Agree (T.vars s.solver) a b
          × (holds_all b (T.clauses s'.solver) ≡ true)
          × (objective T s' b ≡ objective T s a + (if test a then 0 else w))

  module _ (s s' : MaxSat T) (w : ℕ) (cs : List Clause) (test : Assignment → Bool)
      (x : AddsSoft T s s' w cs) (al : IsAligned T s)
      (known : All (Within (T.vars s.solver)) (T.clauses s.solver))
      (means : (a : Assignment)
        → holds_all a cs ≡ (holds_all a (T.clauses s.solver) && (not (a (size s.poids)) || test a)))
      (same_test : (a b : Assignment) → Agree (T.vars s.solver) a b → test b ≡ test a) where
    model :
        (a : Assignment)
        → holds_all a (T.clauses s'.solver)
          ≡ (holds_all a (T.clauses s.solver) && (not (a (size s.poids)) || test a))
    model a = ap (holds_all a) x.clauses_are ∙ means a

    soft_value : (a : Assignment) → Assignment
    soft_value a = update a (size s.poids) (test a)

    soft_value-Agree : (a : Assignment) → Agree (T.vars s.solver) a (soft_value a)
    unfolding soft_value
    soft_value-Agree a i h =
        let ne : (size s.poids ≡ i) → ⊥ = λ e. absurd (omega (arith, e, al)) in ground (arith, ne)

    soft_value_there : (a : Assignment) → soft_value a (size s.poids) ≡ test a
    unfolding soft_value
    soft_value_there a = ground arith

    AddsSoft-PaysUnless : PaysUnless s s' w test
    AddsSoft-PaysUnless = record {
      valid = x.valid;
      aligned = x.aligned;
      grows = omega (arith, x.aligned, x.bigger, al);
      within = subst (All (Within (T.vars s'.solver))) (sym x.clauses_are) (
          All-Within-mono (size s.poids) (T.vars s'.solver) cs (omega (arith, x.aligned, x.bigger))
            x.within);
      reads = x.reads;
      bigger = x.bigger;
      cost_stays = x.cost_stays;
      start_stays = x.start_stays;
      sound = λ a h.
          let m = sym (model a) ∙ h in
          ((split_sound a m).0, omega (arith, x.objective_is a, (split_sound a m).1));
      complete = λ a h.
          let b = soft_value a in
          let f = soft_value-Agree a in
          let t : b (size s.poids) ≡ test a = soft_value_there a in
          (
            b,
            f,
            model b
                ∙ rw
                    (
                      holds_all-Agree (T.vars s.solver) a b (T.clauses s.solver) f known,
                      h,
                      t,
                      same_test a b f,
                    )
                    (excluded (test a)),
            x.objective_is b
                ∙ rw (t, soft_cost-Agree (T.vars s.solver) s.poids a b f (omega (arith, al))) refl,
          );
    }
      where
        excluded : (b : Bool) → (not b || b) ≡ true
        excluded true = refl
        excluded false = refl

        split_sound :
            (a : Assignment)
            → (holds_all a (T.clauses s.solver) && (not (a (size s.poids)) || test a)) ≡ true
            → (holds_all a (T.clauses s.solver) ≡ true)
              × ((if test a then 0 else w) ≤ (if a (size s.poids) then 0 else w))
        split_sound a m = by_cases _ _ _ m
          where
            by_cases :
                (p q r : Bool)
                → (p && (not q || r)) ≡ true
                → (p ≡ true) × ((if r then 0 else w) ≤ (if q then 0 else w))
            by_cases p q r e = ground (arith, e)

  module _ (s : MaxSat T) (l k : ℤ) (c : Clause) (v : IsValid T s) (al : IsAligned T s)
      (inside : Within (T.vars s.solver) (l ∷ k ∷ c))
      (known : All (Within (T.vars s.solver)) (T.clauses s.solver)) where
    soft : ℤ
    soft = pos (size s.poids)

    soft-neg : (a : Assignment) → holds a (neg soft) ≡ not (a (size s.poids))
    unfolding soft
    soft-neg a = holds-neg a (pos (size s.poids)) v.sized

    new_Within : Within (size s.poids) (l ∷ k ∷ c)
    new_Within = Within-mono (T.vars s.solver) (size s.poids) (l ∷ k ∷ c) (omega (arith, al)) inside

    soft_in_use : abs (neg soft) ≤ size s.poids
    unfolding soft
    soft_in_use = omega (arith, abs-neg (pos (size s.poids)))

    -- Before any cardinality constraint is attached, the weight map in step and the solver's numbering
    -- that of the weights, a clause of two literals or more over variables in use gets a soft variable
    -- for a positive weight of 63 bits: every solution of the new clauses solves the old ones and pays
    -- at least the weight if it falsifies the clause, and every solution of the old clauses has one of
    -- the new that agrees on the old variables and pays exactly that. The old weights and the cost stay,
    -- and the weight map and the numbering stay in step.
    pub add_soft_correct :
        (w : ℕ)
        → 0 < w
        → w < long_limit
        → (s' : MaxSat T) × (add_soft T s (l ∷ k ∷ c) (pos w) ≡ ok (s', pos (size s.poids)))
          × PaysUnless s s' w (λ a. holds_clause a (l ∷ k ∷ c))
    unfolding add_soft new_soft_var add_hard soft
    add_soft_correct w hw lim =
        let s1 = (push_soft T s true (pos w)).0 in
        let (x, lit) = push_soft-AddsSoft T s w v al known hw lim in
        let clause : Clause = (l ∷ k ∷ c) ++ neg soft ∷ [] in
        let y =
          clause-AddsSoft T s s1 w clause (T.clauses s.solver) x
            (All-snoc (λ j. abs j ≤ size s.poids) (l ∷ k ∷ c) (neg soft) new_Within soft_in_use) in
        (
          solver_clause T s1 clause,
          ap (λ z. ok (solver_clause T s1 ((l ∷ k ∷ c) ++ neg z ∷ []), z)) lit,
          AddsSoft-PaysUnless s _ w (clause ∷ T.clauses s.solver) (λ a. holds_clause a (l ∷ k ∷ c))
              y al known
              (λ a.
                ap (λ b. b && holds_all a (T.clauses s.solver))
                  (any-snoc (holds a) (l ∷ k ∷ c) (neg soft)
                    ∙ ap (λ b. holds_clause a (l ∷ k ∷ c) || b) (soft-neg a))
                ∙ turned (holds_clause a (l ∷ k ∷ c)) (not (a (size s.poids)))
                    (holds_all a (T.clauses s.solver)))
              (λ a b f. holds_clause-Agree (T.vars s.solver) a b (l ∷ k ∷ c) f inside),
        )
      where
        turned : (p q r : Bool) → ((p || q) && r) ≡ (r && (q || p))
        turned p q r = ground arith

    implied-AddsSoft :
        (d : Clause) (s1 : MaxSat T) (w : ℕ) (cs : List Clause)
        → AddsSoft T s s1 w cs
        → Within (size s.poids) d
        → (s' : MaxSat T) × (add_implied T s1 soft d ≡ ok s')
          × AddsSoft T s s' w (implied soft d cs)
    unfolding add_implied add_hard
    implied-AddsSoft [] s1 w cs x h = (s1, refl, x)
    implied-AddsSoft (j ∷ d) s1 w cs x (h, hs) =
        implied-AddsSoft d (solver_clause T s1 (neg soft ∷ j ∷ [])) w ((neg soft ∷ j ∷ []) ∷ cs)
          (clause-AddsSoft T s s1 w (neg soft ∷ j ∷ []) cs x (soft_in_use, (h, tt))) hs

    holds_all-implied :
        (a : Assignment) (d : Clause) (cs : List Clause)
        → holds_all a (implied soft d cs)
          ≡ (holds_all a cs && (not (a (size s.poids)) || holds_each a d))
    holds_all-implied a [] cs = one_more (holds_all a cs) (a (size s.poids))
      where
        one_more : (p q : Bool) → p ≡ (p && (not q || true))
        one_more p q = ground arith
    holds_all-implied a (j ∷ d) cs =
        holds_all-implied a d ((neg soft ∷ j ∷ []) ∷ cs)
        ∙ rw (soft-neg a) (regroup (a (size s.poids)) (holds a j) (holds_all a cs) (holds_each a d))
      where
        regroup :
            (p q r t : Bool)
            → (((not p || (q || false)) && r) && (not p || t)) ≡ (r && (not p || (q && t)))
        regroup p q r t = ground arith

    holds_each-Agree :
        (a b : Assignment) (d : Clause)
        → Agree (T.vars s.solver) a b
        → Within (T.vars s.solver) d
        → holds_each b d ≡ holds_each a d
    holds_each-Agree a b [] f h = refl
    holds_each-Agree a b (j ∷ d) f (h, hs) =
        rw (holds-Agree (T.vars s.solver) a b j f h, holds_each-Agree a b d f hs)

    -- With a negative weight of 63 bits, in the same formula, the soft variable implies each literal:
    -- what is paid in the same sense is the weight without its sign unless all of the literals are true.
    pub add_soft_negative :
        (n : ℕ)
        → suc n < long_limit
        → (s' : MaxSat T) × (add_soft T s (l ∷ k ∷ c) (negsuc n) ≡ ok (s', pos (size s.poids)))
          × PaysUnless s s' (suc n) (λ a. holds_each a (l ∷ k ∷ c))
    unfolding add_soft new_soft_var soft
    add_soft_negative n lim =
        let s1 = (push_soft T s true (pos (suc n))).0 in
        let (x, lit) = push_soft-AddsSoft T s (suc n) v al known (omega arith) lim in
        let (s', e, y) =
          implied-AddsSoft (l ∷ k ∷ c) s1 (suc n) (T.clauses s.solver) x new_Within in
        (
          s',
          rw (lit, e) refl,
          AddsSoft-PaysUnless s s' (suc n) (implied soft (l ∷ k ∷ c) (T.clauses s.solver))
              (λ a. holds_each a (l ∷ k ∷ c)) y al known
              (λ a. holds_all-implied a (l ∷ k ∷ c) (T.clauses s.solver))
              (λ a b f. holds_each-Agree a b (l ∷ k ∷ c) f inside),
        )
