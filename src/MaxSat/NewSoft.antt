-- ===== src/MaxSat/NewSoft.antt =====
-- addClause with a weight: the new soft variable and the clauses that are added for it.
use eval_max_sat.Common.{
  ℕ, suc, ◌+◌, ◌≤◌, ◌<◌, ◌≡◌, refl, sym, ap, ◌∙◌, subst, List, [], ◌∷◌, ◌++◌, if◌then◌else◌, Bool,
  true, length, set, All, arith, ◌&&◌,
}
use eval_max_sat.Common.Int.{ℤ, pos, neg, abs}
use eval_max_sat.Common.Assign.{Assignment, Clause, holds}
use eval_max_sat.Lazy.{ClauseSink}
use eval_max_sat.Lazy.Invariant.{Within, Within-mono, All-Within-mono}
use eval_max_sat.Weights.{WeightVector, get, size, push_back, write}
use eval_max_sat.Weights.Laws.{size-push_back, get-push_back, get-push_back_new}
use eval_max_sat.WeightMap.{WeightMap, insert}
use eval_max_sat.Optimizer.Cost.{soft_cost-push_back}
use eval_max_sat.MaxSat.{MaxSat, push_soft, solver_clause}
use eval_max_sat.MaxSat.Index.{Indexed, Indexed-insert, Indexed-push_back}
use eval_max_sat.MaxSat.Objective.{IsValid, objective, long_limit, to_weight-pos}
use eval_max_sat.MaxSat.AddWeight.{none-append}

set-append_last : (ws : List ℤ) (u v : ℤ) → set (ws ++ u ∷ []) (length ws) v ≡ ws ++ v ∷ []
set-append_last [] u v = refl
set-append_last (w ∷ ws) u v = ap (λ x. w ∷ x) (set-append_last ws u v)

-- A new soft literal stands in its set.
Indexed-new_soft :
    (m : WeightMap) (ws : WeightVector) (w : ℕ)
    → Indexed m ws
    → 0 < size ws
    → 0 < w
    → Indexed (insert m w (pos (size ws))) (push_back ws (pos w))
unfolding push_back write
Indexed-new_soft m ws w ix hs hw =
    subst (Indexed (insert m w (pos (size ws)))) (set-append_last ws (pos 0) (pos w)) (
      Indexed-insert m (push_back ws (pos 0)) (pos (size ws)) w hs
        (omega (arith, size-push_back ws (pos 0))) hw (get-push_back_new ws (pos 0))
        (Indexed-push_back m ws ix))

-- Every literal of the clause holds.
abbrev pub holds_each : Assignment → Clause → Bool
holds_each a [] = true
holds_each a (l ∷ c) = holds a l && holds_each a c

-- The clauses that the soft variable implies each literal, as they are added.
abbrev pub implied : ℤ → Clause → List Clause → List Clause
implied soft [] cs = cs
implied soft (l ∷ c) cs = implied soft c ((neg soft ∷ l ∷ []) ∷ cs)

module _ (T : ClauseSink) where
  -- The number of the next variable is the same for the solver and for the weights.
  abbrev pub IsAligned : MaxSat T → Type 0
  IsAligned s = size s.poids ≡ suc (T.vars s.solver)

  -- The formula with one more soft variable, and no other clause than those.
  pub record AddsSoft (s s' : MaxSat T) (w : ℕ) (cs : List Clause) : Type 0 where
    pub valid : IsValid T s'
    pub aligned : IsAligned s'
    pub bigger : size s'.poids ≡ suc (size s.poids)
    pub clauses_are : T.clauses s'.solver ≡ cs
    pub within : All (Within (size s.poids)) cs
    pub reads : (l : ℤ) → abs l < size s.poids → get s'.poids l ≡ get s.poids l
    pub cost_stays : s'.cost ≡ s.cost
    pub start_stays : s'.start_solve ≡ s.start_solve
    pub objective_is :
        (a : Assignment) → objective T s' a ≡ objective T s a + (if a (size s.poids) then 0 else w)

  pub push_soft-AddsSoft :
      (s : MaxSat T) (w : ℕ)
      → IsValid T s
      → IsAligned s
      → All (Within (T.vars s.solver)) (T.clauses s.solver)
      → 0 < w
      → w < long_limit
      → AddsSoft s (push_soft T s true (pos w)).0 w (T.clauses s.solver)
        × ((push_soft T s true (pos w)).1 ≡ pos (size s.poids))
  unfolding push_soft
  push_soft-AddsSoft s w v al known hw lim = (
    record {
      valid = record {
        indexed =
            subst
              (λ k.
                Indexed (insert s.map_weight k (pos (size s.poids))) (push_back s.poids (pos w)))
              (sym (to_weight-pos w lim))
              (Indexed-new_soft s.map_weight s.poids w v.indexed v.sized hw);
        no_cards = none-append s.map_card v.no_cards;
        sized = omega (arith, size-push_back s.poids (pos w));
      };
      aligned = size-push_back s.poids (pos w) ∙ ap suc (al ∙ sym (T.vars-new_var s.solver));
      bigger = size-push_back s.poids (pos w);
      clauses_are = T.clauses-new_var s.solver;
      within =
          All-Within-mono (T.vars s.solver) (size s.poids) (T.clauses s.solver) (omega (arith, al))
            known;
      reads = λ l h. get-push_back s.poids (pos w) l h;
      cost_stays = refl;
      start_stays = refl;
      objective_is = λ a. omega (arith, soft_cost-push_back s.poids (pos w) a v.sized);
    },
    T.new_var_lit s.solver ∙ ap pos (sym al),
  )

  -- A clause over the variables in use joins the others.
  pub clause-AddsSoft :
      (s s1 : MaxSat T) (w : ℕ) (c : Clause) (cs : List Clause)
      → AddsSoft s s1 w cs
      → Within (size s.poids) c
      → AddsSoft s (solver_clause T s1 c) w (c ∷ cs)
  clause-AddsSoft s s1 w c cs x h = record {
    valid = record {
      indexed = x.valid.indexed;
      no_cards = x.valid.no_cards;
      sized = x.valid.sized;
    };
    aligned =
        x.aligned
        ∙ ap suc (
            sym (
              T.vars-add_clause s1.solver c
                (Within-mono (size s.poids) (T.vars s1.solver) c in_use h)));
    bigger = x.bigger;
    clauses_are = T.clauses-add_clause s1.solver c ∙ ap (λ y. c ∷ y) x.clauses_are;
    within = (h, x.within);
    reads = x.reads;
    cost_stays = x.cost_stays;
    start_stays = x.start_stays;
    objective_is = x.objective_is;
  }
    where
      in_use : size s.poids ≤ T.vars s1.solver
      in_use = omega (arith, x.aligned, x.bigger)
