-- ===== src/MaxSat/AddHard.antt =====
-- EvalMaxSAT.h, addClause without a weight: a unit clause over a soft literal settles what it costs.
use eval_max_sat.Common.{
  ℕ, zero, suc, ◌+◌, ◌<◌, ◌≡◌, ◌≢◌, refl, sym, ap, ◌∙◌, subst, [], ◌∷◌, Bool, true, false, arith,
  ◌&&◌, ◌||◌,
}
use eval_max_sat.Common.Int.{ℤ, pos, negsuc, neg, abs, abs-neg}
use eval_max_sat.Common.Assign.{Assignment, Clause, holds, holds_all}
use eval_max_sat.Lazy.{ClauseSink}
use eval_max_sat.Weights.{get, size, write}
use eval_max_sat.Weights.Laws.{get-write, get-write_ne, size-write, write-neg, get-neg}
use eval_max_sat.WeightMap.{erase}
use eval_max_sat.Optimizer.Cost.{charge, soft_cost, soft_cost-write}
use eval_max_sat.MaxSat.{MaxSat, ok, settle, add_hard, solver_clause, with_poids}
use eval_max_sat.MaxSat.Index.{Indexed, Indexed-erase}
use eval_max_sat.MaxSat.Objective.{
  IsValid, objective, long_limit, weight_limit, to_weight-pos, add_cost-eq, relax-none,
}

module _ (T : ClauseSink) where
  -- The weight of a literal is settled: an assignment that makes it true costs what it did.
  pub record Settles (s s' : MaxSat T) (lit : ℤ) : Type 0 where
    pub valid : IsValid T s'
    pub size_stays : size s'.poids ≡ size s.poids
    pub others_stay : (k : ℤ) → abs lit ≢ abs k → get s'.poids k ≡ get s.poids k
    pub settles : get s'.poids lit ≡ pos 0
    pub solver_stays : s'.solver ≡ s.solver
    pub bound_stays : s'.solution_cost ≡ s.solution_cost
    pub same_objective : (a : Assignment) → holds a lit ≡ true → objective T s' a ≡ objective T s a

  module _ (s : MaxSat T) (lit : ℤ) (v : IsValid T s) (ha : 0 < abs lit)
      (hs : abs lit < size s.poids) where
    settled :
        (a : Assignment)
        → holds a lit ≡ true
        → soft_cost (write s.poids lit (pos 0)) a + charge (get s.poids lit) true
          ≡ soft_cost s.poids a
    settled a h =
        ap (λ b. soft_cost (write s.poids lit (pos 0)) a + charge (get s.poids lit) b) (sym h)
        ∙ soft_cost-write s.poids lit (pos 0) a ha hs
        ∙ rw h (omega arith)

    settle-zero : get s.poids lit ≡ pos 0 → settle T s lit ≡ ok s
    unfolding settle
    settle-zero e = rw e refl

    pub settle-pos :
        (n : ℕ)
        → get s.poids lit ≡ pos (suc n)
        → suc n < long_limit
        → (s' : MaxSat T) × (settle T s lit ≡ ok s')
          × Settles s s' lit
          × (s'.map_weight ≡ erase s.map_weight (suc n) lit)
          × (s'.cost ≡ s.cost)
    unfolding settle
    settle-pos n e lim = (
      with_poids T (record s { map_weight = erase s.map_weight (suc n) lit })
          (write s.poids lit (pos 0)),
      rw (e, to_weight-pos (suc n) lim) refl,
      record {
        valid = record {
          indexed = Indexed-erase s.map_weight s.poids lit (suc n) ha hs e v.indexed;
          no_cards = v.no_cards;
          sized = omega (arith, size-write s.poids lit (pos 0), v.sized);
        };
        size_stays = size-write s.poids lit (pos 0);
        others_stay = λ k ne. get-write_ne s.poids lit k (pos 0) ne;
        settles = get-write s.poids lit (pos 0) hs;
        solver_stays = refl;
        bound_stays = refl;
        same_objective = λ a h.
            let k = settled a h in
            let f : charge (get s.poids lit) true ≡ 0 = rw e refl in omega arith;
      },
      refl,
      refl,
    )

    settle-neg :
        (n : ℕ)
        → get s.poids lit ≡ negsuc n
        → suc n < long_limit
        → s.cost + suc n < weight_limit
        → (s' : MaxSat T) × (settle T s lit ≡ ok s') × Settles s s' lit
    unfolding settle
    settle-neg n e lim room =
        let opposite : get s.poids (neg lit) ≡ pos (suc n) = get-neg s.poids lit ha ∙ ap neg e in
        let falsified : MaxSat T = record s {
          map_weight = erase s.map_weight (suc n) (neg lit);
          cost = s.cost + suc n;
        } in
        (
          with_poids T falsified (write s.poids lit (pos 0)),
          rw
              (
                e,
                opposite,
                to_weight-pos (suc n) lim,
                add_cost-eq s.cost (suc n) room,
                relax-none T falsified lit (v.no_cards (abs lit)),
              )
              refl,
          record {
            valid = record {
              indexed =
                  subst (Indexed (erase s.map_weight (suc n) (neg lit)))
                    (write-neg s.poids lit (pos 0) ha)
                    (Indexed-erase s.map_weight s.poids (neg lit) (suc n)
                      (omega (arith, abs-neg lit)) (omega (arith, abs-neg lit)) opposite v.indexed);
              no_cards = v.no_cards;
              sized = omega (arith, size-write s.poids lit (pos 0), v.sized);
            };
            size_stays = size-write s.poids lit (pos 0);
            others_stay = λ k ne. get-write_ne s.poids lit k (pos 0) ne;
            settles = get-write s.poids lit (pos 0) hs;
            solver_stays = refl;
            bound_stays = refl;
            same_objective = λ a h.
                let k = settled a h in
                let f : charge (get s.poids lit) true ≡ suc n = rw e refl in omega arith;
          },
        )

    settle-Settles :
        abs (get s.poids lit) < long_limit
        → s.cost + abs (get s.poids lit) < weight_limit
        → (s' : MaxSat T) × (settle T s lit ≡ ok s') × Settles s s' lit
    settle-Settles lim room = by_weight (get s.poids lit) refl
      where
        by_weight :
            (w : ℤ)
            → get s.poids lit ≡ w
            → (s' : MaxSat T) × (settle T s lit ≡ ok s') × Settles s s' lit
        by_weight (pos zero) e = (
          s,
          settle-zero e,
          record {
            valid = v;
            size_stays = refl;
            others_stay = λ k ne. refl;
            settles = e;
            solver_stays = refl;
            bound_stays = refl;
            same_objective = λ a h. refl;
          },
        )
        by_weight (pos (suc n)) e =
            let (s', q, x, m, d) = settle-pos n e (omega (arith, ap abs e)) in (s', q, x)
        by_weight (negsuc n) e = settle-neg n e (omega (arith, ap abs e)) (omega (arith, ap abs e))

  -- What a hard clause leaves: one clause more, and the objective of its solutions as it was.
  pub record AddsHard (s s' : MaxSat T) (c : Clause) : Type 0 where
    pub valid : IsValid T s'
    pub clauses_are : T.clauses s'.solver ≡ c ∷ T.clauses s.solver
    pub bound_stays : s'.solution_cost ≡ s.solution_cost
    pub same_objective :
        (a : Assignment)
        → holds_all a (c ∷ T.clauses s.solver) ≡ true
        → objective T s' a ≡ objective T s a

  -- The weights of the clause's literals, where it is a unit, are in range.
  abbrev pub Settleable : MaxSat T → Clause → Type 0
  Settleable s (l ∷ []) =
      (0 < abs l)
      × (abs l < size s.poids)
      × (abs (get s.poids l) < long_limit)
      × (s.cost + abs (get s.poids l) < weight_limit)
  Settleable s c = Unit

  plain-AddsHard : (s : MaxSat T) (c : Clause) → IsValid T s → AddsHard s (solver_clause T s c) c
  plain-AddsHard s c v = record {
    valid = record { indexed = v.indexed; no_cards = v.no_cards; sized = v.sized };
    clauses_are = T.clauses-add_clause s.solver c;
    bound_stays = refl;
    same_objective = λ a h. refl;
  }

  -- Before any cardinality constraint is attached, a hard clause is added to the solver's, and no
  -- other: every assignment that satisfies the clauses with it costs what it cost, whatever weight a
  -- unit clause's literal has, if that weight is a `long long` and can be paid; the weight map stays in
  -- step, and still no cardinality constraint is attached.
  pub add_hard_correct :
      (s : MaxSat T) (c : Clause)
      → IsValid T s
      → Settleable s c
      → (s' : MaxSat T) × (add_hard T s c ≡ ok s') × AddsHard s s' c
  unfolding add_hard
  add_hard_correct s [] v h = (_, refl, plain-AddsHard s [] v)
  add_hard_correct s (l ∷ k ∷ c) v h = (_, refl, plain-AddsHard s (l ∷ k ∷ c) v)
  add_hard_correct s (l ∷ []) v (ha, hs, lim, room) =
      let (s', e, x) = settle-Settles s l v ha hs lim room in
      (
        solver_clause T s' (l ∷ []),
        rw e refl,
        record {
          valid = record {
            indexed = x.valid.indexed;
            no_cards = x.valid.no_cards;
            sized = x.valid.sized;
          };
          clauses_are =
              T.clauses-add_clause s'.solver (l ∷ [])
              ∙ ap (λ st. (l ∷ []) ∷ T.clauses st) x.solver_stays;
          bound_stays = x.bound_stays;
          same_objective = λ a h. x.same_objective a (unit_holds _ _ h);
        },
      )
    where
      unit_holds : (p q : Bool) → ((p || false) && q) ≡ true → p ≡ true
      unit_holds p q h = ground (arith, h)
