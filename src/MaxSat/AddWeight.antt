-- ===== src/MaxSat/AddWeight.antt =====
-- addWeight as a whole: the variables up to the literal's are made, and a negative weight is one for
-- the opposite literal.
use eval_max_sat.Common.{
  ℕ, zero, suc, ◌+◌, ◌-◌, ◌<◌, ◌≡◌, refl, ap, ◌∙◌, List, [], ◌∷◌, ◌++◌, not, arith, Option, none,
  get_or,
}
use eval_max_sat.Common.Int.{ℤ, pos, negsuc, neg, abs, abs-neg}
use eval_max_sat.Common.Assign.{Assignment, holds, holds-neg}
use eval_max_sat.Common.Loop.{for_range}
use eval_max_sat.Lazy.{ClauseSink}
use eval_max_sat.Weights.{get, size}
use eval_max_sat.Weights.Laws.{get-neg, get-push_back_zero, size-push_back}
use eval_max_sat.Optimizer.Cost.{charge, soft_cost, soft_cost-push_back}
use eval_max_sat.MaxSat.{MaxSat, LitCard, new_var, grow_vars, add_positive, add_weight, ok}
use eval_max_sat.MaxSat.Index.{Indexed-push_back}
use eval_max_sat.MaxSat.Objective.{IsValid, objective, long_limit, weight_limit}
use eval_max_sat.MaxSat.AddPositive.{add_positive-Adds}

pub none-append :
    (m : List (Option LitCard))
    → ((i : ℕ) → get_or m i none ≡ none)
    → (i : ℕ) → get_or (m ++ none ∷ []) i none ≡ none
none-append [] f zero = refl
none-append [] f (suc i) = refl
none-append (x ∷ m) f zero = f 0
none-append (x ∷ m) f (suc i) = none-append m (λ k. f (suc k)) i

module _ (T : ClauseSink) where
  -- The formula is the same, over more variables.
  record Same (s s' : MaxSat T) : Type 0 where
    valid : IsValid T s'
    cost : s'.cost ≡ s.cost
    reads : (l : ℤ) → get s'.poids l ≡ get s.poids l
    objective : (a : Assignment) → soft_cost s'.poids a ≡ soft_cost s.poids a

  new_var-Same : (s : MaxSat T) → IsValid T s → Same s (new_var T s)
  unfolding new_var
  new_var-Same s v = record {
    valid = record {
      indexed = Indexed-push_back s.map_weight s.poids v.indexed;
      no_cards = none-append s.map_card v.no_cards;
      sized = omega (arith, size-push_back s.poids (pos 0));
    };
    cost = refl;
    reads = get-push_back_zero s.poids;
    objective = λ a. soft_cost-push_back s.poids (pos 0) a v.sized ∙ no_charge a;
  }
    where
      no_charge :
          (a : Assignment)
          → soft_cost s.poids a + charge (pos 0) (a (size s.poids)) ≡ soft_cost s.poids a
      no_charge a = ground arith

  size-new_var : (s : MaxSat T) → size (new_var T s).poids ≡ suc (size s.poids)
  unfolding new_var
  size-new_var s = size-push_back s.poids (pos 0)

  new_vars-Same :
      (n i : ℕ) (s : MaxSat T)
      → IsValid T s
      → Same s (for_range n i (λ _ t. new_var T t) s)
        × (size (for_range n i (λ _ t. new_var T t) s).poids ≡ size s.poids + n)
  unfolding for_range
  new_vars-Same zero i s v =
      (record { valid = v; cost = refl; reads = λ l. refl; objective = λ a. refl }, omega arith)
  new_vars-Same (suc n) i s v =
      let one = new_var-Same s v in
      let (rest, long) = new_vars-Same n (i + 1) (new_var T s) one.valid in
      (
        record {
          valid = rest.valid;
          cost = rest.cost ∙ one.cost;
          reads = λ l. rest.reads l ∙ one.reads l;
          objective = λ a. rest.objective a ∙ one.objective a;
        },
        omega (arith, size-new_var s),
      )

  grow_vars-Same :
      (s : MaxSat T) (v : ℕ)
      → IsValid T s
      → Same s (grow_vars T s v) × (v < size (grow_vars T s v).poids)
  unfolding grow_vars
  grow_vars-Same s v w =
      let (same, long) = new_vars-Same (suc v - size s.poids) 0 s w in (same, omega arith)

  abbrev pub AddsWeight : MaxSat T → ℤ → ℤ → Type 0
  AddsWeight s lit w =
      (s' : MaxSat T) × (add_weight T s lit w ≡ ok s')
      × IsValid T s'
      × ((a : Assignment) → objective T s' a ≡ objective T s a + charge w (holds a lit))

  -- The result of adding `w` at `k` in the grown state, read as adding `weight` at `lit`.
  added :
      (s : MaxSat T) (lit weight k : ℤ) (w : ℕ)
      → IsValid T s
      → 0 < abs k
      → 0 < w
      → abs k ≡ abs lit
      → abs (get s.poids k) + w < long_limit
      → s.cost + w < weight_limit
      → add_weight T s lit weight ≡ add_positive T (grow_vars T s (abs lit)) k (pos w)
      → ((a : Assignment) → charge (pos w) (holds a k) ≡ charge weight (holds a lit))
      → AddsWeight s lit weight
  added s lit weight k w v hk hw same_var fits room e c =
      let (g, long) = grow_vars-Same s (abs lit) v in
      let (s', e', v', _, obj) =
        add_positive-Adds T (grow_vars T s (abs lit)) k w g.valid hk (omega arith) hw
          (omega (arith, ap abs (g.reads k))) (omega (arith, g.cost)) in
      (s', e ∙ e', v', λ a. omega (arith, obj a, c a, g.cost, g.objective a))

  -- Adding a weight other than 0 to a literal other than 0, in a formula without cardinality
  -- constraints whose weight map is in step with its weights, succeeds, if the weights fit a `long
  -- long` and the cost a `t_weight`. Under every assignment the objective (the cost paid and the
  -- weights of the falsified soft literals) then grows by the weight if it is positive and the
  -- literal false, by the size of the weight if it is negative and the literal true, and else not
  -- at all, whatever weight the literal or its opposite had; and each literal stands in the set of
  -- its weight in the weight map, and nowhere else.
  pub add_weight_correct :
      (s : MaxSat T) (lit weight : ℤ)
      → IsValid T s
      → 0 < abs lit
      → 0 < abs weight
      → abs (get s.poids lit) + abs weight < long_limit
      → s.cost + abs weight < weight_limit
      → AddsWeight s lit weight
  unfolding add_weight
  add_weight_correct s lit (pos n) v hl hw fits room =
      added s lit (pos n) lit n v hl hw refl fits room refl (λ a. refl)
  add_weight_correct s lit (negsuc n) v hl hw fits room =
      added s lit (negsuc n) (neg lit) (suc n) v (omega (arith, abs-neg lit)) hw (abs-neg lit)
        (omega (arith, ap abs (get-neg s.poids lit hl), abs-neg (get s.poids lit))) room refl
        (λ a. opposite a (holds-neg a lit hl))
    where
      opposite :
          (a : Assignment)
          → holds a (neg lit) ≡ not (holds a lit)
          → charge (pos (suc n)) (holds a (neg lit)) ≡ charge (negsuc n) (holds a lit)
      opposite a e = ground (arith, e)
