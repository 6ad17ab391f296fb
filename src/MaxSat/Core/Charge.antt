-- ===== src/MaxSat/Core/Charge.antt =====
-- A literal that bounds how many of a clause are true becomes soft: what its weight charges.
use eval_max_sat.Common.{
  ℕ, suc, ◌+◌, ◌-◌, ◌*◌, ◌≤◌, ◌<◌, ◌≡◌, refl, sym, subst, List, true, false, Bool, arith, leb,
  if◌then◌else◌, inl, inr, ◌⊎◌,
}
use native.Mathlib.Nat.{mul-suc}
use eval_max_sat.Common.Int.{ℤ, pos, abs}
use eval_max_sat.Common.Assign.{Assignment, Clause, holds}
use eval_max_sat.Lazy.{ClauseSink, Heap}
use eval_max_sat.Card.{Card}
use eval_max_sat.Card.Ready.{IsReady, Faithful}
use eval_max_sat.Card.Trues.{trues}
use eval_max_sat.Card.Encoding.{Encodes}
use eval_max_sat.Weights.{WeightVector, get, size, write}
use eval_max_sat.Weights.Laws.{size-write}
use eval_max_sat.WeightMap.{insert}
use eval_max_sat.Optimizer.Cost.{soft_cost-write, soft_cost-Agree}
use eval_max_sat.MaxSat.{MaxSat, Base, CardMap, sink, to_weight}
use eval_max_sat.MaxSat.Index.{Indexed, Indexed-insert}
use eval_max_sat.MaxSat.Objective.{objective, long_limit, to_weight-pos}
use eval_max_sat.MaxSat.Core.Exchange.{InStep, SameWeights, Steps-SameWeights, Exchanges}

-- One true literal more than `k` costs the weight once.
charged_again : (w n k : ℕ) → k < n → w + w * (n - suc k) ≡ w * (n - k)
charged_again w n k h =
    let next : n - k ≡ suc (n - suc k) = omega arith in
    rw (next, mul-suc w (n - suc k)) (omega arith)

no_charge : (w n k : ℕ) → n ≤ k → (w * (n - suc k) ≡ 0) × (w * (n - k) ≡ 0)
no_charge w n k h =
    let now : n - k ≡ 0 = omega arith in
    let next : n - suc k ≡ 0 = omega arith in (rw next (omega arith), rw now (omega arith))

one_more :
    (w n k : ℕ) (b : Bool) → b ≡ leb n k → (if b then 0 else w) + w * (n - suc k) ≡ w * (n - k)
one_more w n k true e = let h : n ≤ k = ground arith in omega (arith, no_charge w n k h)
one_more w n k false e = let h : k < n = ground arith in charged_again w n k h

at_least :
    (w n k : ℕ) (b : Bool)
    → (b ≡ true → n ≤ k)
    → w * (n - k) ≤ (if b then 0 else w) + w * (n - suc k)
at_least w n k true f = omega (arith, no_charge w n k (f refl))
at_least w n k false f = elim (split) [
  | inl le ↦ omega (arith, no_charge w n k le)
  | inr gt ↦ omega (arith, charged_again w n k gt)
]
  where
    split : (n ≤ k) ⊎ (k < n)
    split = omega arith

-- What is paid beyond `k` true literals of the clause.
abbrev pub beyond : ℕ → Clause → ℕ → Assignment → ℕ
beyond k c w a = w * (trues a c - k)

module _ (T : ClauseSink) where
  pub reweighed-IsReady :
      (b : Base T) (h : Heap) (p : WeightVector) (m : CardMap)
      → IsReady (sink T) b h
      → IsReady (sink T) (record b { poids = p; map_card = m }) h
  reweighed-IsReady b h p m r = record {
    heap = r.heap;
    inv = record {
      leaf = r.inv.leaf;
      bounded = r.inv.bounded;
      within = r.inv.within;
      justified = r.inv.justified;
    };
  }

  pub reweighed-Faithful :
      (b : Base T) (h : Heap) (p : WeightVector) (m : CardMap) (a : Assignment)
      → Faithful (sink T) b h a
      → Faithful (sink T) (record b { poids = p; map_card = m }) h a
  reweighed-Faithful b h p m a f = record { sat = f.sat; means = f.means }

  module _ (s : MaxSat T) (i : InStep T s) (clause : Clause) (k : ℕ) (b2 : Base T) (h2 : Heap)
      (lit : ℤ) (r2 : IsReady (sink T) b2 h2)
      (enc : Encodes (sink T) s.base s.heap clause k b2 h2 lit) (w : ℕ) (hw : 0 < w)
      (lim : w < long_limit) (blank : get b2.poids lit ≡ pos 0) (m : CardMap) (cs : List Card) where
    abbrev pub charged : MaxSat T
    charged = record s {
      base = record b2 { poids = write b2.poids lit (pos w); map_card = m };
      heap = h2;
      cards = cs;
      map_weight = insert s.map_weight (to_weight (pos w)) lit;
    }

    same : SameWeights T s.base b2
    same = Steps-SameWeights T s.base i.aligned enc.steps

    pub inside : abs lit < size b2.poids
    inside = omega (arith, same.aligned, enc.in_use)

    paid :
        (a : Assignment) → objective T charged a ≡ objective T s a + (if holds a lit then 0 else w)
    paid a =
        let exchange = soft_cost-write b2.poids lit (pos w) a enc.in_use.0 inside in
        let old = same.charged a in ground (arith, exchange, blank, old)

    -- The totalizers, the numbering and the weight map stay in step, and the part that is paid beyond
    -- `k` true literals is exchanged for the part beyond `k + 1`.
    pub charge_bound :
        InStep T charged × Exchanges T s charged (beyond k clause w) (beyond (suc k) clause w)
    charge_bound = (
      record {
        ready = reweighed-IsReady b2 h2 (write b2.poids lit (pos w)) m r2;
        aligned = omega (arith, size-write b2.poids lit (pos w), same.aligned);
        indexed =
            subst (λ n. Indexed (insert s.map_weight n lit) (write b2.poids lit (pos w)))
              (sym (to_weight-pos w lim))
              (Indexed-insert s.map_weight b2.poids lit w enc.in_use.0 inside hw blank
                (same.indexed s.map_weight i.indexed));
      },
      record {
        grows = same.grows;
        sound = λ a h. (
          enc.keeps a h,
          omega (arith, paid a, at_least w (trues a clause) k (holds a lit) (enc.bounds a h)),
        );
        complete = λ a f.
            let (b, ag, f2, v) = enc.extends a f in
            let old = soft_cost-Agree (T.vars s.solver) s.poids a b ag (omega (arith, i.aligned)) in
            (
              b,
              ag,
              reweighed-Faithful b2 h2 (write b2.poids lit (pos w)) m b f2,
              omega (arith, paid b, old, one_more w (trues a clause) k (holds b lit) v),
            );
      },
    )
