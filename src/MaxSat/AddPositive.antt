-- ===== src/MaxSat/AddPositive.antt =====
-- addWeight with a positive weight, before any cardinality constraint is attached: the objective grows
-- by what the weight charges, and the map from weights to literals stays in step.
use eval_max_sat.Common.{
  ℕ, zero, suc, ◌+◌, ◌-◌, ◌<◌, ◌≡◌, refl, sym, ap, ◌∙◌, subst, if◌then◌else◌, Bool, ltb, arith, inl,
  inr, ◌⊎◌, none, get_or, Bool-cases,
}
use eval_max_sat.Common.Int.{ℤ, pos, negsuc, neg, abs, ◌+ℤ◌, abs-neg}
use eval_max_sat.Common.Assign.{Assignment, holds}
use eval_max_sat.Lazy.{ClauseSink}
use eval_max_sat.Weights.{WeightVector, get, size, push_back, write}
use eval_max_sat.Weights
use eval_max_sat.Weights.Laws.{get-neg, get-write, size-write, write-neg, write-write, add-write}
use eval_max_sat.WeightMap.{WeightMap, insert, erase}
use eval_max_sat.Optimizer.Cost.{charge, soft_cost, soft_cost-write}
use eval_max_sat.MaxSat.{
  MaxSat, ok, to_weight, add_cost, reinsert, add_positive, with_poids, Result,
}
use eval_max_sat.MaxSat.Index.{Indexed, Indexed-erase, Indexed-insert}
use eval_max_sat.MaxSat.Objective.{
  IsValid, objective, relax-none, long_limit, weight_limit, to_weight-pos, add_cost-eq,
}

module _ (T : ClauseSink) where
  reinsert-pos :
      (s : MaxSat T) (lit : ℤ) (n : ℕ)
      → get s.poids lit ≡ pos (suc n)
      → suc n < long_limit
      → reinsert T s lit ≡ ok (record s { map_weight = insert s.map_weight (suc n) lit })
  unfolding reinsert
  reinsert-pos s lit n e h = rw (e, to_weight-pos (suc n) h)

  reinsert-neg :
      (s : MaxSat T) (lit : ℤ) (n : ℕ)
      → get s.poids lit ≡ negsuc n
      → suc n < long_limit
      → reinsert T s lit ≡ ok (record s { map_weight = insert s.map_weight (suc n) (neg lit) })
  unfolding reinsert
  reinsert-neg s lit n e h = rw (e, to_weight-pos (suc n) h)

  reinsert-zero :
      (s : MaxSat T) (lit : ℤ)
      → get s.poids lit ≡ pos 0
      → get_or s.map_card (abs lit) none ≡ none
      → reinsert T s lit ≡ ok s
  unfolding reinsert
  reinsert-zero s lit e c = rw (e, relax-none T s lit c)

  -- A call that adds `w` at a literal, and what it leaves.
  abbrev Adds : MaxSat T → ℤ → ℤ → Result (MaxSat T) → Type 0
  Adds s lit w r =
      (s' : MaxSat T) × (r ≡ ok s')
      × IsValid T s'
      × (size s'.poids ≡ size s.poids)
      × ((a : Assignment) → objective T s' a ≡ objective T s a + charge w (holds a lit))

  module _ (s : MaxSat T) (lit : ℤ) (w : ℕ) (v : IsValid T s) (ha : 0 < abs lit)
      (hs : abs lit < size s.poids) (hw : 0 < w) where
    -- The exchange of charges at the one literal that is written.
    written :
        (x : ℤ) (a : Assignment)
        → soft_cost (write s.poids lit x) a + charge (get s.poids lit) (holds a lit)
          ≡ soft_cost s.poids a + charge x (holds a lit)
    written x a = soft_cost-write s.poids lit x a ha hs

    add-from_zero :
        get s.poids lit ≡ pos 0 → w < long_limit → Adds s lit (pos w) (add_positive T s lit (pos w))
    unfolding add_positive
    add-from_zero e h = (
      with_poids T (record s { map_weight = insert s.map_weight w lit })
          (write s.poids lit (pos w)),
      rw (e, to_weight-pos w h),
      record {
        indexed = Indexed-insert s.map_weight s.poids lit w ha hs hw e v.indexed;
        no_cards = v.no_cards;
        sized = omega (arith, size-write s.poids lit (pos w), v.sized);
      },
      size-write s.poids lit (pos w),
      λ a. ground (arith, written (pos w) a, e),
    )

    add-to_pos :
        (n : ℕ)
        → get s.poids lit ≡ pos (suc n)
        → suc n + w < long_limit
        → Adds s lit (pos w) (add_positive T s lit (pos w))
    unfolding add_positive
    add-to_pos n e h =
        let total : suc n + w ≡ suc (n + w) = omega arith in
        let sum : Weights.add s.poids lit (pos w) ≡ write s.poids lit (pos (suc (n + w))) =
          add-write s.poids lit (pos w)
          ∙ ap (write s.poids lit) (ap (λ x. x +ℤ pos w) e ∙ ground arith) in
        let read : get (Weights.add s.poids lit (pos w)) lit ≡ pos (suc (n + w)) =
          ap (λ p. get p lit) sum ∙ get-write s.poids lit (pos (suc (n + w))) hs in
        let s1 =
          with_poids T (record s { map_weight = erase s.map_weight (suc n) lit })
            (Weights.add s.poids lit (pos w)) in
        (
          record s1 { map_weight = insert (erase s.map_weight (suc n) lit) (suc (n + w)) lit },
          rw (e, to_weight-pos (suc n) (omega arith))
              (reinsert-pos s1 lit (n + w) read (omega arith)),
          record {
            indexed =
                subst (Indexed (insert (erase s.map_weight (suc n) lit) (suc (n + w)) lit))
                  (write-write s.poids lit (pos 0) (pos (suc (n + w))) ∙ sym sum)
                  (Indexed-insert (erase s.map_weight (suc n) lit) (write s.poids lit (pos 0)) lit
                    (suc (n + w)) ha (omega (arith, size-write s.poids lit (pos 0))) (omega arith)
                    (get-write s.poids lit (pos 0) hs)
                    (Indexed-erase s.map_weight s.poids lit (suc n) ha hs e v.indexed));
            no_cards = v.no_cards;
            sized = omega (arith, ap size sum, size-write s.poids lit (pos (suc (n + w))), v.sized);
          },
          ap size sum ∙ size-write s.poids lit (pos (suc (n + w))),
          λ a.
              let x = written (pos (suc (n + w))) a in
              ap (λ p. s.cost + soft_cost p a) sum ∙ ground (arith, x, e),
        )

    -- The opposite literal was soft: the smaller of the two weights is paid in any case.
    module _ (n : ℕ) (e : get s.poids lit ≡ negsuc n) where
      neg_read : get s.poids (neg lit) ≡ pos (suc n)
      neg_read = get-neg s.poids lit ha ∙ ap neg e

      abbrev paid : MaxSat T
      paid =
          with_poids T
            (record s {
              map_weight = erase s.map_weight (suc n) (neg lit);
              cost = add_cost s.cost (to_weight (if ltb (suc n) w then pos (suc n) else pos w));
            })
            (Weights.add s.poids lit (pos w))

      add-to_neg_step : suc n < long_limit → add_positive T s lit (pos w) ≡ reinsert T paid lit
      unfolding add_positive
      add-to_neg_step h = rw (neg_read, e, to_weight-pos (suc n) h) (same (ltb (suc n) w) refl)
        where
          same :
              (b : Bool)
              → ltb (suc n) w ≡ b
              → reinsert T
                  (with_poids T
                    (record s {
                      map_weight = erase s.map_weight (suc n) (neg lit);
                      cost =
                          add_cost s.cost
                            (to_weight (if ltb (suc n + 0) (w + 0) then pos (suc n) else pos w));
                    })
                    (Weights.add s.poids lit (pos w)))
                  lit
                ≡ reinsert T paid lit
          same b q =
              ap
                (λ (t : Bool).
                  reinsert T
                    (with_poids T
                      (record s {
                        map_weight = erase s.map_weight (suc n) (neg lit);
                        cost = add_cost s.cost (to_weight (if t then pos (suc n) else pos w));
                      })
                      (Weights.add s.poids lit (pos w)))
                    lit)
                (ground arith)

      erased : Indexed (erase s.map_weight (suc n) (neg lit)) (write s.poids lit (pos 0))
      erased =
          subst (Indexed (erase s.map_weight (suc n) (neg lit))) (write-neg s.poids lit (pos 0) ha)
            (Indexed-erase s.map_weight s.poids (neg lit) (suc n) (omega (arith, abs-neg lit))
              (omega (arith, abs-neg lit)) neg_read v.indexed)

      blank_size : size (write s.poids lit (pos 0)) ≡ size s.poids
      blank_size = size-write s.poids lit (pos 0)

      blank_read : get (write s.poids lit (pos 0)) lit ≡ pos 0
      blank_read = get-write s.poids lit (pos 0) hs

      added :
          (x : ℤ) → negsuc n +ℤ pos w ≡ x → Weights.add s.poids lit (pos w) ≡ write s.poids lit x
      added x q =
          add-write s.poids lit (pos w) ∙ ap (write s.poids lit) (ap (λ y. y +ℤ pos w) e ∙ q)

      -- What the three outcomes share.
      finish :
          (x : ℤ) (m : WeightMap)
          → negsuc n +ℤ pos w ≡ x
          → s.cost + w < weight_limit
          → suc n < long_limit
          → w < long_limit
          → reinsert T paid lit ≡ ok (record paid { map_weight = m })
          → Indexed m (write s.poids lit x)
          → Adds s lit (pos w) (add_positive T s lit (pos w))
      finish x m q room hn hw2 r ix = (
        record paid { map_weight = m },
        add-to_neg_step hn ∙ r,
        record {
          indexed = subst (Indexed m) (sym (added x q)) ix;
          no_cards = v.no_cards;
          sized = omega (arith, ap size (added x q), size-write s.poids lit x, v.sized);
        },
        ap size (added x q) ∙ size-write s.poids lit x,
        λ a.
            ap (λ p. paid.cost + soft_cost p a) (added x q)
            ∙ balance (holds a lit) (soft_cost (write s.poids lit x) a) (soft_cost s.poids a)
                (written x a),
      )
        where
          cost_now : paid.cost ≡ s.cost + (if ltb (suc n) w then suc n else w)
          cost_now = elim (Bool-cases (ltb (suc n) w)) [
            | inl y ↦ rw (y, to_weight-pos (suc n) hn) (add_cost-eq s.cost (suc n) (ground arith))
            | inr z ↦ rw (z, to_weight-pos w hw2) (add_cost-eq s.cost w room)
          ]

          balance :
              (b : Bool) (c' c : ℕ)
              → c' + charge (get s.poids lit) b ≡ c + charge x b
              → paid.cost + c' ≡ s.cost + c + charge (pos w) b
          balance b c' c k =
              let k2 : c' + charge (negsuc n) b ≡ c + charge (negsuc n +ℤ pos w) b =
                ap (λ y. c' + charge y b) (sym e) ∙ k ∙ ap (λ y. c + charge y b) (sym q) in
              ground (arith, cost_now)

      add-to_neg :
          s.cost + w < weight_limit
          → suc n < long_limit
          → w < long_limit
          → Adds s lit (pos w) (add_positive T s lit (pos w))
      add-to_neg room hn hw2 = elim (which) [
        | inl less ↦
            let q : negsuc n +ℤ pos w ≡ negsuc (n - w) = ground arith in
            finish (negsuc (n - w))
              (insert (erase s.map_weight (suc n) (neg lit)) (suc (n - w)) (neg lit)) q room hn hw2
              (reinsert-neg paid lit (n - w)
                (ap (λ p. get p lit) (added _ q) ∙ get-write s.poids lit (negsuc (n - w)) hs)
                (omega arith))
              (subst (Indexed _)
                (write-neg (write s.poids lit (pos 0)) lit (pos (suc (n - w))) ha
                  ∙ write-write s.poids lit (pos 0) (negsuc (n - w)))
                (Indexed-insert _ (write s.poids lit (pos 0)) (neg lit) (suc (n - w))
                  (omega (arith, abs-neg lit)) (omega (arith, abs-neg lit, blank_size))
                  (omega arith) (get-neg (write s.poids lit (pos 0)) lit ha ∙ ap neg blank_read)
                  erased))
        | inr (inl same) ↦
            let q : negsuc n +ℤ pos w ≡ pos 0 = ground arith in
            finish (pos 0) (erase s.map_weight (suc n) (neg lit)) q room hn hw2
              (reinsert-zero paid lit
                (ap (λ p. get p lit) (added _ q) ∙ get-write s.poids lit (pos 0) hs)
                (v.no_cards (abs lit)))
              erased
        | inr (inr more) ↦
            let q : negsuc n +ℤ pos w ≡ pos (suc (w - n - 2)) = ground arith in
            finish (pos (suc (w - n - 2)))
              (insert (erase s.map_weight (suc n) (neg lit)) (suc (w - n - 2)) lit) q room hn hw2
              (reinsert-pos paid lit (w - n - 2)
                (ap (λ p. get p lit) (added _ q) ∙ get-write s.poids lit (pos (suc (w - n - 2))) hs)
                (omega arith))
              (subst (Indexed _) (write-write s.poids lit (pos 0) (pos (suc (w - n - 2)))) (
                Indexed-insert _ (write s.poids lit (pos 0)) lit (suc (w - n - 2)) ha
                  (omega (arith, blank_size)) (omega arith) blank_read erased))
      ]
        where
          which : (w < suc n) ⊎ ((w ≡ suc n) ⊎ (suc n < w))
          which = omega arith

    -- The source's range: the sum of the two weights fits a `long long`, the cost a `t_weight`.
    pub add_positive-Adds :
        abs (get s.poids lit) + w < long_limit
        → s.cost + w < weight_limit
        → Adds s lit (pos w) (add_positive T s lit (pos w))
    add_positive-Adds h room = by_sign (get s.poids lit) refl
      where
        by_sign : (g : ℤ) → get s.poids lit ≡ g → Adds s lit (pos w) (add_positive T s lit (pos w))
        by_sign (pos zero) e = add-from_zero e (omega arith)
        by_sign (pos (suc n)) e = add-to_pos n e (omega (arith, ap abs e))
        by_sign (negsuc n) e = add-to_neg n e room (omega (arith, ap abs e)) (omega arith)
