-- ===== src/MaxSat/Core/Correct.antt =====
-- Taking a core off the weights: what it changes of the objective.
use eval_max_sat.Common.{
  ℕ, zero, suc, ◌+◌, ◌-◌, ◌*◌, ◌≤◌, ◌<◌, ◌≡◌, ◌≢◌, refl, sym, ap, ◌∙◌, subst, [], ◌∷◌, ◌++◌, Bool,
  not, All, arith, none, get_or, map, ltb, if◌then◌else◌, Option-cases, inl, inr, Bool-cases, In,
  ◌⊎◌, length,
}
use eval_max_sat.Common.Int.{ℤ, pos, neg, abs, ◌+ℤ◌, ltb_ℤ}
use eval_max_sat.Common.Assign.{Assignment, Clause, holds, holds-neg}
use eval_max_sat.Lazy.{ClauseSink}
use eval_max_sat.MaxSat.Oracle.{IsDistinct}
use eval_max_sat.Weights.{WeightVector, get, size, write}
use eval_max_sat.Weights
use eval_max_sat.Weights.Laws.{get-write, get-write_ne, size-write, write-write, add-write}
use eval_max_sat.WeightMap.{insert, erase}
use eval_max_sat.Optimizer.Cost.{charge, soft_cost, soft_cost-write}
use eval_max_sat.Card.Trues.{trues}
use eval_max_sat.MaxSat.{MaxSat, to_weight, add_cost, weight_of}
use eval_max_sat.MaxSat.Index.{Indexed, Indexed-erase, Indexed-insert}
use eval_max_sat.MaxSat.Objective.{objective, long_limit, weight_limit, to_weight-pos, add_cost-eq}
use eval_max_sat.MaxSat.Core.{Assum, min_weight, after_lowering, lower, lower_all, take_core}

-- A literal of a variable in use whose weight is a positive `long long`, `m` at least.
abbrev pub IsHeavy : WeightVector → ℕ → ℤ → Type 0
IsHeavy ws m l =
    (0 < abs l)
    × (abs l < size ws)
    × ((x : ℕ) × (get ws l ≡ pos x) × (m ≤ x) × (0 < x) × (x < long_limit))

-- Some literal of the clause has the weight.
abbrev pub Attains : WeightVector → ℕ → Clause → Type 0
Attains ws m c = (l : ℤ) × In l c × (get ws l ≡ pos m)

pub IsHeavy-write :
    (ws : WeightVector) (m : ℕ) (l v : ℤ) (c : Clause)
    → All (λ k. abs l ≢ abs k) c
    → All (IsHeavy ws m) c
    → All (IsHeavy (write ws l v) m) c
IsHeavy-write ws m l v [] d h = tt
IsHeavy-write ws m l v (k ∷ c) (ne, ds) ((a, b, (x, e, p, q, r)), hs) = (
  (a, omega (arith, size-write ws l v), (x, get-write_ne ws l k v ne ∙ e, p, q, r)),
  IsHeavy-write ws m l v c ds hs,
)

module _ (T : ClauseSink) where
  -- What a lowered literal leaves: only its own weight has changed.
  abbrev Lowers : MaxSat T → MaxSat T → ℤ → ℕ → ℕ → Type 0
  Lowers s s' lit m x =
      (s'.poids ≡ write s.poids lit (pos (x - m)))
      × Indexed s'.map_weight s'.poids
      × (s'.cost ≡ s.cost)
      × (s'.card_to_add ≡ s.card_to_add)

  after_lowering-zero :
      (s : MaxSat T) (lit : ℤ)
      → get s.poids lit ≡ pos 0
      → ((after_lowering T s lit).base ≡ s.base)
        × ((after_lowering T s lit).map_weight ≡ s.map_weight)
        × ((after_lowering T s lit).cost ≡ s.cost)
        × ((after_lowering T s lit).card_to_add ≡ s.card_to_add)
  unfolding after_lowering
  after_lowering-zero s lit e = elim (Option-cases (get_or s.map_card (abs lit) none)) [
    | inl none_there ↦ rw (e, none_there) (refl, refl, refl, refl)
    | inr (c, there) ↦ rw (e, there) (refl, refl, refl, refl)
  ]

  after_lowering-pos :
      (s : MaxSat T) (lit : ℤ) (n : ℕ)
      → get s.poids lit ≡ pos (suc n)
      → suc n < long_limit
      → after_lowering T s lit ≡ record s { map_weight = insert s.map_weight (suc n) lit }
  unfolding after_lowering
  after_lowering-pos s lit n e h = rw (e, to_weight-pos (suc n) h)

  pub lower_lem :
      (s : MaxSat T) (lit : ℤ) (m x : ℕ)
      → Indexed s.map_weight s.poids
      → 0 < abs lit
      → abs lit < size s.poids
      → get s.poids lit ≡ pos x
      → m ≤ x
      → x < long_limit
      → Lowers s (lower T s lit (pos m)) lit m x
  unfolding lower
  lower_lem s lit m x ix ha hs e le lim = by_rest (x - m) refl
    where
      lowered : Weights.add s.poids lit (neg (pos m)) ≡ write s.poids lit (pos (x - m))
      lowered =
          add-write s.poids lit (neg (pos m))
          ∙ ap (write s.poids lit) (ap (λ y. y +ℤ neg (pos m)) e ∙ ground arith)

      taken : to_weight (get s.poids lit) ≡ x
      taken = ap to_weight e ∙ to_weight-pos x lim

      erased :
          Indexed (erase s.map_weight (to_weight (get s.poids lit)) lit) (write s.poids lit (pos 0))
      erased =
          subst (λ w. Indexed (erase s.map_weight w lit) (write s.poids lit (pos 0))) (sym taken)
            (Indexed-erase s.map_weight s.poids lit x ha hs e ix)

      s1 : MaxSat T
      s1 = record s {
        base = record s.base { poids = Weights.add s.poids lit (neg (pos m)) };
        map_weight = erase s.map_weight (to_weight (get s.poids lit)) lit;
      }

      read : get s1.poids lit ≡ pos (x - m)
      read = ap (λ p. get p lit) lowered ∙ get-write s.poids lit (pos (x - m)) hs

      by_rest : (r : ℕ) → x - m ≡ r → Lowers s (after_lowering T s1 lit) lit m x
      by_rest zero q =
          let z : x - m ≡ 0 = q in
          let (b, w, c, k) = after_lowering-zero s1 lit (read ∙ ap pos z) in
          (
            ap (λ y. y.poids) b ∙ lowered,
            subst (λ y. Indexed y (after_lowering T s1 lit).poids) (sym w)
                (subst (λ y. Indexed s1.map_weight y)
                  (ap (λ n. write s.poids lit (pos n)) (sym z)
                    ∙ sym lowered
                    ∙ sym (ap (λ y. y.poids) b))
                  erased),
            c,
            k,
          )
      by_rest (suc n) q =
          let f = after_lowering-pos s1 lit n (read ∙ ap pos q) (omega arith) in
          (
            ap (λ y. y.poids) f ∙ lowered,
            subst (λ y. Indexed y.map_weight y.poids) (sym f)
                (subst (Indexed (insert s1.map_weight (suc n) lit))
                  (write-write s.poids lit (pos 0) (pos (suc n))
                    ∙ ap (λ k. write s.poids lit (pos k)) (sym q)
                    ∙ sym lowered)
                  (Indexed-insert s1.map_weight (write s.poids lit (pos 0)) lit (suc n) ha
                    (omega (arith, size-write s.poids lit (pos 0))) (omega arith)
                    (get-write s.poids lit (pos 0) hs) erased)),
            ap (λ y. y.cost) f,
            ap (λ y. y.card_to_add) f,
          )

  -- Each falsified literal is charged `m` less.
  pub lower-soft_cost :
      (s : MaxSat T) (lit : ℤ) (m x : ℕ) (a : Assignment)
      → 0 < abs lit
      → abs lit < size s.poids
      → get s.poids lit ≡ pos x
      → m ≤ x
      → soft_cost (write s.poids lit (pos (x - m))) a + m * (if holds a (neg lit) then 1 else 0)
        ≡ soft_cost s.poids a
  lower-soft_cost s lit m x a ha hs e le =
      balance (holds a lit) refl _ _ (soft_cost-write s.poids lit (pos (x - m)) a ha hs)
    where
      negated : holds a (neg lit) ≡ not (holds a lit)
      negated = holds-neg a lit ha

      balance :
          (b : Bool)
          → holds a lit ≡ b
          → (c' c : ℕ)
          → c' + charge (get s.poids lit) (holds a lit) ≡ c + charge (pos (x - m)) (holds a lit)
          → c' + m * (if holds a (neg lit) then 1 else 0) ≡ c
      balance b q c' c k =
          let k2 : c' + charge (pos x) b ≡ c + charge (pos (x - m)) b =
            ap (λ y. c' + charge (pos x) y) (sym q)
            ∙ ap (λ y. c' + charge y (holds a lit)) (sym e)
            ∙ k
            ∙ ap (λ y. c + charge (pos (x - m)) y) q in
          let n : holds a (neg lit) ≡ not b = negated ∙ ap not q in ground (arith, n, k2)

  -- The whole core, one literal after the other.
  abbrev LowersAll : MaxSat T → MaxSat T → Clause → ℕ → Type 0
  LowersAll s s' c m =
      Indexed s'.map_weight s'.poids
      × (s'.cost ≡ s.cost)
      × (s'.card_to_add ≡ s.card_to_add)
      × ((a : Assignment) → soft_cost s'.poids a + m * trues a (map neg c) ≡ soft_cost s.poids a)

  lower_all_lem :
      (c : Clause) (s : MaxSat T) (assum : Assum) (m stratum : ℕ)
      → Indexed s.map_weight s.poids
      → IsDistinct c
      → All (IsHeavy s.poids m) c
      → LowersAll s (lower_all T s assum c (pos m) stratum).0 c m
  unfolding lower_all
  lower_all_lem [] s assum m stratum ix d h = (ix, refl, refl, λ a. omega arith)
  lower_all_lem (lit ∷ c) s assum m stratum ix (ne, d) ((ha, hs, (x, e, le, lp, lim)), h) =
      let (p1, ix1, c1, k1) = lower_lem s lit m x ix ha hs e le lim in
      let (ix2, c2, k2, obj) = lower_all_lem c (lower T s lit (pos m)) _ m stratum ix1 d (
        subst (λ y. All (IsHeavy y m) c) (sym p1)
          (IsHeavy-write s.poids m lit (pos (x - m)) c ne h)) in
      (
        ix2,
        c2 ∙ c1,
        k2 ∙ k1,
        λ a.
            let one = lower-soft_cost s lit m x a ha hs e le in
            let rest = obj a ∙ ap (λ y. soft_cost y a) p1 in omega arith,
      )

  -- The running minimum is at most what it started from, and at most every weight.
  pub min_weight-le :
      (s : MaxSat T) (c : Clause) (acc : ℕ)
      → All (IsHeavy s.poids 1) c
      → 0 < acc
      → acc < long_limit
      → (m : ℕ) × (min_weight T s c (pos acc) ≡ pos m)
        × (m ≤ acc)
        × (0 < m)
        × All (IsHeavy s.poids m) c
  unfolding min_weight
  min_weight-le s [] acc h p l = (acc, refl, omega arith, p, tt)
  min_weight-le s (lit ∷ c) acc ((ha, hs, (x, e, le, lp, lim)), h) p l =
      elim (Bool-cases (ltb (x + 0) (acc + 0))) [
        | inl y ↦
            let (m, q, a, b, r) = min_weight-le s c x h lp lim in
            (m, rw (e, y) q, ground arith, b, ((ha, hs, (x, e, a, lp, lim)), r))
        | inr z ↦
            let (m, q, a, b, r) = min_weight-le s c acc h p l in
            (m, rw (e, z) q, a, b, ((ha, hs, (x, e, ground arith, lp, lim)), r))
      ]

  -- The running minimum is what it started from or one of the weights.
  pub min_weight-attained :
      (s : MaxSat T) (c : Clause) (acc : ℤ)
      → (min_weight T s c acc ≡ acc) ⊎ ((l : ℤ) × In l c × (get s.poids l ≡ min_weight T s c acc))
  unfolding min_weight
  min_weight-attained s [] acc = inl refl
  min_weight-attained s (l ∷ c) acc = elim (Bool-cases (ltb_ℤ (weight_of T s l) acc)) [
    | inl y ↦ rw y (elim (min_weight-attained s c (weight_of T s l)) [
      | inl e ↦ inr (l, inl refl, sym e)
      | inr (k, i, e) ↦ inr (k, inr i, e)
    ])
    | inr z ↦
        rw z
          (elim (min_weight-attained s c acc) [ inl e ↦ inl e | inr (k, i, e) ↦ inr (k, inr i, e) ])
  ]

  least-Attains :
      (s : MaxSat T) (c : Clause) (m : ℕ)
      → 0 < length c
      → min_weight T s c (pos 9_223_372_036_854_775_807) ≡ pos m
      → All (IsHeavy s.poids m) c
      → Attains s.poids m c
  least-Attains s [] m ne e h = elim ne [ ]
  least-Attains s (l ∷ c) m ne e ((ha, hs, (x, q, le, p, lim)), h) =
      elim (min_weight-attained s (l ∷ c) (pos 9_223_372_036_854_775_807)) [
        | inl f ↦
            let top : 9_223_372_036_854_775_807 ≡ m = ap abs (sym f ∙ e) in
            let same : x ≡ m = omega arith in (l, inl refl, q ∙ ap pos same)
        | inr (k, i, f) ↦ (k, i, f ∙ e)
      ]

  -- Taking a core of positive weights off that is not empty, with no variable twice in it, the weight
  -- map in step with the weights and the cost 2 ^ 63 below the bound of a `t_weight`, pays the least of
  -- its weights, m, which one of its literals has, and puts the negated literals in line with m, so
  -- that under every assignment the new objective and m for each falsified literal of the core make the
  -- old objective and m; every literal is then in the set of its weight, and nowhere else.
  pub take_core_correct :
      (s : MaxSat T) (assum : Assum) (conflict : Clause) (stratum : ℕ)
      → Indexed s.map_weight s.poids
      → 0 < length conflict
      → IsDistinct conflict
      → All (IsHeavy s.poids 1) conflict
      → s.cost + long_limit < weight_limit
      → let s' = (take_core T s assum conflict stratum).0 in
        (m : ℕ) × (0 < m)
        × Indexed s'.map_weight s'.poids
        × All (IsHeavy s.poids m) conflict
        × Attains s.poids m conflict
        × (s'.card_to_add ≡ s.card_to_add ++ (map neg conflict, pos m) ∷ [])
        × ((a : Assignment)
            → objective T s' a + m * trues a (map neg conflict) ≡ objective T s a + m)
  unfolding take_core
  take_core_correct s assum conflict stratum ix ne d h room =
      let (m, e, le, p, heavy) =
        min_weight-le s conflict 9_223_372_036_854_775_807 h (omega arith) (omega arith) in
      let (ix', c', k', obj) = lower_all_lem conflict s assum m stratum ix d heavy in
      rw e (
        m,
        p,
        ix',
        heavy,
        least-Attains s conflict m ne e heavy,
        ap (λ y. y ++ (map neg conflict, pos m) ∷ []) k',
        λ a.
            let paid : add_cost (lower_all T s assum conflict (pos m) stratum).0.cost
                  (to_weight (pos m))
                ≡ s.cost + m =
              rw (to_weight-pos m (omega arith), c') (add_cost-eq s.cost m (omega arith)) in
            omega (arith, obj a, paid),
      )
