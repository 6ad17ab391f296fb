-- ===== src/MaxSat/Clique/GiveUp.antt =====
-- The literals of a clique give up a weight that none of them has less of.
use eval_max_sat.Common.{
  All-In, ℕ, zero, suc, ◌+◌, ◌-◌, ◌*◌, ◌≤◌, ◌<◌, ◌≡◌, ◌≢◌, refl, sym, ap, ◌∙◌, subst, [], ◌∷◌, ◌++◌,
  if◌then◌else◌, length, get_or, All, In, map, arith, inl, inr, Bool-cases, none, true, false,
  append_assoc, length-append,
}
use native.Mathlib.Nat.{mul-zero, mul-add}
use eval_max_sat.Common.Int.{ℤ, pos, neg, abs, is_zero}
use eval_max_sat.Common.Assign.{Assignment, Clause, holds}
use eval_max_sat.Lazy.{ClauseSink}
use eval_max_sat.Weights.{WeightVector, get, size, write}
use eval_max_sat.Weights.Laws.{get-write_ne, get-write, size-write}
use eval_max_sat.WeightMap.{insert}
use eval_max_sat.Optimizer.Cost.{soft_cost, get_or-middle}
use eval_max_sat.Card.Trues.{trues}
use eval_max_sat.MaxSat.{MaxSat, ok, ◌>>=◌, relax, to_weight, weight_of}
use eval_max_sat.MaxSat.Index.{Indexed}
use eval_max_sat.MaxSat.Objective.{IsValid, long_limit, relax-none}
use eval_max_sat.MaxSat.Core.{after_lowering, lower}
use eval_max_sat.MaxSat.Core.Correct.{IsHeavy, lower_lem, lower-soft_cost, IsHeavy-write}
use eval_max_sat.MaxSat.Oracle.{IsDistinct}
use eval_max_sat.MaxSat.Minimize.Removal.{All-Within}
use eval_max_sat.MaxSat.Clique.{swap_remove, give_up, give_up_all}
use eval_max_sat.MaxSat.Clique.Rotate.{
  rotate, swap_remove-append, length-rotate, rotate-Within, rotate-IsDistinct, trues-rotate,
}
use eval_max_sat.MaxSat.Clique.Left.{Left, Left-nil, Left-gone, Left-kept}

pos_inj : (m n : ℕ) → pos m ≡ pos n → m ≡ n
pos_inj m n e = ap abs e

module _ (T : ClauseSink) where
  -- The clause's literals weigh `m` less, and nothing else has changed.
  pub record GivenUp (s s' : MaxSat T) (c : Clause) (m : ℕ) : Type 0 where
    pub valid : IsValid T s'
    pub solver_stays : s'.solver ≡ s.solver
    pub start_stays : s'.start_solve ≡ s.start_solve
    pub cost_stays : s'.cost ≡ s.cost
    pub size_stays : size s'.poids ≡ size s.poids
    pub exchange :
        (a : Assignment) → soft_cost s'.poids a + m * trues a (map neg c) ≡ soft_cost s.poids a

  abbrev SameRest : MaxSat T → MaxSat T → Type 0
  SameRest s s' =
      (s'.map_card ≡ s.map_card) × (s'.solver ≡ s.solver) × (s'.start_solve ≡ s.start_solve)

  -- The weight `x` of the literal, at least `m`.
  abbrev InRange : MaxSat T → ℤ → ℕ → ℕ → Type 0
  InRange s lit x m =
      (0 < abs lit)
      × (abs lit < size s.poids)
      × (get s.poids lit ≡ pos x)
      × (m ≤ x)
      × (x < long_limit)

  -- One literal: what is left of its set, and its weight.
  one_given :
      (s s' : MaxSat T) (lit : ℤ) (m x : ℕ)
      → IsValid T s
      → InRange s lit x m
      → lower T s lit (pos m) ≡ s'
      → SameRest s s'
      → GivenUp s s' (lit ∷ []) m × (s'.poids ≡ write s.poids lit (pos (x - m)))
  one_given s s' lit m x v (ha, hs, e, le, lim) q (k, r, t) =
      let (p, ix, c, line) = lower_lem T s lit m x v.indexed ha hs e le lim in
      let p' : s'.poids ≡ write s.poids lit (pos (x - m)) = ap (λ y. y.poids) (sym q) ∙ p in
      (
        record {
          valid = record {
            indexed = subst (λ y. Indexed y.map_weight y.poids) q ix;
            no_cards = λ i. ap (λ y. get_or y i none) k ∙ v.no_cards i;
            sized = omega (arith, ap size p', size-write s.poids lit (pos (x - m)), v.sized);
          };
          solver_stays = r;
          start_stays = t;
          cost_stays = ap (λ y. y.cost) (sym q) ∙ c;
          size_stays = ap size p' ∙ size-write s.poids lit (pos (x - m));
          exchange = λ a.
              ap (λ y. soft_cost y a + m * trues a (neg lit ∷ [])) p'
              ∙ ap (λ y. soft_cost (write s.poids lit (pos (x - m))) a + m * y) (plus_zero _)
              ∙ lower-soft_cost T s lit m x a ha hs e le;
        },
        p',
      )
    where
      plus_zero : (n : ℕ) → n + 0 ≡ n
      plus_zero n = omega arith

  give_up-lower_gone :
      (s : MaxSat T) (lit : ℤ) (m : ℕ)
      → IsValid T s
      → is_zero (weight_of T (give_up T s lit (pos m)) lit) ≡ true
      → lower T s lit (pos m) ≡ give_up T s lit (pos m)
  unfolding lower after_lowering give_up
  give_up-lower_gone s lit m v z = rw (z, v.no_cards (abs lit)) refl

  give_up-relax :
      (s : MaxSat T) (lit : ℤ) (m : ℕ)
      → IsValid T s
      → relax T (give_up T s lit (pos m)) lit ≡ ok (give_up T s lit (pos m), none)
  unfolding give_up
  give_up-relax s lit m v = relax-none T _ lit (v.no_cards (abs lit))

  -- The set that a kept literal goes to.
  kept_state : MaxSat T → ℤ → ℕ → MaxSat T
  kept_state s lit m =
      let s1 = give_up T s lit (pos m) in
      record s1 { map_weight = insert s1.map_weight (to_weight (weight_of T s1 lit)) lit }

  give_up-lower_kept :
      (s : MaxSat T) (lit : ℤ) (m : ℕ)
      → is_zero (weight_of T (give_up T s lit (pos m)) lit) ≡ false
      → lower T s lit (pos m) ≡ kept_state s lit m
  unfolding lower after_lowering give_up kept_state
  give_up-lower_kept s lit m z = rw z refl

  give_up-SameRest : (s : MaxSat T) (lit : ℤ) (m : ℕ) → SameRest s (give_up T s lit (pos m))
  unfolding give_up
  give_up-SameRest s lit m = (refl, refl, refl)

  kept-SameRest : (s : MaxSat T) (lit : ℤ) (m : ℕ) → SameRest s (kept_state s lit m)
  unfolding kept_state give_up
  kept-SameRest s lit m = (refl, refl, refl)

  kept-poids :
      (s : MaxSat T) (lit : ℤ) (m : ℕ)
      → (kept_state s lit m).poids ≡ (give_up T s lit (pos m)).poids
  unfolding kept_state
  kept-poids s lit m = refl

  module _ (n : ℕ) (s : MaxSat T) (c : Clause) (i m : ℕ) (lit : ℤ)
      (e : get_or c i (pos 0) ≡ lit) where
    gone_step :
        IsValid T s
        → is_zero (weight_of T (give_up T s lit (pos m)) lit) ≡ true
        → give_up_all T (suc n) s c i (pos m)
          ≡ give_up_all T n (give_up T s lit (pos m)) (swap_remove c i) i (pos m)
    unfolding give_up_all
    gone_step v z = rw (e, z, give_up-relax s lit m v, ◌>>=◌) refl

    kept_step :
        is_zero (weight_of T (give_up T s lit (pos m)) lit) ≡ false
        → give_up_all T (suc n) s c i (pos m)
          ≡ give_up_all T n (kept_state s lit m) c (suc i) (pos m)
    unfolding give_up_all kept_state
    kept_step z = rw (e, z) refl

  GivenUp-refl : (s : MaxSat T) (m : ℕ) → IsValid T s → GivenUp s s [] m
  GivenUp-refl s m v = record {
    valid = v;
    solver_stays = refl;
    start_stays = refl;
    cost_stays = refl;
    size_stays = refl;
    exchange = λ a. ap (λ y. soft_cost s.poids a + y) (mul-zero m) ∙ plus_zero _;
  }
    where
      plus_zero : (n : ℕ) → n + 0 ≡ n
      plus_zero n = omega arith

  GivenUp-cons :
      (s s1 s2 : MaxSat T) (lit : ℤ) (c d : Clause) (m : ℕ)
      → GivenUp s s1 (lit ∷ []) m
      → GivenUp s1 s2 d m
      → ((a : Assignment) → trues a (map neg d) ≡ trues a (map neg c))
      → GivenUp s s2 (lit ∷ c) m
  GivenUp-cons s s1 s2 lit c d m x y same = record {
    valid = y.valid;
    solver_stays = y.solver_stays ∙ x.solver_stays;
    start_stays = y.start_stays ∙ x.start_stays;
    cost_stays = y.cost_stays ∙ x.cost_stays;
    size_stays = y.size_stays ∙ x.size_stays;
    exchange = λ a.
        let one : ℕ = if holds a (neg lit) then 1 else 0 in
        add_up _ _ _ m one (trues a (map neg d)) (trues a (map neg c)) (x.exchange a) (y.exchange a)
          (same a);
  }
    where
      add_up :
          (z1 z2 z m one t u : ℕ)
          → z1 + m * (one + 0) ≡ z
          → z2 + m * t ≡ z1
          → t ≡ u
          → z2 + m * (one + u) ≡ z
      add_up z1 z2 z m one t u e f g =
          let h = mul-add m one u in
          let k = ap (λ y. z1 + m * y) (plus one) in
          let f2 : z2 + m * u ≡ z1 = ap (λ y. z2 + m * y) (sym g) ∙ f in
          ap (λ y. z2 + y) h ∙ sums z2 (m * one) (m * u) z1 z f2 (sym k ∙ e)
        where
          plus : (n : ℕ) → n + 0 ≡ n
          plus n = omega arith

          sums : (z2 p q z1 z : ℕ) → z2 + q ≡ z1 → z1 + p ≡ z → z2 + (p + q) ≡ z
          sums z2 p q z1 z e f = omega arith

  -- The literals before the place stay, and the others give up what they can.
  abbrev pub Gives : ℕ → MaxSat T → Clause → ℕ → ℕ → Clause → Clause → Type 0
  Gives n s c i m pre d =
      (s' : MaxSat T) × (r : Clause) × (give_up_all T n s c i (pos m) ≡ ok (s', pre ++ r))
      × GivenUp s s' d m
      × (length r ≤ length d)
      × ((l : ℤ) → In l d → get s.poids l ≡ pos m → length r < length d)
      × Left T s s' d r m

  pub give_up_all_lem :
      (n : ℕ) (s : MaxSat T) (c : Clause) (i m : ℕ) (pre d : Clause)
      → c ≡ pre ++ d
      → i ≡ length pre
      → length d ≡ n
      → IsValid T s
      → IsDistinct d
      → All (IsHeavy s.poids m) d
      → Gives n s c i m pre d
  unfolding give_up_all
  give_up_all_lem zero s c i m pre [] q p len v dist h = (
    s,
    [],
    ap (λ y. ok (s, y)) q,
    GivenUp-refl s m v,
    omega arith,
    λ l e w. absurd e,
    Left-nil T s m,
  )
  give_up_all_lem zero s c i m pre (l ∷ d) q p len v dist h = absurd (omega (arith, len))
  give_up_all_lem (suc n) s c i m pre [] q p len v dist h = absurd (omega (arith, len))
  give_up_all_lem (suc n) s c i m pre (lit ∷ d) q p len v (ne, dist)
        ((ha, hs, (x, e, le, lp, lim)), h) =
      let here : get_or c i (pos 0) ≡ lit =
        ap (λ y. get_or y i (pos 0)) q
        ∙ ap (λ k. get_or (pre ++ lit ∷ d) k (pos 0)) p
        ∙ get_or-middle pre d lit in
      let removed : swap_remove c i ≡ pre ++ rotate d =
        ap (λ y. swap_remove y i) q
        ∙ ap (swap_remove (pre ++ lit ∷ d)) p
        ∙ swap_remove-append pre lit d in
      let others : (us : WeightVector)
          → us ≡ write s.poids lit (pos (x - m))
          → (k : ℤ) → abs lit ≢ abs k
          → get us k ≡ get s.poids k =
        λ us w k n. ap (λ y. get y k) w ∙ get-write_ne s.poids lit k (pos (x - m)) n in
      let left : (us : WeightVector)
          → us ≡ write s.poids lit (pos (x - m))
          → get us lit ≡ pos (x - m) =
        λ us w. ap (λ y. get y lit) w ∙ get-write s.poids lit (pos (x - m)) hs in
      elim (Bool-cases (is_zero (weight_of T (give_up T s lit (pos m)) lit))) [
        | inl z ↦
            let s1 = give_up T s lit (pos m) in
            let (y, w) =
              one_given s s1 lit m x v (ha, hs, e, le, lim) (give_up-lower_gone s lit m v z)
                (give_up-SameRest s lit m) in
            let (s2, r, eq, g, short, less, rem) =
              give_up_all_lem n s1 (swap_remove c i) i m pre (rotate d) removed p
                (length-rotate d ∙ omega (arith, len)) y.valid (rotate-IsDistinct lit d (ne, dist))
                (All-Within (IsHeavy s1.poids m) (rotate d) d (rotate-Within d) (
                  subst (λ t. All (IsHeavy t m) d) (sym w)
                    (IsHeavy-write s.poids m lit (pos (x - m)) d ne h))) in
            (
              s2,
              r,
              gone_step n s c i m lit here v z ∙ eq,
              GivenUp-cons s s1 s2 lit d (rotate d) m y g (λ a. trues-rotate a d),
              omega (arith, short, length-rotate d),
              λ l j t. omega (arith, short, length-rotate d),
              Left-gone T s s1 s2 lit d r m (others s1.poids w) ne rem
                  (e ∙ ap pos (none_left (x - m) (sym (ap is_zero (left s1.poids w)) ∙ z) refl)),
            )
        | inr z ↦
            let s1 = kept_state s lit m in
            let (y, w) =
              one_given s s1 lit m x v (ha, hs, e, le, lim) (give_up-lower_kept s lit m z)
                (kept-SameRest s lit m) in
            let not_all_of : is_zero (get s1.poids lit) ≡ false =
              ap (λ y. is_zero (get y lit)) (kept-poids s lit m) ∙ z in
            let (s2, r, eq, g, short, less, rem) =
              give_up_all_lem n s1 c (suc i) m (pre ++ lit ∷ []) d
                (q ∙ sym (append_assoc pre (lit ∷ []) d))
                (ap suc p ∙ omega (arith, length-append pre (lit ∷ []))) (omega (arith, len))
                y.valid dist
                (subst (λ t. All (IsHeavy t m) d) (sym w)
                  (IsHeavy-write s.poids m lit (pos (x - m)) d ne h)) in
            (
              s2,
              lit ∷ r,
              kept_step n s c i m lit here z
                  ∙ eq
                  ∙ ap (λ y. ok (s2, y)) (append_assoc pre (lit ∷ []) r),
              GivenUp-cons s s1 s2 lit d d m y g (λ a. refl),
              omega (arith, short),
              λ l j t. by_place r not_all_of w less l j t,
              Left-kept T s s1 s2 lit d r m (others s1.poids w) ne x rem ha
                  (omega (arith, g.size_stays, y.size_stays)) e (left s1.poids w)
                  (some_left x m (x - m) (sym (ap is_zero (left s1.poids w)) ∙ not_all_of) refl)
                  lim,
            )
      ]
    where
      none_left : (k : ℕ) → is_zero (pos k) ≡ true → k ≡ x - m → x ≡ m
      none_left zero z f = omega (arith, f)
      none_left (suc k) z f = cc

      some_left : (x m k : ℕ) → is_zero (pos k) ≡ false → k ≡ x - m → m < x
      some_left x m zero z f = cc
      some_left x m (suc k) z f = omega (arith, f)

      not_all : (k : ℕ) → is_zero (pos k) ≡ false → k ≢ 0
      not_all zero z = cc
      not_all (suc k) z = λ r. omega (arith, r)

      by_place :
          (rest : Clause)
          → is_zero (get (kept_state s lit m).poids lit) ≡ false
          → (kept_state s lit m).poids ≡ write s.poids lit (pos (x - m))
          → ((l : ℤ) → In l d → get (kept_state s lit m).poids l ≡ pos m → length rest < length d)
          → (l : ℤ) → In l (lit ∷ d)
          → get s.poids l ≡ pos m
          → length (lit ∷ rest) < length (lit ∷ d)
      by_place rest z w less l (inl r) t =
          let same : x ≡ m = pos_inj x m (sym e ∙ ap (get s.poids) (sym r) ∙ t) in
          let left : get (kept_state s lit m).poids lit ≡ pos (x - m) =
            ap (λ y. get y lit) w ∙ get-write s.poids lit (pos (x - m)) hs in
          absurd (not_all (x - m) (sym (ap is_zero left) ∙ z) (omega arith))
      by_place rest z w less l (inr j) t =
          let k = less l j (
            ap (λ y. get y l) w
            ∙ get-write_ne s.poids lit l (pos (x - m)) (All-In (λ k. abs lit ≢ abs k) d l ne j)
            ∙ t) in
          omega (arith, k)
