-- ===== src/MaxSat/Strata/Outcome.antt =====
-- The three ways in which chooseNextMinWeight ends, and what a round makes of the way the rest ends.
use eval_max_sat.Common.{
  ℕ, suc, ◌≤◌, ◌<◌, ◌≡◌, refl, ap, ◌∙◌, List, [], ◌∷◌, none, some, Bool, true, false, length, ◌==◌,
  In, arith, ◌⊎◌, inl, inr, Bool-cases, any,
}
use eval_max_sat.Common.Int.{ℤ, eqb_ℤ}
use eval_max_sat.WeightMap.{WeightMap, bucket, has}
use eval_max_sat.MaxSat.{Result, ok, err, before_begin}
use eval_max_sat.MaxSat.Rounds.{greatest, drop_greatest}
use eval_max_sat.MaxSat.Strata.{below, drop_weight}
use eval_max_sat.MaxSat.Strata.Entries.{
  IsAscending, below-In, below-IsAscending, below-entry, bucket-drop_weight, drop_weight-In,
  drop_weight-IsAscending, drop_weight-kept, greatest-In, greatest-cases, greatest-none, one_entry,
  second-entry,
}

-- The entry stands right in front of the weight.
abbrev pub Precedes : WeightMap → ℕ × List ℤ → ℕ → Type 0
Precedes m y x = In y m × (y.0 < x) × ((z : ℕ × List ℤ) → In z m → (z.0 ≤ y.0) ⊎ (x ≤ z.0))

-- No entry of the map is smaller.
abbrev pub IsFirst : WeightMap → ℕ → Type 0
IsFirst m x = (z : ℕ × List ℤ) → In z m → x ≤ z.0

-- The map is in order, and the same literals stand at the same weights.
abbrev pub SameLiterals : WeightMap → WeightMap → Type 0
SameLiterals m m' = IsAscending m' × ((v : ℕ) (l : ℤ) → has m' v l ≡ has m v l)

-- The first weight, if a literal stands at it, is not below the bound.
abbrev pub IsOutside : WeightMap → ℕ → Type 0
IsOutside m hi = (x : ℕ) (l : ℤ) (lits : List ℤ) → In (x, l ∷ lits) m → IsFirst m x → hi ≤ x

cons-ne_nil : (l : ℤ) (lits : List ℤ) → ◌≡◌ {A = List ℤ} (l ∷ lits) [] → ⊥
cons-ne_nil l lits e = cc

has_same : (m n : WeightMap) (v : ℕ) (l : ℤ) → bucket m v ≡ bucket n v → has m v l ≡ has n v l
unfolding has
has_same m n v l e = ap (any (eqb_ℤ l)) e

module _ (below_half : ℕ → ℕ → Bool) (previous : ℕ) where
  -- No weight from `lo` to below `hi` at which a literal stands is chosen: the weight in front of it is
  -- not below the half.
  abbrev pub Skipped : WeightMap → ℕ → ℕ → Type 0
  Skipped m lo hi =
      (x : ℕ) (l : ℤ) (lits : List ℤ) (y : ℕ × List ℤ)
      → In (x, l ∷ lits) m
      → lo ≤ x
      → x < hi
      → Precedes m y x
      → below_half y.0 previous ≡ false

  -- It returns 1: at most one weight is left, or none of the weights can be chosen.
  abbrev pub Stops : WeightMap → ℕ → Result (WeightMap × ℕ) → Type 0
  Stops m weight r =
      (m' : WeightMap) × (r ≡ ok (m', 1))
      × SameLiterals m m'
      × ((length m' ≤ 1) ⊎ (Skipped m 0 weight × IsOutside m weight))

  -- It returns a weight at which a literal stands, the greatest below the bound such that the weight in
  -- front of it is below the half.
  abbrev pub Finds : WeightMap → ℕ → Result (WeightMap × ℕ) → Type 0
  Finds m weight r =
      (m' : WeightMap) × (w : ℕ) × (l : ℤ) × (lits : List ℤ) × (y : ℕ × List ℤ) × (r ≡ ok (m', w))
      × SameLiterals m m'
      × In (w, l ∷ lits) m
      × (w < weight)
      × Precedes m y w
      × (below_half y.0 previous ≡ true)
      × Skipped m (suc w) weight

  -- It decrements begin(): no weight can be chosen, and a literal stands at the first one, below the
  -- bound.
  abbrev pub Falls : WeightMap → ℕ → Result (WeightMap × ℕ) → Type 0
  Falls m weight r =
      (x : ℕ) × (l : ℤ) × (lits : List ℤ) × (r ≡ err before_begin)
      × In (x, l ∷ lits) m
      × (x < weight)
      × IsFirst m x
      × Skipped m 0 weight

  abbrev pub Outcome : WeightMap → ℕ → Result (WeightMap × ℕ) → Type 0
  Outcome m weight r = Stops m weight r ⊎ (Finds m weight r ⊎ Falls m weight r)

  -- The entry in front of the bound.
  module _ (m : WeightMap) (weight w : ℕ) (lits : List ℤ) (a : IsAscending m)
      (it : greatest (below weight m) ≡ some (w, lits)) where
    pub it_stands : (w < weight) × In (w, lits) m
    it_stands = below-In weight m (w, lits) (greatest-In (below weight m) (w, lits) it)

    under : (e : ℕ × List ℤ) → In e m → e.0 < weight → e.0 ≤ w
    under e i l =
        elim (greatest-cases (below weight m) (w, lits) e (below-IsAscending weight m a) it
          (below-entry weight m e a i l)) [
            | inl q ↦ omega (arith, ap (λ p. p.0) q)
            | inr (j, lt) ↦ omega arith
          ]

  -- Its set is empty, and it is erased.
  module _ (m : WeightMap) (weight w : ℕ) (a : IsAscending m)
      (it : greatest (below weight m) ≡ some (w, [])) where
    abbrev left : WeightMap
    left = drop_weight w m

    stays : (x : ℕ) (l : ℤ) (lits : List ℤ) → In (x, l ∷ lits) m → In (x, l ∷ lits) left
    stays x l lits i =
        drop_weight-kept w m (x, l ∷ lits) i
          (λ q. cons-ne_nil l lits (
            ap (λ p. p.1)
              (one_entry m (x, l ∷ lits) (w, []) a i (it_stands m weight w [] a it).1 q)))

    pub same_left : SameLiterals m left
    same_left = (
      drop_weight-IsAscending w m a,
      λ v l. has_same left m v l (bucket-drop_weight m w v a (it_stands m weight w [] a it).1),
    )

    SameLiterals-left : (m' : WeightMap) → SameLiterals left m' → SameLiterals m m'
    SameLiterals-left m' (b, f) = (b, λ v l. f v l ∙ same_left.1 v l)

    Skipped-left : (lo : ℕ) → Skipped left lo weight → Skipped m lo weight
    Skipped-left lo f x l lits y i g h (j, lt, between) =
        let top : x ≤ w = under m weight w [] a it (x, l ∷ lits) i h in
        f x l lits y (stays x l lits i) g h (
          drop_weight-kept w m y j (λ q. omega arith),
          lt,
          λ z k. between z (drop_weight-In w m z k),
        )

    back : (z : ℕ × List ℤ) → In z m → (z.0 ≡ w) ⊎ In z left
    back z k = elim (Bool-cases (z.0 == w)) [
      | inl y ↦ inl (ground arith)
      | inr n ↦ inr (drop_weight-kept w m z k (λ q. absurd (ground arith)))
    ]

    pub Outcome-left : (r : Result (WeightMap × ℕ)) → Outcome left weight r → Outcome m weight r
    Outcome-left r (inl (m', e, s, inl short)) = inl (m', e, SameLiterals-left m' s, inl short)
    Outcome-left r (inl (m', e, s, inr (f, out))) = inl (
      m',
      e,
      SameLiterals-left m' s,
      inr (
        Skipped-left 0 f,
        λ x l lits i first.
            out x l lits (stays x l lits i) (λ z k. first z (drop_weight-In w m z k)),
      ),
    )
    Outcome-left r (inr (inl (m', v, l, lits, y, e, s, i, lt, (j, ylt, between), half, f))) =
        let top : v ≤ w =
          under m weight w [] a it (v, l ∷ lits) (drop_weight-In w m (v, l ∷ lits) i) lt in
        inr (
          inl (
            m',
            v,
            l,
            lits,
            y,
            e,
            SameLiterals-left m' s,
            drop_weight-In w m (v, l ∷ lits) i,
            lt,
            (
              drop_weight-In w m y j,
              ylt,
              λ z k. elim (back z k) [ inl q ↦ inr (omega arith) | inr n ↦ between z n ],
            ),
            half,
            Skipped-left (suc v) f,
          ))
    Outcome-left r (inr (inr (x, l, lits, e, i, lt, first, f))) =
        let top : x ≤ w =
          under m weight w [] a it (x, l ∷ lits) (drop_weight-In w m (x, l ∷ lits) i) lt in
        inr (
          inr (
            x,
            l,
            lits,
            e,
            drop_weight-In w m (x, l ∷ lits) i,
            lt,
            λ z k. elim (back z k) [ inl q ↦ omega arith | inr n ↦ first z n ],
            Skipped-left 0 f,
          ))

  -- A literal stands at it, and `h` is the entry in front of it.
  module _ (m : WeightMap) (weight w : ℕ) (l0 : ℤ) (lits0 : List ℤ) (h : ℕ × List ℤ)
      (a : IsAscending m) (it : greatest (below weight m) ≡ some (w, l0 ∷ lits0))
      (it2 : greatest (drop_greatest (below weight m)) ≡ some h) where
    in_front : Precedes m h w
    in_front =
        let (i, lt, others) =
          second-entry (below weight m) (w, l0 ∷ lits0) h (below-IsAscending weight m a) it it2 in
        (
          (below-In weight m h i).1,
          lt,
          λ z k. elim (split z.0) [
            | inl le ↦ inr le
            | inr less ↦
                elim (others z (
                  below-entry weight m z a k
                    (omega (arith, (it_stands m weight w (l0 ∷ lits0) a it).0)))) [
                      | inl le ↦ inl le
                      | inr q ↦ inr (omega (arith, ap (λ p. p.0) q))
                    ]
          ],
        )
      where
        split : (n : ℕ) → (w ≤ n) ⊎ (n < w)
        split n = omega arith

    Skipped-down : below_half h.0 previous ≡ false → (lo : ℕ) → Skipped m lo w → Skipped m lo weight
    Skipped-down above lo f x l lits y i g hx (j, lt, between) = elim (split (top)) [
      | inl less ↦ f x l lits y i g less (j, lt, between)
      | inr same ↦
          let (hi, hlt, others) = in_front in
          let low : h.0 ≤ y.0 = elim (between h hi) [
            | inl le ↦ le
            | inr le ↦ absurd (omega arith)
          ] in
          let high : y.0 ≤ h.0 = elim (others y j) [
            | inl le ↦ le
            | inr le ↦ absurd (omega arith)
          ] in
          let q : y.0 ≡ h.0 = omega arith in ap (λ v. below_half v previous) q ∙ above
    ]
      where
        top : x ≤ w
        top = under m weight w (l0 ∷ lits0) a it (x, l ∷ lits) i hx

        split : x ≤ w → (x < w) ⊎ (x ≡ w)
        split t = omega arith

    pub Outcome-down :
        below_half h.0 previous ≡ false
        → (r : Result (WeightMap × ℕ)) → Outcome m w r
        → Outcome m weight r
    Outcome-down above r (inl (m', e, s, inl short)) = inl (m', e, s, inl short)
    Outcome-down above r (inl (m', e, s, inr (f, out))) = inl (
      m',
      e,
      s,
      inr (
        Skipped-down above 0 f,
        λ x l lits i first.
            let (hi, hlt, others) = in_front in
            let up = out x l lits i first in let down = first h hi in absurd (omega arith),
      ),
    )
    Outcome-down above r (inr (inl (m', v, l, lits, y, e, s, i, lt, p, half, f))) =
        let b = (it_stands m weight w (l0 ∷ lits0) a it).0 in
        inr (inl (m', v, l, lits, y, e, s, i, omega arith, p, half, Skipped-down above (suc v) f))
    Outcome-down above r (inr (inr (x, l, lits, e, i, lt, first, f))) =
        let b = (it_stands m weight w (l0 ∷ lits0) a it).0 in
        inr (inr (x, l, lits, e, i, omega arith, first, Skipped-down above 0 f))

    pub Outcome-found : below_half h.0 previous ≡ true → Outcome m weight (ok (m, w))
    Outcome-found half =
        let (b, i) = it_stands m weight w (l0 ∷ lits0) a it in
        inr (
          inl (
            m,
            w,
            l0,
            lits0,
            h,
            refl,
            (a, λ v l. refl),
            i,
            b,
            in_front,
            half,
            λ x l lits y j g hx p.
                let t = under m weight w (l0 ∷ lits0) a it (x, l ∷ lits) j hx in
                absurd (omega arith),
          ))

  -- Nothing stands in front of it.
  pub Outcome-first :
      (m : WeightMap) (weight w : ℕ) (l0 : ℤ) (lits0 : List ℤ)
      → IsAscending m
      → greatest (below weight m) ≡ some (w, l0 ∷ lits0)
      → greatest (drop_greatest (below weight m)) ≡ none
      → Outcome m weight (err before_begin)
  Outcome-first m weight w l0 lits0 a it alone =
      let (b, i) = it_stands m weight w (l0 ∷ lits0) a it in
      inr (
        inr (
          w,
          l0,
          lits0,
          refl,
          i,
          b,
          first,
          λ x l lits y j g hx (k, lt, between).
              let t = under m weight w (l0 ∷ lits0) a it (x, l ∷ lits) j hx in
              let f = first y k in absurd (omega arith),
        ))
    where
      first : IsFirst m w
      first z k = elim (split z.0) [
        | inl le ↦ le
        | inr less ↦
            elim (greatest-cases (below weight m) (w, l0 ∷ lits0) z (below-IsAscending weight m a)
              it
              (below-entry weight m z a k
                (omega (arith, (it_stands m weight w (l0 ∷ lits0) a it).0)))) [
                  | inl q ↦ omega (arith, ap (λ p. p.0) q)
                  | inr (j, lt) ↦ absurd (greatest-none (drop_greatest (below weight m)) z alone j)
                ]
      ]
        where
          split : (n : ℕ) → (w ≤ n) ⊎ (n < w)
          split n = omega arith

  -- No entry is below the bound.
  pub Outcome-none :
      (m : WeightMap) (weight : ℕ)
      → IsAscending m
      → greatest (below weight m) ≡ none
      → Outcome m weight (ok (m, 1))
  Outcome-none m weight a e = inl (
    m,
    refl,
    (a, λ v l. refl),
    inr (
      λ x l lits y i g hx p. absurd (gone (x, l ∷ lits) i hx),
      λ x l lits i first. elim (split x) [
        | inl le ↦ le
        | inr less ↦ absurd (gone (x, l ∷ lits) i less)
      ],
    ),
  )
    where
      gone : (z : ℕ × List ℤ) → In z m → z.0 < weight → ⊥
      gone z i l = greatest-none (below weight m) z e (below-entry weight m z a i l)

      split : (n : ℕ) → (weight ≤ n) ⊎ (n < weight)
      split n = omega arith
