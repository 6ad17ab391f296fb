-- ===== src/MaxSat/Strata/Entries.antt =====
-- The entries of the map from weights to literals, as chooseNextMinWeight walks down them.
use eval_max_sat.Common.{
  none-ne_some, ◌≢◌, All-In, ℕ, ◌≤◌, ◌<◌, ◌≡◌, refl, sym, ap, ◌∙◌, List, [], ◌∷◌, Option, none,
  some, if◌then◌else◌, Bool, true, false, ltb, length, ◌==◌, In, All, arith, ◌⊎◌, inl, inr,
  Bool-cases,
}
use eval_max_sat.Common.Int.{ℤ}
use eval_max_sat.WeightMap.{WeightMap, bucket}
use eval_max_sat.MaxSat.Rounds.{greatest, drop_greatest}
use eval_max_sat.MaxSat.Strata.{below, drop_weight}

-- The weights of a map in ascending order, each of them once.
abbrev pub IsAscending : WeightMap → Type 0
IsAscending [] = Unit
IsAscending (e ∷ m) = All (λ f. e.0 < f.0) m × IsAscending m

pub greatest-In : (m : WeightMap) (e : ℕ × List ℤ) → greatest m ≡ some e → In e m
greatest-In [] e h = cc
greatest-In (f ∷ []) e h = inl (sym (some_inj f e h))
  where
    some_inj : (f e : ℕ × List ℤ) → some f ≡ some e → f ≡ e
    some_inj f e h = ap (of f) h
      where
        of : ℕ × List ℤ → Option (ℕ × List ℤ) → ℕ × List ℤ
        of d none = d
        of d (some x) = x
greatest-In (f ∷ g ∷ m) e h = inr (greatest-In (g ∷ m) e h)

pub below-In :
    (weight : ℕ) (m : WeightMap) (e : ℕ × List ℤ) → In e (below weight m) → (e.0 < weight) × In e m
unfolding below
below-In weight [] e h = absurd h
below-In weight ((k, s) ∷ m) e h = by_test (ltb k weight) refl (λ i. below-In weight m e i) h
  where
    by_test :
        (b : Bool)
        → ltb k weight ≡ b
        → (In e (below weight m) → (e.0 < weight) × In e m)
        → In e (if b then (k, s) ∷ below weight m else [])
        → (e.0 < weight) × In e ((k, s) ∷ m)
    by_test true y ih (inl q) = (ground (arith, ap (λ p. p.0) q), inl q)
    by_test true y ih (inr i) = let (l, j) = ih i in (l, inr j)
    by_test false z ih h = absurd h

bucket_below : (w v : ℕ) (m : WeightMap) → All (λ f. w < f.0) m → v ≤ w → bucket m v ≡ []
unfolding bucket
bucket_below w v [] h l = refl
bucket_below w v ((k, s) ∷ m) (h, hs) l = ground arith

pub bucket-In :
    (m : WeightMap) (w : ℕ) (lits : List ℤ) → IsAscending m → In (w, lits) m → bucket m w ≡ lits
unfolding bucket
bucket-In [] w lits a h = absurd h
bucket-In ((k, s) ∷ m) w lits (a, rest) (inl q) =
    let e : w ≡ k = ap (λ p. p.0) q in
    let t : (k == w) ≡ true = ground arith in rw t (sym (ap (λ p. p.1) q))
bucket-In ((k, s) ∷ m) w lits (a, rest) (inr h) =
    let l : k < w = All-In (λ f. k < f.0) m (w, lits) a h in
    ground (arith, bucket-In m w lits rest h)

-- Dropping an entry.
All-drop_weight :
    (x w : ℕ) (m : WeightMap) → All (λ f. x < f.0) m → All (λ f. x < f.0) (drop_weight w m)
unfolding drop_weight
All-drop_weight x w [] h = tt
All-drop_weight x w ((k, s) ∷ m) (h, hs) = elim (Bool-cases (k == w)) [
  | inl y ↦ rw y hs
  | inr z ↦ rw z (h, All-drop_weight x w m hs)
]

pub drop_weight-IsAscending :
    (w : ℕ) (m : WeightMap) → IsAscending m → IsAscending (drop_weight w m)
unfolding drop_weight
drop_weight-IsAscending w [] a = tt
drop_weight-IsAscending w ((k, s) ∷ m) (a, rest) = elim (Bool-cases (k == w)) [
  | inl y ↦ rw y rest
  | inr z ↦ rw z (All-drop_weight k w m a, drop_weight-IsAscending w m rest)
]

pub bucket-drop_weight :
    (m : WeightMap) (w v : ℕ)
    → IsAscending m
    → In (w, []) m
    → bucket (drop_weight w m) v ≡ bucket m v
unfolding bucket drop_weight
bucket-drop_weight [] w v a h = absurd h
bucket-drop_weight ((k, s) ∷ m) w v (a, rest) (inl q) =
    let e : w ≡ k = ap (λ p. p.0) q in
    let empty : [] ≡ s = ap (λ p. p.1) q in
    let t : (k == w) ≡ true = ground arith in rw t (ground (arith, bucket_below k v m a))
bucket-drop_weight ((k, s) ∷ m) w v (a, rest) (inr h) =
    let l : k < w = All-In (λ f. k < f.0) m (w, []) a h in
    let t : (k == w) ≡ false = ground arith in
    rw t (ground (arith, bucket-drop_weight m w v rest h))

-- What a round goes down by.
pub length-below_drop :
    (m : WeightMap) (w weight : ℕ) (lits : List ℤ)
    → IsAscending m
    → w < weight
    → In (w, lits) m
    → length (below weight (drop_weight w m)) < length (below weight m)
unfolding below drop_weight
length-below_drop [] w weight lits a l h = absurd h
length-below_drop ((k, s) ∷ m) w weight lits (a, rest) l (inl q) =
    let e : w ≡ k = ap (λ p. p.0) q in
    let t : (k == w) ≡ true = ground arith in
    let u : ltb k weight ≡ true = ground arith in rw (t, u) (omega arith)
length-below_drop ((k, s) ∷ m) w weight lits (a, rest) l (inr h) =
    let b : k < w = All-In (λ f. k < f.0) m (w, lits) a h in
    let t : (k == w) ≡ false = ground arith in
    let u : ltb k weight ≡ true = ground arith in
    rw (t, u) (omega (arith, length-below_drop m w weight lits rest l h))

pub length-below_down :
    (m : WeightMap) (w weight : ℕ) (lits : List ℤ)
    → IsAscending m
    → w < weight
    → In (w, lits) m
    → length (below w m) < length (below weight m)
unfolding below
length-below_down [] w weight lits a l h = absurd h
length-below_down ((k, s) ∷ m) w weight lits (a, rest) l (inl q) =
    let e : w ≡ k = ap (λ p. p.0) q in
    let t : ltb k w ≡ false = ground arith in
    let u : ltb k weight ≡ true = ground arith in rw (t, u) (omega arith)
length-below_down ((k, s) ∷ m) w weight lits (a, rest) l (inr h) =
    let b : k < w = All-In (λ f. k < f.0) m (w, lits) a h in
    let t : ltb k w ≡ true = ground arith in
    let u : ltb k weight ≡ true = ground arith in
    rw (t, u) (omega (arith, length-below_down m w weight lits rest l h))

pub length-below : (m : WeightMap) (weight : ℕ) → length (below weight m) ≤ length m
unfolding below
length-below [] weight = omega arith
length-below ((k, s) ∷ m) weight = ground (arith, length-below m weight)

-- What stands below a bound, and which entry is the greatest.
pub below-entry :
    (weight : ℕ) (m : WeightMap) (e : ℕ × List ℤ)
    → IsAscending m
    → In e m
    → e.0 < weight
    → In e (below weight m)
unfolding below
below-entry weight [] e a i l = absurd i
below-entry weight ((k, s) ∷ m) e (a, rest) (inl q) l =
    let t : ltb k weight ≡ true = ground (arith, ap (λ p. p.0) q) in rw t (inl q)
below-entry weight ((k, s) ∷ m) e (a, rest) (inr i) l =
    let b : k < e.0 = All-In (λ f. k < f.0) m e a i in
    let t : ltb k weight ≡ true = ground arith in rw t (inr (below-entry weight m e rest i l))

All-below :
    (x weight : ℕ) (m : WeightMap) → All (λ f. x < f.0) m → All (λ f. x < f.0) (below weight m)
unfolding below
All-below x weight [] h = tt
All-below x weight ((k, s) ∷ m) (h, hs) = elim (Bool-cases (ltb k weight)) [
  | inl y ↦ rw y (h, All-below x weight m hs)
  | inr z ↦ rw z tt
]

pub below-IsAscending : (weight : ℕ) (m : WeightMap) → IsAscending m → IsAscending (below weight m)
unfolding below
below-IsAscending weight [] a = tt
below-IsAscending weight ((k, s) ∷ m) (a, rest) = elim (Bool-cases (ltb k weight)) [
  | inl y ↦ rw y (All-below k weight m a, below-IsAscending weight m rest)
  | inr z ↦ rw z tt
]

pub greatest-none : (m : WeightMap) (e : ℕ × List ℤ) → greatest m ≡ none → In e m → ⊥
greatest-none [] e h i = i
greatest-none (f ∷ []) e h i = none-ne_some (sym h)
greatest-none (f ∷ g ∷ m) e h i = greatest-none (g ∷ m) g h (inl refl)

-- An entry is the greatest, or it stands in the rest and is smaller.
pub greatest-cases :
    (m : WeightMap) (g e : ℕ × List ℤ)
    → IsAscending m
    → greatest m ≡ some g
    → In e m
    → (e ≡ g) ⊎ (In e (drop_greatest m) × (e.0 < g.0))
greatest-cases [] g e a h i = absurd i
greatest-cases (f ∷ []) g e a h (inl q) = elim (greatest-In (f ∷ []) g h) [
  | inl r ↦ inl (q ∙ sym r)
  | inr r ↦ absurd r
]
greatest-cases (f ∷ []) g e a h (inr i) = absurd i
greatest-cases (f ∷ d ∷ m) g e (b, a) h (inl q) =
    let l : f.0 < g.0 = All-In (λ x. f.0 < x.0) (d ∷ m) g b (greatest-In (d ∷ m) g h) in
    inr (inl q, omega (arith, ap (λ p. p.0) q))
greatest-cases (f ∷ d ∷ m) g e (b, a) h (inr i) = elim (greatest-cases (d ∷ m) g e a h i) [
  | inl q ↦ inl q
  | inr (j, l) ↦ inr (inr j, l)
]

drop_greatest-In : (m : WeightMap) (e : ℕ × List ℤ) → In e (drop_greatest m) → In e m
drop_greatest-In [] e i = i
drop_greatest-In (f ∷ []) e i = absurd i
drop_greatest-In (f ∷ d ∷ m) e (inl q) = inl q
drop_greatest-In (f ∷ d ∷ m) e (inr i) = inr (drop_greatest-In (d ∷ m) e i)

drop_greatest-lt :
    (m : WeightMap) (g e : ℕ × List ℤ)
    → IsAscending m
    → greatest m ≡ some g
    → In e (drop_greatest m)
    → e.0 < g.0
drop_greatest-lt [] g e a h i = absurd i
drop_greatest-lt (f ∷ []) g e a h i = absurd i
drop_greatest-lt (f ∷ d ∷ m) g e (b, a) h (inl q) =
    let l : f.0 < g.0 = All-In (λ x. f.0 < x.0) (d ∷ m) g b (greatest-In (d ∷ m) g h) in
    omega (arith, ap (λ p. p.0) q)
drop_greatest-lt (f ∷ d ∷ m) g e (b, a) h (inr i) = drop_greatest-lt (d ∷ m) g e a h i

All-drop_greatest :
    (x : ℕ) (m : WeightMap) → All (λ f. x < f.0) m → All (λ f. x < f.0) (drop_greatest m)
All-drop_greatest x [] h = tt
All-drop_greatest x (f ∷ []) h = tt
All-drop_greatest x (f ∷ d ∷ m) (h, hs) = (h, All-drop_greatest x (d ∷ m) hs)

drop_greatest-IsAscending : (m : WeightMap) → IsAscending m → IsAscending (drop_greatest m)
drop_greatest-IsAscending [] a = tt
drop_greatest-IsAscending (f ∷ []) a = tt
drop_greatest-IsAscending (f ∷ d ∷ m) (b, a) =
    (All-drop_greatest f.0 (d ∷ m) b, drop_greatest-IsAscending (d ∷ m) a)

-- The entry right in front of the greatest one below the bound.
pub second-entry :
    (m : WeightMap) (g h : ℕ × List ℤ)
    → IsAscending m
    → greatest m ≡ some g
    → greatest (drop_greatest m) ≡ some h
    → In h m × (h.0 < g.0) × ((e : ℕ × List ℤ) → In e m → (e.0 ≤ h.0) ⊎ (e ≡ g))
second-entry m g h a p q = (
  drop_greatest-In m h (greatest-In (drop_greatest m) h q),
  drop_greatest-lt m g h a p (greatest-In (drop_greatest m) h q),
  λ e i. elim (greatest-cases m g e a p i) [
    | inl r ↦ inr r
    | inr (j, l) ↦ elim (greatest-cases (drop_greatest m) h e (drop_greatest-IsAscending m a) q j) [
      | inl r ↦ inl (omega (arith, ap (λ x. x.0) r))
      | inr (k, lt) ↦ inl (omega arith)
    ]
  ],
)

-- An entry that is not of the weight stays.
pub drop_weight-kept :
    (w : ℕ) (m : WeightMap) (e : ℕ × List ℤ) → In e m → e.0 ≢ w → In e (drop_weight w m)
unfolding drop_weight
drop_weight-kept w [] e i n = i
drop_weight-kept w ((k, s) ∷ m) e (inl q) n =
    let t : (k == w) ≡ false = ground (arith, ap (λ p. p.0) q) in rw t (inl q)
drop_weight-kept w ((k, s) ∷ m) e (inr i) n = elim (Bool-cases (k == w)) [
  | inl y ↦ rw y i
  | inr z ↦ rw z (inr (drop_weight-kept w m e i n))
]

pub drop_weight-In : (w : ℕ) (m : WeightMap) (e : ℕ × List ℤ) → In e (drop_weight w m) → In e m
unfolding drop_weight
drop_weight-In w [] e i = i
drop_weight-In w ((k, s) ∷ m) e i = by_test (k == w) (λ j. drop_weight-In w m e j) i
  where
    by_test :
        (b : Bool)
        → (In e (drop_weight w m) → In e m)
        → In e (if b then m else (k, s) ∷ drop_weight w m)
        → In e ((k, s) ∷ m)
    by_test true ih j = inr j
    by_test false ih (inl q) = inl q
    by_test false ih (inr j) = inr (ih j)

-- A weight has one entry.
pub one_entry :
    (m : WeightMap) (d e : ℕ × List ℤ) → IsAscending m → In d m → In e m → d.0 ≡ e.0 → d ≡ e
one_entry [] d e a i j q = absurd i
one_entry (f ∷ m) d e (b, a) (inl p) (inl r) q = p ∙ sym r
one_entry (f ∷ m) d e (b, a) (inl p) (inr j) q =
    let l : f.0 < e.0 = All-In (λ x. f.0 < x.0) m e b j in absurd (omega (arith, ap (λ x. x.0) p))
one_entry (f ∷ m) d e (b, a) (inr i) (inl r) q =
    let l : f.0 < d.0 = All-In (λ x. f.0 < x.0) m d b i in absurd (omega (arith, ap (λ x. x.0) r))
one_entry (f ∷ m) d e (b, a) (inr i) (inr j) q = one_entry m d e a i j q
