-- ===== src/MaxSat/Strata/Assumptions.antt =====
-- initAssum: which literals are assumed in a stratum.
use eval_max_sat.Common.{
  ℕ, ◌≤◌, ◌<◌, ◌≡◌, ◌≢◌, refl, sym, ap, ◌∙◌, subst, List, [], ◌∷◌, Bool, true, false, All, All-In,
  All-of_In, In, any, arith, ltb, ◌==◌, ◌⊎◌, ◌↔◌, inl, inr, Bool-cases, ◌&&◌, if◌then◌else◌,
}
use eval_max_sat.Common.Int.{ℤ, pos, negsuc, neg, abs, eqb_ℤ, eqb_ℤ_iff, ltb_ℤ}
use eval_max_sat.Common.Member.{any-In, In-any}
use eval_max_sat.Weights.{WeightVector, get, size}
use eval_max_sat.Weights.Laws.{get-neg}
use eval_max_sat.WeightMap.{WeightMap, bucket, has, set_insert}
use eval_max_sat.MaxSat.Index.{Indexed, ℤ-cases}
use eval_max_sat.MaxSat.Objective.{long_limit}
use eval_max_sat.MaxSat.Oracle.{IsDistinct}
use eval_max_sat.MaxSat.Query.{init_assum, insert_all}
use eval_max_sat.MaxSat.Core.Correct.{IsHeavy}
use eval_max_sat.MaxSat.Rounds.Harden.{InUse}
use eval_max_sat.MaxSat.Rounds.Last.{IsEntry}
use eval_max_sat.MaxSat.Strata.Entries.{IsAscending, bucket-In}

In-set_insert : (l k : ℤ) (xs : List ℤ) → (l ≡ k) ⊎ In l xs → In l (set_insert k xs)
unfolding set_insert
In-set_insert l k [] (inl e) = inl e
In-set_insert l k [] (inr h) = absurd h
In-set_insert l k (x ∷ xs) h = elim (Bool-cases (eqb_ℤ k x)) [
  | inl y ↦ rw y (same h ((eqb_ℤ_iff k x).0 y))
  | inr z ↦
      let deeper = In-set_insert l k xs in
      elim (Bool-cases (ltb_ℤ k x)) [
        | inl u ↦ rw (z, u) (front h)
        | inr v ↦ rw (z, v) (later h deeper)
      ]
]
  where
    same : (l ≡ k) ⊎ In l (x ∷ xs) → k ≡ x → In l (x ∷ xs)
    same (inl e) q = inl (e ∙ q)
    same (inr i) q = i

    front : (l ≡ k) ⊎ In l (x ∷ xs) → In l (k ∷ x ∷ xs)
    front (inl e) = inl e
    front (inr i) = inr i

    later :
        (l ≡ k) ⊎ In l (x ∷ xs)
        → ((l ≡ k) ⊎ In l xs → In l (set_insert k xs))
        → In l (x ∷ set_insert k xs)
    later (inl e) f = inr (f (inl e))
    later (inr (inl e)) f = inl e
    later (inr (inr i)) f = inr (f (inr i))

In-insert_all :
    (l : ℤ) (ls : List ℤ) (assum : List ℤ) → In l ls ⊎ In l assum → In l (insert_all ls assum)
unfolding insert_all
In-insert_all l [] assum (inl h) = absurd h
In-insert_all l [] assum (inr h) = h
In-insert_all l (k ∷ ls) assum (inl (inl e)) =
    In-insert_all l ls (set_insert k assum) (inr (In-set_insert l k assum (inl e)))
In-insert_all l (k ∷ ls) assum (inl (inr i)) = In-insert_all l ls (set_insert k assum) (inl i)
In-insert_all l (k ∷ ls) assum (inr h) =
    In-insert_all l ls (set_insert k assum) (inr (In-set_insert l k assum (inr h)))

-- A soft literal of a weight from the bound on is assumed.
pub In-init_assum :
    (m : WeightMap) (least w : ℕ) (l : ℤ)
    → least ≤ w
    → any (eqb_ℤ l) (bucket m w) ≡ true
    → In l (init_assum m least)
unfolding init_assum bucket
In-init_assum [] least w l b h = cc
In-init_assum ((k, s) ∷ m) least w l b h =
    by_place (k == w) (ltb w k) refl h (In-init_assum m least w l b)
  where
    above : In l (init_assum m least) → In l (init_assum ((k, s) ∷ m) least)
    above i = elim (Bool-cases (ltb k least)) [
      | inl y ↦ rw y i
      | inr z ↦ rw z (In-insert_all l s (init_assum m least) (inr i))
    ]

    here : k ≡ w → In l s → In l (init_assum ((k, s) ∷ m) least)
    here e i =
        let z : ltb k least ≡ false = ground arith in
        rw z (In-insert_all l s (init_assum m least) (inl i))

    by_place :
        (p q : Bool)
        → (k == w) ≡ p
        → any (eqb_ℤ l) (if p then s else if q then [] else bucket m w) ≡ true
        → (any (eqb_ℤ l) (bucket m w) ≡ true → In l (init_assum m least))
        → In l (init_assum ((k, s) ∷ m) least)
    by_place true q y h ih = here (ground arith) (In-any l s h)
    by_place false true z h ih = cc
    by_place false false z h ih = above (ih h)

set_insert-cases : (l k : ℤ) (xs : List ℤ) → In l (set_insert k xs) → (l ≡ k) ⊎ In l xs
unfolding set_insert
set_insert-cases l k [] h = h
set_insert-cases l k (x ∷ xs) h = by_tests (eqb_ℤ k x) (ltb_ℤ k x) (set_insert-cases l k xs) h
  where
    by_tests :
        (p q : Bool)
        → (In l (set_insert k xs) → (l ≡ k) ⊎ In l xs)
        → In l (if p then x ∷ xs else if q then k ∷ x ∷ xs else x ∷ set_insert k xs)
        → (l ≡ k) ⊎ In l (x ∷ xs)
    by_tests true q ih h = inr h
    by_tests false true ih h = h
    by_tests false false ih (inl e) = inr (inl e)
    by_tests false false ih (inr i) = elim (ih i) [ inl e ↦ inl e | inr j ↦ inr (inr j) ]

insert_all-cases :
    (l : ℤ) (ls : List ℤ) (assum : List ℤ) → In l (insert_all ls assum) → In l ls ⊎ In l assum
unfolding insert_all
insert_all-cases l [] assum h = inr h
insert_all-cases l (k ∷ ls) assum h = elim (insert_all-cases l ls (set_insert k assum) h) [
  | inl i ↦ inl (inr i)
  | inr i ↦ elim (set_insert-cases l k assum i) [ inl e ↦ inl (inl e) | inr j ↦ inr j ]
]

-- What is assumed stands in the set of a weight from the bound on.
init_assum-cases :
    (m : WeightMap) (least : ℕ) (l : ℤ)
    → In l (init_assum m least)
    → (w : ℕ) × (lits : List ℤ) × In (w, lits) m × (least ≤ w) × In l lits
unfolding init_assum
init_assum-cases [] least l h = absurd h
init_assum-cases ((k, s) ∷ m) least l h = elim (Bool-cases (ltb k least)) [
  | inl y ↦
      let (w, lits, i, le, j) = init_assum-cases m least l (rw y at h) in (w, lits, inr i, le, j)
  | inr z ↦ elim (insert_all-cases l s (init_assum m least) (rw z at h)) [
    | inl here ↦ (k, s, inl refl, ground arith, here)
    | inr there ↦
        let (w, lits, i, le, j) = init_assum-cases m least l there in (w, lits, inr i, le, j)
  ]
]

-- A std::set is in ascending order.
abbrev IsSorted : List ℤ → Type 0
IsSorted [] = Unit
IsSorted (x ∷ xs) = All (λ y. ltb_ℤ x y ≡ true) xs × IsSorted xs

ltb_ℤ-trans : (a b c : ℤ) → ltb_ℤ a b ≡ true → ltb_ℤ b c ≡ true → ltb_ℤ a c ≡ true
ltb_ℤ-trans a b c h k = ground (arith, h, k)

ltb_ℤ-total : (a b : ℤ) → eqb_ℤ a b ≡ false → ltb_ℤ a b ≡ false → ltb_ℤ b a ≡ true
ltb_ℤ-total (pos a) (pos b) e h = ground arith
ltb_ℤ-total (pos a) (negsuc b) e h = ground arith
ltb_ℤ-total (negsuc a) (pos b) e h = ground arith
ltb_ℤ-total (negsuc a) (negsuc b) e h = ground arith

set_insert-IsSorted : (k : ℤ) (xs : List ℤ) → IsSorted xs → IsSorted (set_insert k xs)
unfolding set_insert
set_insert-IsSorted k [] s = (tt, tt)
set_insert-IsSorted k (x ∷ xs) (h, s) =
    let ih = set_insert-IsSorted k xs s in
    elim (Bool-cases (eqb_ℤ k x)) [
      | inl y ↦ rw y (h, s)
      | inr z ↦ elim (Bool-cases (ltb_ℤ k x)) [
        | inl u ↦ rw (z, u) ((u, later xs h u), (h, s))
        | inr v ↦ rw (z, v) (inserted xs h (ltb_ℤ-total k x z v), ih)
      ]
    ]
  where
    later :
        (ys : List ℤ)
        → All (λ y. ltb_ℤ x y ≡ true) ys
        → ltb_ℤ k x ≡ true
        → All (λ y. ltb_ℤ k y ≡ true) ys
    later [] a u = tt
    later (y ∷ ys) (b, a) u = (ltb_ℤ-trans k x y u b, later ys a u)

    inserted :
        (ys : List ℤ)
        → All (λ y. ltb_ℤ x y ≡ true) ys
        → ltb_ℤ x k ≡ true
        → All (λ y. ltb_ℤ x y ≡ true) (set_insert k ys)
    inserted ys a u =
        All-of_In (λ y. ltb_ℤ x y ≡ true) (set_insert k ys)
          (λ y i. elim (set_insert-cases y k ys i) [
            | inl e ↦ subst (λ t. ltb_ℤ x t ≡ true) (sym e) u
            | inr j ↦ All-In (λ t. ltb_ℤ x t ≡ true) ys y a j
          ])

init_assum-IsSorted : (m : WeightMap) (least : ℕ) → IsSorted (init_assum m least)
unfolding init_assum insert_all
init_assum-IsSorted [] least = tt
init_assum-IsSorted ((k, s) ∷ m) least = elim (Bool-cases (ltb k least)) [
  | inl y ↦ rw y (init_assum-IsSorted m least)
  | inr z ↦ rw z (all_sorted s (init_assum m least) (init_assum-IsSorted m least))
]
  where
    all_sorted : (ls xs : List ℤ) → IsSorted xs → IsSorted (insert_all ls xs)
    all_sorted [] xs h = h
    all_sorted (l ∷ ls) xs h = all_sorted ls (set_insert l xs) (set_insert-IsSorted l xs h)

module _ (m : WeightMap) (ws : WeightVector) (least : ℕ) (a : IsAscending m)
    (entries : All (IsEntry (size ws)) m) (ix : Indexed m ws) where
  assumed-weight :
      (l : ℤ)
      → In l (init_assum m least)
      → InUse (size ws) l
        × ((x : ℕ) × (get ws l ≡ pos x) × (0 < x) × (x < long_limit) × (least ≤ x))
  unfolding has
  assumed-weight l i =
      let (w, lits, j, le, k) = init_assum-cases m least l i in
      let (p, lim, inside, d) = All-In (IsEntry (size ws)) m (w, lits) entries j in
      let u = All-In (InUse (size ws)) lits l inside k in
      let there : has m w l ≡ true =
        ap (any (eqb_ℤ l)) (bucket-In m w lits a j) ∙ any-In l lits k in
      let read : eqb_ℤ (get ws l) (pos w) ≡ true = second (ltb 0 w) _ (sym (ix w l u.0) ∙ there) in
      (u, (w, (eqb_ℤ_iff (get ws l) (pos w)).0 read, p, lim, le))
    where
      second : (x y : Bool) → (x && y) ≡ true → y ≡ true
      second x y h = ground (arith, h)

  weighted-assumed :
      (l : ℤ) (x : ℕ) → 0 < abs l → get ws l ≡ pos x → 0 < x → least ≤ x → In l (init_assum m least)
  unfolding has
  weighted-assumed l x h e p le =
      In-init_assum m least x l le
        (ix x l h ∙ ground (arith, e, (eqb_ℤ_iff (get ws l) (pos x)).1 e))

  -- Opposite literals cannot both have a positive weight.
  distinct_vars :
      (l k : ℤ)
      → In l (init_assum m least)
      → In k (init_assum m least)
      → ltb_ℤ l k ≡ true
      → abs l ≢ abs k
  distinct_vars l k i j lt same = elim (ℤ-cases l k) [
    | inl e ↦ absurd (irreflexive k (subst (λ t. ltb_ℤ t k ≡ true) e lt))
    | inr (inl opp) ↦
        let (u, (x, e, p, _, _)) = assumed-weight l i in
        let (v, (y, f, q, _, _)) = assumed-weight k j in
        let r : pos x ≡ neg (pos y) = sym e ∙ ap (get ws) opp ∙ get-neg ws k v.0 ∙ ap neg f in
        absurd (ground (arith, r))
    | inr (inr other) ↦ absurd (other (sym same))
  ]
    where
      irreflexive : (t : ℤ) → ltb_ℤ t t ≡ true → ⊥
      irreflexive t h = ground (arith, h)

  IsSorted-IsDistinct :
      (xs : List ℤ) → ((l : ℤ) → In l xs → In l (init_assum m least)) → IsSorted xs → IsDistinct xs
  IsSorted-IsDistinct [] f h = tt
  IsSorted-IsDistinct (x ∷ xs) f (h, s) = (
    All-of_In (λ k. abs x ≢ abs k) xs
        (λ k i.
          distinct_vars x k (f x (inl refl)) (f k (inr i))
            (All-In (λ y. ltb_ℤ x y ≡ true) xs k h i)),
    IsSorted-IsDistinct xs (λ l i. f l (inr i)) s,
  )

  -- With the weight map in ascending order and in step with the weights, its entries positive weights of
  -- 63 bits with literals in use, initAssum gives the literals whose weight is positive and reaches
  -- the bound, and no others; they have distinct variables and positive weights of 63 bits.
  pub init_assum_correct :
      IsDistinct (init_assum m least)
      × All (IsHeavy ws 1) (init_assum m least)
      × ((l : ℤ)
          → In l (init_assum m least)
            ↔ ((0 < abs l) × (x : ℕ) × (get ws l ≡ pos x) × (0 < x) × (least ≤ x)))
  init_assum_correct = (
    IsSorted-IsDistinct (init_assum m least) (λ l i. i) (init_assum-IsSorted m least),
    All-of_In (IsHeavy ws 1) (init_assum m least) (λ l i.
        let (u, (x, e, p, lim, le)) = assumed-weight l i in
        (u.0, u.1, (x, e, omega arith, p, lim))),
    λ l. (
      λ i. let (u, (x, e, p, lim, le)) = assumed-weight l i in (u.0, x, e, p, le),
      λ (h, x, e, p, le). weighted-assumed l x h e p le,
    ),
  )
