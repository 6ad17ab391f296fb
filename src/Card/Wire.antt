-- ===== src/Card/Wire.antt =====
-- The impliquants of a node's outputs: with the children's outputs counting the true literals below
-- them in unary, output `t` of the node is true exactly if the two counts exceed `t` together.
use eval_max_sat.Common.{
  All-snoc, ℕ, zero, suc, ◌+◌, ◌-◌, ◌≤◌, ◌<◌, min, ◌≡◌, ◌≢◌, sym, ap, ◌∙◌, subst, List, [], ◌∷◌,
  ◌++◌, Bool, true, false, ◌||◌, All, all, any, arith, length, get_or, if◌then◌else◌, ◌==◌, ltb,
  Bool-cases, inl, inr, ◌⊎◌, Bool-ext,
}
use eval_max_sat.Common.Loop.{for_to_inv, for_to_hits}
use eval_max_sat.Lazy.{Heap, add_impliquant, update}
use eval_max_sat.Lazy.Invariant.{Meaning, value, IsAcyclic}
use eval_max_sat.Card.{units, pairs}

pub any-snoc {ℓ} :
    {A : Type ℓ} (p : A → Bool) (xs : List A) (y : A) → any p (xs ++ y ∷ []) ≡ (any p xs || p y)
any-snoc p [] y = ground arith
any-snoc p (x ∷ xs) y = ground (arith, any-snoc p xs y)

pub get_or-All :
    {n : ℕ} (xs : List ℕ) (i : ℕ) → All (λ j. j < n) xs → i < length xs → get_or xs i 0 < n
get_or-All [] i h l = elim l [ ]
get_or-All (x ∷ xs) zero h l = h.0
get_or-All (x ∷ xs) (suc i) h l = get_or-All xs i h.1 (omega arith)

-- Another impliquant can only make an object true.
value-add :
    (M : Meaning) (h : Heap) (i k : ℕ) (js : List ℕ)
    → value M ((add_impliquant h i js).impliquants k)
      ≡ (if i == k then value M (h.impliquants k) || all M js else value M (h.impliquants k))
unfolding add_impliquant
value-add M h i k js = elim (Bool-cases (i == k)) [
  | inl y ↦
      let e : i ≡ k = ground arith in
      rw y
        (any-snoc (all M) (h.impliquants i) js ∙ ap (λ n. value M (h.impliquants n) || all M js) e)
  | inr n ↦ rw n
]

-- `og` names the objects from `base` on at its indices from `last` up to `rhs`.
module _ (h0 : Heap) (base last rhs : ℕ) (og a b : List ℕ)
    (ids : (t : ℕ) → last ≤ t → t < rhs → get_or og t 0 ≡ base + (t - last))
    (below_a : All (λ j. j < base) a) (below_b : All (λ j. j < base) b) where
  -- Nothing but the impliquants of those objects changes.
  pub record Frame (h : Heap) : Type 0 where
    pub next : h.next ≡ h0.next
    pub var : h.var ≡ h0.var
    pub low : (i : ℕ) → i < base → h.impliquants i ≡ h0.impliquants i
    pub high : (i : ℕ) → base + (rhs - last) ≤ i → h.impliquants i ≡ h0.impliquants i
    pub acyclic : IsAcyclic h.impliquants

  -- An output at index `t` gets an impliquant.
  abbrev put : Heap → ℕ → List ℕ → Heap
  put h t js = add_impliquant h (get_or og t 0) js

  put-Frame :
      (h : Heap) (t : ℕ) (js : List ℕ)
      → last ≤ t
      → t < rhs
      → All (λ j. j < base) js
      → Frame h
      → Frame (put h t js)
  unfolding add_impliquant
  put-Frame h t js l u bj f = rw (ids t l u) (record {
    next = f.next;
    var = f.var;
    low = λ i b. other i (λ e. absurd (omega arith)) ∙ f.low i b;
    high = λ i b. other i (λ e. absurd (omega arith)) ∙ f.high i b;
    acyclic = λ i. elim (Bool-cases (base + (t - last) == i)) [
      | inl y ↦
          let e : base + (t - last) ≡ i = ground arith in
          rw y (
            subst (λ k. All (All (λ j. j < k)) (h.impliquants (base + (t - last)) ++ js ∷ [])) e
              (All-snoc (All (λ j. j < base + (t - last))) _ js (f.acyclic (base + (t - last)))
                (weaken js bj)))
      | inr n ↦ rw n (f.acyclic i)
    ];
  })
    where
      other :
          (i : ℕ)
          → base + (t - last) ≢ i
          → update h.impliquants
              (base + (t - last))
              (h.impliquants (base + (t - last)) ++ js ∷ [])
              i
            ≡ h.impliquants i
      other i ne = ground arith

      weaken : (xs : List ℕ) → All (λ j. j < base) xs → All (λ j. j < base + (t - last)) xs
      weaken [] p = tt
      weaken (x ∷ xs) p = (omega (arith, p.0), weaken xs p.1)

  abbrev pub output : Meaning → Heap → ℕ → Bool
  output M h t = value M (h.impliquants (base + (t - last)))

  put-output :
      (M : Meaning) (h : Heap) (t k : ℕ) (js : List ℕ)
      → output M h k ≡ true
      → output M (put h t js) k ≡ true
  put-output M h t k js e = value-add M h (get_or og t 0) (base + (k - last)) js ∙ ground arith

  put-output_self :
      (M : Meaning) (h : Heap) (t : ℕ) (js : List ℕ)
      → last ≤ t
      → t < rhs
      → all M js ≡ true
      → output M (put h t js) t ≡ true
  put-output_self M h t js l u e =
      value-add M h (get_or og t 0) (base + (t - last)) js ∙ rw (ids t l u) (ground arith)

  units-Frame :
      (xs : List ℕ) (h : Heap) → All (λ j. j < base) xs → Frame h → Frame (units last rhs og xs h)
  unfolding units
  units-Frame xs h bx f =
      for_to_inv Frame _ last (min rhs (length xs))
        (λ k g l u p.
          put-Frame g k (get_or xs k 0 ∷ []) l (omega arith) (get_or-All xs k bx (omega arith), tt)
            p)
        h f

  -- Under a meaning that gives the children's outputs the counts `ca` and `cb`.
  module _ (M : Meaning) (ca cb : ℕ)
      (count_a : (i : ℕ) → i < length a → M (get_or a i 0) ≡ ltb i ca)
      (count_b : (i : ℕ) → i < length b → M (get_or b i 0) ≡ ltb i cb) where
    -- No output is true but by a count that exceeds it.
    abbrev IsSound : Heap → Type 0
    IsSound h = (t : ℕ) → last ≤ t → t < rhs → output M h t ≡ true → t < ca + cb

    put-IsSound :
        (h : Heap) (t : ℕ) (js : List ℕ)
        → last ≤ t
        → t < rhs
        → (all M js ≡ true → t < ca + cb)
        → IsSound h
        → IsSound (put h t js)
    put-IsSound h t js l u f s k lk uk e =
        elim (Bool-cases (base + (t - last) == base + (k - last))) [
          | inl y ↦
              let same : t ≡ k = ground arith in
              elim (or_cases _ _ (sym (rw y at v) ∙ e)) [
                | inl old ↦ s k lk uk old
                | inr new ↦ subst (λ n. n < ca + cb) same (f new)
              ]
          | inr n ↦ s k lk uk (sym (rw n at v) ∙ e)
        ]
      where
        or_cases : (x y : Bool) → (x || y) ≡ true → (x ≡ true) ⊎ (y ≡ true)
        or_cases x y h = ground arith

        v : output M (put h t js) k ≡ (
            if base + (t - last) == base + (k - last)
            then output M h k || all M js
            else output M h k)
        v =
            subst
              (λ i.
                value M ((add_impliquant h (get_or og t 0) js).impliquants (base + (k - last)))
                ≡ (if i == base + (k - last) then output M h k || all M js else output M h k))
              (ids t l u) (value-add M h (get_or og t 0) (base + (k - last)) js)

    units-IsSound :
        (xs : List ℕ) (c : ℕ)
        → c ≤ ca + cb
        → ((i : ℕ) → i < length xs → M (get_or xs i 0) ≡ ltb i c)
        → (h : Heap) → IsSound h
        → IsSound (units last rhs og xs h)
    unfolding units
    units-IsSound xs c le count h s =
        for_to_inv IsSound _ last (min rhs (length xs))
          (λ k g l u p.
            put-IsSound g k (get_or xs k 0 ∷ []) l (omega arith) (λ e. ground (arith, count k)) p)
          h s

  module _ (minj : ℕ → ℕ) (low_j : (i : ℕ) → 1 ≤ i → (1 ≤ minj i) × (last + 1 ≤ i + minj i)) where
    pairs-Frame : (h : Heap) → Frame h → Frame (pairs minj rhs og a b h)
    unfolding pairs
    pairs-Frame h f =
        for_to_inv Frame _ 1 (suc (min rhs (length a)))
          (λ i g l u p.
            for_to_inv Frame _ (minj i) (suc (min (rhs - i) (length b)))
              (λ j g' lj uj q.
                put-Frame g' (i + j - 1) _ (omega (arith, low_j i l)) (omega (arith, low_j i l))
                  (
                    get_or-All a (i - 1) below_a (omega arith),
                    (get_or-All b (j - 1) below_b (omega (arith, low_j i l)), tt),
                  )
                  q)
              g p)
          h f

  module _ (minj : ℕ → ℕ) (low_j : (i : ℕ) → 1 ≤ i → (1 ≤ minj i) × (last + 1 ≤ i + minj i))
      (high_j : (i j : ℕ) → 1 ≤ i → 1 ≤ j → last + 1 ≤ i + j → minj i ≤ j) where
    abbrev pub wire : Heap → Heap
    wire h = pairs minj rhs og a b (units last rhs og a (units last rhs og b h))

    pub wire-Frame : (h : Heap) → Frame h → Frame (wire h)
    wire-Frame h f = pairs-Frame minj low_j _ (units-Frame a _ below_a (units-Frame b h below_b f))

    module _ (M : Meaning) (ca cb : ℕ)
        (count_a : (i : ℕ) → i < length a → M (get_or a i 0) ≡ ltb i ca)
        (count_b : (i : ℕ) → i < length b → M (get_or b i 0) ≡ ltb i cb) where
      pairs-IsSound :
          (h : Heap)
          → IsSound M ca cb count_a count_b h
          → IsSound M ca cb count_a count_b (pairs minj rhs og a b h)
      unfolding pairs
      pairs-IsSound h s =
          for_to_inv (IsSound M ca cb count_a count_b) _ 1 (suc (min rhs (length a)))
            (λ i g l u p.
              for_to_inv (IsSound M ca cb count_a count_b) _ (minj i)
                (suc (min (rhs - i) (length b)))
                (λ j g' lj uj q.
                  put-IsSound M ca cb count_a count_b g' (i + j - 1) _ (omega (arith, low_j i l))
                    (omega (arith, low_j i l))
                    (λ e. ground (arith, count_a (i - 1), count_b (j - 1), low_j i l)) q)
                g p)
            h s

      -- An output that a pair of outputs reaches.
      pairs-hits :
          (h : Heap) (t i j : ℕ)
          → last ≤ t
          → t < rhs
          → 1 ≤ i
          → i ≤ min rhs (length a)
          → 1 ≤ j
          → j ≤ min (rhs - i) (length b)
          → suc t ≡ i + j
          → i ≤ ca
          → j ≤ cb
          → output M (pairs minj rhs og a b h) t ≡ true
      unfolding pairs
      pairs-hits h t i j l u i1 i2 j1 j2 e hi hj =
          for_to_hits (λ g. output M g t ≡ true) _ i
            (λ k g p.
              for_to_inv (λ g'. output M g' t ≡ true) _ (minj k) (suc (min (rhs - k) (length b)))
                (λ n g' _ _ q. put-output M g' (k + n - 1) t _ q) g p)
            (λ g.
              for_to_hits (λ g'. output M g' t ≡ true) _ j
                (λ n g' q. put-output M g' (i + n - 1) t _ q)
                (λ g'.
                  subst (λ n. output M (put g' n both_ids) t ≡ true) at_t
                    (put-output_self M g' t both_ids l u both))
                (minj i) (suc (min (rhs - i) (length b))) g (high_j i j i1 j1 (omega arith))
                (omega arith))
            1 (suc (min rhs (length a))) h i1 (omega arith)
        where
          at_t : t ≡ i + j - 1
          at_t = omega arith

          both_ids : List ℕ
          both_ids = get_or a (i - 1) 0 ∷ get_or b (j - 1) 0 ∷ []

          both : all M both_ids ≡ true
          both = ground (arith, count_a (i - 1), count_b (j - 1))

      pairs-keeps :
          (h : Heap) (t : ℕ) → output M h t ≡ true → output M (pairs minj rhs og a b h) t ≡ true
      unfolding pairs
      pairs-keeps h t e =
          for_to_inv (λ g. output M g t ≡ true) _ 1 (suc (min rhs (length a)))
            (λ k g _ _ p.
              for_to_inv (λ g'. output M g' t ≡ true) _ (minj k) (suc (min (rhs - k) (length b)))
                (λ n g' _ _ q. put-output M g' (k + n - 1) t _ q) g p)
            h e

      units-keeps :
          (xs : List ℕ) (h : Heap) (t : ℕ)
          → output M h t ≡ true
          → output M (units last rhs og xs h) t ≡ true
      unfolding units
      units-keeps xs h t e =
          for_to_inv (λ g. output M g t ≡ true) _ last (min rhs (length xs))
            (λ n g _ _ q. put-output M g n t _ q) h e

      -- An output that one child's output reaches alone.
      units-hits :
          (xs : List ℕ) (h : Heap) (t : ℕ)
          → last ≤ t
          → t < rhs
          → t < length xs
          → M (get_or xs t 0) ≡ true
          → output M (units last rhs og xs h) t ≡ true
      unfolding units
      units-hits xs h t l u lx e =
          for_to_hits (λ g. output M g t ≡ true) _ t (λ n g q. put-output M g n t _ q)
            (λ g. put-output_self M g t _ l u (rw e)) last (min rhs (length xs)) h l (omega arith)

      -- The outputs count what the children's outputs count together.
      pub wire-output :
          (h : Heap) (t na nb : ℕ)
          → last ≤ t
          → t < rhs
          → ca ≤ na
          → cb ≤ nb
          → min rhs na ≤ length a
          → min rhs nb ≤ length b
          → ((k : ℕ) → last ≤ k → k < rhs → h.impliquants (base + (k - last)) ≡ [])
          → output M (wire h) t ≡ ltb t (ca + cb)
      wire-output h t na nb l u ha hb sa sb blank =
          Bool-ext _ _ (λ e. ground (arith, sound t l u e)) (λ e. hit (ground arith))
        where
          sound : IsSound M ca cb count_a count_b (wire h)
          sound = pairs-IsSound _ (
              units-IsSound M ca cb count_a count_b a ca (omega arith) count_a _ (
                units-IsSound M ca cb count_a count_b b cb (omega arith) count_b h
                  (λ k lk uk e. absurd (false_true (sym (rw (blank k lk uk)) ∙ e)))))
            where
              false_true : false ≡ true → ⊥
              false_true e = cc

          hit : t < ca + cb → output M (wire h) t ≡ true
          hit lt = elim (which) [
            | inl tb ↦
                pairs-keeps _ t (
                  units-keeps a _ t
                    (units-hits b h t l u (omega arith) (ground (arith, count_b t))))
            | inr (inl ta) ↦
                pairs-keeps _ t (units-hits a _ t l u (omega arith) (ground (arith, count_a t)))
            | inr (inr (ga, gb)) ↦
                pairs-hits _ t ca (suc t - ca) l u (omega arith) (omega arith) (omega arith)
                  (omega arith) (omega arith) (omega arith) (omega arith)
          ]
            where
              which : (t < cb) ⊎ ((t < ca) ⊎ ((ca ≤ t) × (cb ≤ t)))
              which = omega arith
