-- ===== src/Card/Tree.antt =====
-- The tree: every output of every node is true exactly if more literals below the node are true than
-- its index says, when the tree is built and after each growth.
use Prim.Native.Nat.{max}
use eval_max_sat.Common.{
  ℕ, zero, suc, ◌+◌, ◌-◌, ◌≤◌, ◌<◌, min, ◌≡◌, refl, sym, ap, ◌∙◌, subst, List, [], ◌∷◌, ◌++◌, All,
  arith, length, get_or, if◌then◌else◌, ltb, length-append, inl, inr, ◌⊎◌, get_or-append_left,
}
use eval_max_sat.Lazy.{Heap}
use eval_max_sat.Lazy.Invariant.{Meaning, IsModel}
use eval_max_sat.Card.{
  TotTree, leaf, node, lazy_vars, nof_input, leaves, new_ua, alloc_many, increase_ua,
}
use eval_max_sat.Card.Wire.{get_or-All}
use eval_max_sat.Card.Grow.{IsHeap, Expands, Grows, IsModel-back, Counted, Linked, linked-Linked}

-- How many of the objects the meaning makes true.
abbrev pub tally : Meaning → List ℕ → ℕ
tally M [] = 0
tally M (i ∷ is) = (if M i then 1 else 0) + tally M is

pub tally-append : (M : Meaning) (xs ys : List ℕ) → tally M (xs ++ ys) ≡ tally M xs + tally M ys
tally-append M [] ys = omega arith
tally-append M (x ∷ xs) ys = omega (arith, tally-append M xs ys)

pub tally-le : (M : Meaning) (xs : List ℕ) → tally M xs ≤ length xs
tally-le M [] = omega arith
tally-le M (x ∷ xs) = ground (arith, tally-le M xs)

-- How many literals below the node are true.
unfoldable pub count : Meaning → TotTree → ℕ
count M t = tally M (leaves t)

pub record IsNode (h : Heap) (vs : List ℕ) (n : ℕ) (l r : TotTree) : Type 0 where
  pub total : n ≡ nof_input l + nof_input r
  pub below : All (λ j. j < h.next) vs
  pub size : length vs ≤ n
  pub counts : (M : Meaning) → IsModel h.impliquants M → Counted M vs (count M l + count M r)

abbrev pub IsTree : Heap → TotTree → Type 0
IsTree h (leaf i) = (i < h.next) × (h.impliquants i ≡ [])
IsTree h (node vs n l r) = IsTree h l × IsTree h r × IsNode h vs n l r

-- The outputs that the bound asks for are there.
abbrev pub Covers : ℕ → TotTree → Type 0
Covers b t = min (b + 1) (nof_input t) ≤ length (lazy_vars t)

pub count_node :
    (M : Meaning) (vs : List ℕ) (n : ℕ) (l r : TotTree)
    → count M (node vs n l r) ≡ count M l + count M r
unfolding count leaves
count_node M vs n l r = tally-append M (leaves l) (leaves r)

pub length-leaves : (h : Heap) (t : TotTree) → IsTree h t → length (leaves t) ≡ nof_input t
unfolding leaves
length-leaves h (leaf i) w = refl
length-leaves h (node vs n l r) (a, b, c) =
    omega (
      arith,
      length-append (leaves l) (leaves r),
      length-leaves h l a,
      length-leaves h r b,
      c.total,
    )

pub count-le : (h : Heap) (M : Meaning) (t : TotTree) → IsTree h t → count M t ≤ nof_input t
unfolding count
count-le h M t w = omega (arith, tally-le M (leaves t), length-leaves h t w)

-- The statement that all this is for.
pub tree-Counted :
    (h : Heap) (M : Meaning) (t : TotTree)
    → IsModel h.impliquants M
    → IsTree h t
    → Counted M (lazy_vars t) (count M t)
unfolding count leaves
tree-Counted h M (leaf i) m w = record { at = λ k l. only k l }
  where
    only : (k : ℕ) → k < 1 → M (get_or (i ∷ []) k 0) ≡ ltb k ((if M i then 1 else 0) + 0)
    only zero l = ground arith
    only (suc k) l = absurd (omega arith)
tree-Counted h M (node vs n l r) m (a, b, c) =
    subst (Counted M vs) (sym (count_node M vs n l r)) (c.counts M m)

pub lazy_vars-below : (h : Heap) (t : TotTree) → IsTree h t → All (λ j. j < h.next) (lazy_vars t)
lazy_vars-below h (leaf i) w = (w.0, tt)
lazy_vars-below h (node vs n l r) (a, b, c) = c.below

length-lazy_vars : (h : Heap) (t : TotTree) → IsTree h t → length (lazy_vars t) ≤ nof_input t
length-lazy_vars h (leaf i) w = omega arith
length-lazy_vars h (node vs n l r) (a, b, c) = c.size

All-below : (m n : ℕ) (xs : List ℕ) → m ≤ n → All (λ j. j < m) xs → All (λ j. j < n) xs
All-below m n [] l p = tt
All-below m n (x ∷ xs) l p = (omega (arith, p.0), All-below m n xs l p.1)

-- A tree stays one while the heap grows.
pub IsTree-Expands :
    (h h' : Heap) (t : TotTree) → IsHeap h → Expands h h' → IsTree h t → IsTree h' t
IsTree-Expands h h' (leaf i) w g (l, e) = (omega (arith, g.next), g.impliquants i l ∙ e)
IsTree-Expands h h' (node vs n l r) w g (a, b, c) = (
  IsTree-Expands h h' l w g a,
  IsTree-Expands h h' r w g b,
  record {
    total = c.total;
    below = All-below h.next h'.next vs g.next c.below;
    size = c.size;
    counts = λ M m. c.counts M (IsModel-back h h' M w g m);
  },
)

pub IsTree-Grows : (h h' : Heap) (t : TotTree) → IsHeap h → Grows h h' → IsTree h t → IsTree h' t
IsTree-Grows h h' t w g = IsTree-Expands h h' t w g.expands

All-get_or :
    (n : ℕ) (xs : List ℕ) → ((t : ℕ) → t < length xs → get_or xs t 0 < n) → All (λ j. j < n) xs
All-get_or n [] f = tt
All-get_or n (x ∷ xs) f = (f 0 (omega arith), All-get_or n xs (λ t l. f (suc t) (omega arith)))

-- A node over two trees, with the outputs it had and the linked ones.
pub Linked-node :
    (h h' : Heap) (vs new : List ℕ) (rhs n : ℕ) (l r : TotTree)
    → IsHeap h
    → IsTree h l
    → IsTree h r
    → IsNode h vs n l r
    → rhs ≤ n
    → Linked h h'
        (length vs)
        rhs
        (vs ++ new)
        (lazy_vars l)
        (lazy_vars r)
        (nof_input l)
        (nof_input r)
    → IsTree h' (node (vs ++ new) n l r)
Linked-node h h' vs new rhs n l r w a b c le k = (
  IsTree-Grows h h' l w k.grows a,
  IsTree-Grows h h' r w k.grows b,
  record {
    total = c.total;
    below = All-get_or h'.next (vs ++ new) at_below;
    size = omega (arith, k.size);
    counts = λ M m. record { at = at_count M m };
  },
)
  where
    split : (t : ℕ) → (t < length vs) ⊎ (length vs ≤ t)
    split t = omega arith

    at_below : (t : ℕ) → t < length (vs ++ new) → get_or (vs ++ new) t 0 < h'.next
    at_below t u = elim (split t) [
      | inl old ↦
          omega
            (arith, get_or-append_left vs new t 0 old, get_or-All vs t c.below old, k.grows.next)
      | inr fresh ↦ k.old t fresh (omega (arith, k.size))
    ]

    at_count :
        (M : Meaning)
        → IsModel h'.impliquants M
        → (t : ℕ) → t < length (vs ++ new)
        → M (get_or (vs ++ new) t 0) ≡ ltb t (count M l + count M r)
    at_count M m t u =
        let m0 = IsModel-back h h' M w k.grows.expands m in
        elim (split t) [
          | inl old ↦ ap M (get_or-append_left vs new t 0 old) ∙ (c.counts M m0).at t old
          | inr fresh ↦
              k.counts M (count M l) (count M r) m (tree-Counted h M l m0 a)
                (tree-Counted h M r m0 b) (count-le h M l a) (count-le h M r b) t fresh
                (omega (arith, k.size))
        ]

-- What a growth of a tree gives.
pub record Grown (h h' : Heap) (t t' : TotTree) (bound : ℕ) : Type 0 where
  pub heap : IsHeap h'
  pub grows : Grows h h'
  pub tree : IsTree h' t'
  pub inputs : nof_input t' ≡ nof_input t
  pub covers : Covers bound t'
  pub same : leaves t' ≡ leaves t

pub increase_ua-Linked :
    (h : Heap)
    → IsHeap h
    → (vs : List ℕ) (l r : TotTree) (rhs : ℕ) → length vs ≤ rhs
    → IsTree h l
    → IsTree h r
    → min rhs (nof_input l) ≤ length (lazy_vars l)
    → min rhs (nof_input r) ≤ length (lazy_vars r)
    → rhs ≤ nof_input l + nof_input r
    → let out = increase_ua h vs (lazy_vars l) (lazy_vars r) rhs in
      (new : List ℕ) × (out.1 ≡ vs ++ new)
      × Linked h out.0
          (length vs)
          rhs
          (vs ++ new)
          (lazy_vars l)
          (lazy_vars r)
          (nof_input l)
          (nof_input r)
unfolding increase_ua
increase_ua-Linked h w vs l r rhs fits a b ea eb room = (
  (alloc_many (rhs - length vs) h).1,
  refl,
  linked-Linked h w vs (lazy_vars l) (lazy_vars r) rhs (nof_input l) (nof_input r) fits
      (lazy_vars-below h l a) (lazy_vars-below h r b) (length-lazy_vars h l a)
      (length-lazy_vars h r b) ea eb room (λ i. max (suc (length vs) - i) 1)
      (λ i p. (omega arith, omega arith)) (λ i j p q s. omega arith),
)

pub new_ua-Linked :
    (h : Heap)
    → IsHeap h
    → (l r : TotTree) (rhs : ℕ) → IsTree h l
    → IsTree h r
    → min rhs (nof_input l) ≤ length (lazy_vars l)
    → min rhs (nof_input r) ≤ length (lazy_vars r)
    → rhs ≤ nof_input l + nof_input r
    → Linked h
        (new_ua (alloc_many rhs h).0 (alloc_many rhs h).1 rhs (lazy_vars l) (lazy_vars r))
        0
        rhs
        (alloc_many rhs h).1
        (lazy_vars l)
        (lazy_vars r)
        (nof_input l)
        (nof_input r)
unfolding new_ua
new_ua-Linked h w l r rhs a b ea eb room =
    subst
      (λ k.
        Linked h (new_ua (alloc_many k h).0 (alloc_many k h).1 rhs (lazy_vars l) (lazy_vars r)) 0
          rhs (alloc_many k h).1 (lazy_vars l) (lazy_vars r) (nof_input l) (nof_input r))
      (sub-zero rhs)
      (linked-Linked h w [] (lazy_vars l) (lazy_vars r) rhs (nof_input l) (nof_input r)
        (omega arith) (lazy_vars-below h l a) (lazy_vars-below h r b) (length-lazy_vars h l a)
        (length-lazy_vars h r b) ea eb room (λ i. 1) (λ i p. (omega arith, omega arith))
        (λ i j p q s. omega arith))
  where
    sub-zero : (n : ℕ) → n - 0 ≡ n
    sub-zero n = omega arith

pub count-same : (M : Meaning) (t t' : TotTree) → leaves t ≡ leaves t' → count M t ≡ count M t'
unfolding count
count-same M t t' e = ap (tally M) e
