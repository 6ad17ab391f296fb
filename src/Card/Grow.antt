-- ===== src/Card/Grow.antt =====
-- Growing the heap: new outputs of one node, linked to the outputs of its children.
use eval_max_sat.Common.{
  ℕ, zero, suc, ◌+◌, ◌-◌, ◌≤◌, ◌<◌, min, ◌≡◌, ◌≢◌, refl, sym, ap, ◌∙◌, subst, List, [], ◌∷◌, ◌++◌,
  true, false, All, arith, length, get_or, ltb, some, none, length-append, inl, inr, ◌⊎◌,
}
use eval_max_sat.Common.Int.{ℤ}
use eval_max_sat.Lazy.{Heap, alloc}
use eval_max_sat.Lazy.Invariant.{Meaning, value, IsModel, IsAcyclic}
use eval_max_sat.Card.{alloc_many}
use eval_max_sat.Card.Wire.{Frame, wire, wire-Frame, wire-output}

-- Places that hold no object are blank, and an object with no impliquant is a literal.
pub record IsHeap (h : Heap) : Type 0 where
  pub acyclic : IsAcyclic h.impliquants
  pub fresh : (i : ℕ) → h.next ≤ i → h.impliquants i ≡ []
  pub unset : (i : ℕ) → h.next ≤ i → h.var i ≡ none
  pub leafy : (i : ℕ) → i < h.next → h.impliquants i ≡ [] → (w : ℤ) × (h.var i ≡ some w)

-- New objects may come; the old ones stay.
pub record Expands (h h' : Heap) : Type 0 where
  pub next : h.next ≤ h'.next
  pub impliquants : (i : ℕ) → i < h.next → h'.impliquants i ≡ h.impliquants i

-- None of the new objects has a literal.
pub record Grows (h h' : Heap) : Type 0 where
  pub expands : Expands h h'
  pub open expands use *
  pub var : (i : ℕ) → h'.var i ≡ h.var i

pub Expands-trans : (h g k : Heap) → Expands h g → Expands g k → Expands h k
Expands-trans h g k e f = record {
  next = omega (arith, e.next, f.next);
  impliquants = λ i l. f.impliquants i (omega (arith, e.next)) ∙ e.impliquants i l;
}

pub Grows-refl : (h : Heap) → Grows h h
Grows-refl h = record {
  expands = record { next = omega arith; impliquants = λ i l. refl };
  var = λ i. refl;
}

pub Grows-trans : (h g k : Heap) → Grows h g → Grows g k → Grows h k
Grows-trans h g k e f = record {
  expands = Expands-trans h g k e.expands f.expands;
  var = λ i. f.var i ∙ e.var i;
}

-- A meaning of the grown heap is one of the old heap.
pub IsModel-back :
    (h h' : Heap) (M : Meaning)
    → IsHeap h
    → Expands h h'
    → IsModel h'.impliquants M
    → IsModel h.impliquants M
IsModel-back h h' M w g m i ne = elim (split) [
  | inl l ↦ let e = g.impliquants i l in m i (λ z. ne (sym e ∙ z)) ∙ ap (value M) e
  | inr z ↦ absurd (ne (w.fresh i z))
]
  where
    split : (i < h.next) ⊎ (h.next ≤ i)
    split = omega arith

-- The heap with `n` more objects looks the same at every place.
pub record Blank (n : ℕ) (h h' : Heap) (is : List ℕ) : Type 0 where
  pub next : h'.next ≡ h.next + n
  pub impliquants : (i : ℕ) → h'.impliquants i ≡ h.impliquants i
  pub var : (i : ℕ) → h'.var i ≡ h.var i
  pub count : length is ≡ n
  pub ids : (k : ℕ) → k < n → get_or is k 0 ≡ h.next + k

-- A new object is blank.
alloc-impliquants :
    (h : Heap)
    → ((i : ℕ) → h.next ≤ i → h.impliquants i ≡ [])
    → (i : ℕ) → (alloc h).0.impliquants i ≡ h.impliquants i
unfolding alloc
alloc-impliquants h f i = ground (arith, f i)

alloc-var :
    (h : Heap) → ((i : ℕ) → h.next ≤ i → h.var i ≡ none) → (i : ℕ) → (alloc h).0.var i ≡ h.var i
unfolding alloc
alloc-var h u i = ground (arith, u i)

alloc_then :
    (n : ℕ) (h : Heap) (h' : Heap) (is : List ℕ)
    → ((i : ℕ) → h.next ≤ i → h.impliquants i ≡ [])
    → ((i : ℕ) → h.next ≤ i → h.var i ≡ none)
    → Blank n (alloc h).0 h' is
    → Blank (suc n) h h' (h.next ∷ is)
unfolding alloc
alloc_then n h h' is f u rest = record {
  next = omega (arith, rest.next);
  impliquants = λ i. rest.impliquants i ∙ alloc-impliquants h f i;
  var = λ i. rest.var i ∙ alloc-var h u i;
  count = ap suc rest.count;
  ids = λ k l. at_k k l;
}
  where
    at_k : (k : ℕ) → k < suc n → get_or (h.next ∷ is) k 0 ≡ h.next + k
    at_k zero l = omega arith
    at_k (suc k) l = omega (arith, rest.ids k (omega arith))

pub alloc_many-Blank :
    (n : ℕ) (h : Heap)
    → ((i : ℕ) → h.next ≤ i → h.impliquants i ≡ [])
    → ((i : ℕ) → h.next ≤ i → h.var i ≡ none)
    → Blank n h (alloc_many n h).0 (alloc_many n h).1
unfolding alloc_many
alloc_many-Blank zero h f u = record {
  next = omega arith;
  impliquants = λ i. refl;
  var = λ i. refl;
  count = refl;
  ids = λ k l. absurd (omega arith);
}
alloc_many-Blank (suc n) h f u = alloc_then n h _ _ f u (
    alloc_many-Blank n (alloc h).0 (λ i l. alloc-impliquants h f i ∙ f i (omega arith))
      (λ i l. alloc-var h u i ∙ u i (omega arith)))

get_or-append_right :
    (xs ys : List ℕ) (k : ℕ) → length xs ≤ k → get_or (xs ++ ys) k 0 ≡ get_or ys (k - length xs) 0
get_or-append_right [] ys k l = ap (λ n. get_or ys n 0) (omega arith)
get_or-append_right (x ∷ xs) ys zero l = absurd (omega arith)
get_or-append_right (x ∷ xs) ys (suc k) l =
    get_or-append_right xs ys k (omega arith) ∙ ap (λ n. get_or ys n 0) (omega arith)

-- The children's outputs `a` and `b` under a meaning that makes them counts.
pub record Counted (M : Meaning) (xs : List ℕ) (c : ℕ) : Type 0 where
  pub at : (i : ℕ) → i < length xs → M (get_or xs i 0) ≡ ltb i c

-- What a node with the outputs `vs` and new ones up to `rhs` needs of its children.
pub record Linked (h h' : Heap) (last rhs : ℕ) (og a b : List ℕ) (na nb : ℕ) : Type 0 where
  pub heap : IsHeap h'
  pub grows : Grows h h'
  pub size : length og ≡ rhs
  pub old : (t : ℕ) → last ≤ t → t < rhs → get_or og t 0 < h'.next
  pub counts :
      (M : Meaning) (ca cb : ℕ)
      → IsModel h'.impliquants M
      → Counted M a ca
      → Counted M b cb
      → ca ≤ na
      → cb ≤ nb
      → (t : ℕ) → last ≤ t
      → t < rhs
      → M (get_or og t 0) ≡ ltb t (ca + cb)

module _ (h : Heap) (w : IsHeap h) (vs a b : List ℕ) (rhs na nb : ℕ) (fits : length vs ≤ rhs)
    (below_a : All (λ j. j < h.next) a) (below_b : All (λ j. j < h.next) b) (len_a : length a ≤ na)
    (len_b : length b ≤ nb) (enough_a : min rhs na ≤ length a) (enough_b : min rhs nb ≤ length b)
    (room : rhs ≤ na + nb) (minj : ℕ → ℕ)
    (low_j : (i : ℕ) → 1 ≤ i → (1 ≤ minj i) × (length vs + 1 ≤ i + minj i))
    (high_j : (i j : ℕ) → 1 ≤ i → 1 ≤ j → length vs + 1 ≤ i + j → minj i ≤ j) where
  abbrev pub h1 : Heap
  h1 = (alloc_many (rhs - length vs) h).0

  abbrev pub og : List ℕ
  og = vs ++ (alloc_many (rhs - length vs) h).1

  blank : Blank (rhs - length vs) h h1 (alloc_many (rhs - length vs) h).1
  blank = alloc_many-Blank (rhs - length vs) h w.fresh w.unset

  pub ids : (t : ℕ) → length vs ≤ t → t < rhs → get_or og t 0 ≡ h.next + (t - length vs)
  ids t l u =
      get_or-append_right vs (alloc_many (rhs - length vs) h).1 t l ∙ blank.ids _ (omega arith)

  abbrev pub linked : Heap
  linked = wire h1 h.next (length vs) rhs og a b ids below_a below_b minj low_j high_j h1

  frame : Frame h1 h.next (length vs) rhs og a b ids below_a below_b linked
  frame =
      wire-Frame h1 h.next (length vs) rhs og a b ids below_a below_b minj low_j high_j h1 (record {
        next = refl;
        var = refl;
        low = λ i l. refl;
        high = λ i l. refl;
        acyclic = λ i. subst (All (All (λ j. j < i))) (sym (blank.impliquants i)) (w.acyclic i);
      })

  output_lem :
      (M : Meaning) (ca cb : ℕ)
      → Counted M a ca
      → Counted M b cb
      → ca ≤ na
      → cb ≤ nb
      → (t : ℕ) → length vs ≤ t
      → t < rhs
      → value M (linked.impliquants (h.next + (t - length vs))) ≡ ltb t (ca + cb)
  output_lem M ca cb ka kb la lb t l u =
      wire-output h1 h.next (length vs) rhs og a b ids below_a below_b minj low_j high_j M ca cb
        ka.at kb.at h1 t na nb l u la lb enough_a enough_b
        (λ k lk uk. blank.impliquants _ ∙ w.fresh _ (omega arith))

  -- Where all literals are true so is every output: none of them lacks impliquants.
  linked_ne : (t : ℕ) → length vs ≤ t → t < rhs → linked.impliquants (h.next + (t - length vs)) ≢ []
  linked_ne t l u z = false_true (sym (ap (value (λ _. true)) z) ∙ full)
    where
      false_true : false ≡ true → ⊥
      false_true e = cc

      full : value (λ _. true) (linked.impliquants (h.next + (t - length vs))) ≡ true
      full =
          output_lem (λ _. true) na nb (record { at = λ i k. ground arith })
            (record { at = λ i k. ground arith }) (omega arith) (omega arith) t l u
          ∙ ground arith

  pub linked-Linked : Linked h linked (length vs) rhs og a b na nb
  linked-Linked = record {
    heap = record {
      acyclic = frame.acyclic;
      fresh = λ i l.
          frame.high i (omega (arith, frame.next, blank.next))
          ∙ blank.impliquants i
          ∙ w.fresh i (omega (arith, frame.next, blank.next));
      unset = λ i l.
          ap (λ v. v i) frame.var ∙ blank.var i ∙ w.unset i (omega (arith, frame.next, blank.next));
      leafy = λ i l z. elim (split i) [
        | inl below ↦
            let (x, e) = w.leafy i below (sym (frame.low i below ∙ blank.impliquants i) ∙ z) in
            (x, ap (λ v. v i) frame.var ∙ blank.var i ∙ e)
        | inr above ↦ absurd (
            linked_ne (length vs + (i - h.next)) (omega arith)
              (omega (arith, frame.next, blank.next))
              (subst (λ k. linked.impliquants k ≡ []) (omega arith) z))
      ];
    };
    grows = record {
      expands = record {
        next = omega (arith, frame.next, blank.next);
        impliquants = λ i l. frame.low i l ∙ blank.impliquants i;
      };
      var = λ i. ap (λ v. v i) frame.var ∙ blank.var i;
    };
    size = omega (arith, length-append vs (alloc_many (rhs - length vs) h).1, blank.count);
    old = λ t l u. omega (arith, ids t l u, frame.next, blank.next);
    counts = λ M ca cb m ka kb la lb t l u.
        ap M (ids t l u) ∙ m _ (linked_ne t l u) ∙ output_lem M ca cb ka kb la lb t l u;
  }
    where
      split : (i : ℕ) → (i < h.next) ⊎ (h.next ≤ i)
      split i = omega arith
