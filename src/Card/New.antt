-- ===== src/Card/New.antt =====
-- A new totalizer over a clause counts the clause's literals.
use eval_max_sat.Common.{
  ℕ, suc, ◌≤◌, ◌<◌, ◌≡◌, refl, sym, ap, ◌∙◌, subst, List, [], ◌∷◌, All, arith, length,
  if◌then◌else◌, ◌==◌, some, none-ne_some, Bool-cases, inl, inr, ◌⊎◌,
}
use eval_max_sat.Common.Int.{ℤ, abs}
use eval_max_sat.Common.Assign.{Clause, Assignment}
use eval_max_sat.Lazy.{ClauseSink, Heap, Vars, alloc_leaf, empty_heap}
use eval_max_sat.Lazy.Invariant.{Meaning, Within}
use eval_max_sat.Lazy.Model.{model_same, model_leaf}
use eval_max_sat.Card.{TotTree, leaf, leaves, leaf_queue}
use eval_max_sat.Card.Grow.{IsHeap, Expands, Expands-trans, IsModel-back}
use eval_max_sat.Card.Tree.{tally, IsTree, IsTree-Expands}
use eval_max_sat.Card.Build.{forest, AreTrees}
use eval_max_sat.Card.Ready.{IsReady, Faithful, some_below}
use eval_max_sat.Card.Trues.{trues, value_of, literal_value, leaf_lits}

-- The literals counted one by one are the objects counted.
pub tally-leaf_lits :
    (var : Vars) (a : Assignment) (is : List ℕ)
    → tally (literal_value var a) is ≡ trues a (leaf_lits var is)
tally-leaf_lits var a [] = refl
tally-leaf_lits var a (i ∷ is) = ground (arith, tally-leaf_lits var a is)

pub tally_same : (M N : Meaning) → ((i : ℕ) → M i ≡ N i) → (is : List ℕ) → tally M is ≡ tally N is
tally_same M N e [] = refl
tally_same M N e (i ∷ is) = rw (e i, tally_same M N e is)

-- Literals of variables in use.
abbrev pub AreLiterals : ℕ → Clause → Type 0
AreLiterals n c = All (λ l. (0 < abs l) × (abs l ≤ n)) c

module _ (T : ClauseSink) where
  open T use {State, vars, clauses}

  -- The empty heap is ready for any solver whose clauses are over its variables.
  pub empty_heap-IsReady : (s : State) → All (Within (vars s)) (clauses s) → IsReady T s empty_heap
  empty_heap-IsReady s known = record {
    heap = record {
      acyclic = λ i. tt;
      fresh = λ i h. refl;
      unset = λ i h. refl;
      leafy = λ i h e. elim h [ ];
    };
    inv = record {
      leaf = λ i h e. elim h [ ];
      bounded = λ i w e. absurd (none-ne_some e);
      within = known;
      justified = λ i w h. elim h [ ];
    };
  }

  -- What a heap with further leaves keeps.
  pub record Planted (s : State) (h h' : Heap) : Type 0 where
    pub ready : IsReady T s h'
    pub expands : Expands h h'
    pub keeps : (i : ℕ) (w : ℤ) → h.var i ≡ some w → h'.var i ≡ some w
    pub faithful : (a : Assignment) → Faithful T s h a → Faithful T s h' a

  pub Planted-trans : (s : State) (h g k : Heap) → Planted s h g → Planted s g k → Planted s h k
  Planted-trans s h g k p q = record {
    ready = q.ready;
    expands = Expands-trans h g k p.expands q.expands;
    keeps = λ i w e. q.keeps i w (p.keeps i w e);
    faithful = λ a f. q.faithful a (p.faithful a f);
  }

  module _ (s : State) (h : Heap) (lit : ℤ) (r : IsReady T s h)
      (b : (0 < abs lit) × (abs lit ≤ vars s)) where
    abbrev h' : Heap
    h' = (alloc_leaf h lit).0

    leaf_imps : (i : ℕ) → h'.impliquants i ≡ h.impliquants i
    unfolding alloc_leaf
    leaf_imps i = ground (arith, r.heap.fresh i)

    leaf_next : h'.next ≡ suc h.next
    unfolding alloc_leaf
    leaf_next = refl

    leaf_var : (i : ℕ) → h'.var i ≡ (if h.next == i then some lit else h.var i)
    unfolding alloc_leaf
    leaf_var i = refl

    leaf_keeps : (i : ℕ) (w : ℤ) → h.var i ≡ some w → h'.var i ≡ some w
    leaf_keeps i w e = leaf_var i ∙ ground (arith, some_below T h r.heap i w e)

    -- A literal that is there is an old one, or the new one at its place.
    leaf_cases :
        (i : ℕ) (w : ℤ) → h'.var i ≡ some w → ((h.next ≡ i) × (lit ≡ w)) ⊎ (h.var i ≡ some w)
    leaf_cases i w e = elim (Bool-cases (h.next == i)) [
      | inl y ↦ let q : some lit ≡ some w = sym (rw y at (leaf_var i)) ∙ e in inl (ground arith, cc)
      | inr z ↦ inr (sym (rw z at (leaf_var i)) ∙ e)
    ]

    leaf_imps_new : h'.impliquants h.next ≡ []
    leaf_imps_new = leaf_imps h.next ∙ r.heap.fresh h.next (omega arith)

    leaf-Expands : Expands h h'
    leaf-Expands = record { next = omega (arith, leaf_next); impliquants = λ i l. leaf_imps i }

    leaf-IsHeap : IsHeap h'
    leaf-IsHeap = record {
      acyclic = λ i. subst (All (All (λ j. j < i))) (sym (leaf_imps i)) (r.heap.acyclic i);
      fresh = λ i l. leaf_imps i ∙ r.heap.fresh i (omega (arith, leaf_next));
      unset = λ i l. leaf_var i ∙ ground (arith, leaf_next, r.heap.unset i);
      leafy = λ i l z. elim (split i l) [
        | inl old ↦ let (w, e) = r.heap.leafy i old (sym (leaf_imps i) ∙ z) in (w, leaf_keeps i w e)
        | inr new ↦ (lit, leaf_var i ∙ ground arith)
      ];
    }
      where
        split : (i : ℕ) → i < h'.next → (i < h.next) ⊎ (h.next ≡ i)
        split i l = omega (arith, leaf_next)

    alloc_leaf-Planted : Planted s h h'
    alloc_leaf-Planted = record {
      ready = record {
        heap = leaf-IsHeap;
        inv = record {
          leaf = leaf-IsHeap.leafy;
          bounded = λ i w e. elim (leaf_cases i w e) [
            | inl (_, q) ↦ rw (← q) b
            | inr old ↦ r.inv.bounded i w old
          ];
          within = r.inv.within;
          justified = λ i w l e. elim (leaf_cases i w e) [
            | inl (at, q) ↦
                λ a M sat m lt t. lt i w (ap h'.impliquants (sym at) ∙ leaf_imps_new) e t
            | inr old ↦ λ a M sat m lt t.
                r.inv.justified i w (some_below T h r.heap i w old) old a M sat
                  (IsModel-back h h' M r.heap leaf-Expands m)
                  (λ k y z q. lt k y (leaf_imps k ∙ z) (leaf_keeps k y q)) t
          ];
        };
      };
      expands = leaf-Expands;
      keeps = leaf_keeps;
      faithful = λ a f. record {
        sat = f.sat;
        means = λ i w e. elim (leaf_cases i w e) [
          | inl (at, q) ↦ sym (
              model_leaf h'.impliquants (literal_value h'.var a) i
                (ap h'.impliquants (sym at) ∙ leaf_imps_new)
              ∙ ap (value_of a) e)
          | inr old ↦
              f.means i w old
              ∙ model_same h.impliquants h'.impliquants (literal_value h.var a)
                  (literal_value h'.var a) h.next r.heap.acyclic leaf-Expands.impliquants
                  (λ k l z.
                    let (x, q) = r.heap.leafy k l z in ap (value_of a) (q ∙ sym (leaf_keeps k x q)))
                  i (some_below T h r.heap i w old)
        ];
      };
    }

    leaf-IsTree : IsTree h' (leaf h.next)
    leaf-IsTree = (omega (arith, leaf_next), leaf_imps_new)

    leaf_literal : h'.var h.next ≡ some lit
    leaf_literal = leaf_var h.next ∙ ground arith

  -- The queue of the leaves holds the clause.
  abbrev pub Queued : State → Heap → Clause → ℕ → Heap → List TotTree → Type 0
  Queued s h c bound h' q =
      Planted s h h'
      × AreTrees h' bound q
      × (length q ≡ length c)
      × ((a : Assignment) → tally (literal_value h'.var a) (forest q) ≡ trues a c)

  pub leaf_queue_lem :
      (s : State) (c : Clause) (h : Heap) (bound : ℕ)
      → IsReady T s h
      → AreLiterals (vars s) c
      → Queued s h c bound (leaf_queue h c).0 (leaf_queue h c).1
  unfolding leaf_queue leaves
  leaf_queue_lem s [] h bound r b = (
    record {
      ready = r;
      expands = record { next = omega arith; impliquants = λ i l. refl };
      keeps = λ i w e. e;
      faithful = λ a f. f;
    },
    tt,
    refl,
    λ a. refl,
  )
  leaf_queue_lem s (lit ∷ c) h bound r (b, bs) =
      let p = alloc_leaf-Planted s h lit r b in
      let (p2, ts, n, same) = leaf_queue_lem s c (alloc_leaf h lit).0 bound p.ready bs in
      (
        Planted-trans s h _ _ p p2,
        (
          (
            IsTree-Expands _ _ (leaf h.next) p.ready.heap p2.expands (leaf-IsTree s h lit r b),
            omega arith,
          ),
          ts,
        ),
        ap suc n,
        λ a.
            let e = p2.keeps h.next lit (leaf_literal s h lit r b) in
            ground (arith, same a, ap (value_of a) e),
      )
