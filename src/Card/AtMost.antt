-- ===== src/Card/AtMost.antt =====
-- `at_most k` on the tree: the literal that it returns forces the bound, and its clauses cut off no
-- assignment of the variables there were.
use eval_max_sat.Common.{
  ℕ, ◌≤◌, ◌<◌, ◌≡◌, refl, sym, ap, ◌∙◌, [], true, false, not, arith, get_or, ltb, leb, some, inl,
  inr, ◌⊎◌,
}
use eval_max_sat.Common.Int.{ℤ, neg, abs, abs-neg}
use eval_max_sat.Common.Assign.{Assignment, holds, holds_all, holds-neg}
use eval_max_sat.Lazy.{ClauseSink, Heap, Vars, ◌>>=◌}
use eval_max_sat.Lazy.Invariant.{
  Meaning, IsModel, Inv, Consistent, Agree, LeavesTrue, Extends, Steps,
}
use eval_max_sat.Lazy.Model.{model_same, model_leaf, model-IsModel}
use eval_max_sat.Lazy.Get.{get_lem}
use eval_max_sat.Card.{TotTree, lazy_vars, leaves, get_clause, Card, grow, at_most}
use eval_max_sat.Card.Grow.{IsHeap, Expands, Grows}
use eval_max_sat.Card.Tree.{count, IsTree, IsTree-Expands, tree-Counted, lazy_vars-below}
use eval_max_sat.Card.Wire.{get_or-All}
use eval_max_sat.Card.Ready.{
  Faithful, Faithful-Grows, GrownCard, IsCard, IsReady, IsReady-Grows, grow_lem, some_below,
}
use eval_max_sat.Card.Trues.{
  count-get_clause, get_clause-leaves, leaf_lits, leaf_lits-same, literal_value, meaning, trues,
  value_of,
}

module _ (T : ClauseSink) where
  open T use {State, vars, clauses}

  -- What a call of `at_most` returns.
  pub record AtMost (s : State) (h : Heap) (c : Card) (k : ℕ) (s' : State) (h' : Heap) (c' : Card)
      (lit : ℤ) : Type 0 where
    pub ready : IsReady T s' h'
    pub steps : Steps T s s'
    pub in_use : (0 < abs lit) × (abs lit ≤ vars s')
    pub card : IsCard T h' c'
    pub expands : Expands h h'
    pub keeps : (i : ℕ) (w : ℤ) → h.var i ≡ some w → h'.var i ≡ some w
    pub entails :
        (a : Assignment) → holds_all a (clauses s') ≡ true → holds_all a (clauses s) ≡ true
    pub sound :
        (a : Assignment)
        → holds_all a (clauses s') ≡ true
        → holds a lit ≡ true
        → trues a (get_clause h.var c.tree) ≤ k
    pub conservative :
        (a : Assignment)
        → Faithful T s h a
        → (b : Assignment) × Agree (vars s) a b
          × Faithful T s' h' b
          × (holds b lit ≡ leb (trues a (get_clause h.var c.tree)) k)

  -- The number of true literals of the clause, before and after the tree grew.
  count-clause :
      (h h' : Heap) (a : Assignment) (t t' : TotTree)
      → Grows h h'
      → IsTree h' t'
      → leaves t' ≡ leaves t
      → count (meaning h' a) t' ≡ trues a (get_clause h.var t)
  count-clause h h' a t t' g w e =
      count-get_clause h' a t' w
      ∙ ap (trues a) (
          get_clause-leaves h'.var t'
          ∙ ap (leaf_lits h'.var) e
          ∙ leaf_lits-same h.var h'.var g.var (leaves t)
          ∙ sym (get_clause-leaves h.var t))

  -- The literal of output `k` of a grown tree.
  module _ (s : State) (h : Heap) (c : Card) (k : ℕ) (r : IsReady T s h) (h1 : Heap) (c1 : Card)
      (g : GrownCard T h c k h1 c1) (s' : State) (var' : Vars) (w : ℤ)
      (inv : Inv T h1.impliquants s' var' h1.next)
      (made : var' (get_or (lazy_vars c1.tree) k 0) ≡ some w)
      (ext : Extends T h1.impliquants h1.next s h1.var s' var') where
    abbrev h2 : Heap
    h2 = record h1 { var = var' }

    abbrev out : ℕ
    out = get_or (lazy_vars c1.tree) k 0

    out_below : out < h1.next
    out_below = get_or-All (lazy_vars c1.tree) k (lazy_vars-below h1 c1.tree g.card.tree) g.has

    heap2 : IsHeap h2
    heap2 = record {
      acyclic = g.heap.acyclic;
      fresh = g.heap.fresh;
      unset = λ i l. ext.frame i l ∙ g.heap.unset i l;
      leafy = λ i l z. let (x, e) = g.heap.leafy i l z in (x, ext.keeps i x e);
    }

    ready2 : IsReady T s' h2
    ready2 = record { heap = heap2; inv = inv }

    -- The object of output `k` is true exactly if more than `k` literals are.
    out_means : (a : Assignment) → meaning h1 a out ≡ ltb k (trues a (get_clause h.var c.tree))
    out_means a =
        (tree-Counted h1 (meaning h1 a) c1.tree
            (model-IsModel h1.impliquants (literal_value h1.var a) g.heap.acyclic) g.card.tree).at
          k g.has
        ∙ ap (ltb k) (count-clause h h1 a c.tree c1.tree g.grows g.card.tree g.same)

    -- A leaf keeps its literal, so the meaning is that of the leaves' literals.
    meaning2 :
        (a b : Assignment)
        → ((i : ℕ) (x : ℤ) → h1.impliquants i ≡ [] → h1.var i ≡ some x → holds b x ≡ holds a x)
        → (i : ℕ) → i < h1.next
        → meaning h1 a i ≡ meaning h2 b i
    meaning2 a b same =
        model_same h1.impliquants h1.impliquants (literal_value h1.var a) (literal_value var' b)
          h1.next g.heap.acyclic (λ i l. refl)
          λ i l z.
            let (x, e) = g.heap.leafy i l z in
            ap (value_of a) e ∙ sym (same i x z e) ∙ sym (ap (value_of b) (ext.keeps i x e))

    out_sound :
        (a : Assignment)
        → holds_all a (clauses s') ≡ true
        → holds a (neg w) ≡ true
        → trues a (get_clause h.var c.tree) ≤ k
    out_sound a sat neg_true = elim (split (trues a (get_clause h.var c.tree))) [
      | inl le ↦ le
      | inr gt ↦ absurd (
          clash (
            inv.justified out w out_below made a (meaning h2 a) sat is_model leaves_true
              (true_out gt)))
    ]
      where
        split : (n : ℕ) → (n ≤ k) ⊎ (k < n)
        split n = omega arith

        is_model : IsModel h1.impliquants (meaning h2 a)
        is_model = model-IsModel h1.impliquants (literal_value var' a) g.heap.acyclic

        leaves_true : LeavesTrue T h1.impliquants var' (meaning h2 a) a
        leaves_true i x z e t =
            sym (model_leaf h1.impliquants (literal_value var' a) i z ∙ ap (value_of a) e) ∙ t

        true_out : k < trues a (get_clause h.var c.tree) → meaning h2 a out ≡ true
        true_out gt =
            sym (meaning2 a a (λ i x z e. refl) out out_below) ∙ out_means a ∙ ground arith

        clash : holds a w ≡ true → ⊥
        clash e =
            let q : not (holds a w) ≡ true =
              sym (holds-neg a w (inv.bounded out w made).0) ∙ neg_true in
            ground (arith, e, q)

    out_conservative :
        ((M : Meaning)
          → IsModel h1.impliquants M
          → (a : Assignment) → Consistent T h1.impliquants s h1.var M a
          → (b : Assignment) × Agree (vars s) a b × Consistent T h1.impliquants s' var' M b)
        → (a : Assignment) → Faithful T s h a
        → (b : Assignment) × Agree (vars s) a b
          × Faithful T s' h2 b
          × (holds b (neg w) ≡ leb (trues a (get_clause h.var c.tree)) k)
    out_conservative cons a f =
        let f1 = Faithful-Grows T s h h1 a r.heap g.grows f in
        let (b, ag, f2) =
          cons (meaning h1 a) (model-IsModel h1.impliquants (literal_value h1.var a) g.heap.acyclic)
            a f1 in
        let m2 = meaning2 a b (λ i x z e. f2.means i x (ext.keeps i x e) ∙ sym (f1.means i x e)) in
        (
          b,
          ag,
          record {
            sat = f2.sat;
            means = λ i x e. f2.means i x e ∙ m2 i (some_below T h2 heap2 i x e);
          },
          holds-neg b w (inv.bounded out w made).0
              ∙ ap not (f2.means out w made ∙ out_means a)
              ∙ not-ltb (trues a (get_clause h.var c.tree)),
        )
      where
        not-ltb : (n : ℕ) → not (ltb k n) ≡ leb n k
        not-ltb n = ground arith

  -- `at_most` returns a literal below the number of inputs.
  pub at_most_lem :
      (s : State) (h : Heap) (c : Card) (k : ℕ)
      → IsReady T s h
      → IsCard T h c
      → k < c.max_vars
      → (s' : State) × (h' : Heap) × (c' : Card) × (lit : ℤ) × (at_most T s h c k
          ≡ some (s', h', c', lit))
        × AtMost s h c k s' h' c' lit
  unfolding at_most
  at_most_lem s h c k r d l =
      let h1 = (grow T h c k).0 in
      let c1 = (grow T h c k).1 in
      let g = grow_lem T h c k r.heap d l in
      let r1 = IsReady-Grows T s h h1 r g.heap g.grows in
      let below = get_or-All (lazy_vars c1.tree) k (lazy_vars-below h1 c1.tree g.card.tree) g.has in
      let (s', var', w, e, inv, made, ext, cons) =
        get_lem T h1.impliquants g.heap.acyclic h1.next h1.next (omega arith)
          (get_or (lazy_vars c1.tree) k 0) below s h1.var r1.inv in
      (
        s',
        record h1 { var = var' },
        c1,
        neg w,
        rw (not_zero, e, ◌>>=◌),
        record {
          ready = ready2 s h c k r h1 c1 g s' var' w inv made ext;
          steps = ext.steps;
          in_use =
              let (lo, hi) = inv.bounded _ w made in
              (omega (arith, abs-neg w), omega (arith, abs-neg w));
          card = record {
            tree =
                IsTree-Expands h1 (record h1 { var = var' }) c1.tree g.heap
                  (record { next = omega arith; impliquants = λ i q. refl }) g.card.tree;
            vars = g.card.vars;
          };
          expands = record { next = g.grows.next; impliquants = g.grows.impliquants };
          keeps = λ i x q. ext.keeps i x (g.grows.var i ∙ q);
          entails = ext.entails;
          sound = out_sound s h c k r h1 c1 g s' var' w inv made ext;
          conservative = out_conservative s h c k r h1 c1 g s' var' w inv made ext cons;
        },
      )
    where
      not_zero : leb c.max_vars k ≡ false
      not_zero = ground arith
