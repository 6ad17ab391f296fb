-- ===== src/Card/Ready.antt =====
-- The state in which a card is asked: the solver, the objects and the card itself.
use eval_max_sat.Common.{
  ℕ, ◌≤◌, ◌<◌, ◌≡◌, refl, sym, ap, ◌∙◌, arith, length, leb, some, none-ne_some, Bool-cases, inl,
  inr, ◌⊎◌,
}
use eval_max_sat.Common.Int.{ℤ}
use eval_max_sat.Common.Assign.{Assignment}
use eval_max_sat.Lazy.{ClauseSink, Heap}
use eval_max_sat.Lazy.Invariant.{Inv, Consistent}
use eval_max_sat.Lazy.Model.{model_same}
use eval_max_sat.Card.{lazy_vars, nof_input, leaves, Card, grow}
use eval_max_sat.Card.Grow.{IsHeap, Grows, Grows-refl, IsModel-back}
use eval_max_sat.Card.Tree.{IsTree}
use eval_max_sat.Card.Build.{increase-Grown}
use eval_max_sat.Card.Trues.{literal_value, meaning, value_of}

module _ (T : ClauseSink) where
  open T use {State, vars, clauses}

  -- What holds of the solver and the heap between calls.
  pub record IsReady (s : State) (h : Heap) : Type 0 where
    pub heap : IsHeap h
    pub inv : Inv T h.impliquants s h.var h.next

  -- The assignment satisfies the clauses and gives every literal made the meaning of its object.
  abbrev pub Faithful : State → Heap → Assignment → Type 0
  Faithful s h a = Consistent T h.impliquants s h.var (meaning h a) a

  pub record IsCard (h : Heap) (c : Card) : Type 0 where
    pub tree : IsTree h c.tree
    pub vars : c.max_vars ≡ nof_input c.tree

  pub some_below : (h : Heap) → IsHeap h → (i : ℕ) (w : ℤ) → h.var i ≡ some w → i < h.next
  some_below h w i x e = elim (split) [
    | inl l ↦ l
    | inr g ↦ absurd (none-ne_some (sym (w.unset i g) ∙ e))
  ]
    where
      split : (i < h.next) ⊎ (h.next ≤ i)
      split = omega arith

  -- New objects without literals leave all as it was.
  pub IsReady-Grows :
      (s : State) (h h' : Heap) → IsReady s h → IsHeap h' → Grows h h' → IsReady s h'
  IsReady-Grows s h h' r w g = record {
    heap = w;
    inv = record {
      leaf = w.leafy;
      bounded = λ i x e. r.inv.bounded i x (sym (g.var i) ∙ e);
      within = r.inv.within;
      justified = λ i x l e.
          let e0 = sym (g.var i) ∙ e in
          λ a M sat m lt t.
            r.inv.justified i x (some_below h r.heap i x e0) e0 a M sat
              (IsModel-back h h' M r.heap g.expands m)
              (λ k y z q. lt k y (g.impliquants k (some_below h r.heap k y q) ∙ z) (g.var k ∙ q)) t;
    };
  }

  pub Faithful-Grows :
      (s : State) (h h' : Heap) (a : Assignment)
      → IsHeap h
      → Grows h h'
      → Faithful s h a
      → Faithful s h' a
  Faithful-Grows s h h' a w g f = record {
    sat = f.sat;
    means = λ i x e.
        let e0 = sym (g.var i) ∙ e in
        f.means i x e0
        ∙ model_same h.impliquants h'.impliquants (literal_value h.var a) (literal_value h'.var a)
            h.next w.acyclic g.impliquants (λ k l z. ap (value_of a) (sym (g.var k))) i
            (some_below h w i x e0);
  }

  -- What growing the tree for output `k` gives.
  pub record GrownCard (h : Heap) (c : Card) (k : ℕ) (h' : Heap) (c' : Card) : Type 0 where
    pub heap : IsHeap h'
    pub grows : Grows h h'
    pub card : IsCard h' c'
    pub same : leaves c'.tree ≡ leaves c.tree
    pub has : k < length (lazy_vars c'.tree)

  pub grow_lem :
      (h : Heap) (c : Card) (k : ℕ)
      → IsHeap h
      → IsCard h c
      → k < c.max_vars
      → GrownCard h c k (grow T h c k).0 (grow T h c k).1
  unfolding grow
  grow_lem h c k w d l = elim (Bool-cases (leb (length (lazy_vars c.tree)) k)) [
    | inl y ↦
        let g = increase-Grown h c.tree k w d.tree in
        rw y (record {
          heap = g.heap;
          grows = g.grows;
          card = record { tree = g.tree; vars = d.vars ∙ sym g.inputs };
          same = g.same;
          has = omega (arith, g.covers, g.inputs, d.vars);
        })
    | inr z ↦
        rw z (record { heap = w; grows = Grows-refl h; card = d; same = refl; has = ground arith })
  ]
