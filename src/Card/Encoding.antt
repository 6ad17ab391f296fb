-- ===== src/Card/Encoding.antt =====
-- The totalizer over a clause, from its constructor to the literal of a bound.
use eval_max_sat.Common.{
  ℕ, ◌≤◌, ◌<◌, ◌≡◌, refl, sym, ap, ◌∙◌, subst, List, [], ◌∷◌, Bool, true, arith, length, leb, some,
}
use eval_max_sat.Common.Int.{ℤ, abs}
use eval_max_sat.Common.Assign.{Clause, Assignment, holds, holds_all}
use eval_max_sat.Lazy.{ClauseSink, Heap}
use eval_max_sat.Lazy.Invariant.{Agree, Steps}
use eval_max_sat.Card.{
  TotTree, leaves, get_clause, Card, at_most, leaf_queue, merge_queue, new_card, nof_input, front,
}
use eval_max_sat.Card.Grow.{IsHeap, Grows}
use eval_max_sat.Card.Tree.{tally, IsTree, length-leaves}
use eval_max_sat.Card.Build.{forest, merge_queue_lem}
use eval_max_sat.Card.Ready.{IsReady, Faithful, Faithful-Grows, IsReady-Grows, IsCard}
use eval_max_sat.Card.Trues.{trues, literal_value, value_of, get_clause-leaves}
use eval_max_sat.Card.AtMost.{at_most_lem}
use eval_max_sat.Card.New.{
  AreLiterals, Planted, Planted-trans, leaf_queue_lem, tally-leaf_lits, tally_same,
}

length-forest_tree :
    (c : Clause) (h : Heap) (t : TotTree) (q : List TotTree)
    → IsTree h t
    → ((M : ℕ → Bool) → tally M (leaves t) ≡ tally M (forest q))
    → ((a : ℕ → Bool) → tally (λ i. true) (forest q) ≡ length c)
    → nof_input t ≡ length c
length-forest_tree c h t q w e f =
    sym (length-leaves h t w) ∙ sym (all_true (leaves t)) ∙ e (λ i. true) ∙ f (λ i. true)
  where
    all_true : (is : List ℕ) → tally (λ i. true) is ≡ length is
    all_true [] = refl
    all_true (i ∷ is) = omega (arith, all_true is)

forest-leaf_queue :
    (c : Clause) (h : Heap) → tally (λ i. true) (forest (leaf_queue h c).1) ≡ length c
unfolding leaf_queue leaves
forest-leaf_queue [] h = refl
forest-leaf_queue (l ∷ c) h = omega (arith, forest-leaf_queue c _)

module _ (T : ClauseSink) where
  open T use {State, vars, clauses}

  -- What the constructor gives.
  pub record NewCard (s : State) (h : Heap) (clause : Clause) (h' : Heap) (c : Card) : Type 0 where
    pub planted : Planted T s h h'
    pub card : IsCard T h' c
    pub size : c.max_vars ≡ length clause
    pub same : (a : Assignment) → trues a (get_clause h'.var c.tree) ≡ trues a clause

  NewCard-of_tree :
      (s : State) (h h1 h2 : Heap) (clause : Clause) (bound : ℕ) (q : List TotTree) (t : TotTree)
      → Planted T s h h1
      → IsHeap h2
      → Grows h1 h2
      → IsTree h2 t
      → ((M : ℕ → Bool) → tally M (leaves t) ≡ tally M (forest q))
      → ((a : Assignment) → tally (literal_value h1.var a) (forest q) ≡ trues a clause)
      → tally (λ i. true) (forest q) ≡ length clause
      → NewCard s h clause h2
          (record { nb_lit = length clause; bound = bound; tree = t; max_vars = length clause })
  NewCard-of_tree s h h1 h2 clause bound q t p w g tr e f n = record {
    planted = Planted-trans T s h h1 h2 p (record {
      ready = IsReady-Grows T s h1 h2 p.ready w g;
      expands = g.expands;
      keeps = λ i x k. g.var i ∙ k;
      faithful = λ a k. Faithful-Grows T s h1 h2 a p.ready.heap g k;
    });
    card = record { tree = tr; vars = sym (length-forest_tree clause h2 t q tr e (λ a. n)) };
    size = refl;
    same = λ a.
        ap (trues a) (get_clause-leaves h2.var t)
        ∙ sym (tally-leaf_lits h2.var a (leaves t))
        ∙ e (literal_value h2.var a)
        ∙ tally_same (literal_value h2.var a) (literal_value h1.var a)
            (λ i. ap (value_of a) (g.var i)) (forest q)
        ∙ f a;
  }

  -- The constructor succeeds on a clause that is not empty.
  pub new_card_lem :
      (s : State) (h : Heap) (clause : Clause) (bound : ℕ)
      → IsReady T s h
      → AreLiterals (vars s) clause
      → 0 < length clause
      → (h' : Heap) × (c : Card) × (new_card h clause bound ≡ some (h', c))
        × NewCard s h clause h' c
  unfolding new_card
  new_card_lem s h clause bound r b ne =
      let h1 = (leaf_queue h clause).0 in
      let q = (leaf_queue h clause).1 in
      let (p, ts, n, same) = leaf_queue_lem T s clause h bound r b in
      let (t, e, w, g, tr, _, m) =
        merge_queue_lem (length clause) h1 bound q (omega arith) (omega arith) p.ready.heap ts in
      (
        (merge_queue (length clause) h1 bound q).0,
        record { nb_lit = length clause; bound = bound; tree = t; max_vars = length clause },
        ap
            (λ trees.
              front ((merge_queue (length clause) h1 bound q).0, trees) (length clause) bound)
            e,
        NewCard-of_tree s h h1 _ clause bound q t p w g tr m same (forest-leaf_queue clause h),
      )

  -- The literal for "at most `k` of the clause" and the clauses behind it.
  pub record Encodes (s : State) (h : Heap) (clause : Clause) (k : ℕ) (s' : State) (h' : Heap)
      (lit : ℤ) : Type 0 where
    pub steps : Steps T s s'
    pub in_use : (0 < abs lit) × (abs lit ≤ vars s')
    pub bounds :
        (a : Assignment) → holds_all a (clauses s') ≡ true → holds a lit ≡ true → trues a clause ≤ k
    pub extends :
        (a : Assignment)
        → Faithful T s h a
        → (b : Assignment) × Agree (vars s) a b
          × Faithful T s' h' b
          × (holds b lit ≡ leb (trues a clause) k)
    pub keeps : (a : Assignment) → holds_all a (clauses s') ≡ true → holds_all a (clauses s) ≡ true

  abbrev pub BuildsBound : State → Heap → Clause → ℕ → ℕ → Type 0
  BuildsBound s h clause bound k =
      (h1 : Heap) × (c : Card) × (s2 : State) × (h2 : Heap) × (c2 : Card) × (lit : ℤ) × (new_card h
          clause bound
        ≡ some (h1, c))
      × (at_most T s h1 c k ≡ some (s2, h2, c2, lit))
      × IsReady T s2 h2
      × IsCard T h2 c2
      × Encodes s h clause k s2 h2 lit

  -- With a solver and a heap that are ready, a totalizer over a clause of literals in use, whatever
  -- bound it is built with, returns for every k below the clause's length a literal such that
  -- every assignment that satisfies the clauses and the literal makes at most k of the clause true,
  -- and every assignment that satisfies the clauses before and gives the literals made before their
  -- meaning extends, on new variables alone, to one that satisfies the new clauses and makes the
  -- literal true exactly if at most k of the clause are true.
  -- The solver and the heap are then ready for further calls.
  pub totalizer_correct :
      (s : State) (h : Heap) (clause : Clause) (bound k : ℕ)
      → IsReady T s h
      → AreLiterals (vars s) clause
      → k < length clause
      → BuildsBound s h clause bound k
  totalizer_correct s h clause bound k r b l =
      let (h1, c, e, n) = new_card_lem s h clause bound r b (omega arith) in
      let (s2, h2, c2, lit, e2, m) =
        at_most_lem T s h1 c k n.planted.ready n.card (omega (arith, n.size)) in
      (
        h1,
        c,
        s2,
        h2,
        c2,
        lit,
        e,
        e2,
        m.ready,
        m.card,
        record {
          steps = m.steps;
          in_use = m.in_use;
          bounds = λ a sat t. subst (λ z. z ≤ k) (n.same a) (m.sound a sat t);
          extends = λ a f.
              let (x, ag, f2, v) = m.conservative a (n.planted.faithful a f) in
              (x, ag, f2, v ∙ ap (λ z. leb z k) (n.same a));
          keeps = m.entails;
        },
      )
