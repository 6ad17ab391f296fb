-- ===== src/Card/Build.antt =====
-- The constructor of the totalizer and the growth of its tree.
use eval_max_sat.Common.{
  ℕ, zero, suc, ◌+◌, ◌≤◌, ◌<◌, min, ◌≡◌, refl, sym, ap, subst, List, [], ◌∷◌, ◌++◌, arith, length,
  leb, length-append, Bool-cases, inl, inr, leb→le,
}
use eval_max_sat.Lazy.{Heap}
use eval_max_sat.Lazy.Invariant.{Meaning}
use eval_max_sat.Card.{
  TotTree, leaf, node, lazy_vars, nof_input, leaves, increase_ua, increase, join, merge_queue,
}
use eval_max_sat.Card.Grow.{IsHeap, Grows, Grows-refl, Grows-trans, Counted}
use eval_max_sat.Card.Tree.{
  tally, tally-append, IsTree, IsTree-Grows, Grown, Covers, Linked-node, increase_ua-Linked,
  new_ua-Linked, count, count-same,
}

grow_node :
    (h h1 h2 : Heap) (vs : List ℕ) (n b : ℕ) (l l1 r r2 : TotTree)
    → IsHeap h
    → IsTree h (node vs n l r)
    → length vs ≤ min (b + 1) n
    → Grown h h1 l l1 b
    → Grown h1 h2 r r2 b
    → let out = increase_ua h2 vs (lazy_vars l1) (lazy_vars r2) (min (b + 1) n) in
      Grown h out.0 (node vs n l r) (node out.1 n l1 r2) b
unfolding leaves
grow_node h h1 h2 vs n b l l1 r r2 w (tl, tr, c) fits gl gr =
    let up = Grows-trans h h1 h2 gl.grows gr.grows in
    let t1 = IsTree-Grows h1 h2 l1 gl.heap gr.grows gl.tree in
    let c2 = IsTree-Grows h h2 (node vs n l r) w up (tl, tr, c) in
    let (new, e, k) =
      increase_ua-Linked h2 gr.heap vs l1 r2 (min (b + 1) n) fits t1 gr.tree
        (omega (arith, gl.covers)) (omega (arith, gr.covers))
        (omega (arith, c.total, gl.inputs, gr.inputs)) in
    record {
      heap = k.heap;
      grows = Grows-trans h h2 _ up k.grows;
      tree = rw e (
          Linked-node h2 _ vs new (min (b + 1) n) n l1 r2 gr.heap t1 gr.tree
            (record {
              total = omega (arith, c.total, gl.inputs, gr.inputs);
              below = c2.2.below;
              size = c2.2.size;
              counts = λ M m. subst (Counted M vs) (same_count M) (c2.2.counts M m);
            })
            (omega arith) k);
      inputs = refl;
      covers = rw e (omega (arith, k.size));
      same = rw (gl.same, gr.same);
    }
  where
    same_count : (M : Meaning) → count M l + count M r ≡ count M l1 + count M r2
    same_count M = rw (count-same M l l1 (sym gl.same), count-same M r r2 (sym gr.same))

-- `increase` gives the root the outputs up to the bound, and keeps what every output means.
pub increase-Grown :
    (h : Heap) (t : TotTree) (b : ℕ)
    → IsHeap h
    → IsTree h t
    → Grown h (increase h t b).0 t (increase h t b).1 b
unfolding increase
increase-Grown h (leaf i) b w t = record {
  heap = w;
  grows = Grows-refl h;
  tree = t;
  inputs = refl;
  covers = omega arith;
  same = refl;
}
increase-Grown h (node vs n l r) b w (tl, tr, c) =
    elim (Bool-cases (leb (min (b + 1) n) (length vs))) [
      | inl y ↦ rw y (record {
        heap = w;
        grows = Grows-refl h;
        tree = (tl, tr, c);
        inputs = refl;
        covers = leb→le _ _ y;
        same = refl;
      })
      | inr z ↦
          let gl = increase-Grown h l b w tl in
          let gr =
            increase-Grown (increase h l b).0 r b gl.heap
              (IsTree-Grows h (increase h l b).0 r w gl.grows tr) in
          rw z (grow_node h _ _ vs n b l _ r _ w (tl, tr, c) (ground arith) gl gr)
    ]

-- What a list of trees holds.
abbrev pub forest : List TotTree → List ℕ
forest [] = []
forest (t ∷ q) = leaves t ++ forest q

abbrev pub AreTrees : Heap → ℕ → List TotTree → Type 0
AreTrees h b [] = Unit
AreTrees h b (t ∷ q) = (IsTree h t × Covers b t) × AreTrees h b q

pub AreTrees-Grows :
    (h h' : Heap) (b : ℕ) (q : List TotTree)
    → IsHeap h
    → Grows h h'
    → AreTrees h b q
    → AreTrees h' b q
AreTrees-Grows h h' b [] w g a = tt
AreTrees-Grows h h' b (t ∷ q) w g ((a, c), rest) =
    ((IsTree-Grows h h' t w g a, c), AreTrees-Grows h h' b q w g rest)

pub AreTrees-snoc :
    (h : Heap) (b : ℕ) (q : List TotTree) (t : TotTree)
    → AreTrees h b q
    → IsTree h t
    → Covers b t
    → AreTrees h b (q ++ t ∷ [])
AreTrees-snoc h b [] t ts a c = ((a, c), tt)
AreTrees-snoc h b (x ∷ q) t ts a c = (ts.0, AreTrees-snoc h b q t ts.1 a c)

tally-forest_snoc :
    (M : Meaning) (q : List TotTree) (t : TotTree)
    → tally M (forest (q ++ t ∷ [])) ≡ tally M (forest q) + tally M (leaves t)
tally-forest_snoc M [] t = omega (arith, tally-append M (leaves t) [])
tally-forest_snoc M (x ∷ q) t = omega (
  arith,
  tally-append M (leaves x) (forest (q ++ t ∷ [])),
  tally-append M (leaves x) (forest q),
  tally-forest_snoc M q t,
)

pub join_lem :
    (h : Heap) (b : ℕ) (l r : TotTree)
    → IsHeap h
    → IsTree h l
    → IsTree h r
    → Covers b l
    → Covers b r
    → IsHeap (join h b l r).0
      × Grows h (join h b l r).0
      × IsTree (join h b l r).0 (join h b l r).1
      × Covers b (join h b l r).1
unfolding join
join_lem h b l r w tl tr cl cr =
    let k =
      new_ua-Linked h w l r (min (b + 1) (nof_input l + nof_input r)) tl tr (omega arith)
        (omega arith) (omega arith) in
    (
      k.heap,
      k.grows,
      Linked-node h _ [] _ _ (nof_input l + nof_input r) l r w tl tr
          (record {
            total = refl;
            below = tt;
            size = omega arith;
            counts = λ M m. record { at = λ i p. absurd (omega arith) };
          })
          (omega arith) k,
      omega (arith, k.size),
    )

leaves-join : (h : Heap) (b : ℕ) (l r : TotTree) → leaves (join h b l r).1 ≡ leaves l ++ leaves r
unfolding join leaves
leaves-join h b l r = refl

-- The queue shrinks to one tree, which holds all the leaves.
pub merge_queue_lem :
    (fuel : ℕ) (h : Heap) (b : ℕ) (q : List TotTree)
    → length q ≤ suc fuel
    → 0 < length q
    → IsHeap h
    → AreTrees h b q
    → let out = merge_queue fuel h b q in
      (t : TotTree) × (out.1 ≡ t ∷ [])
      × IsHeap out.0
      × Grows h out.0
      × IsTree out.0 t
      × Covers b t
      × ((M : Meaning) → tally M (leaves t) ≡ tally M (forest q))
unfolding merge_queue
merge_queue_lem fuel h b [] le p w a = elim p [ ]
merge_queue_lem zero h b (t ∷ []) le p w a =
    (t, refl, w, Grows-refl h, a.0.0, a.0.1, λ M. omega (arith, tally-append M (leaves t) []))
merge_queue_lem (suc fuel) h b (t ∷ []) le p w a =
    (t, refl, w, Grows-refl h, a.0.0, a.0.1, λ M. omega (arith, tally-append M (leaves t) []))
merge_queue_lem zero h b (l ∷ r ∷ q) le p w a = absurd (omega arith)
merge_queue_lem (suc fuel) h b (l ∷ r ∷ q) le p w (al, (ar, aq)) =
    let (w1, g1, t1, c1) = join_lem h b l r w al.0 ar.0 al.1 ar.1 in
    let h1 = (join h b l r).0 in
    let n = (join h b l r).1 in
    let (t, e, w2, g2, t2, c2, s2) =
      merge_queue_lem fuel h1 b (q ++ n ∷ []) (omega (arith, length-append q (n ∷ [])))
        (omega (arith, length-append q (n ∷ []))) w1
        (AreTrees-snoc h1 b q n (AreTrees-Grows h h1 b q w g1 aq) t1 c1) in
    (
      t,
      e,
      w2,
      Grows-trans h h1 _ g1 g2,
      t2,
      c2,
      λ M. omega (
        arith,
        s2 M,
        tally-forest_snoc M q n,
        ap (tally M) (leaves-join h b l r),
        tally-append M (leaves l) (leaves r),
        tally-append M (leaves l) (leaves r ++ forest q),
        tally-append M (leaves r) (forest q),
      ),
    )
