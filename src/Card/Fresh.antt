-- ===== src/Card/Fresh.antt =====
-- The literal for "at most 1" of a new totalizer is a new variable of the solver: the second output of
-- the root has no literal yet, and an impliquant of two objects, so that `get` shares no other's.
use eval_max_sat.Common.{
  ℕ, zero, suc, ◌+◌, ◌-◌, ◌≤◌, ◌<◌, min, ◌≡◌, refl, sym, ap, ◌∙◌, subst, List, [], ◌∷◌, ◌++◌,
  Option, none, some, true, false, any, arith, length, get_or, ltb, leb, length-append, Bool-cases,
  inl, inr, ◌==◌, none-ne_some,
}
use mathlib.Core.Option.{some-injective}
use eval_max_sat.Common.Int.{ℤ, pos, neg}
use eval_max_sat.Common.Loop.{for_to_inv, for_to_hits}
use eval_max_sat.Common.Assign.{Clause}
use eval_max_sat.Lazy.{
  ClauseSink, Heap, Vars, Impliquants, Rec, add_impliquant, get, get_fresh, emit, ◌>>=◌,
}
use eval_max_sat.Lazy.Get.{get-none, get_new_cases}
use eval_max_sat.Card.{
  TotTree, leaf, node, lazy_vars, nof_input, pairs, new_ua, alloc_many, join, merge_queue,
  leaf_queue, Card, new_card, grow, at_most, front,
}
use eval_max_sat.Card.Wire.{any-snoc}
use eval_max_sat.Card.Grow.{IsHeap, alloc_many-Blank}
use eval_max_sat.Card.Tree.{IsTree, Covers}
use eval_max_sat.Card.Build.{AreTrees, AreTrees-snoc, AreTrees-Grows, join_lem}
use eval_max_sat.Card.Ready.{IsReady}
use eval_max_sat.Card.New.{AreLiterals, leaf_queue_lem}
use eval_max_sat.Card.Encoding.{Encodes, totalizer_correct, new_card_lem}

-- The object has an impliquant of two objects at least.
abbrev HasPair : ℕ → Heap → Type 0
HasPair i h = any (λ js. ltb 1 (length js)) (h.impliquants i) ≡ true

add_impliquant-HasPair :
    (h : Heap) (i k : ℕ) (js : List ℕ) → HasPair i h → HasPair i (add_impliquant h k js)
unfolding add_impliquant
add_impliquant-HasPair h i k js p = elim (Bool-cases (k == i)) [
  | inl y ↦
      let e : k ≡ i = ground arith in
      rw (y, any-snoc (λ xs. ltb 1 (length xs)) (h.impliquants k) js, e, p)
  | inr n ↦ rw n p
]

pair-HasPair : (h : Heap) (i k j l : ℕ) → k ≡ i → HasPair i (add_impliquant h k (j ∷ l ∷ []))
unfolding add_impliquant
pair-HasPair h i k j l e = rw e (
    let y : (i == i) ≡ true = ground arith in
    rw (y, any-snoc (λ xs. ltb 1 (length xs)) (h.impliquants i) (j ∷ l ∷ [])) (ground arith))

-- The first pair of the children's outputs makes the second output.
new_ua-HasPair :
    (h : Heap) (og : List ℕ) (rhs : ℕ) (a b : List ℕ)
    → 1 < rhs
    → 0 < length a
    → 0 < length b
    → HasPair (get_or og 1 0) (new_ua h og rhs a b)
unfolding new_ua pairs
new_ua-HasPair h og rhs a b hr ha hb =
    for_to_hits (HasPair (get_or og 1 0)) _ 1
      (λ i g p.
        for_to_inv (HasPair (get_or og 1 0)) _ 1 (suc (min (rhs - i) (length b)))
          (λ j g' _ _ q. add_impliquant-HasPair g' (get_or og 1 0) (get_or og (i + j - 1) 0) _ q) g
          p)
      (λ g.
        for_to_hits (HasPair (get_or og 1 0)) _ 1
          (λ j g' q. add_impliquant-HasPair g' (get_or og 1 0) (get_or og (1 + j - 1) 0) _ q)
          (λ g'. pair-HasPair g' (get_or og 1 0) (get_or og 1 0) _ _ refl) 1
          (suc (min (rhs - 1) (length b))) g (omega arith) (omega arith))
      1 (suc (min rhs (length a))) _ (omega arith) (omega arith)

-- The second output of a tree is still to be made.
abbrev HasNext : Heap → TotTree → Type 0
HasNext h t =
    let i = get_or (lazy_vars t) 1 0 in (1 < length (lazy_vars t)) × HasPair i h × (h.var i ≡ none)

inputs_positive : (h : Heap) (t : TotTree) → IsTree h t → 0 < nof_input t
inputs_positive h (leaf i) w = omega arith
inputs_positive h (node vs n l r) (a, b, c) = omega (arith, inputs_positive h l a, c.total)

join-HasNext :
    (h : Heap) (b : ℕ) (l r : TotTree)
    → 0 < b
    → IsHeap h
    → IsTree h l
    → IsTree h r
    → Covers b l
    → Covers b r
    → HasNext (join h b l r).0 (join h b l r).1
unfolding join
join-HasNext h b l r hb w tl tr cl cr =
    let rhs = min (b + 1) (nof_input l + nof_input r) in
    let new = alloc_many-Blank rhs h w.fresh w.unset in
    let pl = inputs_positive h l tl in
    let pr = inputs_positive h r tr in
    let (w1, g, _, _) = join_lem h b l r w tl tr cl cr in
    (
      omega (arith, new.count),
      new_ua-HasPair (alloc_many rhs h).0 (alloc_many rhs h).1 rhs (lazy_vars l) (lazy_vars r)
          (omega arith) (omega arith) (omega arith),
      g.var (get_or (alloc_many rhs h).1 1 0)
          ∙ w.unset (get_or (alloc_many rhs h).1 1 0) (omega (arith, new.ids 1 (omega arith))),
    )

-- The last parent that the queue makes is the root.
merge_queue-HasNext :
    (fuel : ℕ) (h : Heap) (b : ℕ) (q : List TotTree)
    → length q ≤ suc fuel
    → 1 < length q
    → 0 < b
    → IsHeap h
    → AreTrees h b q
    → let out = merge_queue fuel h b q in (t : TotTree) × (out.1 ≡ t ∷ []) × HasNext out.0 t
unfolding merge_queue
merge_queue-HasNext fuel h b [] le p hb w a = elim p [ ]
merge_queue-HasNext fuel h b (t ∷ []) le p hb w a = absurd (omega arith)
merge_queue-HasNext zero h b (l ∷ r ∷ q) le p hb w a = absurd (omega arith)
merge_queue-HasNext (suc zero) h b (l ∷ r ∷ []) le p hb w (al, (ar, aq)) =
    ((join h b l r).1, refl, join-HasNext h b l r hb w al.0 ar.0 al.1 ar.1)
merge_queue-HasNext (suc (suc fuel)) h b (l ∷ r ∷ []) le p hb w (al, (ar, aq)) =
    ((join h b l r).1, refl, join-HasNext h b l r hb w al.0 ar.0 al.1 ar.1)
merge_queue-HasNext (suc fuel) h b (l ∷ r ∷ k ∷ q) le p hb w (al, (ar, aq)) =
    let (w1, g1, t1, c1) = join_lem h b l r w al.0 ar.0 al.1 ar.1 in
    let h1 = (join h b l r).0 in
    let n = (join h b l r).1 in
    merge_queue-HasNext fuel h1 b (k ∷ q ++ n ∷ []) (omega (arith, length-append q (n ∷ [])))
      (omega (arith, length-append q (n ∷ []))) hb w1
      (AreTrees-snoc h1 b (k ∷ q) n (AreTrees-Grows h h1 b (k ∷ q) w g1 aq) t1 c1)

module _ (T : ClauseSink) where
  open T use {State, vars}

  new_card-HasNext :
      (s : State) (h : Heap) (clause : Clause) (bound : ℕ)
      → IsReady T s h
      → AreLiterals (vars s) clause
      → 1 < length clause
      → 0 < bound
      → (h' : Heap) × (c : Card) × (new_card h clause bound ≡ some (h', c)) × HasNext h' c.tree
  unfolding new_card
  new_card-HasNext s h clause bound r b ne hb =
      let h1 = (leaf_queue h clause).0 in
      let q = (leaf_queue h clause).1 in
      let (p, ts, n, same) = leaf_queue_lem T s clause h bound r b in
      let (t, e, x) =
        merge_queue-HasNext (length clause) h1 bound q (omega arith) (omega arith) hb p.ready.heap
          ts in
      (
        (merge_queue (length clause) h1 bound q).0,
        record { nb_lit = length clause; bound = bound; tree = t; max_vars = length clause },
        ap
            (λ trees.
              front ((merge_queue (length clause) h1 bound q).0, trees) (length clause) bound)
            e,
        x,
      )

  last_of :
      (r : Option (State × Vars)) (u : ℤ) (s' : State) (var' : Vars) (v : ℤ)
      → ◌>>=◌ {B = State × Vars × ℤ} r (λ (s2, var2). some (s2, var2, u)) ≡ some (s', var', v)
      → v ≡ u
  last_of none u s' var' v e = absurd (none-ne_some e)
  last_of (some (s2, var2)) u s' var' v e = sym (ap (λ r. r.2) (some-injective _ _ e))

  get_fresh-new_var :
      (imps : Impliquants) (rec : Rec T imps) (s s' : State) (var var' : Vars) (i : ℕ)
      (is : List (List ℕ)) (v : ℤ)
      → get_fresh T imps rec s var i is ≡ some (s', var', v)
      → v ≡ pos (suc (vars s))
  unfolding get_fresh
  get_fresh-new_var imps rec s s' var var' i is v e =
      last_of (emit T imps rec (T.new_var s).0 _ _ is) (T.new_var s).1 s' var' v e ∙ T.new_var_lit s

  get-new_var :
      (fuel : ℕ) (h : Heap) (s s' : State) (var' : Vars) (i : ℕ) (v : ℤ)
      → IsHeap h
      → HasPair i h
      → h.var i ≡ none
      → get T h.impliquants (suc fuel) s h.var i ≡ some (s', var', v)
      → v ≡ pos (suc (vars s))
  get-new_var fuel h s s' var' i v w p o e =
      elim (get_new_cases T h.impliquants w.acyclic (get T h.impliquants fuel) s h.var i
        (h.impliquants i)) [
          | inl (j, single) ↦
              absurd (not_single (ap (any (λ js. ltb 1 (length js))) (sym single) ∙ p))
          | inr q ↦
              get_fresh-new_var h.impliquants (get T h.impliquants fuel) s s' h.var var' i
                (h.impliquants i) v
                (sym (get-none T h.impliquants w.acyclic fuel s h.var i o ∙ q) ∙ e)
        ]
    where
      not_single : false ≡ true → ⊥
      not_single z = cc

  get-new_var_any :
      (fuel : ℕ) (h : Heap) (s s' : State) (var' : Vars) (i : ℕ) (v : ℤ)
      → IsHeap h
      → HasPair i h
      → h.var i ≡ none
      → get T h.impliquants fuel s h.var i ≡ some (s', var', v)
      → v ≡ pos (suc (vars s))
  unfolding get
  get-new_var_any zero h s s' var' i v w p o e = absurd (none-ne_some e)
  get-new_var_any (suc fuel) h s s' var' i v w p o e = get-new_var fuel h s s' var' i v w p o e

  -- Where the output is still to be made, "at most 1" is the negation of the solver's next variable.
  pub at_most-new_var :
      (s s' : State) (h h' : Heap) (c c' : Card) (lit : ℤ)
      → IsHeap h
      → HasNext h c.tree
      → 1 < c.max_vars
      → at_most T s h c 1 ≡ some (s', h', c', lit)
      → lit ≡ neg (pos (suc (vars s)))
  unfolding at_most grow
  at_most-new_var s s' h h' c c' lit w (l, p, o) m e =
      by_answer (get T h.impliquants h.next s h.var out) refl (sym plain ∙ e)
    where
      out : ℕ
      out = get_or (lazy_vars c.tree) 1 0

      Made : Option (State × Vars × ℤ) → Option (State × Heap × Card × ℤ)
      Made r = r >>= λ (s1, var1, v). some (s1, record h { var = var1 }, c, neg v)

      plain : at_most T s h c 1 ≡ Made (get T h.impliquants h.next s h.var out)
      plain =
          let big : leb c.max_vars 1 ≡ false = ground arith in
          let there : leb (length (lazy_vars c.tree)) 1 ≡ false = ground arith in
          rw (big, there) refl

      by_answer :
          (r : Option (State × Vars × ℤ))
          → get T h.impliquants h.next s h.var out ≡ r
          → Made r ≡ some (s', h', c', lit)
          → lit ≡ neg (pos (suc (vars s)))
      by_answer none g q = absurd (none-ne_some q)
      by_answer (some (s1, var1, v)) g q =
          sym (ap (λ r. r.3) (some-injective _ _ q))
          ∙ ap neg (get-new_var_any h.next h s s1 var1 out v w p o g)

  -- A new card over two literals or more, asked for "at most 1".
  abbrev pub Opens : State → Heap → Clause → Type 0
  Opens s h clause =
      (h1 : Heap) × (c : Card) × (s2 : State) × (h2 : Heap) × (c2 : Card) × (new_card h clause 1
        ≡ some (h1, c))
      × (at_most T s h1 c 1 ≡ some (s2, h2, c2, neg (pos (suc (vars s)))))
      × IsReady T s2 h2
      × Encodes T s h clause 1 s2 h2 (neg (pos (suc (vars s))))

  pub new_card-Opens :
      (s : State) (h : Heap) (clause : Clause)
      → IsReady T s h
      → AreLiterals (vars s) clause
      → 1 < length clause
      → Opens s h clause
  new_card-Opens s h clause r b ne =
      let (h1, c, s2, h2, c2, lit, e, e2, r2, _, enc) = totalizer_correct T s h clause 1 1 r b ne in
      let (g, d, e', next) = new_card-HasNext s h clause 1 r b ne (omega arith) in
      let (h1', c', e3, n) = new_card_lem T s h clause 1 r b (omega arith) in
      let same : ◌≡◌ {A = Heap × Card} (g, d) (h1, c) = some-injective _ _ (sym e' ∙ e) in
      let same' : ◌≡◌ {A = Heap × Card} (h1', c') (h1, c) = some-injective _ _ (sym e3 ∙ e) in
      let new : lit ≡ neg (pos (suc (vars s))) =
        at_most-new_var s s2 h1 h2 c c2 lit (subst (λ x. IsHeap x.0) same' n.planted.ready.heap)
          (subst (λ x. HasNext x.0 x.1.tree) same next)
          (subst (λ x. 1 < x.1.max_vars) same' (omega (arith, n.size))) e2 in
      rw (← new) (h1, c, s2, h2, c2, e, e2, r2, enc)
