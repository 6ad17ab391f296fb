-- ===== src/MaxSat/Core/Relax.antt =====
-- EvalMaxSAT.h, relax: the next bound of a card becomes a soft literal.
use eval_max_sat.Common.{
  zero, length, length-append, ◌+◌, ◌≢◌, ◌∷◌, ◌++◌, List, if◌then◌else◌, none-ne_some,
  get_or-set_self, get_or-set_ne, ℕ, suc, ◌-◌, ◌*◌, ◌≤◌, ◌<◌, ◌≡◌, refl, sym, ap, ◌∙◌, subst, true,
  false, arith, leb, set, some, none, get_or, get_elem?, [], Option, ◌⊎◌, Bool-cases, inl, inr,
}
use mathlib.Core.Option.{some-injective}
use eval_max_sat.Common.Int.{ℤ, pos, abs, is_zero, is_zero_ne}
use eval_max_sat.Common.Assign.{Assignment, Clause}
use eval_max_sat.Lazy.{ClauseSink, Heap}
use eval_max_sat.Lazy.Invariant.{Steps, none_yet, then_var, then_clause}
use eval_max_sat.Card.{Card, at_most, get_clause}
use eval_max_sat.Card.Tree.{count-le}
use eval_max_sat.Card.Ready.{IsCard}
use eval_max_sat.Card.Trues.{trues, count-get_clause, meaning}
use eval_max_sat.Card.AtMost.{AtMost, at_most_lem}
use eval_max_sat.Card.Encoding.{Encodes}
use eval_max_sat.Weights.{WeightVector, get, size, write}
use eval_max_sat.Weights.Laws.{get-write}
use eval_max_sat.MaxSat.{
  base_new_var, MaxSat, Base, LitCard, ok, ◌>>=◌, sink, weight_of, soften, reset_card, relax_card,
  relax,
}
use eval_max_sat.MaxSat.Objective.{long_limit}
use eval_max_sat.MaxSat.Core.Exchange.{InStep, Exchanges}
use eval_max_sat.MaxSat.Core.Charge.{
  beyond, charged, charge_bound, inside, reweighed-IsReady, reweighed-Faithful,
}

get_or-set_default : {A : Type 0} (xs : List A) (i : ℕ) (d : A) → get_or (set xs i d) i d ≡ d
get_or-set_default [] i d = refl
get_or-set_default (x ∷ xs) zero d = refl
get_or-set_default (x ∷ xs) (suc i) d = get_or-set_default xs i d

get_or-append :
    {A : Type 0} (xs ys : List (Option A)) (i : ℕ) (x : A)
    → get_or xs i none ≡ some x
    → get_or (xs ++ ys) i none ≡ some x
get_or-append [] ys i x e = absurd (none-ne_some e)
get_or-append (y ∷ xs) ys zero x e = e
get_or-append (y ∷ xs) ys (suc i) x e = get_or-append xs ys i x e

module _ (T : ClauseSink) where
  -- Taking the card off a literal changes nothing that is charged.
  record Resets (s s' : MaxSat T) : Type 0 where
    in_step : InStep T s → InStep T s'
    exchanges : (u : MaxSat T) (p q : Assignment → ℕ) → Exchanges T u s p q → Exchanges T u s' p q

  reset_card-Resets :
      (s : MaxSat T) (lit : ℤ) (r : Option ℤ)
      → Resets s (reset_card T lit (s, r)).0 × ((reset_card T lit (s, r)).1 ≡ r)
  unfolding reset_card
  reset_card-Resets s lit r = elim (Bool-cases (is_zero (weight_of T s lit))) [
    | inl y ↦ rw y (
      record {
        in_step = λ i. record {
          ready = reweighed-IsReady T s.base s.heap s.poids _ i.ready;
          aligned = i.aligned;
          indexed = i.indexed;
        };
        exchanges = λ u p q x. record {
          grows = x.grows;
          sound = x.sound;
          complete = λ a f.
              let (b, ag, f2, e) = x.complete a f in
              (b, ag, reweighed-Faithful T s.base s.heap s.poids _ b f2, e);
        };
      },
      refl,
    )
    | inr z ↦ rw z (record { in_step = λ i. i; exchanges = λ u p q x. x }, refl)
  ]

  -- The clause of a card.
  abbrev card_clause : MaxSat T → Card → Clause
  card_clause s c = get_clause s.heap.var c.tree

  trues-le_card :
      (s : MaxSat T) (c : Card)
      → IsCard (sink T) s.heap c
      → (a : Assignment) → trues a (card_clause s c) ≤ c.max_vars
  trues-le_card s c d a = omega (
    arith,
    count-get_clause s.heap a c.tree d.tree,
    count-le s.heap (meaning s.heap a) c.tree d.tree,
    d.vars,
  )

  -- The cards of the literals there were stay, and a new variable has none.
  Steps-cards :
      {b b' : Base T}
      → Steps (sink T) b b'
      → (length b'.map_card + T.vars b.solver ≡ length b.map_card + T.vars b'.solver)
        × ((j : ℕ) (x : LitCard)
            → get_or b.map_card j none ≡ some x
            → get_or b'.map_card j none ≡ some x)
  unfolding base_new_var
  Steps-cards none_yet = (refl, λ j x e. e)
  Steps-cards (then_var {t} q) =
      let (l, f) = Steps-cards q in
      (
        omega (arith, l, length-append t.map_card (none ∷ []), T.vars-new_var t.solver),
        λ j x e. get_or-append t.map_card (none ∷ []) j x (f j x e),
      )
  Steps-cards (then_clause {t} c inside q) =
      let (l, f) = Steps-cards q in (omega (arith, l, T.vars-add_clause t.solver c inside), f)

  -- What is charged after `reset_card`, and which card a literal has.
  reset_card-cards :
      (s : MaxSat T) (lit : ℤ) (r : Option ℤ)
      → ((reset_card T lit (s, r)).0.poids ≡ s.poids)
        × (get_or (reset_card T lit (s, r)).0.map_card (abs lit) none
            ≡ (if is_zero (get s.poids lit) then none else get_or s.map_card (abs lit) none))
        × ((j : ℕ)
            → abs lit ≢ j
            → get_or (reset_card T lit (s, r)).0.map_card j none ≡ get_or s.map_card j none)
  unfolding reset_card
  reset_card-cards s lit r = elim (Bool-cases (is_zero (weight_of T s lit))) [
    | inl y ↦ rw y (
      refl,
      get_or-set_default s.map_card (abs lit) none,
      λ j ne. get_or-set_ne s.map_card (abs lit) j none none ne,
    )
    | inr z ↦ rw z (refl, refl, λ j ne. refl)
  ]

  -- The literal that relaxing brings: none if the next bound is no constraint, and else one of the
  -- card's weight, that is the output of the card for the next bound. The old one keeps its card only
  -- while it has a weight.
  abbrev pub NextOutput : MaxSat T → Option ℤ → ℤ → LitCard → Card → Type 0
  NextOutput s' r lit lc c =
      (get_or s'.map_card (abs lit) none ≡ (if is_zero (get s'.poids lit) then none else some lc))
      × (((r ≡ none) × (c.max_vars ≤ suc lc.at_most))
          ⊎ ((u : ℤ) × (r ≡ some u)
              × (suc lc.at_most < c.max_vars)
              × (get s'.poids u ≡ lc.initial_weight)
              × (get_or s'.map_card (abs u) none ≡ some (record lc { at_most = suc lc.at_most }))))

  -- Relaxing a literal whose card is asked for `k` exchanges the parts beyond `k + 1` and `k + 2`.
  abbrev pub Relaxes : MaxSat T → ℤ → ℕ → ℕ → ℕ → Card → Type 0
  Relaxes s lit n k w c =
      (s' : MaxSat T) × (r : Option ℤ) × (relax T s lit ≡ ok (s', r))
      × InStep T s'
      × NextOutput s' r lit (record { card = n; at_most = k; initial_weight = pos w }) c
      × Exchanges T s s' (beyond (suc k) (card_clause s c) w)
          (beyond (suc (suc k)) (card_clause s c) w)

  module _ (s : MaxSat T) (lit : ℤ) (n k w : ℕ) (c : Card) (i : InStep T s)
      (here : get_or s.map_card (abs lit) none
        ≡ some (record { card = n; at_most = k; initial_weight = pos w }))
      (there : get_elem? s.cards n ≡ some c) (d : IsCard (sink T) s.heap c) (hw : 0 < w)
      (lim : w < long_limit) where
    abbrev lc : LitCard
    lc = record { card = n; at_most = k; initial_weight = pos w }

    -- What is left to show once the card has answered.
    from_answer :
        (b : Base T) (h' : Heap) (c' : Card) (u : ℤ)
        → at_most (sink T) s.base s.heap c (suc k) ≡ some (b, h', c', u)
        → relax T s lit
          ≡ ok (
              reset_card T lit
                (soften T (record s { base = b; heap = h'; cards = set s.cards n c' }) lc u))
    unfolding relax relax_card
    from_answer b h' c' u e = rw (here, relax, there, ◌>>=◌, e, ◌>>=◌) refl

    pair :
        (q : MaxSat T × Option ℤ) (r : Option ℤ)
        → q.1 ≡ r
        → ◌≡◌ {A = MaxSat T × Option ℤ} q (q.0, r)
    pair q r e = ap (λ x. (q.0, x)) e

    -- The old literal's card, by the weight that is left.
    kept :
        {p p' : WeightVector} {m : Option LitCard}
        → p' ≡ p
        → m ≡ some lc
        → (if is_zero (get p lit) then none else m)
          ≡ (if is_zero (get p' lit) then none else some lc)
    kept e f = rw (e, f) refl

    -- The bound is no constraint any more.
    relax-full : c.max_vars ≤ suc k → Relaxes s lit n k w c
    unfolding at_most soften
    relax-full le =
        let full : leb c.max_vars (suc k) ≡ true = ground arith in
        let (x, same) = reset_card-Resets (record s { cards = set s.cards n c }) lit none in
        let (p, own, others) = reset_card-cards (record s { cards = set s.cards n c }) lit none in
        (
          _,
          none,
          from_answer s.base s.heap c (pos 0) (rw full refl) ∙ ap ok (pair _ none same),
          x.in_step (record { ready = i.ready; aligned = i.aligned; indexed = i.indexed }),
          (own ∙ kept p here, inl (refl, le)),
          x.exchanges s (beyond (suc k) (card_clause s c) w)
              (beyond (suc (suc k)) (card_clause s c) w)
              (record {
                grows = omega arith;
                sound = λ a h. (h, omega (arith, free a));
                complete = λ a f. (a, λ j q. refl, f, omega (arith, free a));
              }),
        )
      where
        free :
            (a : Assignment)
            → w * (trues a (card_clause s c) - suc k)
              ≡ w * (trues a (card_clause s c) - suc (suc k))
        free a = ap (λ t. w * t) (omega (arith, trues-le_card s c d a))

    -- The next output becomes soft.
    module _ (b : Base T) (h' : Heap) (c' : Card) (u : ℤ) (l : suc k < c.max_vars)
        (e : at_most (sink T) s.base s.heap c (suc k) ≡ some (b, h', c', u))
        (fresh : get_or b.map_card (abs u) none ≡ none) (blank : get b.poids u ≡ pos 0)
        (numbered : length s.map_card ≡ size s.poids) where
      answer : AtMost (sink T) s.base s.heap c (suc k) b h' c' u
      answer =
          let (b1, h1, c1, u1, e1, m) = at_most_lem (sink T) s.base s.heap c (suc k) i.ready d l in
          let same : ◌≡◌ {A = Base T × Heap × Card × ℤ} (b1, h1, c1, u1) (b, h', c', u) =
            some-injective _ _ (sym e1 ∙ e) in
          subst (λ x. AtMost (sink T) s.base s.heap c (suc k) x.0 x.1 x.2 x.3) same m

      encodes : Encodes (sink T) s.base s.heap (card_clause s c) (suc k) b h' u
      encodes = record {
        steps = answer.steps;
        in_use = answer.in_use;
        bounds = answer.sound;
        extends = answer.conservative;
        keeps = answer.entails;
      }

      abbrev softened : MaxSat T
      softened =
          charged T s i (card_clause s c) (suc k) b h' u answer.ready encodes w hw lim blank
            (set b.map_card (abs u) (some (record lc { at_most = suc k }))) (set s.cards n c')

      read : get (write b.poids u (pos w)) u ≡ pos w
      read =
          get-write b.poids u (pos w) (
            inside T s i (card_clause s c) (suc k) b h' u answer.ready encodes w hw lim blank [] [])

      -- The old literal has the card still, so that the new one is another.
      old_card : get_or b.map_card (abs lit) none ≡ some lc
      old_card = (Steps-cards encodes.steps).1 (abs lit) lc here

      another : abs lit ≢ abs u
      another q = none-ne_some (sym fresh ∙ ap (λ j. get_or b.map_card j none) (sym q) ∙ old_card)

      in_range : abs u < length b.map_card
      in_range = omega (arith, (Steps-cards encodes.steps).0, numbered, i.aligned, encodes.in_use.1)

      soften-softened :
          soften T (record s { base = b; heap = h'; cards = set s.cards n c' }) lc u
          ≡ (softened, some u)
      unfolding soften
      soften-softened =
          let nz : is_zero u ≡ false = is_zero_ne u encodes.in_use.0 in rw (nz, fresh, read) refl

      relax-next : Relaxes s lit n k w c
      relax-next =
          let (i', ex) =
            charge_bound T s i (card_clause s c) (suc k) b h' u answer.ready encodes w hw lim blank
              (set b.map_card (abs u) (some (record lc { at_most = suc k }))) (set s.cards n c') in
          let (x, same) = reset_card-Resets softened lit (some u) in
          let (p, own, others) = reset_card-cards softened lit (some u) in
          let new : LitCard = record lc { at_most = suc k } in
          (
            _,
            some u,
            from_answer b h' c' u e
                ∙ ap (λ r. ok (reset_card T lit r)) soften-softened
                ∙ ap ok (pair _ (some u) same),
            x.in_step i',
            (
              own
                  ∙ kept p (
                      get_or-set_ne b.map_card (abs u) (abs lit) (some new) none
                        (λ q. another (sym q))
                      ∙ old_card),
              inr (
                u,
                refl,
                l,
                ap (λ ws. get ws u) p ∙ read,
                others (abs u) another
                    ∙ get_or-set_self b.map_card (abs u) (some new) none in_range,
              ),
            ),
            x.exchanges s (beyond (suc k) (card_clause s c) w)
                (beyond (suc (suc k)) (card_clause s c) w) ex,
          )

    -- Relaxing a literal whose card is asked for `k` and has a positive weight of 63 bits, where the
    -- totalizers are ready, the numbering aligned, also that of the cards, and the weight map in step, the
    -- card is one, and its answer for `k + 1`, if that is a constraint, has no weight and no card yet:
    -- it succeeds and leaves the totalizers ready, the numbering aligned and the weight map in step. The
    -- old literal keeps its card only while it has a weight. If `k + 1` is a constraint, its literal gets
    -- the card's weight and the card at `k + 1`, and else no literal is returned. It exchanges what is
    -- to be paid beyond `k + 1` true literals of the card's clause for what is to be paid beyond `k + 2`:
    -- no solution of the new clauses is cheaper than that, and every solution of the old clauses that
    -- gives the literals made before their meaning has one of the new at exactly that price, with the
    -- same values of the old variables.
    pub relax_correct :
        (b : Base T) (h' : Heap) (c' : Card) (u : ℤ)
        → at_most (sink T) s.base s.heap c (suc k) ≡ some (b, h', c', u)
        → length s.map_card ≡ size s.poids
        → (suc k < c.max_vars → (get_or b.map_card (abs u) none ≡ none) × (get b.poids u ≡ pos 0))
        → Relaxes s lit n k w c
    relax_correct b h' c' u e numbered free = elim (split) [
      | inl le ↦ relax-full le
      | inr l ↦ relax-next b h' c' u l e (free l).0 (free l).1 numbered
    ]
      where
        split : (c.max_vars ≤ suc k) ⊎ (suc k < c.max_vars)
        split = omega arith
