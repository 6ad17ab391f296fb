-- ===== src/MaxSat/Core/Step.antt =====
-- A core that is taken and whose card is then made: what the two steps of solve do together.
use eval_max_sat.Common.{
  ℕ, zero, suc, ◌+◌, ◌-◌, ◌*◌, ◌<◌, ◌≡◌, sym, ap, ◌∙◌, subst, List, [], ◌∷◌, ◌++◌, true, All, arith,
  length, map,
}
use native.Mathlib.Nat.{mul-suc}
use eval_max_sat.Common.Int.{ℤ, pos, neg, abs, abs-neg}
use eval_max_sat.Common.Assign.{Assignment, Clause, holds_all}
use eval_max_sat.Lazy.{ClauseSink, Heap}
use eval_max_sat.Lazy.Invariant.{Agree}
use eval_max_sat.Card.Ready.{IsReady, Faithful}
use eval_max_sat.Card.Trues.{trues}
use eval_max_sat.Card.New.{AreLiterals}
use eval_max_sat.Weights.{size, WeightVector}
use eval_max_sat.MaxSat.{MaxSat, Base, ok, sink}
use eval_max_sat.MaxSat.Objective.{objective, long_limit, weight_limit}
use eval_max_sat.MaxSat.Oracle.{IsDistinct, IsCore}
use eval_max_sat.MaxSat.Core.{Assum, take_core, add_cards}
use eval_max_sat.MaxSat.Core.Correct.{IsHeavy, Attains, take_core_correct}
use eval_max_sat.MaxSat.Core.Keeps.{take_core-Keeps}
use eval_max_sat.MaxSat.Core.Exchange.{InStep, Exchanges}
use eval_max_sat.MaxSat.Core.Charge.{beyond, reweighed-IsReady, reweighed-Faithful}
use eval_max_sat.MaxSat.Core.AddCard.{IsInLine, pending, add_cards_correct}
use eval_max_sat.MaxSat.Solve.Unsat.{trues-neg}

pending-append :
    (k : ℕ) (a : Assignment) (xs : List (Clause × ℤ)) (x : Clause × ℤ)
    → pending k (xs ++ x ∷ []) a ≡ pending k xs a + beyond k x.0 (abs x.1) a
pending-append k a [] (c, w) = omega arith
pending-append k a ((d, v) ∷ xs) x = omega (arith, pending-append k a xs x)

InLine-append :
    (n : ℕ) (xs : List (Clause × ℤ)) (x : Clause × ℤ)
    → All (IsInLine n) xs
    → IsInLine n x
    → All (IsInLine n) (xs ++ x ∷ [])
InLine-append n [] x h p = (p, tt)
InLine-append n (y ∷ xs) x (q, h) p = (q, InLine-append n xs x h p)

negated-AreLiterals :
    (n m : ℕ) (ws : WeightVector) (c : Clause)
    → size ws ≡ suc n
    → All (IsHeavy ws m) c
    → AreLiterals n (map neg c)
negated-AreLiterals n m ws [] e h = tt
negated-AreLiterals n m ws (l ∷ c) e ((p, q, _), h) =
    ((omega (arith, abs-neg l), omega (arith, abs-neg l)), negated-AreLiterals n m ws c e h)

heavy_bound :
    (m : ℕ) (ws : WeightVector) (c : Clause)
    → 0 < length c
    → All (IsHeavy ws m) c
    → (m < long_limit) × (0 < length (map neg c)) × All (λ l. 0 < abs l) c
heavy_bound m ws [] l h = elim l [ ]
heavy_bound m ws (k ∷ c) l ((p, q, (x, e, le, lp, lim)), h) =
    (omega arith, omega arith, (p, positive c h))
  where
    positive : (d : Clause) → All (IsHeavy ws m) d → All (λ l. 0 < abs l) d
    positive [] h = tt
    positive (j ∷ d) ((p, q, x), h) = (p, positive d h)

-- One falsified literal is paid for with the core.
paid_once : (x y m t : ℕ) → 0 < t → x + m * t ≡ y + m → x + m * (t - 1) ≡ y
paid_once x y m zero h e = elim h [ ]
paid_once x y m (suc t) h e =
    let e' = rw (mul-suc m t) at e in let one : suc t - 1 ≡ t = omega arith in rw one (omega arith)

module _ (T : ClauseSink) where
  moved-IsReady :
      (b b' : Base T) (h h' : Heap)
      → b'.solver ≡ b.solver
      → h' ≡ h
      → IsReady (sink T) b h
      → IsReady (sink T) b' h'
  moved-IsReady b b' h h' e f r = subst (IsReady (sink T) b') (sym f) (
      subst
        (λ x. IsReady (sink T) (record { solver = x; poids = b'.poids; map_card = b'.map_card }) h)
        (sym e) (reweighed-IsReady T b h b'.poids b'.map_card r))

  moved-Faithful :
      (b b' : Base T) (h h' : Heap) (a : Assignment)
      → b'.solver ≡ b.solver
      → h' ≡ h
      → Faithful (sink T) b h a
      → Faithful (sink T) b' h' a
  moved-Faithful b b' h h' a e f r =
      subst (λ g. Faithful (sink T) b' g a) (sym f)
        (subst
          (λ x.
            Faithful (sink T) (record { solver = x; poids = b'.poids; map_card = b'.map_card }) h a)
          (sym e) (reweighed-Faithful T b h b'.poids b'.map_card a r))

  -- The core is taken, and all cards in line are made.
  abbrev pub StepsOn : MaxSat T → Assum → Clause → ℕ → Type 0
  StepsOn s assum conflict stratum =
      let s1 = (take_core T s assum conflict stratum).0 in
      let assum1 = (take_core T s assum conflict stratum).1 in
      (m : ℕ) × (s2 : MaxSat T) × (assum2 : Assum) × (0 < m)
      × (add_cards T s1 assum1 s1.card_to_add stratum ≡ ok (s2, assum2))
      × All (IsHeavy s.poids m) conflict
      × Attains s.poids m conflict
      × InStep T s2
      × (s2.card_to_add ≡ [])
      × Exchanges T s s2 (pending 1 s.card_to_add)
          (pending 2 (s.card_to_add ++ (map neg conflict, pos m) ∷ []))

  -- Where the totalizers are ready, the numbering aligned, the weight map in step, the cost 2 ^ 63
  -- below its bound and the cards in line over literals in use and of positive weight, a core that is
  -- not empty, of distinct variables and positive weights, can be taken and the cards in line made: the
  -- step succeeds, empties the line and keeps these three. With what remains to be paid
  -- beyond the second falsified literal of each core, the last one's for the least of its weights, the new
  -- objective is that of the old formula with what was in line: no solution of the new clauses
  -- is cheaper than that, and every solution of the old clauses that gives the literals made before
  -- their meaning has one of the new at that price, with the same values of the old variables.
  pub core_step_correct :
      (s : MaxSat T) (assum : Assum) (conflict : Clause) (stratum : ℕ)
      → InStep T s
      → IsCore (T.clauses s.solver) conflict
      → 0 < length conflict
      → IsDistinct conflict
      → All (IsHeavy s.poids 1) conflict
      → s.cost + long_limit < weight_limit
      → All (IsInLine (T.vars s.solver)) s.card_to_add
      → StepsOn s assum conflict stratum
  core_step_correct s assum conflict stratum i core ne d h room line =
      let s1 = (take_core T s assum conflict stratum).0 in
      let (m, p, ix, heavy, least, e, obj) =
        take_core_correct T s assum conflict stratum i.indexed ne d h room in
      let (sv, hp, sz, _, _) = take_core-Keeps T s assum conflict stratum in
      let (lim, ne', positive) = heavy_bound m s.poids conflict ne heavy in
      let n = T.vars s.solver in
      let vs : T.vars s1.solver ≡ n = ap T.vars sv in
      let whole = s.card_to_add ++ (map neg conflict, pos m) ∷ [] in
      let new_line : All (IsInLine n) whole =
        InLine-append n s.card_to_add (map neg conflict, pos m) line
          (negated-AreLiterals n m s.poids conflict i.aligned heavy, ne', p, lim) in
      let i1 : InStep T s1 = record {
        ready = moved-IsReady s.base s1.base s.heap s1.heap sv hp i.ready;
        aligned = omega (arith, sz, vs, i.aligned);
        indexed = ix;
      } in
      let (s2, assum2, e2, i2, done, x) =
        add_cards_correct T s1 (take_core T s assum conflict stratum).1 whole stratum i1
          (subst (λ k. All (IsInLine k) whole) (sym vs) new_line) in
      let price : (a : Assignment)
          → holds_all a (T.clauses s.solver) ≡ true
          → objective T s1 a + pending 1 whole a ≡ objective T s a + pending 1 s.card_to_add a =
        λ a sat.
          let (l, inside, f) = core a sat in
          let once =
            paid_once (objective T s1 a) (objective T s a) m (trues a (map neg conflict))
              (trues-neg a conflict l positive inside f) (obj a) in
          omega (arith, once, pending-append 1 a s.card_to_add (map neg conflict, pos m)) in
      (
        m,
        s2,
        assum2,
        p,
        ap (λ cs. add_cards T s1 (take_core T s assum conflict stratum).1 cs stratum) e ∙ e2,
        heavy,
        least,
        i2,
        done,
        record {
          grows = omega (arith, x.grows, vs);
          sound = λ a sat2.
              let (sat1, le) = x.sound a sat2 in
              let sat : holds_all a (T.clauses s.solver) ≡ true =
                sym (ap (λ st. holds_all a (T.clauses st)) sv) ∙ sat1 in
              (sat, omega (arith, le, price a sat));
          complete = λ a f.
              let (b, ag, f2, eq) =
                x.complete a (moved-Faithful s.base s1.base s.heap s1.heap a sv hp f) in
              (b, subst (λ k. Agree k a b) vs ag, f2, omega (arith, eq, price a f.sat));
        },
      )
