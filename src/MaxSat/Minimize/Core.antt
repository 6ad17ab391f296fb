-- ===== src/MaxSat/Minimize/Core.antt =====
-- Minimizing a core leaves a core, of literals that were in it.
use eval_max_sat.Common.{
  ℕ, zero, suc, ◌-◌, ◌*◌, ◌<◌, ◌≡◌, ◌≢◌, refl, ap, ◌∙◌, List, if◌then◌else◌, Bool, true, false,
  length, get_or, In, arith, inl, inr, Bool-cases, ◌==◌,
}
use eval_max_sat.Common.Int.{is_zero_eq, ℤ, pos, is_zero}
use eval_max_sat.Common.Assign.{Clause, holds_all}
use eval_max_sat.Lazy.{ClauseSink}
use eval_max_sat.Weights.{WeightVector}
use eval_max_sat.MaxSat.Oracle.{SatSolver, IsCore}
use eval_max_sat.MaxSat.Clique.{back, pop_back, swap_remove}
use eval_max_sat.MaxSat.Minimize.Removal.{
  Within, IsPart, IsPart-refl, IsPart-trans, IsCore-Within, In-without, In-pop_back, In-swap_remove,
  In-sort, pop_back-IsPart, swap_remove-IsPart, sort-IsPart, length-swap_remove,
}
use eval_max_sat.MaxSat.Minimize.{
  sort, heavier, FirstLoop, stop, go_on, drop_last, drop_others, second_loop, one_minimize,
}

module _ (T : ClauseSink) (O : SatSolver T) (poids : WeightVector) (time_up : ℕ → Bool)
    (cs : List Clause) where
  open T use {State, clauses}

  -- What minimizing a core `c` leaves: no clause is added, and `c'` is a core of literals of `c`.
  abbrev pub Minimizes : Clause → State → Clause → Type 0
  Minimizes c s' c' = (clauses s' ≡ cs) × IsCore cs c' × IsPart c' c

  -- An answer 0 for a literal leaves a core without it.
  removed :
      (s : State) (c c' : Clause) (budget e : ℤ)
      → clauses s ≡ cs
      → ((l : ℤ) → In l c → l ≢ e → In l c')
      → is_zero (O.solve_limited s c budget e).1 ≡ true
      → IsCore cs c'
  removed s c c' budget e q keep z a h =
      let (l, i, f) =
        O.solve_limited-IsCore s c budget e (is_zero_eq (O.solve_limited s c budget e).1 z) a
          (ap (holds_all a) q ∙ h) in
      let (j, ne) = In-without e l c i in (l, keep l j ne, f)

  kept :
      (s : State) (c : Clause) (budget e : ℤ)
      → clauses s ≡ cs
      → clauses (O.solve_limited s c budget e).0 ≡ cs
  kept s c budget e q = O.clauses-solve_limited s c budget e ∙ q

  Minimizes-trans : (c d e : Clause) (s : State) → IsPart d c → Minimizes d s e → Minimizes c s e
  Minimizes-trans c d e s w (q, k, v) = (q, k, IsPart-trans e d c v w)

  abbrev LoopMinimizes : Clause → FirstLoop T O poids time_up → Type 0
  LoopMinimizes c (stop s c' p) = Minimizes c s c'
  LoopMinimizes c (go_on s c' r) = Minimizes c s c' × (0 < length c')

  LoopMinimizes-trans :
      (c d : Clause) (r : FirstLoop T O poids time_up)
      → IsPart d c
      → LoopMinimizes d r
      → LoopMinimizes c r
  LoopMinimizes-trans c d (stop s e p) w m = Minimizes-trans c d e s w m
  LoopMinimizes-trans c d (go_on s e r) w (m, l) = (Minimizes-trans c d e s w m, l)

  drop_last-LoopMinimizes :
      (fuel : ℕ) (s : State) (c : Clause) (b readings : ℕ)
      → clauses s ≡ cs
      → IsCore cs c
      → 0 < length c
      → LoopMinimizes c (drop_last T O poids time_up fuel s c b readings)
  unfolding drop_last
  drop_last-LoopMinimizes zero s c b readings q k n = (q, k, IsPart-refl c)
  drop_last-LoopMinimizes (suc fuel) s c b readings q k n =
      elim (Bool-cases (is_zero (O.solve_limited s c (pos (10 * b)) (back c)).1)) [
        | inr z ↦ rw z ((kept s c (pos (10 * b)) (back c) q, k, IsPart-refl c), n)
        | inl y ↦
            let q' = kept s c (pos (10 * b)) (back c) q in
            let k' =
              removed s c (pop_back c) (pos (10 * b)) (back c) q (λ l h ne. in_front l h ne) y in
            let w = pop_back-IsPart c in
            rw y (elim (Bool-cases (length (pop_back c) == 0)) [
              | inl e ↦ rw e (q', k', w)
              | inr f ↦ rw f (elim (Bool-cases (time_up readings)) [
                | inl t ↦ rw t (q', k', w)
                | inr u ↦ rw u (
                    LoopMinimizes-trans c (pop_back c) _ w (
                      drop_last-LoopMinimizes fuel (O.solve_limited s c (pos (10 * b)) (back c)).0
                        (pop_back c) b (suc readings) q' k' (ground arith)))
              ])
            ])
      ]
    where
      in_front : (l : ℤ) → In l c → l ≢ back c → In l (pop_back c)
      in_front l h ne = elim (In-pop_back l c h) [ inl i ↦ i | inr e ↦ absurd (ne e) ]

  drop_others-Minimizes :
      (n : ℕ) (s : State) (c : Clause) (b readings : ℕ)
      → clauses s ≡ cs
      → IsCore cs c
      → n < length c
      → Minimizes c
          (drop_others T O poids time_up n s c b readings).0
          (drop_others T O poids time_up n s c b readings).1
  unfolding drop_others
  drop_others-Minimizes zero s c b readings q k n = (q, k, IsPart-refl c)
  drop_others-Minimizes (suc i) s c b readings q k n =
      let e = get_or c i (pos 0) in
      let s' = (O.solve_limited s c (pos b) e).0 in
      let q' = kept s c (pos b) e q in
      elim (Bool-cases (is_zero (O.solve_limited s c (pos b) e).1)) [
        | inl y ↦
            let k' =
              removed s c (swap_remove c i) (pos b) e q (λ l h ne. In-swap_remove l c i n h ne) y in
            let w = swap_remove-IsPart c i (omega arith) in
            rw y (elim (Bool-cases (time_up readings)) [
              | inl t ↦ rw t (q', k', w)
              | inr u ↦ rw u (
                  Minimizes-trans c (swap_remove c i) _ _ w (
                    drop_others-Minimizes i s' (swap_remove c i) b (suc readings) q' k'
                      (omega (arith, length-swap_remove c i))))
            ])
        | inr z ↦ rw z (elim (Bool-cases (time_up readings)) [
          | inl t ↦ rw t (q', k, IsPart-refl c)
          | inr u ↦ rw u (drop_others-Minimizes i s' c b (suc readings) q' k (omega arith))
        ])
      ]

  second_loop-Minimizes :
      (c : Clause) (r : FirstLoop T O poids time_up) (b : ℕ)
      → LoopMinimizes c r
      → Minimizes c (second_loop T O poids time_up r b).0 (second_loop T O poids time_up r b).1
  second_loop-Minimizes c (stop s c' p) b m = m
  second_loop-Minimizes c (go_on s c' readings) b ((q, k, w), n) =
      Minimizes-trans c c' _ _ w
        (drop_others-Minimizes (length c' - 1) s c' b readings q k (omega arith))

-- Whatever the clock says and wherever the solver gives up, minimizing a core leaves a core of the same
-- clauses whose literals were all in it, and adds no clause.
pub one_minimize_correct :
    (T : ClauseSink) (O : SatSolver T) (poids : WeightVector) (time_up : ℕ → Bool) (s : T.State)
    (conflict : Clause) (b : ℕ) (sorted : Bool)
    → IsCore (T.clauses s) conflict
    → let (s', c', p) = one_minimize T O poids time_up s conflict b sorted in
      (T.clauses s' ≡ T.clauses s) × IsCore (T.clauses s) c' × IsPart c' conflict
unfolding one_minimize
one_minimize_correct T O poids time_up s conflict b sorted k =
    let c : Clause = if sorted then sort (heavier poids) conflict else conflict in
    let (there, back_again) = arranged sorted in
    let k' = IsCore-Within (T.clauses s) conflict c there k in
    elim (Bool-cases (length c == 0)) [
      | inl y ↦ rw y (refl, k', back_again)
      | inr z ↦ rw z (
          Minimizes-trans T O poids time_up (T.clauses s) conflict c _ _ back_again (
            second_loop-Minimizes T O poids time_up (T.clauses s) c _ b (
              drop_last-LoopMinimizes T O poids time_up (T.clauses s) (length c) s c b 0 refl k'
                (ground arith))))
    ]
  where
    arranged :
        (b : Bool)
        → let c : Clause = if b then sort (heavier poids) conflict else conflict in
          Within conflict c × IsPart c conflict
    arranged true =
        (λ l. (In-sort (heavier poids) conflict l).0, sort-IsPart (heavier poids) conflict)
    arranged false = (λ l h. h, IsPart-refl conflict)
