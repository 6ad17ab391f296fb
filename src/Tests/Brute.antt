-- ===== src/Tests/Brute.antt =====
-- A solver that tries every assignment: what the theorems ask of a SAT solver can be given.
use eval_max_sat.Common.{
  ℕ, zero, suc, ◌+◌, ◌<◌, ◌≡◌, refl, sym, ap, ◌∙◌, List, [], ◌∷◌, if◌then◌else◌, Bool, true, false,
  length, All, In, arith, inl, inr, Bool-cases, ◌&&◌, and_left, and_right,
}
use eval_max_sat.Common.Int.{ℤ, pos, negsuc, abs}
use eval_max_sat.Common.Assign.{Assignment, Clause, holds, holds_all}
use eval_max_sat.Lazy.{ClauseSink}
use eval_max_sat.Lazy.Invariant.{
  Agree, Within, Within-mono, All-Within-mono, holds-Agree, holds_all-Agree,
}
use eval_max_sat.MaxSat.Oracle.{SatSolver, IsCore, valued, without}
use eval_max_sat.MaxSat.NewSoft.{holds_each}

-- A list of that many values that passes, if there is one.
unfoldable pub guess : ℕ → (List Bool → Bool) → List Bool
guess zero p = []
guess (suc n) p =
    let left = guess n (λ x. p (false ∷ x)) in
    let right = guess n (λ x. p (true ∷ x)) in
    if p (false ∷ left) then false ∷ left else true ∷ right

guess_complete :
    (n : ℕ) (p : List Bool → Bool) (x : List Bool)
    → length x ≡ n
    → p x ≡ true
    → p (guess n p) ≡ true
unfolding guess
guess_complete zero p [] e h = h
guess_complete zero p (b ∷ x) e h = absurd (omega (arith, e))
guess_complete (suc n) p [] e h = absurd (omega (arith, e))
guess_complete (suc n) p (false ∷ x) e h =
    let y = guess_complete n (λ t. p (false ∷ t)) x (omega (arith, e)) h in rw y y
guess_complete (suc n) p (true ∷ x) e h =
    let y = guess_complete n (λ t. p (true ∷ t)) x (omega (arith, e)) h in
    elim (Bool-cases (p (false ∷ guess n (λ t. p (false ∷ t))))) [ inl u ↦ rw u u | inr z ↦ rw z y ]

-- The first values of an assignment.
tabulate : ℕ → Assignment → List Bool
tabulate zero a = []
tabulate (suc n) a = a 0 ∷ tabulate n (λ i. a (suc i))

length-tabulate : (n : ℕ) (a : Assignment) → length (tabulate n a) ≡ n
unfolding tabulate
length-tabulate zero a = refl
length-tabulate (suc n) a = ap suc (length-tabulate n (λ i. a (suc i)))

valued-tabulate : (n i : ℕ) (a : Assignment) → i < n → valued (tabulate n a) i ≡ a i
unfolding tabulate
valued-tabulate zero i a h = absurd (omega arith)
valued-tabulate (suc n) zero a h = refl
valued-tabulate (suc n) (suc i) a h = valued-tabulate n i (λ k. a (suc k)) (omega arith)

-- No variable of the clauses has a greater number than the sum of them.
unfoldable pub bound : Clause → ℕ
bound [] = 0
bound (l ∷ c) = abs l + bound c

unfoldable pub bound_all : List Clause → ℕ
bound_all [] = 0
bound_all (c ∷ cs) = bound c + bound_all cs

bound-Within : (c : Clause) → Within (bound c) c
unfolding bound
bound-Within [] = tt
bound-Within (l ∷ c) =
    (omega arith, Within-mono (bound c) (abs l + bound c) c (omega arith) (bound-Within c))

bound_all-Within : (cs : List Clause) → All (Within (bound_all cs)) cs
unfolding bound_all
bound_all-Within [] = tt
bound_all-Within (c ∷ cs) = (
  Within-mono (bound c) (bound c + bound_all cs) c (omega arith) (bound-Within c),
  All-Within-mono (bound_all cs) (bound c + bound_all cs) cs (omega arith) (bound_all-Within cs),
)

-- The test of a list of values.
abbrev pub passes : List Clause → List ℤ → List Bool → Bool
passes cs c x = holds_all (valued x) cs && holds_each (valued x) c

unfoldable pub best : List Clause → List ℤ → List Bool
unfolding guess bound bound_all
best cs c = guess (suc (bound_all cs + bound c)) (passes cs c)

holds_each-Agree :
    (n : ℕ) (a b : Assignment) (c : Clause)
    → Agree n a b
    → Within n c
    → holds_each b c ≡ holds_each a c
holds_each-Agree n a b [] f h = refl
holds_each-Agree n a b (l ∷ c) f (h, hs) =
    rw (holds-Agree n a b l f h, holds_each-Agree n a b c f hs)

-- An assignment that passes shows a list that does.
best_complete :
    (cs : List Clause) (c : List ℤ) (a : Assignment)
    → holds_all a cs ≡ true
    → holds_each a c ≡ true
    → passes cs c (best cs c) ≡ true
unfolding best
best_complete cs c a h k =
    let n = bound_all cs + bound c in
    let x = tabulate (suc n) a in
    let f : Agree n a (valued x) = λ i le. valued-tabulate (suc n) i a (omega arith) in
    let u =
      holds_all-Agree n a (valued x) cs f
        (All-Within-mono (bound_all cs) n cs (omega arith) (bound_all-Within cs)) in
    let w =
      holds_each-Agree n a (valued x) c f
        (Within-mono (bound c) n c (omega arith) (bound-Within c)) in
    guess_complete (suc n) (passes cs c) x (length-tabulate (suc n) a) (rw (u, w, h, k) refl)

falsified :
    (a : Assignment) (c : List ℤ) → holds_each a c ≡ false → (l : ℤ) × In l c × (holds a l ≡ false)
falsified a [] h = cc
falsified a (l ∷ c) h = elim (Bool-cases (holds a l)) [
  | inl y ↦
      let (k, i, f) = falsified a c (sym (ap (λ b. b && holds_each a c) y) ∙ h) in (k, inr i, f)
  | inr z ↦ (l, inl refl, z)
]

pub best-IsCore : (cs : List Clause) (c : List ℤ) → passes cs c (best cs c) ≡ false → IsCore cs c
best-IsCore cs c z a h = elim (Bool-cases (holds_each a c)) [
  | inl y ↦ absurd (clash (sym (best_complete cs c a h y) ∙ z))
  | inr n ↦ falsified a c n
]
  where
    clash : true ≡ false → ⊥
    clash e = cc

pub all_hold : (a : Assignment) (c : List ℤ) → holds_each a c ≡ true → All (λ l. holds a l ≡ true) c
all_hold a [] h = tt
all_hold a (l ∷ c) h = (
  and_left (holds a l) (holds_each a c) h,
  all_hold a c (and_right (holds a l) (holds_each a c) h),
)

pub record Known : Type 0 where
  pub number : ℕ
  pub stored : List Clause
  pub found : List Bool

abbrev pub brute : ClauseSink
brute = record {
  State = Known;
  new_var = λ s. (record s { number = suc s.number }, pos (suc s.number));
  add_clause = λ s c. record s { stored = c ∷ s.stored };
  vars = λ s. s.number;
  clauses = λ s. s.stored;
  new_var_lit = λ s. refl;
  vars-new_var = λ s. refl;
  clauses-new_var = λ s. refl;
  clauses-add_clause = λ s c. refl;
  vars-add_clause = λ s c w. refl;
}

unfoldable pub answer_of : Bool → ℤ
answer_of b = if b then pos 1 else pos 0

pub answer_of-zero : (b : Bool) → answer_of b ≡ pos 0 → b ≡ false
unfolding answer_of
answer_of-zero true h = cc
answer_of-zero false h = refl

unfoldable pub engine : SatSolver brute
unfolding best answer_of
engine = record {
  propagate = λ s c. (s, true, []);
  solve_limited = λ s c budget except.
      (s, answer_of (passes s.stored (without except c) (best s.stored (without except c))));
  solve = λ s c. (record s { found = best s.stored c }, passes s.stored c (best s.stored c));
  solve_with_timeout = λ s c. (s, negsuc 0);
  get_conflict = λ s c. c;
  get_solution = λ s. s.found;
  clauses-propagate = λ s c. refl;
  vars-propagate = λ s c. refl;
  clauses-solve_limited = λ s c b e. refl;
  vars-solve_limited = λ s c b e. refl;
  propagate-IsCore = λ s c h. cc;
  propagate_implies = λ s c a h k i. tt;
  solve_limited-IsCore = λ s c b e h. best-IsCore s.stored (without e c) (answer_of-zero _ h);
  clauses-solve = λ s c. refl;
  vars-solve = λ s c. refl;
  clauses-solve_with_timeout = λ s c. refl;
  vars-solve_with_timeout = λ s c. refl;
  solve_sat = λ s c h. (
    and_left (holds_all (valued (best s.stored c)) s.stored)
        (holds_each (valued (best s.stored c)) c) h,
    all_hold (valued (best s.stored c)) c (
        and_right (holds_all (valued (best s.stored c)) s.stored)
          (holds_each (valued (best s.stored c)) c) h),
  );
  solve_unsat = λ s c h. (best-IsCore s.stored c h, λ l i. i);
  get_conflict-IsDistinct = λ s c d. d;
}
