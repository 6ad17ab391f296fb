-- ===== src/Parse/File/Ends.antt =====
-- utile.h, parse on any bytes: the fuel of its loops is enough.
use eval_max_sat.Common.{
  ℕ, zero, suc, ◌≤◌, ◌<◌, ◌≡◌, ◌≢◌, subst, List, [], ◌∷◌, ◌++◌, Option, none, some, Bool, true,
  false, length, leb, if◌then◌else◌, ◌==◌, arith, Bool-cases, inl, inr,
}
use eval_max_sat.Common.Int.{ℤ, is_zero}
use eval_max_sat.Common.Assign.{Clause}
use eval_max_sat.Lazy.{ClauseSink}
use eval_max_sat.Parse.{
  Stream, skip_whitespace, skip_line, parse_int, parse_weight, eager_match, hard_weight,
}
use eval_max_sat.Parse.Consumes.{
  Leaves, Any, IsWord, skip_whitespace-le, skip_line-le, eager_match-le, parse_int-Leaves,
  parse_weight-Leaves,
}
use eval_max_sat.MaxSat.{MaxSat, Result, ok, err, add_clause}
use eval_max_sat.MaxSat.Query.{n_vars, set_n_input_vars}
use eval_max_sat.Parse.File.{
  Read, got, rejected, aborted, out_of_fuel, failed, ◌>>=◌, or_exit, or_error, wcnf, problem_line,
  declare, read_clause_into, Progress, clause_line, one_line, all_lines, add_all_soft, parse,
  long_of,
}

-- A read that ends, and leaves fewer than `n` bytes if it succeeds.
abbrev pub Ends : {A : Type 0} → (A → ℕ) → ℕ → Read A → Type 0
Ends left n (got a) = left a < n
Ends left n out_of_fuel = ⊥
Ends left n r = Unit

bind-Ends :
    {A B : Type 0} (left : A → ℕ) (left' : B → ℕ) (m n : ℕ) (r : Read A) (k : A → Read B)
    → Ends left m r
    → ((a : A) → left a < m → Ends left' n (k a))
    → Ends left' n (r >>= k)
bind-Ends left left' m n (got a) k h f = f a h
bind-Ends left left' m n rejected k h f = tt
bind-Ends left left' m n aborted k h f = tt
bind-Ends left left' m n out_of_fuel k h f = absurd h
bind-Ends left left' m n (failed e) k h f = tt

Ends-mono :
    {A : Type 0} (left : A → ℕ) (m n : ℕ) (r : Read A) → m ≤ n → Ends left m r → Ends left n r
Ends-mono left m n (got a) le h = omega arith
Ends-mono left m n rejected le h = tt
Ends-mono left m n aborted le h = tt
Ends-mono left m n out_of_fuel le h = h
Ends-mono left m n (failed e) le h = tt

or_exit-Ends :
    {A : Type 0} (P : A → Type 0) (n : ℕ) (o : Option (A × Stream))
    → Leaves P n o
    → Ends (λ (r : A × Stream). length r.1) n (or_exit o)
or_exit-Ends P n none h = tt
or_exit-Ends P n (some (a, rest)) h = h.1

int_Ends : (s : Stream) → Ends (λ (r : ℤ × Stream). length r.1) (length s) (or_exit (parse_int s))
int_Ends s = or_exit-Ends Any (length s) (parse_int s) (parse_int-Leaves s)

weight_Ends :
    (s : Stream) → Ends (λ (r : ℕ × Stream). length r.1) (length s) (or_exit (parse_weight s))
weight_Ends s = or_exit-Ends IsWord (length s) (parse_weight s) (parse_weight-Leaves s)

problem_line-Ends :
    (s : Stream) → Ends (λ (r : ℕ × Stream). length r.1) (suc (length s)) (problem_line s)
unfolding problem_line
problem_line-Ends [] = tt
problem_line-Ends (c ∷ s) = by_tests (c == b' ') (eager_match wcnf (skip_whitespace (c ∷ s))).0 _ (
    bind-Ends _ _ (length rest) (suc (suc (length s))) (or_exit (parse_int rest)) _ (int_Ends rest)
      (λ a l.
        bind-Ends _ _ (length a.1) (suc (suc (length s))) (or_exit (parse_int a.1)) _ (int_Ends a.1)
          (λ b l2.
            Ends-mono _ (length b.1) (suc (suc (length s))) (or_exit (parse_weight b.1))
              (omega (arith, short)) (weight_Ends b.1))))
  where
    rest : Stream
    rest = (eager_match wcnf (skip_whitespace (c ∷ s))).1

    short : length rest ≤ suc (length s)
    short = omega (arith, eager_match-le wcnf (skip_whitespace (c ∷ s)), skip_whitespace-le (c ∷ s))

    by_tests :
        (p q : Bool) (r : Read (ℕ × Stream))
        → Ends (λ (x : ℕ × Stream). length x.1) (suc (suc (length s))) r
        → Ends
            (λ (x : ℕ × Stream). length x.1)
            (suc (suc (length s)))
            (if p then if q then r else rejected else rejected)
    by_tests true true r h = h
    by_tests true false r h = tt
    by_tests false q r h = tt

module _ (T : ClauseSink) where
  abbrev left_of : MaxSat T × Clause × Stream → ℕ
  left_of r = length r.2

  abbrev left_in : Progress T → ℕ
  left_in p = length p.input

  read_clause_into-Ends :
      (f : ℕ) (s : MaxSat T) (c : Clause) (t : Stream)
      → length t < f
      → Ends left_of (length t) (read_clause_into T f s c t)
  unfolding read_clause_into
  read_clause_into-Ends zero s c t h = elim h [ ]
  read_clause_into-Ends (suc f) s c t h =
      bind-Ends _ left_of (length t) (length t) (or_exit (parse_int t)) _ (int_Ends t)
        (λ (lit, rest) l. by_zero lit rest (is_zero lit) _ l (
          Ends-mono left_of (length rest) (length t)
            (read_clause_into T f (declare T s lit) (c ++ lit ∷ []) rest) (omega arith)
            (read_clause_into-Ends f (declare T s lit) (c ++ lit ∷ []) rest (omega arith))))
    where
      by_zero :
          (lit : ℤ) (rest : Stream) (z : Bool) (r : Read (MaxSat T × Clause × Stream))
          → length rest < length t
          → Ends left_of (length t) r
          → Ends left_of (length t) (elim z [ true ↦ got (s, c, rest) | false ↦ r ])
      by_zero lit rest true r l h = l
      by_zero lit rest false r l h = h

  or_error-Ends :
      {A B : Type 0} (left : B → ℕ) (n : ℕ) (r : Result A) (k : A → Read B)
      → ((a : A) → Ends left n (k a))
      → Ends left n (or_error r >>= k)
  or_error-Ends left n (ok a) k h = h a
  or_error-Ends left n (err e) k h = tt

  clause_line-Ends : (p : Progress T) → Ends left_in (length p.input) (clause_line T p)
  unfolding clause_line
  clause_line-Ends p =
      bind-Ends _ left_in (length p.input) (length p.input) (or_exit (parse_weight p.input)) _
        (weight_Ends p.input)
        (λ (w, t) l.
          bind-Ends left_of left_in (length t) (length p.input)
            (read_clause_into T (suc (length t)) p.solver [] t) _
            (read_clause_into-Ends (suc (length t)) p.solver [] t (omega arith))
            (λ (s, c, rest) m. by_weight s c rest w (leb p.top w) (omega arith)))
    where
      by_weight :
          (s : MaxSat T) (c : Clause) (rest : Stream) (w : ℕ) (b : Bool)
          → length rest < length p.input
          → Ends left_in (length p.input) (elim b [
            | true ↦ do
              (s', _) ← or_error (add_clause T s c none)
              got (record p { solver = s'; input = rest })
            | false ↦ got (record p {
              solver = s;
              soft_clauses = p.soft_clauses ++ (c, w) ∷ [];
              input = rest;
            })
          ])
      by_weight s c rest w true l =
          or_error-Ends left_in (length p.input) (add_clause T s c none) _ (λ a. l)
      by_weight s c rest w false l = l

  one_line-Ends :
      (p : Progress T) (c : ℕ) (s : Stream) → Ends left_in (suc (length s)) (one_line T p c s)
  unfolding one_line skip_line
  one_line-Ends p c s = elim (Bool-cases (c == b'c')) [
    | inl y ↦
        let past : (c == 10) ≡ false = ground arith in
        rw (one_line, y, past) (omega (arith, skip_line-le s))
    | inr z ↦ elim (Bool-cases (c == b'p')) [
      | inl y ↦
          rw (one_line, z, y)
            (bind-Ends _ left_in (suc (length s)) (suc (length s)) (problem_line s) _
              (problem_line-Ends s) (λ a l. l))
      | inr u ↦ rw (one_line, z, u) (clause_line-Ends (record p { input = c ∷ s }))
    ]
  ]

  all_lines-Ends : (f : ℕ) (p : Progress T) → length p.input < f → Ends left_in 1 (all_lines T f p)
  unfolding all_lines
  all_lines-Ends zero p h = elim h [ ]
  all_lines-Ends (suc f) p h =
      by_rest (skip_whitespace p.input) (omega (arith, skip_whitespace-le p.input))
        (λ p' l. all_lines-Ends f p' l)
    where
      by_rest :
          (t : Stream)
          → length t ≤ f
          → ((p' : Progress T) → length p'.input < f → Ends left_in 1 (all_lines T f p'))
          → Ends left_in 1 (elim t [
            | [] ↦ got (record p { input = [] })
            | c ∷ s ↦ do p' ← one_line T p c s; all_lines T f p'
          ])
      by_rest [] l ih = omega arith
      by_rest (c ∷ s) l ih =
          bind-Ends left_in left_in (suc (length s)) 1 (one_line T p c s) _ (one_line-Ends p c s)
            (λ p' m. ih p' (omega arith))

  add_all_soft-Ends :
      (cs : List (Clause × ℕ)) (s : MaxSat T) → Ends (λ (t : MaxSat T). 0) 1 (add_all_soft T s cs)
  unfolding add_all_soft
  add_all_soft-Ends [] s = omega arith
  add_all_soft-Ends ((c, w) ∷ cs) s =
      or_error-Ends (λ (t : MaxSat T). 0) 1 (add_clause T s c (some (long_of w))) _
        (λ (s', u). add_all_soft-Ends cs s')

  -- Whatever the bytes of a file are, parse never runs out of the fuel that it gives its loops: it returns
  -- true or false, calls exit(3), or ends with an error of the solver.
  pub parse_ends : (s : MaxSat T) (t : Stream) → parse T s t ≢ out_of_fuel
  unfolding parse
  parse_ends s t e = subst (Ends (λ (u : MaxSat T). 0) 1) e (ends t)
    where
      ends : (t : Stream) → Ends (λ (u : MaxSat T). 0) 1 (parse T s t)
      ends [] = tt
      ends (c ∷ t) =
          bind-Ends left_in (λ (u : MaxSat T). 0) 1 1 (all_lines T (suc (suc (length t))) _) _
            (all_lines-Ends (suc (suc (length t)))
              (record { solver = s; soft_clauses = []; top = hard_weight; input = c ∷ t })
              (omega arith))
            (λ p l.
              add_all_soft-Ends p.soft_clauses (set_n_input_vars T p.solver (n_vars T p.solver)))
