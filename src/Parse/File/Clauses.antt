-- ===== src/Parse/File/Clauses.antt =====
-- utile.h, readClause: a clause that was written in decimal is read back.
use eval_max_sat.Common.{
  ℕ, zero, suc, ◌+◌, ◌-◌, ◌<◌, ◌≡◌, refl, sym, ap, ◌∙◌, [], ◌∷◌, ◌++◌, All, length, arith,
  if◌then◌else◌, leb, append_assoc, append-nil, subst, some, length-append,
}
use eval_max_sat.Common.Int.{ℤ, pos, negsuc, abs}
use eval_max_sat.Common.Assign.{Clause}
use eval_max_sat.Common.Loop.{for_range}
use eval_max_sat.Lazy.{ClauseSink}
use eval_max_sat.Parse.{Stream, parse_int}
use eval_max_sat.Parse.Digits.{
  EndsNumber, print_int, print_int-zero, parse_int-print_int, parse_int-blank,
}
use eval_max_sat.MaxSat.{MaxSat, new_var}
use eval_max_sat.MaxSat.Query.{n_vars}
use eval_max_sat.Weights.{size}
use eval_max_sat.Weights.Laws.{size-push_back}
use eval_max_sat.Parse.File.{got, read_clause, read_clause_into, declare}

-- The literals of a clause in decimal, each with a blank behind it, then a 0.
unfoldable pub print_clause : Clause → Stream
print_clause [] = b'0' ∷ []
print_clause (lit ∷ c) = print_int lit ++ b' ' ∷ print_clause c

abbrev pub NonZero : ℤ → Type 0
NonZero lit = 0 < abs lit

parse_int-zero : (s : Stream) → EndsNumber s → parse_int (b'0' ∷ s) ≡ some (pos 0, s)
parse_int-zero s h =
    subst (λ d. parse_int (d ++ s) ≡ some (pos 0, s)) print_int-zero
      (parse_int-print_int (pos 0) s h)

pub read_clause-blank :
    (f : ℕ) (acc : Clause) (s : Stream) → read_clause f acc (b' ' ∷ s) ≡ read_clause f acc s
unfolding read_clause
read_clause-blank zero acc s = refl
read_clause-blank (suc f) acc s = rw (parse_int-blank s) refl

read_clause-lit :
    (f : ℕ) (acc : Clause) (lit : ℤ) (s : Stream)
    → NonZero lit
    → read_clause (suc f) acc (print_int lit ++ b' ' ∷ s) ≡ read_clause f (acc ++ lit ∷ []) s
unfolding read_clause
read_clause-lit f acc (pos zero) s h = elim h [ ]
read_clause-lit f acc (pos (suc n)) s h =
    rw (parse_int-print_int (pos (suc n)) (b' ' ∷ s) refl)
      (read_clause-blank f (acc ++ pos (suc n) ∷ []) s)
read_clause-lit f acc (negsuc n) s h =
    rw (parse_int-print_int (negsuc n) (b' ' ∷ s) refl)
      (read_clause-blank f (acc ++ negsuc n ∷ []) s)

read_clause-end :
    (f : ℕ) (acc : Clause) (s : Stream)
    → EndsNumber s
    → read_clause (suc f) acc (b'0' ∷ s) ≡ got (acc, s)
unfolding read_clause
read_clause-end f acc s h = rw (parse_int-zero s h)

pub read_clause-print :
    (f : ℕ) (acc c : Clause) (s : Stream)
    → length c < f
    → All NonZero c
    → EndsNumber s
    → read_clause f acc (print_clause c ++ s) ≡ got (acc ++ c, s)
unfolding print_clause
read_clause-print zero acc c s b h e = elim b [ ]
read_clause-print (suc f) acc [] s b h e =
    read_clause-end f acc s e ∙ ap (λ k. got (k, s)) (sym (append-nil acc))
read_clause-print (suc f) acc (lit ∷ c) s b (h, hs) e =
    ap (read_clause (suc f) acc) (append_assoc (print_int lit) (b' ' ∷ print_clause c) s)
    ∙ read_clause-lit f acc lit (print_clause c ++ s) h
    ∙ read_clause-print f (acc ++ lit ∷ []) c s (omega arith) hs e
    ∙ ap (λ k. got (k, s)) (append_assoc acc (lit ∷ []) c)

pub length-print_clause : (c : Clause) → length c < length (print_clause c)
unfolding print_clause
length-print_clause [] = omega arith
length-print_clause (lit ∷ c) =
    omega (arith, length-append (print_int lit) (b' ' ∷ print_clause c), length-print_clause c)

-- A clause of literals other than 0, written in decimal with a 0 behind it, is read back by
-- readClause from a stream that goes on with no digit: the fuel that the length of the stream gives is
-- enough, and what follows the clause is left.
pub read_clause-print_clause :
    (c : Clause) (s : Stream)
    → All NonZero c
    → EndsNumber s
    → read_clause (suc (length (print_clause c ++ s))) [] (print_clause c ++ s) ≡ got (c, s)
read_clause-print_clause c s h e =
    read_clause-print (suc (length (print_clause c ++ s))) [] c s
      (omega (arith, length-append (print_clause c) s, length-print_clause c)) h e

-- The greatest of a number and the variables of a clause.
pub max_var : ℕ → Clause → ℕ
max_var v [] = v
max_var v (lit ∷ c) = max_var (if leb v (abs lit) then abs lit else v) c

module _ (T : ClauseSink) where
  -- The variables of the literals, declared in order.
  pub declare_all : MaxSat T → Clause → MaxSat T
  declare_all s [] = s
  declare_all s (lit ∷ c) = declare_all (declare T s lit) c

  pub into-blank :
      (f : ℕ) (t : MaxSat T) (acc : Clause) (s : Stream)
      → read_clause_into T f t acc (b' ' ∷ s) ≡ read_clause_into T f t acc s
  unfolding read_clause_into
  into-blank zero t acc s = refl
  into-blank (suc f) t acc s = rw (parse_int-blank s) refl

  into-lit :
      (f : ℕ) (t : MaxSat T) (acc : Clause) (lit : ℤ) (s : Stream)
      → NonZero lit
      → read_clause_into T (suc f) t acc (print_int lit ++ b' ' ∷ s)
        ≡ read_clause_into T f (declare T t lit) (acc ++ lit ∷ []) s
  unfolding read_clause_into
  into-lit f t acc (pos zero) s h = elim h [ ]
  into-lit f t acc (pos (suc n)) s h =
      rw (parse_int-print_int (pos (suc n)) (b' ' ∷ s) refl)
        (into-blank f (declare T t (pos (suc n))) (acc ++ pos (suc n) ∷ []) s)
  into-lit f t acc (negsuc n) s h =
      rw (parse_int-print_int (negsuc n) (b' ' ∷ s) refl)
        (into-blank f (declare T t (negsuc n)) (acc ++ negsuc n ∷ []) s)

  into-end :
      (f : ℕ) (t : MaxSat T) (acc : Clause) (s : Stream)
      → EndsNumber s
      → read_clause_into T (suc f) t acc (b'0' ∷ s) ≡ got (t, acc, s)
  unfolding read_clause_into
  into-end f t acc s h = rw (parse_int-zero s h)

  pub into-print :
      (f : ℕ) (t : MaxSat T) (acc c : Clause) (s : Stream)
      → length c < f
      → All NonZero c
      → EndsNumber s
      → read_clause_into T f t acc (print_clause c ++ s) ≡ got (declare_all t c, acc ++ c, s)
  unfolding print_clause declare_all
  into-print zero t acc c s b h e = elim b [ ]
  into-print (suc f) t acc [] s b h e =
      into-end f t acc s e ∙ ap (λ k. got (t, k, s)) (sym (append-nil acc))
  into-print (suc f) t acc (lit ∷ c) s b (h, hs) e =
      ap (read_clause_into T (suc f) t acc) (append_assoc (print_int lit) (b' ' ∷ print_clause c) s)
      ∙ into-lit f t acc lit (print_clause c ++ s) h
      ∙ into-print f (declare T t lit) (acc ++ lit ∷ []) c s (omega arith) hs e
      ∙ ap (λ k. got (declare_all (declare T t lit) c, k, s)) (append_assoc acc (lit ∷ []) c)

  size-new_vars :
      (n i : ℕ) (t : MaxSat T)
      → size (for_range n i (λ _ t'. new_var T t') t).poids ≡ size t.poids + n
  unfolding for_range new_var
  size-new_vars zero i t = omega arith
  size-new_vars (suc n) i t =
      omega (arith, size-new_vars n (i + 1) (new_var T t), size-push_back t.poids (pos 0))

  size-declare :
      (t : MaxSat T) (lit : ℤ)
      → 0 < size t.poids
      → size (declare T t lit).poids
        ≡ suc (if leb (n_vars T t) (abs lit) then abs lit else n_vars T t)
  size-declare t lit h = ground (arith, size-new_vars (abs lit - n_vars T t) 0 t)

  size-declare_all :
      (t : MaxSat T) (c : Clause) (v : ℕ)
      → size t.poids ≡ suc v
      → size (declare_all t c).poids ≡ suc (max_var v c)
  unfolding declare_all max_var
  size-declare_all t [] v h = h
  size-declare_all t (lit ∷ c) v h =
      let e : n_vars T t ≡ v = omega arith in
      size-declare_all (declare T t lit) c (if leb v (abs lit) then abs lit else v) (
        size-declare t lit (omega arith) ∙ ap (λ k. suc (if leb k (abs lit) then abs lit else k)) e)

  -- A clause of literals other than 0, written in decimal with a 0 behind it, is read into a solver
  -- with v variables: the clause comes back with what follows it, the fuel that the length of the
  -- stream gives is enough, and the solver then has as many variables as the greatest of v and of the
  -- clause's.
  pub read_clause_into-print_clause :
      (t : MaxSat T) (c : Clause) (s : Stream) (v : ℕ)
      → size t.poids ≡ suc v
      → All NonZero c
      → EndsNumber s
      → (t' : MaxSat T) × (read_clause_into T
            (suc (length (print_clause c ++ s)))
            t
            []
            (print_clause c ++ s)
          ≡ got (t', c, s))
        × (n_vars T t' ≡ max_var v c)
  read_clause_into-print_clause t c s v z h e =
      let final = size-declare_all t c v z in
      (
        declare_all t c,
        into-print (suc (length (print_clause c ++ s))) t [] c s
            (omega (arith, length-append (print_clause c) s, length-print_clause c)) h e,
        omega arith,
      )
