-- ===== src/Main/Values.antt =====
-- The values that the old format prints are read back, and they are the solution's.
use eval_max_sat.Common.{
  ℕ, suc, ◌+◌, ◌<◌, ◌≡◌, refl, sym, ap, ◌∙◌, subst, List, [], ◌∷◌, ◌++◌, if◌then◌else◌, Bool, true,
  false, not, length, All, arith, append_assoc, get_or, length-append,
}
use eval_max_sat.Common.Int.{pos, negsuc}
use eval_max_sat.Common.Assign.{Assignment, Clause, holds}
use eval_max_sat.Parse.{Stream, skip_whitespace, parse_int}
use eval_max_sat.Parse.Digits.{print_int, EndsNumber}
use eval_max_sat.Parse.File.{got, read_clause}
use eval_max_sat.Parse.File.Clauses.{print_clause, NonZero, read_clause-print, length-print_clause}
use eval_max_sat.MaxSat.Oracle.{valued}
use eval_max_sat.Main.{old_value, old_values}

-- The literals that hold, from the variable `i` on.
abbrev pub literals : ℕ → List Bool → Clause
literals i [] = []
literals i (b ∷ bs) = (if b then pos (suc i) else negsuc i) ∷ literals (suc i) bs

old_value-print :
    (i : ℕ) (b : Bool)
    → old_value (suc i) b ≡ b' ' ∷ print_int (if b then pos (suc i) else negsuc i)
unfolding old_value print_int
old_value-print i true = refl
old_value-print i false = refl

old_values-print :
    (i : ℕ) (bs : List Bool) (s : Stream)
    → old_values (suc i) bs ++ b' ' ∷ b'0' ∷ s ≡ b' ' ∷ print_clause (literals i bs) ++ s
unfolding old_values print_clause
old_values-print i [] s = refl
old_values-print i (b ∷ bs) s =
    let l = if b then pos (suc i) else negsuc i in
    append_assoc (old_value (suc i) b) (old_values (suc (suc i)) bs) (b' ' ∷ b'0' ∷ s)
    ∙ ap (λ x. x ++ (old_values (suc (suc i)) bs ++ b' ' ∷ b'0' ∷ s)) (old_value-print i b)
    ∙ ap (λ x. b' ' ∷ print_int l ++ x) (old_values-print (suc i) bs s)
    ∙ ap (λ x. b' ' ∷ x)
        (sym (append_assoc (print_int l) (b' ' ∷ print_clause (literals (suc i) bs)) s))

literals-NonZero : (i : ℕ) (bs : List Bool) → All NonZero (literals i bs)
literals-NonZero i [] = tt
literals-NonZero i (true ∷ bs) = (omega arith, literals-NonZero (suc i) bs)
literals-NonZero i (false ∷ bs) = (omega arith, literals-NonZero (suc i) bs)

-- They hold in an assignment that has those values.
literals-hold :
    (i : ℕ) (bs : List Bool) (a : Assignment)
    → ((k : ℕ) → k < length bs → a (suc (i + k)) ≡ get_or bs k false)
    → All (λ l. holds a l ≡ true) (literals i bs)
literals-hold i [] a h = tt
literals-hold i (b ∷ bs) a h = (
  first b (subst (λ n. a (suc n) ≡ b) (plus_zero i) (h 0 (omega arith))),
  literals-hold (suc i) bs a
      (λ k lt. subst (λ n. a (suc n) ≡ get_or bs k false) (shift i k) (h (suc k) (omega arith))),
)
  where
    plus_zero : (n : ℕ) → n + 0 ≡ n
    plus_zero n = omega arith

    shift : (m n : ℕ) → m + suc n ≡ suc m + n
    shift m n = omega arith

    first : (c : Bool) → a (suc i) ≡ c → holds a (if c then pos (suc i) else negsuc i) ≡ true
    first true e = e
    first false e = ap not e

length-literals : (i : ℕ) (bs : List Bool) → length (literals i bs) ≡ length bs
length-literals i [] = refl
length-literals i (b ∷ bs) = ap suc (length-literals (suc i) bs)

read_clause-blank :
    (f : ℕ) (acc : Clause) (s : Stream)
    → read_clause (suc f) acc (b' ' ∷ s) ≡ read_clause (suc f) acc s
unfolding read_clause parse_int skip_whitespace
read_clause-blank f acc s = refl

-- The values of the old format, with a 0 behind them, are read by readClause as a literal for each
-- variable, in order, which holds in the solution.
pub old_values_correct :
    (b : Bool) (bs : List Bool) (s : Stream)
    → EndsNumber s
    → let input = old_values 1 bs ++ b' ' ∷ b'0' ∷ s in
      (read_clause (suc (length input)) [] input ≡ got (literals 0 bs, s))
      × (length (literals 0 bs) ≡ length bs)
      × All (λ l. holds (valued (b ∷ bs)) l ≡ true) (literals 0 bs)
old_values_correct b bs s e =
    let c = literals 0 bs in
    let input = old_values 1 bs ++ b' ' ∷ b'0' ∷ s in
    let q = old_values-print 0 bs s in
    (
      ap (read_clause (suc (length input)) []) q
          ∙ read_clause-blank (length input) [] (print_clause c ++ s)
          ∙ read_clause-print (suc (length input)) [] c s
              (omega (arith, ap length q, length-append (print_clause c) s, length-print_clause c))
              (literals-NonZero 0 bs) e,
      length-literals 0 bs,
      literals-hold 0 bs (valued (b ∷ bs)) (λ k lt. ap (λ n. get_or bs n false) (zero_add k)),
    )
  where
    zero_add : (k : ℕ) → 0 + k ≡ k
    zero_add k = omega arith
