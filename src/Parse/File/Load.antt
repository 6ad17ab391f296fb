-- ===== src/Parse/File/Load.antt =====
-- utile.h, parse on a whole file: it feeds the clauses to the solver as they stand in the file.
use eval_max_sat.Common.{
  ℕ, zero, suc, ◌<◌, ◌≤◌, ◌≡◌, refl, sym, ap, ◌∙◌, List, [], ◌∷◌, ◌++◌, All, none, some, true,
  false, leb, ltb, ◌^◌, length, ◌==◌, arith, append_assoc, append-nil, length-append,
}
use eval_max_sat.Common.Int.{ℤ, pos}
use eval_max_sat.Common.Assign.{Clause}
use eval_max_sat.Lazy.{ClauseSink}
use eval_max_sat.Parse.{Stream, skip_whitespace, hard_weight}
use eval_max_sat.MaxSat.{MaxSat, Result, ok, err, add_clause}
use eval_max_sat.MaxSat.Query.{n_vars, set_n_input_vars}
use eval_max_sat.Parse.File.{
  Read, got, rejected, aborted, out_of_fuel, failed, ◌>>=◌, or_error, Progress, clause_line,
  one_line, all_lines, add_all_soft, parse, read_clause_into,
}
use eval_max_sat.Parse.File.Clauses.{
  print_clause, NonZero, declare_all, into-blank, into-print, length-print_clause,
}
use eval_max_sat.Parse.File.Print.{
  Line, hard, soft, print_weight, clause_of, weight_of, print_line, print_file, IsLine,
  parse_weight-print_weight, StartsLine, StartsLine-print_line, blank_line, print_file-skip,
  length-print_file,
}

-- The soft clauses of a file, in order.
unfoldable softs : List Line → List (Clause × ℕ)
softs [] = []
softs (hard c ∷ ls) = softs ls
softs (soft w c ∷ ls) = (c, w) ∷ softs ls

-- The weight of a soft clause is a `long long`.
abbrev pub IsLong : Line → Type 0
IsLong (hard c) = Unit
IsLong (soft w c) = w < 2 ^ 63

module _ (T : ClauseSink) where
  -- The variables of every line are made, and the hard clauses added, in order.
  unfoldable pub load : MaxSat T → List Line → Read (MaxSat T)
  load s [] = got s
  load s (hard c ∷ ls) = do (s', _) ← or_error (add_clause T (declare_all T s c) c none); load s' ls
  load s (soft w c ∷ ls) = load (declare_all T s c) ls

  -- The soft clauses are added in order, each with its weight.
  unfoldable pub load_soft : MaxSat T → List Line → Read (MaxSat T)
  load_soft s [] = got s
  load_soft s (hard c ∷ ls) = load_soft s ls
  load_soft s (soft w c ∷ ls) = do
    (s', _) ← or_error (add_clause T s c (some (pos w)))
    load_soft s' ls

  abbrev at_input : Progress T → Stream → Progress T
  at_input p s = record p { input = s }

  read_clause_into-behind :
      (s : MaxSat T) (c : Clause) (t : Stream)
      → All NonZero c
      → read_clause_into T
          (suc (length (b' ' ∷ print_clause c ++ 10 ∷ t)))
          s
          []
          (b' ' ∷ print_clause c ++ 10 ∷ t)
        ≡ got (declare_all T s c, c, 10 ∷ t)
  read_clause_into-behind s c t h =
      into-blank T (suc (length (b' ' ∷ print_clause c ++ 10 ∷ t))) s [] (print_clause c ++ 10 ∷ t)
      ∙ into-print T (suc (length (b' ' ∷ print_clause c ++ 10 ∷ t))) s [] c (10 ∷ t)
          (omega (arith, length-append (print_clause c) (10 ∷ t), length-print_clause c)) h refl

  -- What a line makes of the progress.
  abbrev fed : Progress T → Line → Stream → Read (Progress T)
  fed p (hard c) t = do
    (s', _) ← or_error (add_clause T (declare_all T p.solver c) c none)
    got (record p { solver = s'; input = 10 ∷ t })
  fed p (soft w c) t = got (record p {
    solver = declare_all T p.solver c;
    soft_clauses = p.soft_clauses ++ (c, w) ∷ [];
    input = 10 ∷ t;
  })

  clause_line-print_line :
      (p : Progress T) (l : Line) (t : Stream)
      → IsLine l
      → p.top ≡ hard_weight
      → clause_line T (at_input p (print_line l ++ 10 ∷ t)) ≡ fed p l t
  unfolding clause_line print_line clause_of weight_of
  clause_line-print_line p (hard c) t h e =
      let heavy : leb p.top hard_weight ≡ true = ground (arith, e) in
      rw
        (
          append_assoc (print_weight (hard c)) (b' ' ∷ print_clause c) (10 ∷ t),
          parse_weight-print_weight (hard c) (print_clause c ++ 10 ∷ t) h,
          read_clause_into-behind p.solver c t h,
          heavy,
        )
        refl
  clause_line-print_line p (soft w c) t (b, h) e =
      let light : leb p.top w ≡ false = ground (arith, e) in
      rw
        (
          append_assoc (print_weight (soft w c)) (b' ' ∷ print_clause c) (10 ∷ t),
          parse_weight-print_weight (soft w c) (print_clause c ++ 10 ∷ t) (b, h),
          read_clause_into-behind p.solver c t h,
          light,
        )
        refl

  one_line-line :
      (p : Progress T) (c : ℕ) (s : Stream)
      → (c == b'c') ≡ false
      → (c == b'p') ≡ false
      → one_line T p c s ≡ clause_line T (at_input p (c ∷ s))
  unfolding one_line
  one_line-line p c s h k = rw (one_line, h, k) refl

  all_lines-start :
      (f : ℕ) (p : Progress T) (s : Stream)
      → skip_whitespace p.input ≡ s
      → StartsLine s
      → all_lines T (suc f) p ≡ (clause_line T (at_input p s) >>= all_lines T f)
  unfolding all_lines
  all_lines-start f p [] e h = absurd h
  all_lines-start f p (c ∷ s) e (w, h, k) =
      rw (all_lines, e) (ap (λ r. r >>= all_lines T f) (one_line-line p c s h k))

  all_lines-end :
      (f : ℕ) (p : Progress T)
      → skip_whitespace p.input ≡ []
      → all_lines T (suc f) p ≡ got (at_input p [])
  unfolding all_lines
  all_lines-end f p e = rw (all_lines, e) refl

  -- The progress at the end of a file.
  abbrev done : List (Clause × ℕ) → MaxSat T → Read (Progress T)
  done soft_clauses s =
      got (record { solver = s; soft_clauses = soft_clauses; top = hard_weight; input = [] })

  all_lines-lines :
      (f : ℕ) (ls : List Line) (p : Progress T)
      → length ls < f
      → All IsLine ls
      → p.top ≡ hard_weight
      → skip_whitespace p.input ≡ print_file ls
      → all_lines T f p ≡ (load p.solver ls >>= done (p.soft_clauses ++ softs ls))
  unfolding print_file load softs
  all_lines-lines zero ls p b h e k = elim b [ ]
  all_lines-lines (suc f) [] p b h e k =
      all_lines-end f p k
      ∙ ap
          (λ n.
            got (record { solver = p.solver; soft_clauses = p.soft_clauses; top = n; input = [] }))
          e
      ∙ ap (λ cs. done cs p.solver) (sym (append-nil p.soft_clauses))
  all_lines-lines (suc f) (hard c ∷ ls) p b (h, hs) e k =
      all_lines-start f p (print_line (hard c) ++ 10 ∷ print_file ls) k
        (StartsLine-print_line (hard c) (10 ∷ print_file ls))
      ∙ ap (λ r. r >>= all_lines T f) (clause_line-print_line p (hard c) (print_file ls) h e)
      ∙ by_result (add_clause T (declare_all T p.solver c) c none) (λ s'.
        all_lines-lines f ls (record p { solver = s'; input = 10 ∷ print_file ls }) (omega arith) hs
          e (blank_line ls))
    where
      by_result :
          (r : Result (MaxSat T × ℤ))
          → ((s' : MaxSat T)
              → all_lines T f (record p { solver = s'; input = 10 ∷ print_file ls })
                ≡ (load s' ls >>= done (p.soft_clauses ++ softs ls)))
          → ((or_error r >>= λ (s', u). got (record p { solver = s'; input = 10 ∷ print_file ls }))
              >>= all_lines T f)
            ≡ ((or_error r >>= λ (s', u). load s' ls) >>= done (p.soft_clauses ++ softs ls))
      by_result (err x) rest = refl
      by_result (ok (s', u)) rest = rest s'
  all_lines-lines (suc f) (soft w c ∷ ls) p b (h, hs) e k =
      all_lines-start f p (print_line (soft w c) ++ 10 ∷ print_file ls) k
        (StartsLine-print_line (soft w c) (10 ∷ print_file ls))
      ∙ ap (λ r. r >>= all_lines T f) (clause_line-print_line p (soft w c) (print_file ls) h e)
      ∙ all_lines-lines f ls
          (record p {
            solver = declare_all T p.solver c;
            soft_clauses = p.soft_clauses ++ (c, w) ∷ [];
            input = 10 ∷ print_file ls;
          })
          (omega arith) hs e (blank_line ls)
      ∙ ap (λ cs. load (declare_all T p.solver c) ls >>= done cs)
          (append_assoc p.soft_clauses ((c, w) ∷ []) (softs ls))

  -- The end of parse.
  abbrev add_softs : List (Clause × ℕ) → MaxSat T → Read (MaxSat T)
  add_softs cs s = add_all_soft T (set_n_input_vars T s (n_vars T s)) cs

  parse-bytes :
      (s : MaxSat T) (t : Stream)
      → 0 < length t
      → parse T s t ≡ (
          all_lines T
            (suc (length t))
            (record { solver = s; soft_clauses = []; top = hard_weight; input = t })
          >>= λ p. add_softs p.soft_clauses p.solver)
  unfolding parse
  parse-bytes s [] h = elim h [ ]
  parse-bytes s (c ∷ t) h = refl

  load_then :
      (r : Read (MaxSat T)) (cs : List (Clause × ℕ))
      → ((r >>= done cs) >>= λ p. add_softs p.soft_clauses p.solver) ≡ (r >>= add_softs cs)
  load_then (got s) cs = refl
  load_then rejected cs = refl
  load_then aborted cs = refl
  load_then out_of_fuel cs = refl
  load_then (failed e) cs = refl

  add_all_soft-softs :
      (ls : List Line) (s : MaxSat T) → All IsLong ls → add_all_soft T s (softs ls) ≡ load_soft s ls
  unfolding add_all_soft softs load_soft
  add_all_soft-softs [] s h = refl
  add_all_soft-softs (hard c ∷ ls) s (h, hs) = add_all_soft-softs ls s hs
  add_all_soft-softs (soft w c ∷ ls) s (h, hs) =
      let long : ltb w (2 ^ 63) ≡ true = ground arith in
      rw long (by_result (add_clause T s c (some (pos w))) (λ s'. add_all_soft-softs ls s' hs))
    where
      by_result :
          (r : Result (MaxSat T × ℤ))
          → ((s' : MaxSat T) → add_all_soft T s' (softs ls) ≡ load_soft s' ls)
          → (or_error r >>= λ (s', u). add_all_soft T s' (softs ls))
            ≡ (or_error r >>= λ (s', u). load_soft s' ls)
      by_result (err x) rest = refl
      by_result (ok (s', u)) rest = rest s'

  load_soft_then :
      (ls : List Line) (r : Read (MaxSat T))
      → All IsLong ls
      → (r >>= add_softs (softs ls)) ≡ (r >>= λ s. load_soft (set_n_input_vars T s (n_vars T s)) ls)
  load_soft_then ls (got s) h = add_all_soft-softs ls (set_n_input_vars T s (n_vars T s)) h
  load_soft_then ls rejected h = refl
  load_soft_then ls aborted h = refl
  load_soft_then ls out_of_fuel h = refl
  load_soft_then ls (failed e) h = refl

  -- A file in the new format, of one line or more, one clause a line, is read as it was written: parse
  -- makes the variables of every line and adds the hard clauses in order, then sets the number of
  -- input variables, then adds the soft clauses in order, each with its weight; it fails where one of
  -- these calls does. The literals are none of them 0 and each soft clause weighs less than 2 ^ 63.
  -- The fuel is always enough.
  pub parse-print_file :
      (s : MaxSat T) (l : Line) (ls : List Line)
      → All IsLine (l ∷ ls)
      → All IsLong (l ∷ ls)
      → parse T s (print_file (l ∷ ls))
        ≡ (load s (l ∷ ls) >>= λ s'. load_soft (set_n_input_vars T s' (n_vars T s')) (l ∷ ls))
  parse-print_file s l ls h b =
      let file = print_file (l ∷ ls) in
      let long : length (l ∷ ls) ≤ length file = length-print_file (l ∷ ls) in
      parse-bytes s file (omega arith)
      ∙ ap (λ r. r >>= λ p. add_softs p.soft_clauses p.solver)
          (all_lines-lines (suc (length file)) (l ∷ ls)
            (record { solver = s; soft_clauses = []; top = hard_weight; input = file })
            (omega arith) h refl (print_file-skip (l ∷ ls)))
      ∙ load_then (load s (l ∷ ls)) (softs (l ∷ ls))
      ∙ load_soft_then (l ∷ ls) (load s (l ∷ ls)) b
