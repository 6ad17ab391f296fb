-- ===== src/MaxSat/Query.antt =====
-- EvalMaxSAT.h: what a caller reads of the solver, and the assumptions of a stratum.
use eval_max_sat.Common.{
  ℕ, zero, suc, ◌+◌, ◌-◌, ◌≤◌, ◌<◌, ◌≡◌, refl, List, [], ◌∷◌, Option, none, some, if◌then◌else◌,
  Bool, false, not, ltb, leb, length, get_elem?, get_or, take, arith, ap, inl, inr, Bool-cases,
}
use eval_max_sat.Common.Int.{ℤ, pos, negsuc, abs}
use eval_max_sat.Lazy.{ClauseSink}
use eval_max_sat.Weights.{size}
use eval_max_sat.WeightMap.{WeightMap, set_insert}
use eval_max_sat.MaxSat.{MaxSat}
use eval_max_sat.MaxSat.Core.{Assum}

-- solution[lit] or its negation, by sign; `none` where the read is out of bounds. 0 gives false.
abbrev read_value : List Bool → ℤ → Option Bool
read_value sol (pos zero) = some false
read_value sol (pos (suc n)) = get_elem? sol (suc n)
read_value sol (negsuc n) = elim (get_elem? sol (suc n)) [ none ↦ none | some b ↦ some (not b) ]

-- std::vector<bool>::resize
unfoldable pub resize : List Bool → ℕ → List Bool
resize sol zero = []
resize [] (suc n) = false ∷ resize [] n
resize (b ∷ sol) (suc n) = b ∷ resize sol n

module _ (T : ClauseSink) where
  unfoldable pub get_value : MaxSat T → ℤ → Option Bool
  get_value s lit =
      if ltb (length s.solution) (abs lit) then some false else read_value s.solution lit

  unfoldable pub get_solution : MaxSat T → List Bool
  unfolding resize
  get_solution s =
      if leb (s.n_input_vars + 1) (length s.solution)
      then take (s.n_input_vars + 1) s.solution
      else resize s.solution (s.n_input_vars + 1)

  abbrev pub get_cost : MaxSat T → ℕ
  get_cost s = s.solution_cost

  abbrev pub n_vars : MaxSat T → ℕ
  n_vars s = size s.poids - 1

  abbrev pub set_n_input_vars : MaxSat T → ℕ → MaxSat T
  set_n_input_vars s n = record s { n_input_vars = n }

  abbrev pub set_incremental : MaxSat T → Bool → MaxSat T
  set_incremental s value = record s { is_incremental = value }

  abbrev pub is_weighted : MaxSat T → Bool
  is_weighted s = ltb 1 (length s.map_weight)

-- for(auto lit: lits) assum.insert(lit);
unfoldable pub insert_all : List ℤ → Assum → Assum
insert_all [] assum = assum
insert_all (l ∷ ls) assum = insert_all ls (set_insert l assum)

-- From the greatest weight down, as long as it reaches the bound: the sets above come first.
unfoldable pub init_assum : WeightMap → ℕ → Assum
unfolding insert_all
init_assum [] least = []
init_assum ((w, lits) ∷ m) least =
    let above = init_assum m least in if ltb w least then above else insert_all lits above

length-take_le : {A : Type 0} (n : ℕ) (xs : List A) → n ≤ length xs → length (take n xs) ≡ n
length-take_le zero xs h = refl
length-take_le (suc n) [] h = elim h [ ]
length-take_le (suc n) (x ∷ xs) h = ap suc (length-take_le n xs (omega arith))

pub length-resize : (n : ℕ) (xs : List Bool) → length (resize xs n) ≡ n
unfolding resize
length-resize zero xs = refl
length-resize (suc n) [] = ap suc (length-resize n [])
length-resize (suc n) (x ∷ xs) = ap suc (length-resize n xs)

get_or-take : (n i : ℕ) (xs : List Bool) → i < n → get_or (take n xs) i false ≡ get_or xs i false
get_or-take zero i xs h = absurd (omega arith)
get_or-take (suc n) i [] h = refl
get_or-take (suc n) zero (x ∷ xs) h = refl
get_or-take (suc n) (suc i) (x ∷ xs) h = get_or-take n i xs (omega arith)

pub get_or-resize_wide :
    (n i : ℕ) (xs : List Bool) → length xs ≤ n → get_or (resize xs n) i false ≡ get_or xs i false
unfolding resize
get_or-resize_wide zero i [] h = refl
get_or-resize_wide zero i (x ∷ xs) h = absurd (omega arith)
get_or-resize_wide (suc n) zero [] h = refl
get_or-resize_wide (suc n) (suc i) [] h = get_or-resize_wide n i [] (omega arith)
get_or-resize_wide (suc n) zero (x ∷ xs) h = refl
get_or-resize_wide (suc n) (suc i) (x ∷ xs) h = get_or-resize_wide n i xs (omega arith)

get_or-resize :
    (n i : ℕ) (xs : List Bool) → i < n → get_or (resize xs n) i false ≡ get_or xs i false
unfolding resize
get_or-resize zero i xs h = absurd (omega arith)
get_or-resize (suc n) zero [] h = refl
get_or-resize (suc n) (suc i) [] h = get_or-resize n i [] (omega arith)
get_or-resize (suc n) zero (x ∷ xs) h = refl
get_or-resize (suc n) (suc i) (x ∷ xs) h = get_or-resize n i xs (omega arith)

module _ (T : ClauseSink) where
  -- The solution handed out has an entry for every input variable and for index 0, and none besides;
  -- each is the solution's, or false where the solution found has none.
  pub get_solution_correct :
      (s : MaxSat T)
      → (length (get_solution T s) ≡ s.n_input_vars + 1)
        × ((i : ℕ)
            → i < s.n_input_vars + 1
            → get_or (get_solution T s) i false ≡ get_or s.solution i false)
  unfolding get_solution
  get_solution_correct s = elim (Bool-cases (leb (s.n_input_vars + 1) (length s.solution))) [
    | inl y ↦ rw y (
      length-take_le (s.n_input_vars + 1) s.solution (ground arith),
      λ i h. get_or-take (s.n_input_vars + 1) i s.solution h,
    )
    | inr z ↦ rw z (
      length-resize (s.n_input_vars + 1) s.solution,
      λ i h. get_or-resize (s.n_input_vars + 1) i s.solution h,
    )
  ]

  past_end : (xs : List Bool) (i : ℕ) → length xs ≤ i → get_elem? xs i ≡ none
  past_end [] i h = refl
  past_end (x ∷ xs) zero h = absurd (omega arith)
  past_end (x ∷ xs) (suc i) h = past_end xs i (omega arith)

  -- The guard of getValue lets one literal too many pass: for either literal of the variable whose
  -- number is the size of the solution the read is out of bounds.
  pub get_value_past_end :
      (s : MaxSat T) (lit : ℤ)
      → 0 < abs lit
      → abs lit ≡ length s.solution
      → get_value T s lit ≡ none
  unfolding get_value
  get_value_past_end s (pos zero) h e = elim h [ ]
  get_value_past_end s (pos (suc n)) h e = ground (arith, past_end s.solution (suc n))
  get_value_past_end s (negsuc n) h e = ground (arith, past_end s.solution (suc n))
