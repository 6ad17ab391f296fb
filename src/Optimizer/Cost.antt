-- ===== src/Optimizer/Cost.antt =====
-- The cost of an assignment, summed without wrapping: what the falsified soft literals weigh.
use eval_max_sat.Common.{
  ℕ, zero, suc, ◌+◌, ◌%◌, ◌^◌, ◌≤◌, ◌<◌, ◌≡◌, refl, sym, ap, ◌∙◌, List, [], ◌∷◌, ◌++◌,
  if◌then◌else◌, Bool, true, false, get_or, set, length, arith, not, append_assoc, length-append,
}
use eval_max_sat.Common.Int.{ℤ, pos, negsuc, abs, neg, is_pos, is_neg}
use eval_max_sat.Common.Assign.{Assignment, holds}
use eval_max_sat.Common.Loop.{for_to, for_range}
use eval_max_sat.Weights.{WeightVector, get, size, write, push_back}
use native.Mathlib.Nat.{add-zero}
use eval_max_sat.Weights.Laws.{get_pos, get_negsuc}
use eval_max_sat.Lazy.Invariant.{Agree}
use eval_max_sat.Optimizer.{Solution, at, add_weight, charge_var, calculate_cost_assign}

-- A positive weight is paid for a false variable, a negative one for a true variable.
abbrev pub charge : ℤ → Bool → ℕ
charge (pos n) b = if b then 0 else n
charge (negsuc n) b = if b then suc n else 0

-- The charges of the variables from `i` on.
unfoldable pub charges : ℕ → List ℤ → Assignment → ℕ
charges i [] a = 0
charges i (w ∷ ws) a = charge w (a i) + charges (suc i) ws a

-- Entry 0 stands for no variable.
unfoldable pub soft_cost : WeightVector → Assignment → ℕ
unfolding charges
soft_cost [] a = 0
soft_cost (w ∷ ws) a = charges 1 ws a

charges-set :
    (i k : ℕ) (ws : List ℤ) (v : ℤ) (a : Assignment)
    → k < length ws
    → charges i (set ws k v) a + charge (get_or ws k (pos 0)) (a (i + k))
      ≡ charges i ws a + charge v (a (i + k))
unfolding charges
charges-set i k [] v a h = elim h [ ]
charges-set i zero (w ∷ ws) v a h = rw (add-zero i) (omega arith)
charges-set i (suc k) (w ∷ ws) v a h =
    rw (shift i k) (omega (arith, charges-set (suc i) k ws v a (omega arith)))
  where
    shift : (m n : ℕ) → m + suc n ≡ suc m + n
    shift m n = omega arith

-- A write exchanges one charge.
pub soft_cost-set :
    (ws : WeightVector) (k : ℕ) (v : ℤ) (a : Assignment)
    → 0 < k
    → k < size ws
    → soft_cost (set ws k v) a + charge (get_or ws k (pos 0)) (a k)
      ≡ soft_cost ws a + charge v (a k)
unfolding soft_cost
soft_cost-set [] k v a p h = elim h [ ]
soft_cost-set (w ∷ ws) zero v a p h = absurd (omega arith)
soft_cost-set (w ∷ ws) (suc k) v a p h =
    ap (λ n. charges 1 (set ws k v) a + charge (get_or ws k (pos 0)) (a n)) (one_add k)
    ∙ charges-set 1 k ws v a (omega arith)
    ∙ ap (λ n. charges 1 ws a + charge v (a n)) (sym (one_add k))
  where
    one_add : (n : ℕ) → suc n ≡ 1 + n
    one_add n = omega arith

-- The charge seen from a literal.
abbrev pub lit_charge : ℤ → Bool → ℕ
lit_charge w b = charge w b

charge-neg : (w : ℤ) (b : Bool) → charge (neg w) (not b) ≡ charge w b
charge-neg w b = ground arith

-- Writing the weight of a literal replaces what the literal was charged with.
pub soft_cost-write :
    (ws : WeightVector) (l v : ℤ) (a : Assignment)
    → 0 < abs l
    → abs l < size ws
    → soft_cost (write ws l v) a + charge (get ws l) (holds a l)
      ≡ soft_cost ws a + charge v (holds a l)
unfolding write
soft_cost-write ws (pos n) v a p h = rw (get_pos ws n) (soft_cost-set ws n v a p h)
soft_cost-write ws (negsuc n) v a p h = rw (get_negsuc ws n) (
    ap (λ c. soft_cost (set ws (suc n) (neg v)) a + c)
      (charge-neg (get_or ws (suc n) (pos 0)) (a (suc n)))
    ∙ soft_cost-set ws (suc n) (neg v) a p h
    ∙ ap (λ c. soft_cost ws a + c) (neg_back v (a (suc n))))
  where
    neg_back : (w : ℤ) (b : Bool) → charge (neg w) b ≡ charge w (not b)
    neg_back w b = ground arith

charges-append :
    (i : ℕ) (ws : List ℤ) (v : ℤ) (a : Assignment)
    → charges i (ws ++ v ∷ []) a ≡ charges i ws a + charge v (a (i + length ws))
unfolding charges
charges-append i [] v a = rw (add-zero i) (omega arith)
charges-append i (w ∷ ws) v a =
    rw (shift i (length ws)) (omega (arith, charges-append (suc i) ws v a))
  where
    shift : (m n : ℕ) → m + suc n ≡ suc m + n
    shift m n = omega arith

-- A new variable adds its own charge.
pub soft_cost-push_back :
    (ws : WeightVector) (v : ℤ) (a : Assignment)
    → 0 < size ws
    → soft_cost (push_back ws v) a ≡ soft_cost ws a + charge v (a (size ws))
unfolding soft_cost push_back
soft_cost-push_back [] v a h = elim h [ ]
soft_cost-push_back (w ∷ ws) v a h =
    charges-append 1 ws v a ∙ ap (λ n. charges 1 ws a + charge v (a n)) (one_add (length ws))
  where
    one_add : (n : ℕ) → 1 + n ≡ suc n
    one_add n = omega arith

-- The weights of the variables that two assignments agree on are charged alike.
charges-Agree :
    (i n : ℕ) (ws : List ℤ) (a b : Assignment)
    → Agree n a b
    → i + length ws ≤ suc n
    → charges i ws b ≡ charges i ws a
unfolding charges
charges-Agree i n [] a b f h = refl
charges-Agree i n (w ∷ ws) a b f h =
    rw (f i (omega arith), charges-Agree (suc i) n ws a b f (omega arith))

pub soft_cost-Agree :
    (n : ℕ) (ws : WeightVector) (a b : Assignment)
    → Agree n a b
    → size ws ≤ suc n
    → soft_cost ws b ≡ soft_cost ws a
unfolding soft_cost
soft_cost-Agree n [] a b f h = refl
soft_cost-Agree n (w ∷ ws) a b f h = charges-Agree 1 n ws a b f (omega arith)

charge_var_lem :
    (p : WeightVector) (a : Assignment) (i cost : ℕ)
    → cost < 2 ^ 64
    → charge_var p a i cost ≡ (cost + charge (get_or p i (pos 0)) (a i)) % 2 ^ 64
unfolding charge_var
charge_var_lem p a i cost h = rw (get_pos p i) (by_weight (get_or p i (pos 0)) (a i))
  where
    by_weight :
        (w : ℤ) (b : Bool)
        → (if is_pos w
            then (if b then cost else add_weight cost (abs w))
            else if is_neg w
            then (if b then add_weight cost (abs w) else cost)
            else cost)
          ≡ (cost + charge w b) % 2 ^ 64
    by_weight (pos zero) b = ground arith
    by_weight (pos (suc n)) true = omega arith
    by_weight (pos (suc n)) false = refl
    by_weight (negsuc n) true = refl
    by_weight (negsuc n) false = omega arith

pub get_or-middle : (pre ws : List ℤ) (w : ℤ) → get_or (pre ++ w ∷ ws) (length pre) (pos 0) ≡ w
get_or-middle [] ws w = refl
get_or-middle (x ∷ pre) ws w = get_or-middle pre ws w

-- The loop over the variables behind the first ones.
charge_loop :
    (ws pre : List ℤ) (a : Assignment) (cost : ℕ)
    → cost < 2 ^ 64
    → for_range (length ws) (length pre) (λ lit c. charge_var (pre ++ ws) a lit c) cost
      ≡ (cost + charges (length pre) ws a) % 2 ^ 64
unfolding for_range charges
charge_loop [] pre a cost h = omega arith
charge_loop (w ∷ ws) pre a cost h =
    let e = get_or-middle pre ws w in
    let step : charge_var (pre ++ w ∷ ws) a (length pre) cost
        ≡ (cost + charge w (a (length pre))) % 2 ^ 64 =
      charge_var_lem (pre ++ w ∷ ws) a (length pre) cost h
      ∙ ap (λ x. (cost + charge x (a (length pre))) % 2 ^ 64) e in
    let more : length (pre ++ w ∷ []) ≡ length pre + 1 = length-append pre (w ∷ []) in
    ap (for_range (length ws) (length pre + 1) (λ lit c. charge_var (pre ++ w ∷ ws) a lit c)) step
    ∙ ap
        (λ n.
          for_range (length ws) n (λ lit c. charge_var (pre ++ w ∷ ws) a lit c)
            ((cost + charge w (a (length pre))) % 2 ^ 64))
        (sym more)
    ∙ ap
        (λ p.
          for_range (length ws) (length (pre ++ w ∷ [])) (λ lit c. charge_var p a lit c)
            ((cost + charge w (a (length pre))) % 2 ^ 64))
        (sym (append_assoc pre (w ∷ []) ws))
    ∙ charge_loop ws (pre ++ w ∷ []) a ((cost + charge w (a (length pre))) % 2 ^ 64) (omega arith)
    ∙ ap (λ n. ((cost + charge w (a (length pre))) % 2 ^ 64 + charges n ws a) % 2 ^ 64)
        (more ∙ one_more (length pre))
    ∙ omega arith
  where
    one_more : (n : ℕ) → n + 1 ≡ suc n
    one_more n = omega arith

-- The cost that calculateCostAssign returns is the weight that the solution falsifies and the initial
-- weight, modulo 2 ^ 64.
pub calculate_cost_assign_correct :
    (w : ℤ) (ws : List ℤ) (initial : ℕ) (solution : Solution)
    → calculate_cost_assign (w ∷ ws) initial solution
      ≡ (soft_cost (w ∷ ws) (at solution) + initial) % 2 ^ 64
unfolding calculate_cost_assign soft_cost add_weight
calculate_cost_assign_correct w ws initial solution =
    ap (λ c. (c + initial) % 2 ^ 64) (loop w ws) ∙ omega arith
  where
    loop :
        (w : ℤ) (ws : List ℤ)
        → for_to 1 (size (w ∷ ws)) (λ lit c. charge_var (w ∷ ws) (at solution) lit c) 0
          ≡ (0 + charges 1 ws (at solution)) % 2 ^ 64
    loop w ws =
        ap (λ n. for_range n 1 (λ lit c. charge_var (w ∷ ws) (at solution) lit c) 0) (omega arith)
        ∙ charge_loop ws (w ∷ []) (at solution) 0 (omega arith)
