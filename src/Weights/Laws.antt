-- ===== src/Weights/Laws.antt =====
-- A weight is stored once for a variable and its negation, so every read and write by a literal is
-- also one by the opposite literal.
use eval_max_sat.Common.{
  ℕ, zero, suc, ◌<◌, ◌≡◌, ◌≢◌, sym, ap, ◌∙◌, [], ◌∷◌, get_or, arith, length-set, get_or-set_self,
  get_or-set_ne, length-append, get_or-append_left, get_or-append_length, List, set, refl, ◌++◌,
}
use eval_max_sat.Common.Int.{ℤ, pos, negsuc, abs, neg, neg-neg, ◌+ℤ◌}
use eval_max_sat.Weights.{WeightVector, get, size, push_back, write, add}

-- The mask arithmetic of the read is the negation for a negative literal.
pub get_pos : (ws : WeightVector) (n : ℕ) → get ws (pos n) ≡ get_or ws n (pos 0)
unfolding get
get_pos ws n = ground arith

pub get_negsuc : (ws : WeightVector) (n : ℕ) → get ws (negsuc n) ≡ neg (get_or ws (suc n) (pos 0))
unfolding get
get_negsuc ws n = ground arith

-- For a literal other than 0 the weight of the opposite literal is the opposite weight.
pub get-neg : (ws : WeightVector) (l : ℤ) → 0 < abs l → get ws (neg l) ≡ neg (get ws l)
get-neg ws (pos zero) h = elim h [ ]
get-neg ws (pos (suc n)) h = get_negsuc ws n ∙ ap neg (sym (get_pos ws (suc n)))
get-neg ws (negsuc n) h = get_pos ws (suc n) ∙ sym (neg-neg _) ∙ ap neg (sym (get_negsuc ws n))

pub size-write : (ws : WeightVector) (l w : ℤ) → size (write ws l w) ≡ size ws
unfolding write
size-write ws (pos n) w = length-set ws n w
size-write ws (negsuc n) w = length-set ws (suc n) (neg w)

pub size-add : (ws : WeightVector) (l w : ℤ) → size (add ws l w) ≡ size ws
unfolding add
size-add ws (pos n) w = length-set ws n _
size-add ws (negsuc n) w = length-set ws (suc n) _

-- A weight that is written for a literal whose variable is in range is read back for it.
pub get-write : (ws : WeightVector) (l w : ℤ) → abs l < size ws → get (write ws l w) l ≡ w
unfolding write
get-write ws (pos n) w h = get_pos _ n ∙ get_or-set_self ws n w (pos 0) h
get-write ws (negsuc n) w h =
    get_negsuc _ n ∙ ap neg (get_or-set_self ws (suc n) (neg w) (pos 0) h) ∙ neg-neg w

-- It leaves the other variables' weights as they were.
pub get-write_ne : (ws : WeightVector) (l k w : ℤ) → abs l ≢ abs k → get (write ws l w) k ≡ get ws k
unfolding write get
get-write_ne ws (pos n) k w h = rw (get_or-set_ne ws n (abs k) w (pos 0) h)
get-write_ne ws (negsuc n) k w h = rw (get_or-set_ne ws (suc n) (abs k) (neg w) (pos 0) h)

neg_add : (a b : ℤ) → neg (a +ℤ neg b) ≡ neg a +ℤ b
neg_add a b = ground arith

-- `add` adds to the weight of the literal it is given, negative or not.
pub get-add : (ws : WeightVector) (l w : ℤ) → abs l < size ws → get (add ws l w) l ≡ get ws l +ℤ w
unfolding add
get-add ws (pos n) w h =
    get_pos _ n ∙ get_or-set_self ws n _ (pos 0) h ∙ ap (λ x. x +ℤ w) (sym (get_pos ws n))
get-add ws (negsuc n) w h =
    get_negsuc _ n
    ∙ ap neg (get_or-set_self ws (suc n) _ (pos 0) h)
    ∙ neg_add (get_or ws (suc n) (pos 0)) w
    ∙ ap (λ x. x +ℤ w) (sym (get_negsuc ws n))

pub get-add_ne : (ws : WeightVector) (l k w : ℤ) → abs l ≢ abs k → get (add ws l w) k ≡ get ws k
unfolding add get
get-add_ne ws (pos n) k w h = rw (get_or-set_ne ws n (abs k) _ (pos 0) h)
get-add_ne ws (negsuc n) k w h = rw (get_or-set_ne ws (suc n) (abs k) _ (pos 0) h)

-- A new variable's weight stands behind the old ones, which stay.
pub get-push_back :
    (ws : WeightVector) (v k : ℤ) → abs k < size ws → get (push_back ws v) k ≡ get ws k
unfolding push_back get
get-push_back ws v k h = rw (get_or-append_left ws (v ∷ []) (abs k) (pos 0) h)

pub get-push_back_new : (ws : WeightVector) (v : ℤ) → get (push_back ws v) (pos (size ws)) ≡ v
unfolding push_back
get-push_back_new ws v = get_pos _ (size ws) ∙ get_or-append_length ws v (pos 0)

pub size-push_back : (ws : WeightVector) (v : ℤ) → size (push_back ws v) ≡ suc (size ws)
unfolding push_back
size-push_back ws v = omega (arith, length-append ws (v ∷ []))

set-set : (xs : List ℤ) (i : ℕ) (v w : ℤ) → set (set xs i v) i w ≡ set xs i w
set-set [] i v w = refl
set-set (x ∷ xs) zero v w = refl
set-set (x ∷ xs) (suc i) v w = ap (λ ys. x ∷ ys) (set-set xs i v w)

-- The last write counts.
pub write-write : (ws : WeightVector) (l v w : ℤ) → write (write ws l v) l w ≡ write ws l w
unfolding write
write-write ws (pos n) v w = set-set ws n v w
write-write ws (negsuc n) v w = set-set ws (suc n) (neg v) (neg w)

-- Writing under the opposite literal is writing the opposite weight.
pub write-neg : (ws : WeightVector) (l v : ℤ) → 0 < abs l → write ws (neg l) v ≡ write ws l (neg v)
unfolding write
write-neg ws (pos zero) v h = elim h [ ]
write-neg ws (pos (suc n)) v h = refl
write-neg ws (negsuc n) v h = ap (set ws (suc n)) (sym (neg-neg v))

-- Adding to the weight of any literal is reading it and writing the sum.
pub add-write : (ws : WeightVector) (l w : ℤ) → add ws l w ≡ write ws l (get ws l +ℤ w)
unfolding add write
add-write ws (pos n) w = ap (λ x. set ws n (x +ℤ w)) (sym (get_pos ws n))
add-write ws (negsuc n) w =
    ap (set ws (suc n)) (flip (get_or ws (suc n) (pos 0)) w)
    ∙ ap (λ x. set ws (suc n) (neg (x +ℤ w))) (sym (get_negsuc ws n))
  where
    flip : (a b : ℤ) → a +ℤ neg b ≡ neg (neg a +ℤ b)
    flip a b = ground arith

-- A weight of 0 behind the others is what a read out of range gives.
pub get-push_back_zero : (ws : WeightVector) (k : ℤ) → get (push_back ws (pos 0)) k ≡ get ws k
unfolding push_back get
get-push_back_zero ws k = rw (blank ws (abs k))
  where
    blank : (xs : List ℤ) (i : ℕ) → get_or (xs ++ pos 0 ∷ []) i (pos 0) ≡ get_or xs i (pos 0)
    blank [] zero = refl
    blank [] (suc i) = refl
    blank (x ∷ xs) zero = refl
    blank (x ∷ xs) (suc i) = blank xs i
