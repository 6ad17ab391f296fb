-- ===== src/Weights.antt =====
-- lib/EvalMaxSAT/src/utile.h, class WeightVector: one signed weight for each variable, read and
-- written by literal. A `long long` is an integer here: its overflow is undefined in the source.
-- The accesses are guarded by assertions there; out of range a read is 0 and a write does nothing.
pub mod Laws
use eval_max_sat.Common.{
  ℕ, List, [], ◌∷◌, ◌++◌, length, get_or, set, take, replicate, if◌then◌else◌, leb, ◌-◌,
}
use eval_max_sat.Common.Int.{ℤ, pos, negsuc, abs, neg, is_neg, ◌+ℤ◌, ◌-ℤ◌}

abbrev pub WeightVector : Type 0
WeightVector = List ℤ

-- lit >> 31 on a 32-bit int: all bits of the sign.
abbrev shr31 : ℤ → ℤ
shr31 (pos n) = pos 0
shr31 (negsuc n) = negsuc 0

-- w ^ m at the two masks that `shr31` makes: w itself, and the complement of all its bits.
abbrev xor_mask : ℤ → ℤ → ℤ
xor_mask w (pos n) = w
xor_mask (pos w) (negsuc n) = negsuc w
xor_mask (negsuc w) (negsuc n) = pos w

unfoldable pub get : WeightVector → ℤ → ℤ
get ws lit = xor_mask (get_or ws (abs lit) (pos 0)) (shr31 lit) -ℤ shr31 lit

abbrev pub size : WeightVector → ℕ
size ws = length ws

unfoldable pub resize : WeightVector → ℕ → WeightVector
resize ws n = if leb n (length ws) then take n ws else ws ++ replicate (n - length ws) (pos 0)

unfoldable pub push_back : WeightVector → ℤ → WeightVector
push_back ws v = ws ++ v ∷ []

unfoldable pub write : WeightVector → ℤ → ℤ → WeightVector
write ws lit weight = if is_neg lit then set ws (abs lit) (neg weight) else set ws (abs lit) weight

unfoldable pub add : WeightVector → ℤ → ℤ → WeightVector
add ws lit weight =
    if is_neg lit
    then set ws (abs lit) (get_or ws (abs lit) (pos 0) +ℤ neg weight)
    else set ws (abs lit) (get_or ws (abs lit) (pos 0) +ℤ weight)
