-- ===== src/Parse.antt =====
-- lib/EvalMaxSAT/src/ParseUtils.h: reading numbers and words from a stream of bytes.
-- A StreamBuffer is the list of the bytes that are left; at its end `*in` is EOF, which is no byte.
-- Where the source calls exit(3) the result is `none`. An `int` does not wrap: its overflow is
-- undefined in the source. A weight is an unsigned 64-bit number and wraps.
pub mod Digits
pub mod Words
pub mod Consumes
pub mod Cost
pub mod File
use eval_max_sat.Common.{
  ℕ, zero, suc, ◌+◌, ◌-◌, ◌*◌, ◌%◌, ◌^◌, List, [], ◌∷◌, Option, none, some, if◌then◌else◌, Bool,
  true, false, ◌&&◌, ◌||◌, leb, ◌==◌,
}
use eval_max_sat.Common.Int.{ℤ, pos, neg}

abbrev pub Stream : Type 0
Stream = List ℕ

abbrev pub is_space : ℕ → Bool
is_space c = (leb 9 c && leb c 13) || c == 32

abbrev pub is_digit : ℕ → Bool
is_digit c = leb b'0' c && leb c b'9'

unfoldable pub skip_whitespace : Stream → Stream
skip_whitespace [] = []
skip_whitespace (c ∷ s) = let rest = skip_whitespace s in if is_space c then rest else c ∷ s

unfoldable pub skip_line : Stream → Stream
skip_line [] = []
skip_line (c ∷ s) = let rest = skip_line s in if c == 10 then s else rest

-- while (*in >= '0' && *in <= '9') val = val*10 + (*in - '0'), ++in;
-- The value is unbounded: past the range of an `int` the source's arithmetic is undefined.
unfoldable pub digits : ℕ → Stream → ℕ × Stream
digits val [] = (val, [])
digits val (c ∷ s) =
    let rest = digits (val * 10 + (c - b'0')) s in if is_digit c then rest else (val, c ∷ s)

-- The same loop on an unsigned 64-bit value.
unfoldable pub weight_digits : ℕ → Stream → ℕ × Stream
weight_digits val [] = (val, [])
weight_digits val (c ∷ s) =
    let rest = weight_digits ((val * 10 + (c - b'0')) % 2 ^ 64) s in
    if is_digit c then rest else (val, c ∷ s)

abbrev pub signed : Bool → ℕ × Stream → Option (ℤ × Stream)
signed negative (val, s) = some (if negative then neg (pos val) else pos val, s)

-- A digit has to follow the sign.
unfoldable pub number : Bool → Stream → Option (ℤ × Stream)
unfolding digits
number negative [] = none
number negative (c ∷ s) = if is_digit c then signed negative (digits 0 (c ∷ s)) else none

unfoldable pub after_sign : Stream → Option (ℤ × Stream)
unfolding number
after_sign [] = none
after_sign (c ∷ s) =
    if c == b'-' then number true s else if c == b'+' then number false s else number false (c ∷ s)

unfoldable pub parse_int : Stream → Option (ℤ × Stream)
unfolding after_sign skip_whitespace
parse_int s = after_sign (skip_whitespace s)

-- The text of parseInt, over a wider type.
unfoldable pub parse_int64 : Stream → Option (ℤ × Stream)
unfolding after_sign skip_whitespace
parse_int64 s = after_sign (skip_whitespace s)

-- (unsigned long long int)-1
abbrev pub hard_weight : ℕ
hard_weight = 18_446_744_073_709_551_615

-- 'h' stands for the greatest weight; the blank behind it is not consumed.
unfoldable pub hard_mark : Stream → Option (ℕ × Stream)
hard_mark [] = none
hard_mark (c ∷ s) = if c == b' ' then some (hard_weight, c ∷ s) else none

unfoldable pub weight_number : Stream → Option (ℕ × Stream)
unfolding weight_digits
weight_number [] = none
weight_number (c ∷ s) = if is_digit c then some (weight_digits 0 (c ∷ s)) else none

unfoldable pub weight_start : Stream → Option (ℕ × Stream)
unfolding hard_mark weight_number
weight_start [] = none
weight_start (c ∷ s) =
    if c == b'h'
    then hard_mark s
    else if c == b'-'
    then none
    else if c == b'+'
    then weight_number s
    else weight_number (c ∷ s)

unfoldable pub parse_weight : Stream → Option (ℕ × Stream)
unfolding weight_start skip_whitespace
parse_weight s = weight_start (skip_whitespace s)

-- What matched is consumed, also where the match fails.
unfoldable pub eager_match : List ℕ → Stream → Bool × Stream
eager_match [] s = (true, s)
eager_match (k ∷ w) [] = (false, [])
eager_match (k ∷ w) (c ∷ s) = let rest = eager_match w s in if k == c then rest else (false, c ∷ s)
