-- ===== src/Parse/Words.antt =====
-- ParseUtils.h: the two ways to match a word, and the numbers in floating point.
-- `match` reads ahead by an index, so that it can leave the stream as it was; an index past the end reads
-- no byte of the word. The type `double` and its arithmetic are the parameter `Double`.
use eval_max_sat.Common.{
  ℕ, ◌-◌, ◌≡◌, refl, ap, List, [], ◌∷◌, ◌++◌, Option, none, some, if◌then◌else◌, Bool, true, false,
  ◌&&◌, leb, ◌==◌, Bool-cases, inl, inr, ◌⊎◌, arith,
}
use eval_max_sat.Common.Int.{ℤ}
use eval_max_sat.Parse.{Stream, is_digit, skip_whitespace, parse_int, eager_match}

-- What is left behind the word.
unfoldable after_word : List ℕ → Stream → Option Stream
after_word [] s = some s
after_word (k ∷ w) [] = none
after_word (k ∷ w) (c ∷ s) = let rest = after_word w s in if c == k then rest else none

-- in += i
unfoldable pub match_word : List ℕ → Stream → Bool × Stream
unfolding after_word
match_word w s = elim (after_word w s) [ none ↦ (false, s) | some rest ↦ (true, rest) ]

pub record Double : Type 1 where
  pub D : Type 0
  pub of_digit : ℕ → D
  pub nothing : D
  pub one_tenth : D
  pub plus : D → D → D
  pub times : D → D → D
  pub over_ten : D → D
  pub power_of_ten : ℤ → D
  pub minus : D → D

module _ (F : Double) where
  open F use {D}

  -- accu = accu + currentExponent * digit, currentExponent /= 10
  unfoldable fraction : D → D → Stream → D × Stream
  fraction accu exponent [] = (accu, [])
  fraction accu exponent (c ∷ s) =
      let rest =
        fraction (F.plus accu (F.times exponent (F.of_digit (c - b'0')))) (F.over_ten exponent) s in
      if is_digit c then rest else (accu, c ∷ s)

  abbrev scaled : Bool → D → Option (ℤ × Stream) → Option (D × Stream)
  scaled negative accu none = none
  scaled negative accu (some (e, s)) =
      let value = F.times accu (F.power_of_ten e) in
      some (if negative then F.minus value else value, s)

  -- Behind the digits: an 'e' and the exponent.
  unfoldable exponent_part : Bool → D × Stream → Option (D × Stream)
  exponent_part negative (accu, []) = none
  exponent_part negative (accu, c ∷ s) =
      if c == b'e' then scaled negative accu (parse_int s) else none

  -- Behind the first digit: a dot.
  unfoldable after_digit : Bool → ℕ → Stream → Option (D × Stream)
  unfolding fraction exponent_part
  after_digit negative d [] = none
  after_digit negative d (c ∷ s) =
      if c == b'.'
      then exponent_part negative (fraction (F.of_digit (d - b'0')) F.one_tenth s)
      else none

  -- The first digit is not 0.
  unfoldable mantissa : Bool → Stream → Option (D × Stream)
  unfolding after_digit
  mantissa negative [] = none
  mantissa negative (c ∷ s) = if leb b'1' c && leb c b'9' then after_digit negative c s else none

  abbrev double_sign : Stream → Option (D × Stream)
  double_sign [] = some (F.nothing, [])
  double_sign (c ∷ s) =
      if c == b'-'
      then mantissa true s
      else if c == b'+'
      then mantissa false s
      else mantissa false (c ∷ s)

  -- 0 at the end of the stream.
  unfoldable pub parse_double : Stream → Option (D × Stream)
  unfolding mantissa skip_whitespace
  parse_double s = double_sign (skip_whitespace s)

-- What the two answers have to do with each other.
abbrev Compares : List ℕ → Stream → Option Stream → Type 0
Compares w s none = (eager_match w s).0 ≡ false
Compares w s (some rest) = (eager_match w s ≡ (true, rest)) × (s ≡ w ++ rest)

after_word-Compares : (w : List ℕ) (s : Stream) → Compares w s (after_word w s)
unfolding after_word eager_match
after_word-Compares [] s = (refl, refl)
after_word-Compares (k ∷ w) [] = refl
after_word-Compares (k ∷ w) (c ∷ s) = elim (Bool-cases (c == k)) [
  | inl y ↦
      let e : c ≡ k = ground arith in
      rw (y, e) (deeper (after_word w s) refl (after_word-Compares w s))
  | inr z ↦ let n : (k == c) ≡ false = ground arith in rw (z, n) refl
]
  where
    deeper : (r : Option Stream) → after_word w s ≡ r → Compares w s r → Compares (k ∷ w) (k ∷ s) r
    deeper none q h = let t : (k == k) ≡ true = ground arith in rw t h
    deeper (some rest) q (h, e) =
        let t : (k == k) ≡ true = ground arith in rw t (h, ap (λ x. k ∷ x) e)

-- Either match and eagerMatch both answer true and leave what stands behind the word, or both answer
-- false and match leaves the stream as it was.
pub match_word-eager_match :
    (w : List ℕ) (s : Stream)
    → ((rest : Stream) × (match_word w s ≡ (true, rest))
        × (eager_match w s ≡ (true, rest))
        × (s ≡ w ++ rest))
      ⊎ ((match_word w s ≡ (false, s)) × ((eager_match w s).0 ≡ false))
unfolding match_word
match_word-eager_match w s = by_answer (after_word w s) refl (after_word-Compares w s)
  where
    by_answer :
        (r : Option Stream)
        → after_word w s ≡ r
        → Compares w s r
        → ((rest : Stream) × (match_word w s ≡ (true, rest))
            × (eager_match w s ≡ (true, rest))
            × (s ≡ w ++ rest))
          ⊎ ((match_word w s ≡ (false, s)) × ((eager_match w s).0 ≡ false))
    by_answer none q h = inr (rw (match_word, q) refl, h)
    by_answer (some rest) q (h, e) = inl (rest, rw (match_word, q) refl, h, e)
