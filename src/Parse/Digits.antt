-- ===== src/Parse/Digits.antt =====
-- A number that was written in decimal is read back.
use eval_max_sat.Common.{
  ℕ, zero, suc, ◌+◌, ◌-◌, ◌*◌, ◌/◌, ◌%◌, ◌^◌, ◌≤◌, ◌<◌, ◌≡◌, refl, ap, ◌∙◌, List, [], ◌∷◌, ◌++◌,
  some, if◌then◌else◌, Bool, true, false, ltb, arith, append_assoc, Bool-cases, inl, inr,
}
use eval_max_sat.Common.Int.{ℤ, pos, negsuc, neg}
use eval_max_sat.Parse.{
  Stream, is_digit, skip_whitespace, digits, weight_digits, number, after_sign, parse_int,
  weight_number, weight_start, parse_weight,
}

-- The decimal digits of a number, least fuel first: one more than the number is enough.
pub decimal_fuel : ℕ → ℕ → List ℕ
decimal_fuel zero n = []
decimal_fuel (suc f) n =
    let rest = decimal_fuel f (n / 10) in
    if ltb n 10 then (n + b'0') ∷ [] else rest ++ (n % 10 + b'0') ∷ []

unfoldable pub decimal : ℕ → List ℕ
unfolding decimal_fuel
decimal n = decimal_fuel (suc n) n

-- The bytes that follow begin with no digit.
abbrev pub EndsNumber : Stream → Type 0
EndsNumber [] = Unit
EndsNumber (c ∷ s) = is_digit c ≡ false

digits-end : (v : ℕ) (s : Stream) → EndsNumber s → digits v s ≡ (v, s)
unfolding digits
digits-end v [] h = refl
digits-end v (c ∷ s) h = rw h

digit_step : (v d : ℕ) (s : Stream) → d < 10 → digits v ((d + b'0') ∷ s) ≡ digits (v * 10 + d) s
unfolding digits
digit_step v d s h =
    let e : d + b'0' - b'0' ≡ d = omega arith in
    let t : is_digit (d + b'0') ≡ true = ground arith in rw (t, e)

-- Reading the digits of `n` behind a value of 0 gives `n`, and leaves what follows them.
digits-decimal_fuel : (f n : ℕ) (s : Stream) → n < f → digits 0 (decimal_fuel f n ++ s) ≡ digits n s
unfolding decimal_fuel
digits-decimal_fuel zero n s h = elim h [ ]
digits-decimal_fuel (suc f) n s h = elim (Bool-cases (ltb n 10)) [
  | inl y ↦ rw y (digit_step 0 n s (ground arith) ∙ ap (λ v. digits v s) (omega arith))
  | inr z ↦
      let big : 10 ≤ n = ground arith in
      rw z (
        ap (digits 0) (append_assoc (decimal_fuel f (n / 10)) ((n % 10 + b'0') ∷ []) s)
        ∙ digits-decimal_fuel f (n / 10) ((n % 10 + b'0') ∷ s) (omega arith)
        ∙ digit_step (n / 10) (n % 10) s (omega arith)
        ∙ ap (λ v. digits v s) (omega arith))
]

-- The first byte of a written number is a digit.
abbrev pub StartsDigit : Stream → Type 0
StartsDigit [] = ⊥
StartsDigit (c ∷ s) = is_digit c ≡ true

StartsDigit-append : (s t : Stream) → StartsDigit s → StartsDigit (s ++ t)
StartsDigit-append [] t h = absurd h
StartsDigit-append (c ∷ s) t h = h

decimal_fuel-StartsDigit : (f n : ℕ) → n < f → StartsDigit (decimal_fuel f n)
unfolding decimal_fuel
decimal_fuel-StartsDigit zero n h = elim h [ ]
decimal_fuel-StartsDigit (suc f) n h = elim (Bool-cases (ltb n 10)) [
  | inl y ↦ rw y (ground arith)
  | inr z ↦
      let big : 10 ≤ n = ground arith in
      rw z (
        StartsDigit-append (decimal_fuel f (n / 10)) _
          (decimal_fuel-StartsDigit f (n / 10) (omega arith)))
]

number-StartsDigit :
    (b : Bool) (s : Stream)
    → StartsDigit s
    → number b s ≡ some (if b then neg (pos (digits 0 s).0) else pos (digits 0 s).0, (digits 0 s).1)
unfolding number
number-StartsDigit b [] h = absurd h
number-StartsDigit b (c ∷ s) h = rw h

after_sign-StartsDigit : (s : Stream) → StartsDigit s → after_sign s ≡ number false s
unfolding after_sign
after_sign-StartsDigit [] h = absurd h
after_sign-StartsDigit (c ∷ s) h = ground arith

skip_whitespace-StartsDigit : (s : Stream) → StartsDigit s → skip_whitespace s ≡ s
unfolding skip_whitespace
skip_whitespace-StartsDigit [] h = absurd h
skip_whitespace-StartsDigit (c ∷ s) h = ground arith

-- A signed number in decimal.
unfoldable pub print_int : ℤ → List ℕ
unfolding decimal
print_int (pos n) = decimal n
print_int (negsuc n) = b'-' ∷ decimal (suc n)

pub print_int-zero : print_int (pos 0) ≡ b'0' ∷ []
unfolding print_int decimal decimal_fuel
print_int-zero = refl

digits-decimal : (n : ℕ) (s : Stream) → EndsNumber s → digits 0 (decimal n ++ s) ≡ (n, s)
unfolding decimal
digits-decimal n s h = digits-decimal_fuel (suc n) n s (omega arith) ∙ digits-end n s h

pub decimal-StartsDigit : (n : ℕ) (s : Stream) → StartsDigit (decimal n ++ s)
unfolding decimal
decimal-StartsDigit n s =
    StartsDigit-append (decimal_fuel (suc n) n) s (decimal_fuel-StartsDigit (suc n) n (omega arith))

skip_whitespace-minus : (s : Stream) → skip_whitespace (b'-' ∷ s) ≡ b'-' ∷ s
unfolding skip_whitespace
skip_whitespace-minus s = refl

after_sign-minus : (s : Stream) → after_sign (b'-' ∷ s) ≡ number true s
unfolding after_sign
after_sign-minus s = refl

skip_whitespace-blank : (s : Stream) → skip_whitespace (b' ' ∷ s) ≡ skip_whitespace s
unfolding skip_whitespace
skip_whitespace-blank s = refl

-- Leading blanks do not matter to parseInt.
pub parse_int-blank : (s : Stream) → parse_int (b' ' ∷ s) ≡ parse_int s
unfolding parse_int
parse_int-blank s = ap after_sign (skip_whitespace-blank s)

-- An integer written in decimal, with a minus sign where it is negative, is read back by parseInt, which
-- stops at the byte behind it, if that is no digit.
pub parse_int-print_int :
    (z : ℤ) (s : Stream) → EndsNumber s → parse_int (print_int z ++ s) ≡ some (z, s)
unfolding parse_int print_int
parse_int-print_int (pos n) s h =
    ap after_sign (skip_whitespace-StartsDigit _ (decimal-StartsDigit n s))
    ∙ after_sign-StartsDigit _ (decimal-StartsDigit n s)
    ∙ number-StartsDigit false _ (decimal-StartsDigit n s)
    ∙ rw (digits-decimal n s h)
parse_int-print_int (negsuc n) s h =
    ap after_sign (skip_whitespace-minus (decimal (suc n) ++ s))
    ∙ after_sign-minus (decimal (suc n) ++ s)
    ∙ number-StartsDigit true _ (decimal-StartsDigit (suc n) s)
    ∙ rw (digits-decimal (suc n) s h)

weight_digit_step :
    (v d : ℕ) (s : Stream)
    → d < 10
    → v * 10 + d < 2 ^ 64
    → weight_digits v ((d + b'0') ∷ s) ≡ weight_digits (v * 10 + d) s
unfolding weight_digits
weight_digit_step v d s h b =
    let e : (v * 10 + (d + b'0' - b'0')) % 2 ^ 64 ≡ v * 10 + d = omega arith in
    let t : is_digit (d + b'0') ≡ true = ground arith in rw (t, e)

weight_digits-decimal_fuel :
    (f n : ℕ) (s : Stream)
    → n < f
    → n < 2 ^ 64
    → weight_digits 0 (decimal_fuel f n ++ s) ≡ weight_digits n s
unfolding decimal_fuel
weight_digits-decimal_fuel zero n s h b = elim h [ ]
weight_digits-decimal_fuel (suc f) n s h b = elim (Bool-cases (ltb n 10)) [
  | inl y ↦ rw y (
      weight_digit_step 0 n s (ground arith) (omega arith)
      ∙ ap (λ v. weight_digits v s) (omega arith))
  | inr z ↦
      let big : 10 ≤ n = ground arith in
      rw z (
        ap (weight_digits 0) (append_assoc (decimal_fuel f (n / 10)) ((n % 10 + b'0') ∷ []) s)
        ∙ weight_digits-decimal_fuel f (n / 10) ((n % 10 + b'0') ∷ s) (omega arith) (omega arith)
        ∙ weight_digit_step (n / 10) (n % 10) s (omega arith) (omega arith)
        ∙ ap (λ v. weight_digits v s) (omega arith))
]

weight_digits-end : (v : ℕ) (s : Stream) → EndsNumber s → weight_digits v s ≡ (v, s)
unfolding weight_digits
weight_digits-end v [] h = refl
weight_digits-end v (c ∷ s) h = rw h

weight_start-StartsDigit : (s : Stream) → StartsDigit s → weight_start s ≡ some (weight_digits 0 s)
unfolding weight_start weight_number
weight_start-StartsDigit [] h = absurd h
weight_start-StartsDigit (c ∷ s) h = ground arith

-- A weight below 2 ^ 64, written in decimal, is read back by parseWeight, which stops at the byte
-- behind it, if that is no digit.
pub parse_weight-decimal :
    (n : ℕ) (s : Stream) → n < 2 ^ 64 → EndsNumber s → parse_weight (decimal n ++ s) ≡ some (n, s)
unfolding parse_weight decimal
parse_weight-decimal n s b h =
    ap weight_start (skip_whitespace-StartsDigit (decimal n ++ s) (decimal-StartsDigit n s))
    ∙ weight_start-StartsDigit (decimal n ++ s) (decimal-StartsDigit n s)
    ∙ ap some (weight_digits-decimal_fuel (suc n) n s (omega arith) b ∙ weight_digits-end n s h)
