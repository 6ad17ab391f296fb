-- ===== src/Parse/Consumes.antt =====
-- ParseUtils.h: what a read leaves is shorter than what it was given, whatever the bytes are, and a weight
-- is a 64-bit number.
use eval_max_sat.Common.{
  ℕ, suc, ◌+◌, ◌-◌, ◌*◌, ◌%◌, ◌^◌, ◌≤◌, ◌<◌, ◌≡◌, List, [], ◌∷◌, Option, none, some, Bool, true,
  false, length, ◌==◌, arith, Bool-cases, inl, inr,
}
use eval_max_sat.Common.Int.{ℤ}
use eval_max_sat.Parse.{
  Stream, is_digit, skip_whitespace, skip_line, digits, weight_digits, number, after_sign,
  parse_int, hard_mark, weight_number, weight_start, parse_weight, eager_match,
}

-- A read that succeeds leaves at most, or less than, so many bytes.
abbrev pub Leaves : {A : Type 0} → (A → Type 0) → ℕ → Option (A × Stream) → Type 0
Leaves P n none = Unit
Leaves P n (some (a, rest)) = P a × (length rest < n)

pub skip_whitespace-le : (s : Stream) → length (skip_whitespace s) ≤ length s
unfolding skip_whitespace
skip_whitespace-le [] = omega arith
skip_whitespace-le (c ∷ s) = ground (arith, skip_whitespace-le s)

pub skip_line-le : (s : Stream) → length (skip_line s) ≤ length s
unfolding skip_line
skip_line-le [] = omega arith
skip_line-le (c ∷ s) = ground (arith, skip_line-le s)

pub eager_match-le : (w : List ℕ) (s : Stream) → length (eager_match w s).1 ≤ length s
unfolding eager_match
eager_match-le [] s = omega arith
eager_match-le (k ∷ w) [] = omega arith
eager_match-le (k ∷ w) (c ∷ s) = elim (Bool-cases (k == c)) [
  | inl y ↦ rw y (omega (arith, eager_match-le w s))
  | inr z ↦ rw z (omega arith)
]

digits-le : (v : ℕ) (s : Stream) → length (digits v s).1 ≤ length s
unfolding digits
digits-le v [] = omega arith
digits-le v (c ∷ s) = elim (Bool-cases (is_digit c)) [
  | inl y ↦ rw y (omega (arith, digits-le (v * 10 + (c - b'0')) s))
  | inr z ↦ rw z (omega arith)
]

abbrev pub IsWord : ℕ → Type 0
IsWord w = w < 2 ^ 64

weight_digits-le :
    (v : ℕ) (s : Stream)
    → v < 2 ^ 64
    → ((weight_digits v s).0 < 2 ^ 64) × (length (weight_digits v s).1 ≤ length s)
unfolding weight_digits
weight_digits-le v [] h = (h, omega arith)
weight_digits-le v (c ∷ s) h = elim (Bool-cases (is_digit c)) [
  | inl y ↦
      let (a, b) = weight_digits-le ((v * 10 + (c - b'0')) % 2 ^ 64) s (omega arith) in
      rw y (a, omega arith)
  | inr z ↦ rw z (h, omega arith)
]

Leaves-mono :
    {A : Type 0} (P : A → Type 0) (m n : ℕ) (r : Option (A × Stream))
    → m ≤ n
    → Leaves P m r
    → Leaves P n r
Leaves-mono P m n none le h = tt
Leaves-mono P m n (some (a, rest)) le (p, l) = (p, omega arith)

abbrev pub Any : ℤ → Type 0
Any x = Unit

number-Leaves : (negative : Bool) (s : Stream) → Leaves Any (length s) (number negative s)
unfolding number digits
number-Leaves negative [] = tt
number-Leaves negative (c ∷ s) = elim (Bool-cases (is_digit c)) [
  | inl y ↦ rw y (tt, omega (arith, digits-le (0 * 10 + (c - b'0')) s))
  | inr z ↦ rw z tt
]

after_sign-Leaves : (s : Stream) → Leaves Any (length s) (after_sign s)
unfolding after_sign
after_sign-Leaves [] = tt
after_sign-Leaves (c ∷ s) =
    let behind = λ (b : Bool).
      Leaves-mono Any (length s) (suc (length s)) (number b s) (omega arith) (number-Leaves b s) in
    elim (Bool-cases (c == b'-')) [
      | inl y ↦ rw y (behind true)
      | inr z ↦ elim (Bool-cases (c == b'+')) [
        | inl y ↦ rw (z, y) (behind false)
        | inr u ↦ rw (z, u) (number-Leaves false (c ∷ s))
      ]
    ]

pub parse_int-Leaves : (s : Stream) → Leaves Any (length s) (parse_int s)
unfolding parse_int
parse_int-Leaves s =
    Leaves-mono Any (length (skip_whitespace s)) (length s) (after_sign (skip_whitespace s))
      (skip_whitespace-le s) (after_sign-Leaves (skip_whitespace s))

weight_number-Leaves : (s : Stream) → Leaves IsWord (length s) (weight_number s)
unfolding weight_number weight_digits
weight_number-Leaves [] = tt
weight_number-Leaves (c ∷ s) = elim (Bool-cases (is_digit c)) [
  | inl y ↦
      let (a, b) = weight_digits-le ((0 * 10 + (c - b'0')) % 2 ^ 64) s (omega arith) in
      rw y (a, omega arith)
  | inr z ↦ rw z tt
]

hard_mark-Leaves : (s : Stream) → Leaves IsWord (suc (length s)) (hard_mark s)
unfolding hard_mark
hard_mark-Leaves [] = tt
hard_mark-Leaves (c ∷ s) = elim (Bool-cases (c == b' ')) [
  | inl y ↦ rw y (omega arith, omega arith)
  | inr z ↦ rw z tt
]

weight_start-Leaves : (s : Stream) → Leaves IsWord (length s) (weight_start s)
unfolding weight_start
weight_start-Leaves [] = tt
weight_start-Leaves (c ∷ s) = elim (Bool-cases (c == b'h')) [
  | inl y ↦ rw y (hard_mark-Leaves s)
  | inr z ↦ elim (Bool-cases (c == b'-')) [
    | inl y ↦ rw (z, y) tt
    | inr u ↦ elim (Bool-cases (c == b'+')) [
      | inl y ↦
          rw (z, u, y)
            (Leaves-mono IsWord (length s) (suc (length s)) (weight_number s) (omega arith)
              (weight_number-Leaves s))
      | inr v ↦ rw (z, u, v) (weight_number-Leaves (c ∷ s))
    ]
  ]
]

pub parse_weight-Leaves : (s : Stream) → Leaves IsWord (length s) (parse_weight s)
unfolding parse_weight
parse_weight-Leaves s =
    Leaves-mono IsWord (length (skip_whitespace s)) (length s) (weight_start (skip_whitespace s))
      (skip_whitespace-le s) (weight_start-Leaves (skip_whitespace s))

-- Whatever the bytes are, a weight that parseWeight returns is below 2 ^ 64, and it has consumed a byte at
-- least.
pub parse_weight-bounds :
    (s : Stream) (w : ℕ) (rest : Stream)
    → parse_weight s ≡ some (w, rest)
    → (w < 2 ^ 64) × (length rest < length s)
parse_weight-bounds s w rest e = let h = parse_weight-Leaves s in rw e at h
