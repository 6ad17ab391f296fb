-- ===== src/Common/Loop.antt =====
-- Counted loops, and the two ways to reason about one.
use Prim.Native.Nat.{ℕ, zero, suc, ◌+◌, ◌-◌, ◌≤◌, ◌<◌}
use mathlib.Core.Path.{◌≡◌}
use native.Mathlib.Omega.{arith}
use eval_max_sat.Common.Tests.{◌==◌, Bool-cases}
use mathlib.Core.Logic.{◌⊎◌, inl, inr}

-- `n` rounds of `body`, at the indices i, i + 1, ….
unfoldable pub for_range {ℓ} : {S : Type ℓ} → ℕ → ℕ → (ℕ → S → S) → S → S
for_range zero first round state = state
for_range (suc left) first round state = for_range left (first + 1) round (round first state)

-- for (i = lo; i < hi; ++i) body
abbrev pub for_to {ℓ} : {S : Type ℓ} → ℕ → ℕ → (ℕ → S → S) → S → S
for_to lo hi body s = for_range (hi - lo) lo body s

-- What each round keeps is kept by the loop.
pub for_range_inv {ℓ κ} :
    {S : Type ℓ} (P : S → Type κ) (body : ℕ → S → S) (n i hi : ℕ)
    → i + n ≤ hi
    → ((k : ℕ) (s : S) → i ≤ k → k < hi → P s → P (body k s))
    → (s : S) → P s
    → P (for_range n i body s)
unfolding for_range
for_range_inv P body zero i hi b keep s p = p
for_range_inv P body (suc n) i hi b keep s p =
    for_range_inv P body n (i + 1) hi (omega arith) (λ k t l h. keep k t (omega arith) h) (body i s)
      (keep i s (omega arith) (omega arith) p)

-- What round `t` brings about, and no round undoes, holds at the end.
pub for_range_hits {ℓ κ} :
    {S : Type ℓ} (Q : S → Type κ) (body : ℕ → S → S) (t : ℕ)
    → ((k : ℕ) (s : S) → Q s → Q (body k s))
    → ((s : S) → Q (body t s))
    → (n i : ℕ) (s : S) → i ≤ t
    → t < i + n
    → Q (for_range n i body s)
unfolding for_range
for_range_hits Q body t keep hit zero i s l h = absurd (omega arith)
for_range_hits {S} Q body t keep hit (suc n) i s l h = elim (Bool-cases (i == t)) [
  | inl e ↦ mono n (i + 1) (body i s) (let e' : i ≡ t = ground arith in rw e' (hit s))
  | inr ne ↦ for_range_hits Q body t keep hit n (i + 1) (body i s) (ground arith) (omega arith)
]
  where
    mono : (m j : ℕ) (u : S) → Q u → Q (for_range m j body u)
    mono m j u q = for_range_inv Q body m j (j + m) (omega arith) (λ k v _ _. keep k v) u q

-- The same two for `for_to`, where the range may be empty.
pub for_to_inv {ℓ κ} :
    {S : Type ℓ} (P : S → Type κ) (body : ℕ → S → S) (lo hi : ℕ)
    → ((k : ℕ) (s : S) → lo ≤ k → k < hi → P s → P (body k s))
    → (s : S) → P s
    → P (for_to lo hi body s)
unfolding for_range
for_to_inv P body lo hi keep s p = elim (split lo hi) [
  | inl le ↦ for_range_inv P body (hi - lo) lo hi le keep s p
  | inr z ↦ rw (z, for_range) p
]
  where
    split : (m k : ℕ) → (m + (k - m) ≤ k) ⊎ (k - m ≡ 0)
    split m k = omega arith

pub for_to_hits {ℓ κ} :
    {S : Type ℓ} (Q : S → Type κ) (body : ℕ → S → S) (t : ℕ)
    → ((k : ℕ) (s : S) → Q s → Q (body k s))
    → ((s : S) → Q (body t s))
    → (lo hi : ℕ) (s : S) → lo ≤ t
    → t < hi
    → Q (for_to lo hi body s)
for_to_hits Q body t keep hit lo hi s l u =
    for_range_hits Q body t keep hit (hi - lo) lo s l (omega arith)
