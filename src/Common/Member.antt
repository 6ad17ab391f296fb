-- ===== src/Common/Member.antt =====
-- Looking for a literal in a list of them.
use mathlib.Core.Path.{◌≡◌, sym, ap, ◌∙◌}
use mathlib.Core.Logic.{inl, inr}
use mathlib.Core.Bool.{true, ◌||◌}
use mathlib.Core.List.{List, [], ◌∷◌}
use native.Mathlib.Omega.{arith}
use eval_max_sat.Common.Tests.{Bool-cases}
use eval_max_sat.Common.Int.{ℤ, eqb_ℤ, eqb_ℤ_iff}
use eval_max_sat.Common.Lists.{any, In}

pub any-In : (l : ℤ) (ls : List ℤ) → In l ls → any (eqb_ℤ l) ls ≡ true
any-In l [] h = absurd h
any-In l (k ∷ ls) (inl e) = ap (λ b. b || any (eqb_ℤ l) ls) ((eqb_ℤ_iff l k).1 e)
any-In l (k ∷ ls) (inr h) = ground (arith, any-In l ls h)

pub In-any : (l : ℤ) (ls : List ℤ) → any (eqb_ℤ l) ls ≡ true → In l ls
In-any l [] h = cc
In-any l (k ∷ ls) h = elim (Bool-cases (eqb_ℤ l k)) [
  | inl y ↦ inl ((eqb_ℤ_iff l k).0 y)
  | inr z ↦ inr (In-any l ls (sym (ap (λ b. b || any (eqb_ℤ l) ls) z) ∙ h))
]
