-- ===== src/WeightMap/Laws.antt =====
-- What insertion and removal do to the literals found under each weight.
use eval_max_sat.Common.{
  ℕ, ◌≡◌, refl, ap, ◌∙◌, List, [], ◌∷◌, if◌then◌else◌, not, ◌&&◌, ◌||◌, ◌==◌, any, arith,
  Bool-cases, inl, inr,
}
use eval_max_sat.Common.Int.{ℤ, eqb_ℤ, eqb_ℤ_iff}
use eval_max_sat.WeightMap.{WeightMap, set_insert, set_erase, bucket, update_at, insert, erase, has}

bucket-update_at :
    (m : WeightMap) (w v : ℕ) (f : List ℤ → List ℤ)
    → bucket (update_at w f m) v ≡ (if w == v then f (bucket m v) else bucket m v)
unfolding bucket update_at
bucket-update_at [] w v f = ground arith
bucket-update_at ((k, s) ∷ m) w v f = ground (arith, bucket-update_at m w v f)

mem-set_insert :
    (l k : ℤ) (s : List ℤ) → any (eqb_ℤ k) (set_insert l s) ≡ (eqb_ℤ k l || any (eqb_ℤ k) s)
unfolding set_insert
mem-set_insert l k [] = refl
mem-set_insert l k (x ∷ xs) = ground (arith, mem-set_insert l k xs, eqb_ℤ_iff l x)

mem-set_erase :
    (l k : ℤ) (s : List ℤ) → any (eqb_ℤ k) (set_erase l s) ≡ (not (eqb_ℤ k l) && any (eqb_ℤ k) s)
unfolding set_erase
mem-set_erase l k [] = ground arith
mem-set_erase l k (x ∷ xs) =
    ground (arith, mem-set_erase l k xs, eqb_ℤ_iff l x, eqb_ℤ_iff k l, eqb_ℤ_iff k x)

-- After an insertion of the literal l at the weight w, a set has what it had, and the set of w has l.
pub has-insert :
    (m : WeightMap) (w v : ℕ) (l k : ℤ)
    → has (insert m w l) v k ≡ (if w == v then eqb_ℤ k l || has m v k else has m v k)
unfolding has insert
has-insert m w v l k = elim (Bool-cases (w == v)) [
  | inl y ↦
      ap (any (eqb_ℤ k)) (bucket-update_at m w v (set_insert l))
      ∙ rw y (mem-set_insert l k (bucket m v))
  | inr n ↦ ap (any (eqb_ℤ k)) (bucket-update_at m w v (set_insert l)) ∙ rw n refl
]

-- After an erasure of the literal l at the weight w, a set has what it had, but the set of w has no l.
pub has-erase :
    (m : WeightMap) (w v : ℕ) (l k : ℤ)
    → has (erase m w l) v k ≡ (if w == v then not (eqb_ℤ k l) && has m v k else has m v k)
unfolding has erase
has-erase m w v l k = elim (Bool-cases (w == v)) [
  | inl y ↦
      ap (any (eqb_ℤ k)) (bucket-update_at m w v (set_erase l))
      ∙ rw y (mem-set_erase l k (bucket m v))
  | inr n ↦ ap (any (eqb_ℤ k)) (bucket-update_at m w v (set_erase l)) ∙ rw n refl
]
