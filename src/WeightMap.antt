-- ===== src/WeightMap.antt =====
-- The field `_mapWeight2Assum` of lib/EvalMaxSAT/src/EvalMaxSAT.h, a std::map from weights to
-- std::sets of literals, and what the class calls of the two: both are kept in ascending order.
-- `operator[]` makes the entry of a weight that has none, so `insert` and `erase` do too.
pub mod Laws
use eval_max_sat.Common.{
  ℕ, ◌+◌, List, [], ◌∷◌, ◌++◌, if◌then◌else◌, Bool, true, false, ltb, leb, ◌==◌, any, length,
}
use eval_max_sat.Common.Int.{ℤ, eqb_ℤ, ltb_ℤ}

abbrev pub WeightMap : Type 0
WeightMap = List (ℕ × List ℤ)

unfoldable pub set_insert : ℤ → List ℤ → List ℤ
set_insert l [] = l ∷ []
set_insert l (x ∷ xs) =
    if eqb_ℤ l x then x ∷ xs else if ltb_ℤ l x then l ∷ x ∷ xs else x ∷ set_insert l xs

unfoldable pub set_erase : ℤ → List ℤ → List ℤ
set_erase l [] = []
set_erase l (x ∷ xs) = if eqb_ℤ l x then set_erase l xs else x ∷ set_erase l xs

-- The set of a weight; a search in ascending order.
unfoldable pub bucket : WeightMap → ℕ → List ℤ
bucket [] w = []
bucket ((k, s) ∷ m) w = if k == w then s else if ltb w k then [] else bucket m w

-- m[w] = f(m[w])
unfoldable pub update_at : ℕ → (List ℤ → List ℤ) → WeightMap → WeightMap
update_at w f [] = (w, f []) ∷ []
update_at w f ((k, s) ∷ m) =
    if k == w
    then (k, f s) ∷ m
    else if ltb w k
    then (w, f []) ∷ (k, s) ∷ m
    else (k, s) ∷ update_at w f m

-- _mapWeight2Assum[w].insert(l)
unfoldable pub insert : WeightMap → ℕ → ℤ → WeightMap
unfolding update_at set_insert
insert m w l = update_at w (set_insert l) m

-- _mapWeight2Assum[w].erase(l)
unfoldable pub erase : WeightMap → ℕ → ℤ → WeightMap
unfolding update_at set_erase
erase m w l = update_at w (set_erase l) m

-- _mapWeight2Assum[w].count(l)
unfoldable pub has : WeightMap → ℕ → ℤ → Bool
unfolding bucket
has m w l = any (eqb_ℤ l) (bucket m w)
