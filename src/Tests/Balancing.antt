-- ===== src/Tests/Balancing.antt =====
-- Concrete inputs for the choice of an upstream by weight.
use mohican.Common.{arith, ℕ, ◌%◌, ◌≡◌, refl, List, [], ◌∷◌, map, pos, negsuc, ok, undefined}
use mohican.Balancing.{sums_of, search_for, start_balancing}
use mohican.Balancing.Start.{IsChosen, start_balancing-IsChosen}

abbrev weights : List ℕ
weights = 0 ∷ 5 ∷ 1 ∷ 3 ∷ []

start_balancing-weights : start_balancing 14 (map pos weights) ≡ ok 1
unfolding start_balancing search_for
start_balancing-weights = refl

start_balancing-no_weight : start_balancing 14 (pos 0 ∷ []) ≡ undefined
unfolding start_balancing search_for
start_balancing-no_weight = refl

start_balancing-overflow : start_balancing 14 (pos 2147483647 ∷ pos 1 ∷ []) ≡ undefined
unfolding start_balancing search_for
start_balancing-overflow = refl

sums_of-negative : sums_of (pos 3 ∷ negsuc 4 ∷ pos 1 ∷ []) ≡ ok (pos 3 ∷ negsuc 1 ∷ negsuc 0 ∷ [])
sums_of-negative = refl

start_balancing-IsChosen_example :
    (i : ℕ) × (start_balancing 14 (map pos weights) ≡ ok i) × IsChosen (14 % 9) weights i
start_balancing-IsChosen_example = start_balancing-IsChosen 14 weights 8 refl (omega arith)
