-- ===== src/Balancing.antt =====
-- balancing_to_add.cpp: start_balancing, a draft of the choice of an upstream by weight. The weights
-- are of the type int; a sum that has no int is undefined, as the overflow in the source is.
pub mod Choice
pub mod Start
use mohican.Common.{
  ℕ, zero, suc, ◌+◌, ◌-◌, ◌/◌, ◌%◌, Bool, true, false, Option, none, some, List, [], ◌∷◌, ltb, leb,
  if◌then◌else◌, length, get_elem?, ℤ, pos, negsuc, in_int_range, Result, ok, throw, undefined,
  bind,
}

-- The sum of two integers, of any size.
infixl 6 ◌+ℤ◌
abbrev pub ◌+ℤ◌ : ℤ → ℤ → ℤ
◌+ℤ◌ (pos a) (pos b) = pos (a + b)
◌+ℤ◌ (pos a) (negsuc b) = if ltb b a then pos (a - suc b) else negsuc (b - a)
◌+ℤ◌ (negsuc a) (pos b) = if ltb a b then pos (b - suc a) else negsuc (a - b)
◌+ℤ◌ (negsuc a) (negsuc b) = negsuc (suc (a + b))

-- The sum of two variables of the type int.
abbrev pub add_int : ℤ → ℤ → Result ℤ
add_int a b = if in_int_range (a +ℤ b) then ok (a +ℤ b) else undefined

-- for (i = 1; ...) upstream[i] = upstream[i] + upstream[i-1]; for the elements behind one that
-- holds `before`.
abbrev pub sums_from : ℤ → List ℤ → Result (List ℤ)
sums_from before [] = ok []
sums_from before (weight ∷ weights) =
    bind (add_int weight before) λ sum. bind (sums_from sum weights) λ sums. ok (sum ∷ sums)

-- The whole array; its first element stays as it is.
abbrev pub sums_of : List ℤ → Result (List ℤ)
sums_of [] = ok []
sums_of (weight ∷ weights) = bind (sums_from weight weights) λ sums. ok (weight ∷ sums)

-- upstream[upstream.size() - 1]
abbrev pub last : List ℤ → Result ℤ
last [] = undefined
last (x ∷ []) = ok x
last (x ∷ (y ∷ xs)) = last (y ∷ xs)

-- sum > random and sum < random, for a random value that is not negative
abbrev pub is_above : ℕ → ℤ → Bool
is_above random (pos sum) = ltb random sum
is_above random (negsuc sum) = false

abbrev pub is_below : ℕ → ℤ → Bool
is_below random (pos sum) = ltb sum random
is_below random (negsuc sum) = true

-- The end of one iteration that has read upstream[middle].
abbrev pub compare_with : ℕ → ℕ → Result ℕ → Result ℕ → Option ℤ → Result ℕ
compare_with random middle before behind none = undefined
compare_with random middle before behind (some sum) =
    if is_above random sum then before else if is_below random sum then behind else ok middle

-- The loop, for number_left_element = left and number_right_element = left + gap - 1: each iteration
-- makes the gap smaller by one.
unfoldable pub search_for : ℕ → List ℤ → ℕ → ℕ → Result ℕ
search_for random sums zero left = ok left
search_for random sums (suc g) left =
    let middle = (left + (left + g)) / 2 in
    compare_with random middle (search_for random sums g left) (search_for random sums g (left + 1))
      (get_elem? sums middle)

-- std::rand() % sum; std::rand gives no negative number, and the remainder has the sign of the
-- dividend.
abbrev pub remainder : ℕ → ℤ → Result ℕ
remainder rand (pos zero) = undefined
remainder rand (pos (suc sum)) = ok (rand % suc sum)
remainder rand (negsuc sum) = ok (rand % suc sum)

-- `rand` is what std::rand gives.
unfoldable pub start_balancing : ℕ → List ℤ → Result ℕ
start_balancing rand upstream = bind (sums_of upstream) λ sums.
    bind (last sums)
      λ sum. bind (remainder rand sum) λ random. search_for random sums (suc (length sums)) 0
