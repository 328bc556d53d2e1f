-- ===== src/Balancing/Start.antt =====
-- balancing_to_add.cpp: start_balancing as a whole, for weights that are not negative.
use mohican.Common.{
  arith, ℕ, zero, suc, ◌+◌, ◌-◌, ◌%◌, ◌^◌, ◌≤◌, ◌<◌, ◌≡◌, refl, ap, ◌∙◌, some, List, [], ◌∷◌,
  length, get_elem?, take, map, ltb, true, ℤ, pos, ok,
}
use mohican.Balancing.{sums_from, sums_of, last, search_for, start_balancing}
use mohican.Balancing.Choice.{Sum, IsFound, some_in_range, search_for-IsFound}

abbrev pub total : List ℕ → ℕ
total [] = 0
total (weight ∷ weights) = weight + total weights

-- The index i is one of the list. The weights before it add up to the random value at most, and
-- with its own weight to the random value at least.
pub record IsChosen (random : ℕ) (weights : List ℕ) (i : ℕ) : Type 0 where
  pub in_range : i < length weights
  pub before : total (take i weights) ≤ random
  pub own : random ≤ total (take (suc i) weights)

-- The sums without a bound.
abbrev sums : ℕ → List ℕ → List ℤ
sums before [] = []
sums before (weight ∷ weights) = pos (before + weight) ∷ sums (before + weight) weights

length-sums : (before : ℕ) (ws : List ℕ) → length (sums before ws) ≡ length ws
length-sums before [] = refl
length-sums before (w ∷ ws) = ap suc (length-sums (before + w) ws)

-- No sum overflows when the last one does not.
sums_from-sums :
    (before : ℕ) (ws : List ℕ)
    → before + total ws < 2 ^ 31
    → sums_from (pos before) (map pos ws) ≡ ok (sums before ws)
sums_from-sums before [] h = refl
sums_from-sums before (w ∷ ws) h =
    let swap : w + before ≡ before + w = omega arith in
    let small : ltb (before + w) (2 ^ 31) ≡ true = ground (arith, h) in
    let rest = sums_from-sums (before + w) ws (omega (arith, h)) in rw (swap, small, rest) refl

sums_of-sums : (ws : List ℕ) → total ws < 2 ^ 31 → sums_of (map pos ws) ≡ ok (sums 0 ws)
sums_of-sums [] h = refl
sums_of-sums (w ∷ ws) h =
    let zero_in_front : 0 + w ≡ w = omega arith in rw (sums_from-sums w ws h, zero_in_front) refl

sums_at :
    (before : ℕ) (ws : List ℕ) (i : ℕ)
    → i < length ws
    → Sum (sums before ws) i (before + total (take (suc i) ws))
sums_at before [] i h = absurd (omega (arith, h))
sums_at before (w ∷ ws) zero h = ap (λ n. some (pos n)) (omega arith)
sums_at before (w ∷ ws) (suc i) h =
    let sum : (before + w) + total (take (suc i) ws) ≡ before + (w + total (take (suc i) ws)) =
      omega arith in
    sums_at (before + w) ws i (omega (arith, h)) ∙ ap (λ n. some (pos n)) sum

prefix_le : (i j : ℕ) (ws : List ℕ) → i ≤ j → total (take i ws) ≤ total (take j ws)
prefix_le zero j ws h = omega arith
prefix_le (suc i) zero ws h = absurd (omega (arith, h))
prefix_le (suc i) (suc j) [] h = omega arith
prefix_le (suc i) (suc j) (w ∷ ws) h =
    let rest = prefix_le i j ws (omega (arith, h)) in omega (arith, rest)

last-sums :
    (before w : ℕ) (ws : List ℕ) → last (sums before (w ∷ ws)) ≡ ok (pos (before + total (w ∷ ws)))
last-sums before w [] = ap (λ n. ok (pos n)) (omega arith)
last-sums before w (v ∷ ws) = last-sums (before + w) v ws ∙ ap (λ n. ok (pos n)) (omega arith)

next_at :
    (x y : ℤ) (xs : List ℤ) (t : ℕ)
    → Sum (y ∷ xs) (length (y ∷ xs) - 1) t
    → Sum (x ∷ (y ∷ xs)) (length (x ∷ (y ∷ xs)) - 1) t
next_at x y xs t h =
    let less : suc (length xs) - 1 ≡ length xs = omega arith in
    let more : suc (suc (length xs)) - 1 ≡ suc (length xs) = omega arith in
    let at : get_elem? (y ∷ xs) (length xs) ≡ some (pos t) = cc in rw more at

last_at : (xs : List ℤ) (t : ℕ) → last xs ≡ ok (pos t) → Sum xs (length xs - 1) t
last_at [] t e = cc
last_at (x ∷ []) t e = let same : x ≡ pos t = cc in ap some same
last_at (x ∷ (y ∷ xs)) t e = next_at x y xs t (last_at (y ∷ xs) t e)

module _ (ws : List ℕ) where
  entry_value : (i v : ℕ) → Sum (sums 0 ws) i v → (i < length ws) × (v ≡ total (take (suc i) ws))
  entry_value i v e =
      let inside = some_in_range (sums 0 ws) i v e in
      let less : i < length ws = omega (arith, inside, length-sums 0 ws) in
      let at = sums_at 0 ws i less in
      let same : v ≡ 0 + total (take (suc i) ws) = cc in (less, omega (arith, same))

  IsFound-IsChosen : (random i : ℕ) → IsFound random (sums 0 ws) i → IsChosen random ws i
  IsFound-IsChosen random i f =
      let less : i < length ws = omega (arith, f.in_range, length-sums 0 ws) in
      let at = sums_at 0 ws i less in
      let own = f.own _ at in
      record { in_range = less; before = lower i less f.before; own = omega (arith, own) }
    where
      lower :
          (i : ℕ)
          → i < length ws
          → ((j v : ℕ) → j < i → Sum (sums 0 ws) j v → v ≤ random)
          → total (take i ws) ≤ random
      lower zero h b = omega arith
      lower (suc i) h b =
          let less = b i _ (omega arith) (sums_at 0 ws i (omega (arith, h))) in omega (arith, less)

-- Let the weights not be negative, and let their sum be positive and an int. Then, whatever rand
-- gives, start_balancing overflows nowhere, ends, reads no element out of range, and gives an index
-- of the list: the weights before it add up to the remainder of rand by the sum at most, and with
-- its own weight to the remainder at least.
pub start_balancing-IsChosen :
    (rand : ℕ) (weights : List ℕ) (sum : ℕ)
    → total weights ≡ suc sum
    → suc sum < 2 ^ 31
    → (i : ℕ) × (start_balancing rand (map pos weights) ≡ ok i)
      × IsChosen (rand % suc sum) weights i
unfolding start_balancing
start_balancing-IsChosen rand [] sum e small = absurd (omega (arith, e))
start_balancing-IsChosen rand (w ∷ ws) sum e small =
    let weights : List ℕ = w ∷ ws in
    let all = sums 0 weights in
    let runs = sums_of-sums weights (omega (arith, e, small)) in
    let at_end : last all ≡ ok (pos (suc sum)) =
      last-sums 0 w ws ∙ ap (λ n. ok (pos n)) (omega (arith, e)) in
    let size = length-sums 0 weights in
    let entry : (i : ℕ) → i < length all → (v : ℕ) × Sum all i v =
      λ i h. (_, sums_at 0 weights i (omega (arith, h, size))) in
    let sorted : (i j v v' : ℕ) → i ≤ j → Sum all i v → Sum all j v' → v ≤ v' = λ i j v v' h a b.
      let one = entry_value weights i v a in
      let two = entry_value weights j v' b in
      let more = prefix_le (suc i) (suc j) weights (omega (arith, h)) in
      omega (arith, one.1, two.1, more) in
    let final : Sum all (length all - 1) (suc sum) = last_at all _ at_end in
    let (i, found, chosen) =
      search_for-IsFound (rand % suc sum) (suc sum) all entry sorted (omega arith) final
        (omega arith) (suc (length all)) 0 (omega arith) (λ j v h e'. absurd (omega (arith, h)))
        (λ j v h e'. let less = some_in_range all j v e' in absurd (omega (arith, h, less))) in
    let searches : start_balancing rand (map pos weights)
        ≡ search_for (rand % suc sum) all (suc (length all)) 0 =
      rw (runs, at_end) refl in
    (i, searches ∙ found, IsFound-IsChosen weights (rand % suc sum) i chosen)
