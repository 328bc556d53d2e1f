-- ===== src/Balancing/Choice.antt =====
-- balancing_to_add.cpp: the search of start_balancing, in an array of sums that are not negative.
use mohican.Common.{
  ℤ, pos, arith, ℕ, zero, suc, ◌+◌, ◌-◌, ◌/◌, ◌≤◌, ◌<◌, ◌≡◌, refl, inl, inr, false, some, List, [],
  ◌∷◌, ltb, ltb→lt, Bool-cases, length, get_elem?, ok,
}
use mohican.Balancing.{search_for}

-- The number at an index, not negative.
abbrev pub Sum : List ℤ → ℕ → ℕ → Type 0
Sum sums i v = get_elem? sums i ≡ some (pos v)

-- The index i is in range, the sums before it are at most the random value, and its own at least.
pub record IsFound (random : ℕ) (sums : List ℤ) (i : ℕ) : Type 0 where
  pub in_range : i < length sums
  pub before : (j v : ℕ) → j < i → Sum sums j v → v ≤ random
  pub own : (v : ℕ) → Sum sums i v → random ≤ v

pub some_in_range : (xs : List ℤ) (i v : ℕ) → Sum xs i v → i < length xs
some_in_range [] i v e = cc
some_in_range (x ∷ xs) zero v e = omega arith
some_in_range (x ∷ xs) (suc i) v e = let less = some_in_range xs i v e in omega (arith, less)

not_below : (a b : ℕ) → ltb a b ≡ false → b ≤ a
not_below a b h = ground arith

module _ (random total : ℕ) (sums : List ℤ)
    (positives : (i : ℕ) → i < length sums → (v : ℕ) × Sum sums i v)
    (sorted : (i j v w : ℕ) → i ≤ j → Sum sums i v → Sum sums j w → v ≤ w)
    (not_empty : 0 < length sums) (at_last : Sum sums (length sums - 1) total)
    (small : random < total) where
  at_most_one : (i v w : ℕ) → Sum sums i v → Sum sums i w → v ≡ w
  at_most_one i v w e e' = cc

  abbrev Below : ℕ → Type 0
  Below left = (j v : ℕ) → j < left → Sum sums j v → v < random

  abbrev Above : ℕ → Type 0
  Above right = (j v : ℕ) → right ≤ j → Sum sums j v → random < v

  left_in_range : (left : ℕ) → Below left → left < length sums
  left_in_range left lower = elim (Bool-cases (ltb left (length sums))) [
    | inl e ↦ ltb→lt left (length sums) e
    | inr e ↦
        let out = not_below left (length sums) e in
        let less = lower (length sums - 1) total (omega (arith, out, not_empty)) at_last in
        absurd (omega (arith, less, small))
  ]

  -- The search finds an index.
  abbrev Found : ℕ → ℕ → Type 0
  Found gap left = (i : ℕ) × (search_for random sums gap left ≡ ok i) × IsFound random sums i

  pub search_for-IsFound :
      (gap left : ℕ)
      → left + gap ≤ length sums + 1
      → Below left
      → Above (left + gap)
      → Found gap left
  unfolding search_for
  search_for-IsFound zero left fits lower upper = (
    left,
    refl,
    record {
      in_range = left_in_range left lower;
      before = λ j v less e. let h = lower j v less e in omega (arith, h);
      own = λ v e. let h = upper left v (omega arith) e in omega (arith, h);
    },
  )
  search_for-IsFound (suc g) left fits lower upper =
      let m = (left + (left + g)) / 2 in
      let inside = left_in_range left lower in
      let middle : m < length sums = omega (arith, fits, inside) in
      let (v, at) = positives m middle in
      let from_left : left ≤ m = omega arith in
      let to_right : m ≤ left + g = omega arith in
      elim (Bool-cases (ltb random v)) [
        | inl e ↦
            let less = ltb→lt random v e in
            let upper' : Above (left + g) = λ j w h e'.
              let more = sorted m j v w (omega (arith, h, to_right)) at e' in
              omega (arith, less, more) in
            let (i, found, chosen) = search_for-IsFound g left (omega (arith, fits)) lower upper' in
            (i, rw (at, e) found, chosen)
        | inr e ↦ elim (Bool-cases (ltb v random)) [
          | inl e' ↦
              let less = ltb→lt v random e' in
              let lower' : Below (left + 1) = λ j w h e''.
                let more = sorted j m w v (omega (arith, h, from_left)) e'' at in
                omega (arith, less, more) in
              let upper' : Above (left + 1 + g) = λ j w h e''. upper j w (omega (arith, h)) e'' in
              let (i, found, chosen) =
                search_for-IsFound g (left + 1) (omega (arith, fits)) lower' upper' in
              (i, rw (at, e, e') found, chosen)
          | inr e' ↦
              let most = not_below random v e in
              let least = not_below v random e' in
              (
                m,
                rw (at, e, e') refl,
                record {
                  in_range = middle;
                  before = λ j w h e''.
                      let more = sorted j m w v (omega (arith, h)) e'' at in
                      omega (arith, more, most);
                  own = λ w e''. let same = at_most_one m v w at e'' in omega (arith, same, least);
                },
              )
        ]
      ]
