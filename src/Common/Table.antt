-- ===== src/Common/Table.antt =====
-- An association list from numbers, read through `lookup`: descriptors, pointers.
use Prim.Native.Nat.{ℕ}
use mathlib.Core.Path.{◌≡◌}
use mathlib.Core.Logic.{◌≢◌, ◌⊎◌}
use mathlib.Core.Bool.{Bool, true, false}
use mathlib.Core.Option.{Option, none, some}
use mathlib.Core.List.{List, [], ◌∷◌}
use mohican.Common.Tests.{◌==◌, if◌then◌else◌}
use native.Mathlib.Omega.{arith}

abbrev pub Table : Type 0 → Type 0
Table A = List (ℕ × A)

module _ {A : Type 0} where
  unfoldable pub lookup : ℕ → Table A → Option A
  lookup k [] = none
  lookup k ((k', a) ∷ t) = if k' == k then some a else lookup k t

  unfoldable pub remove : ℕ → Table A → Table A
  remove k [] = []
  remove k ((k', a) ∷ t) = let rest = remove k t in if k' == k then rest else (k', a) ∷ rest

  unfoldable pub has : ℕ → Table A → Bool
  has k t = elim (lookup k t) [ none ↦ false | some a ↦ true ]

  -- An entry under a new key; a key that is there stays as it is.
  unfoldable pub add : ℕ → A → Table A → Table A
  add k a t = if has k t then t else (k, a) ∷ t

  -- An entry under a key that may be there.
  unfoldable pub store : ℕ → A → Table A → Table A
  store k a t = (k, a) ∷ remove k t

  pub lookup-remove :
      (k k' : ℕ) (t : Table A) → lookup k (remove k' t) ≡ (if k' == k then none else lookup k t)
  unfolding lookup remove
  lookup-remove k k' [] = ground arith
  lookup-remove k k' ((j, a) ∷ t) = ground (arith, lookup-remove k k' t)

  pub lookup-store :
      (k k' : ℕ) (a : A) (t : Table A)
      → lookup k (store k' a t) ≡ (if k' == k then some a else lookup k t)
  unfolding lookup store
  lookup-store k k' a t = ground (arith, lookup-remove k k' t)

  pub lookup-add :
      (k k' : ℕ) (a : A) (t : Table A)
      → lookup k (add k' a t)
        ≡ (if k' == k then (if has k t then lookup k t else some a) else lookup k t)
  unfolding lookup has add
  lookup-add k k' a t = ground arith

  -- What a change of a table leaves under a key.
  pub remove-some :
      (k k' : ℕ) (t : Table A) (a : A)
      → lookup k (remove k' t) ≡ some a
      → (k' ≢ k) × (lookup k t ≡ some a)
  remove-some k k' t a h = ground (arith, lookup-remove k k' t)

  pub store-some :
      (k k' : ℕ) (a b : A) (t : Table A)
      → lookup k (store k' a t) ≡ some b
      → (k' ≡ k) × (a ≡ b) ⊎ (k' ≢ k) × (lookup k t ≡ some b)
  store-some k k' a b t h = ground (arith, lookup-store k k' a t)

  pub add-some :
      (k k' : ℕ) (a b : A) (t : Table A)
      → lookup k (add k' a t) ≡ some b
      → (k' ≡ k) × (a ≡ b) ⊎ (lookup k t ≡ some b)
  add-some k k' a b t h = ground (arith, lookup-add k k' a t)

  pub store-same : (k : ℕ) (a : A) (t : Table A) → lookup k (store k a t) ≡ some a
  store-same k a t = ground (arith, lookup-store k k a t)

  pub store-other : (k k' : ℕ) (a : A) (t : Table A) → k' ≢ k → lookup k (store k' a t) ≡ lookup k t
  store-other k k' a t n = ground (arith, lookup-store k k' a t)

  pub remove-other : (k k' : ℕ) (t : Table A) → k' ≢ k → lookup k (remove k' t) ≡ lookup k t
  remove-other k k' t n = ground (arith, lookup-remove k k' t)

  pub remove-same : (k : ℕ) (t : Table A) → lookup k (remove k t) ≡ none
  remove-same k t = ground (arith, lookup-remove k k t)

  pub add-other : (k k' : ℕ) (a : A) (t : Table A) → k' ≢ k → lookup k (add k' a t) ≡ lookup k t
  add-other k k' a t n = ground (arith, lookup-add k k' a t)

  pub add-same : (k : ℕ) (a : A) (t : Table A) → lookup k t ≡ none → lookup k (add k a t) ≡ some a
  unfolding has
  add-same k a t h = ground (arith, lookup-add k k a t)
