-- ===== src/Http/Request/Whole/Ends.antt =====
-- http_request.cpp: the fuel of the loop of the constructor.
use mohican.Common.{
  ◌>>=◌, Method, then_do, return, require, ℕ, zero, suc, ◌+◌, ◌<◌, ◌≤◌, ◌≡◌, ◌≢◌, refl, Bool, true,
  false, if◌then◌else◌, length-drop, Exception, Option, none, some, [], ◌∷◌, drop, length, arith,
  Result, ok, throw, undefined,
}
use mohican.Text.{Text, find, find_from}
use mohican.Http.Request.{HttpRequest}
use mohican.Http.Request.Whole.{read_line_at, read_fields, make_request}

-- The method does not run out of fuel.
pub record Ends {S : Type 0} (m : Method S Bool) : Type 0 where
  pub at : (s : S) → (m s).0 ≢ ok false

module _ {S : Type 0} where
  Ends-return : Ends (return {S = S} true)
  unfolding return
  Ends-return = record { at = λ s e. cc }

  Ends-then_do :
      {A : Type 0} (f : A → Method S Bool)
      → ((a : A) → Ends (f a))
      → (r : Result A) (s : S) → (then_do f (r, s)).0 ≢ ok false
  Ends-then_do f k (ok a) s e = (k a).at s e
  Ends-then_do f k (throw x) s e = cc
  Ends-then_do f k undefined s e = cc

  Ends-bind :
      {A : Type 0} (m : Method S A) (f : A → Method S Bool)
      → ((a : A) → Ends (f a))
      → Ends (m >>= f)
  unfolding ◌>>=◌
  Ends-bind m f k = record { at = λ s e. Ends-then_do f k (m s).0 (m s).1 e }

  Ends-if : (b : Bool) (m k : Method S Bool) → Ends m → Ends k → Ends (if b then m else k)
  Ends-if true m k h h' = h
  Ends-if false m k h h' = h'

find_from_bounds :
    (c pos : ℕ) (xs : Text) (i : ℕ)
    → find_from c pos xs ≡ some i
    → (pos ≤ i) × (i < pos + length xs)
unfolding find_from
find_from_bounds c pos [] i e = cc
find_from_bounds c pos (x ∷ xs) i e = ground (arith, find_from_bounds c (pos + 1) xs i)

find_bounds :
    (str : Text) (c start i : ℕ) → find str c start ≡ some i → (start ≤ i) × (i < length str)
unfolding find
find_bounds str c start i e =
    let inside = find_from_bounds c start (drop start str) i e in
    let rest = length-drop start str in (inside.0, omega (arith, inside, rest))

read_line_at-Ends :
    (str : Text) (pos : ℕ) (next : ℕ → Method HttpRequest Bool) (o : Option ℕ)
    → ((i : ℕ) → o ≡ some i → Ends (next (i + 1)))
    → Ends (read_line_at str pos next o)
unfolding read_line_at
read_line_at-Ends str pos next none k = Ends-return
read_line_at-Ends str pos next (some i) k =
    Ends-bind _ _ λ first. Ends-if _ _ _ Ends-return (Ends-bind _ _ λ done. k i refl)

-- More fuel than there are bytes from the position on is enough, whatever the bytes are.
read_fields-Ends :
    (str : Text) (fuel pos : ℕ)
    → pos ≤ length str
    → length str < fuel + pos
    → Ends (read_fields fuel str pos)
unfolding read_fields
read_fields-Ends str zero pos inside enough = absurd (omega (arith, inside, enough))
read_fields-Ends str (suc fuel) pos inside enough =
    read_line_at-Ends str pos (read_fields fuel str) (find str b'\n' pos) λ i e.
      let on = find_bounds str b'\n' pos i e in
      read_fields-Ends str fuel (i + 1) (omega (arith, on)) (omega (arith, on, enough))

require-Ends :
    (o : Option ℕ) (x : Exception) (f : ℕ → Method HttpRequest Bool)
    → ((i : ℕ) → o ≡ some i → Ends (f i))
    → Ends (require o x >>= f)
unfolding ◌>>=◌
require-Ends none x f k = record { at = λ s e. cc }
require-Ends (some i) x f k = record { at = λ s e. (k i refl).at s e }

-- The constructor never runs out of fuel: its loop breaks or an exception leaves it, for every text.
pub make_request-Ends : (str : Text) → Ends (make_request str)
unfolding make_request
make_request-Ends str = require-Ends (find str b'\n' 0) _ _ λ i e.
    let on = find_bounds str b'\n' 0 i e in
    Ends-bind _ _ λ done. read_fields-Ends str _ (i + 1) (omega (arith, on)) (omega arith)
