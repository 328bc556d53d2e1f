-- ===== src/Config/Lexer/Progress.antt =====
-- parse_functions.cpp: the positions that get_lexem leaves.
use mathlib.Core.Path.{subst}
use mohican.Common.{
  ℕ, ◌+◌, ◌≡◌, ◌≢◌, ◌≤◌, ◌<◌, refl, Bool, true, false, Option, none, some, List, [], ◌∷◌, length,
  drop, if◌then◌else◌, Result, ok, bind-eq-ok, arith,
}
use mohican.Text.{Text, char_at, skip_from, skip_while}
use mohican.Config.Lexer.{
  skip_isspace, Lexem, l_err, value_end, property_at, word_at, lexem_at, get_lexem,
}

pub skip_from_le : (p : ℕ → Bool) (pos : ℕ) (str : Text) → pos ≤ skip_from p pos str
unfolding skip_from
skip_from_le p pos [] = omega arith
skip_from_le p pos (c ∷ cs) = ground (arith, skip_from_le p (pos + 1) cs)

pub skip_while_le :
    (p : ℕ → Bool) (str : Text) (pos : ℕ) {pos' : ℕ} → skip_while p str pos ≡ ok pos' → pos ≤ pos'
unfolding skip_while
skip_while_le p str pos h = ground (arith, skip_from_le p pos (drop pos str))

value_end_le : (i : ℕ) (text : Text) (j : ℕ) → value_end i text ≡ some j → i ≤ j
unfolding value_end
value_end_le i [] j h = cc
value_end_le i (c ∷ cs) j h = ground (arith, value_end_le (i + 1) cs j)

property_at_lt :
    (pos : ℕ) (rest : Text) (ps : List Text)
    → (property_at pos rest ps).0 ≢ l_err
    → pos < (property_at pos rest ps).1
unfolding property_at
property_at_lt pos rest [] h = absurd (h refl)
property_at_lt pos rest (p ∷ ps) h = ground (arith, property_at_lt pos rest ps)

word_at_lt :
    (pos : ℕ) (rest : Text) (ps : List Text) (end : Option ℕ)
    → ((j : ℕ) → end ≡ some j → pos ≤ j)
    → (word_at pos rest ps end).0 ≢ l_err
    → pos < (word_at pos rest ps end).1
word_at_lt pos rest ps (some i) k h = omega (arith, k i refl)
word_at_lt pos rest ps none k h = ground (arith, property_at_lt pos rest ps)

lexem_at_lt :
    (config : Text) (pos : ℕ) (ps : List Text) (c : ℕ)
    → (lexem_at config pos ps c).0 ≢ l_err
    → pos < (lexem_at config pos ps c).1
unfolding lexem_at
lexem_at_lt config pos ps c h = ground (
  arith,
  word_at_lt pos (drop pos config) ps (value_end pos (drop pos config))
      (value_end_le pos (drop pos config)),
)

pub ok-injective : {A : Type 0} {a b : A} → ok a ≡ ok b → a ≡ b
ok-injective h = cc

-- Every lexem that get_lexem gives but the error ends behind the position where it began.
pub get_lexem_lt :
    (config : Text) (pos : ℕ) (properties : List Text) {lexem : Lexem} {pos' : ℕ}
    → get_lexem config pos properties ≡ ok (lexem, pos')
    → lexem ≢ l_err
    → pos < pos'
unfolding get_lexem
get_lexem_lt config pos properties h k =
    let (begin, spaces, rest) = bind-eq-ok (skip_while _ config pos) _ h in
    let (c, byte, found) = bind-eq-ok (char_at config begin) _ rest in
    let forward =
      subst (λ q. q.0 ≢ l_err → begin < q.1) (ok-injective found)
        (lexem_at_lt config begin properties c) k in
    omega (arith, skip_while_le _ config pos spaces, forward)

skip_while_bound :
    (p : ℕ → Bool) (str : Text) (pos : ℕ) {pos' : ℕ}
    → skip_while p str pos ≡ ok pos'
    → pos ≤ length str
unfolding skip_while
skip_while_bound p str pos h = ground arith

-- A lexem is read only at a position in the text or at its end.
pub get_lexem_bound :
    (config : Text) (pos : ℕ) (properties : List Text) {r : Lexem × ℕ}
    → get_lexem config pos properties ≡ ok r
    → pos ≤ length config
unfolding get_lexem
get_lexem_bound config pos properties h =
    let (begin, spaces, rest) = bind-eq-ok (skip_while _ config pos) _ h in
    skip_while_bound _ config pos spaces

pub skip_isspace_le :
    (config : Text) (start : ℕ) {end : ℕ} → skip_isspace config start ≡ ok end → start ≤ end
unfolding skip_isspace
skip_isspace_le config start h = skip_while_le _ config start h

-- A property of what either branch of a test gives.
pub by_test :
    {A P : Type 0} (b : Bool) {x y : Result A} {r : A}
    → (if b then x else y) ≡ ok r
    → (x ≡ ok r → P)
    → (y ≡ ok r → P)
    → P
by_test true h f g = f h
by_test false h f g = g h
