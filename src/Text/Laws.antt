-- ===== src/Text/Laws.antt =====
-- Laws of the string operations.
use mathlib.Core.Path.{subst}
use mathlib.Core.List.{append_assoc}
use mohican.Common.{
  ap, ◌≤◌, take_all, drop, Option, none, suc, ◌==◌, if◌then◌else◌, ◌^◌, ◌<◌, ℕ, ◌+◌, ◌≡◌, refl, sym,
  ◌∙◌, ◌≢◌, ◌↔◌, Bool, true, false, some, [], ◌∷◌, ◌++◌, arith, length, All, length-append,
  drop-length-append, take-length-append, ok,
}
use mohican.Text.Defs.{
  Text, text_eq, char_at, find_from, find, substr, skip_from, skip_while, sub_size, rfind,
  rfind_from,
}

pub text_eq_iff : (a b : Text) → (text_eq a b ≡ true) ↔ (a ≡ b)
unfolding text_eq
text_eq_iff [] [] = ground arith
text_eq_iff [] (y ∷ b) = ground arith
text_eq_iff (x ∷ a) [] = ground arith
text_eq_iff (x ∷ a) (y ∷ b) = ground (arith, text_eq_iff a b)

pub text_eq_refl : (a : Text) → text_eq a a ≡ true
text_eq_refl a = (text_eq_iff a a).1 refl

char_at-length-append :
    (xs : Text) (c : ℕ) (ys : Text) → char_at (xs ++ (c ∷ ys)) (length xs) ≡ ok c
unfolding char_at
char_at-length-append [] c ys = refl
char_at-length-append (x ∷ xs) c ys = char_at-length-append xs c ys

-- The byte c does not occur.
abbrev pub Lacks : ℕ → Text → Type 0
Lacks c = All (λ x. x ≢ c)

pub find_from-Lacks :
    (c pos : ℕ) (xs ys : Text)
    → Lacks c xs
    → find_from c pos (xs ++ c ∷ ys) ≡ some (pos + length xs)
unfolding find_from
find_from-Lacks c pos [] ys h = ground arith
find_from-Lacks c pos (x ∷ xs) ys h = ground (arith, find_from-Lacks c (pos + 1) xs ys h.1)

pub skip_from-run :
    (p : ℕ → Bool) (pos : ℕ) (xs : Text) (c : ℕ) (ys : Text)
    → All (λ x. p x ≡ true) xs
    → p c ≡ false
    → skip_from p pos (xs ++ (c ∷ ys)) ≡ pos + length xs
unfolding skip_from
skip_from-run p pos [] c ys h k = ground arith
skip_from-run p pos (x ∷ xs) c ys h k = ground (arith, skip_from-run p (pos + 1) xs c ys h.1 k)

-- `rest` is what stands in `str` from position `pos` on.
pub record At (str : Text) (pos : ℕ) (rest : Text) : Type 0 where
  pub before : Text
  pub whole : str ≡ before ++ rest
  pub place : pos ≡ length before

pub At-start : (str : Text) → At str 0 str
At-start str = record { before = []; whole = refl; place = refl }

pub At-skip :
    {str : Text} {pos : ℕ} (xs ys : Text) → At str pos (xs ++ ys) → At str (pos + length xs) ys
At-skip xs ys h = record {
  before = h.before ++ xs;
  whole = h.whole ∙ sym (append_assoc h.before xs ys);
  place = omega (arith, h.place, length-append h.before xs);
}

pub At-next : {str : Text} {pos : ℕ} (c : ℕ) (ys : Text) → At str pos (c ∷ ys) → At str (pos + 1) ys
At-next c ys h = At-skip (c ∷ []) ys h

module _ {str : Text} {pos : ℕ} where
  pub find-At :
      (c : ℕ) (xs ys : Text)
      → At str pos (xs ++ (c ∷ ys))
      → Lacks c xs
      → find str c pos ≡ some (pos + length xs)
  unfolding find
  find-At c xs ys h l =
      rw (h.whole, h.place, drop-length-append) (find_from-Lacks c (length h.before) xs ys l)

  pub substr-At :
      (xs ys : Text) (n : ℕ) → At str pos (xs ++ ys) → n ≡ length xs → substr str pos n ≡ ok xs
  unfolding substr
  substr-At xs ys n h e =
      rw (h.whole, h.place, e, drop-length-append, take-length-append)
        (ground (arith, length-append h.before (xs ++ ys)))

  -- A count that reaches the end gives all the rest.
  pub substr-rest :
      (rest : Text) (n : ℕ) → At str pos rest → length rest ≤ n → substr str pos n ≡ ok rest
  unfolding substr
  substr-rest rest n h e =
      rw (h.whole, h.place, drop-length-append, take_all n rest e)
        (ground (arith, length-append h.before rest))

  pub drop-At : (rest : Text) → At str pos rest → drop pos str ≡ rest
  drop-At rest h = rw (h.whole, h.place) (drop-length-append h.before rest)

  pub length-At : (rest : Text) → At str pos rest → length str ≡ pos + length rest
  length-At rest h = omega (arith, ap length h.whole, h.place, length-append h.before rest)

  pub skip_while-At :
      (p : ℕ → Bool) (c : ℕ) (ys : Text)
      → At str pos (c ∷ ys)
      → p c ≡ false
      → skip_while p str pos ≡ ok pos
  unfolding skip_while skip_from
  skip_while-At p c ys h e =
      rw (h.whole, h.place, drop-length-append) (ground (arith, length-append h.before (c ∷ ys)))

  -- A loop over a run of bytes stops at the first byte that fails the test.
  pub skip_while-run :
      (p : ℕ → Bool) (xs : Text) (c : ℕ) (ys : Text)
      → At str pos (xs ++ (c ∷ ys))
      → All (λ x. p x ≡ true) xs
      → p c ≡ false
      → skip_while p str pos ≡ ok (pos + length xs)
  unfolding skip_while
  skip_while-run p xs c ys h run stop =
      rw (h.whole, h.place, drop-length-append, skip_from-run p (length h.before) xs c ys run stop)
        (ground (arith, length-append h.before (xs ++ (c ∷ ys))))

  pub char_at-At : (c : ℕ) (ys : Text) → At str pos (c ∷ ys) → char_at str pos ≡ ok c
  char_at-At c ys h = rw (h.whole, h.place) (char_at-length-append h.before c ys)

-- A difference of two positions does not wrap around.
pub sub_size-add : (a n : ℕ) → n < 2 ^ 64 → sub_size (a + n) a ≡ n
unfolding sub_size
sub_size-add a n h = omega arith

-- The length between a position and the byte before the line feed.
pub sub_size-before : (l a n : ℕ) → l ≡ a + n + 1 → l < 2 ^ 64 → sub_size (sub_size l 1) a ≡ n
unfolding sub_size
sub_size-before l a n e h = omega arith

rfind_from-Lacks :
    (c pos : ℕ) (last : Option ℕ) (ys : Text) → Lacks c ys → rfind_from c pos last ys ≡ last
unfolding rfind_from
rfind_from-Lacks c pos last [] h = refl
rfind_from-Lacks c pos last (y ∷ ys) h = ground (arith, rfind_from-Lacks c (pos + 1) last ys h.1)

rfind_from-last :
    (c pos : ℕ) (last : Option ℕ) (xs ys : Text)
    → Lacks c ys
    → rfind_from c pos last (xs ++ (c ∷ ys)) ≡ some (pos + length xs)
unfolding rfind_from
rfind_from-last c pos last [] ys h = ground (arith, rfind_from-Lacks c (pos + 1) (some pos) ys h)
rfind_from-last c pos last (x ∷ xs) ys h =
    rfind_from-last c (pos + 1) (if x == c then some pos else last) xs ys h ∙ place
  where
    place : some (pos + 1 + length xs) ≡ some (pos + suc (length xs))
    place = ground arith

-- The last c stands before a part that lacks it.
pub rfind-Lacks : (c : ℕ) (xs ys : Text) → Lacks c ys → rfind (xs ++ (c ∷ ys)) c ≡ some (length xs)
unfolding rfind
rfind-Lacks c xs ys h = rfind_from-last c 0 none xs ys h ∙ ground arith

pub rfind-none : (c : ℕ) (str : Text) → Lacks c str → rfind str c ≡ none
unfolding rfind
rfind-none c str h = rfind_from-Lacks c 0 none str h

rfind_from-append :
    (c pos : ℕ) (last : Option ℕ) (xs ys : Text)
    → Lacks c ys
    → rfind_from c pos last (xs ++ ys) ≡ rfind_from c pos last xs
unfolding rfind_from
rfind_from-append c pos last [] ys h = rfind_from-Lacks c pos last ys h
rfind_from-append c pos last (x ∷ xs) ys h =
    rfind_from-append c (pos + 1) (if x == c then some pos else last) xs ys h

-- A part that lacks c does not move the last c.
pub rfind-append : (c : ℕ) (xs ys : Text) → Lacks c ys → rfind (xs ++ ys) c ≡ rfind xs c
unfolding rfind
rfind-append c xs ys h = rfind_from-append c 0 none xs ys h

abbrev Below : ℕ → Option ℕ → Type 0
Below n none = Unit
Below n (some i) = i < n

rfind_from-Below :
    (c pos : ℕ) (last : Option ℕ) (xs : Text)
    → Below (pos + length xs) last
    → Below (pos + length xs) (rfind_from c pos last xs)
unfolding rfind_from
rfind_from-Below c pos last [] h = h
rfind_from-Below c pos last (x ∷ xs) h =
    subst (λ n. Below n (rfind_from c (pos + 1) (if x == c then some pos else last) xs)) place
      (rfind_from-Below c (pos + 1) (if x == c then some pos else last) xs (ground arith))
  where
    place : pos + 1 + length xs ≡ pos + suc (length xs)
    place = omega arith

-- A position that rfind gives lies inside the string.
pub rfind-lt-length : (c : ℕ) (str : Text) {i : ℕ} → rfind str c ≡ some i → i < length str
unfolding rfind
rfind-lt-length c str {i} e =
    let below : Below (0 + length str) (some i) = rw e at (rfind_from-Below c 0 none str tt) in
    omega arith
