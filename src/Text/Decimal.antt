-- ===== src/Text/Decimal.antt =====
-- The decimal form of a number.
use mathlib.Core.List.{append-nil}
use mohican.Common.{
  All, in_int_range, bind, ok, ℕ, zero, suc, ◌+◌, ◌-◌, ◌*◌, ◌/◌, ◌%◌, ◌<◌, ◌≡◌, refl, sym, ◌∙◌, ap,
  inl, inr, true, false, some, List, [], ◌∷◌, ◌++◌, arith, ltb, ℤ, pos, negsuc, Bool-cases,
}
use mohican.Text.Defs.{Text, is_space, is_digit}
use mohican.Text.Laws.{Lacks}
use mohican.Text.Scanf.{Directive, int, white, sscanf, c_str}
use mohican.Text.Numbers.{
  to_string, stoi, check_int, digits_onto, to_string_onto, scan_digits, skip_spaces,
  starts_with_digit, scan_int,
}

scan_digits-digit :
    (acc d : ℕ) (rest : Text)
    → d < 10
    → scan_digits acc ((48 + d) ∷ rest) ≡ scan_digits (acc * 10 + d) rest
unfolding scan_digits is_digit
scan_digits-digit acc d rest h = let e : (48 + d) - 48 ≡ d = omega arith in rw e (ground arith)

-- The numeral of n, read behind nothing, is n read so far.
scan_digits-digits_onto :
    (f n : ℕ) (rest : Text) → n < f → scan_digits 0 (digits_onto f n rest) ≡ scan_digits n rest
unfolding digits_onto
scan_digits-digits_onto zero n rest h = absurd (omega arith)
scan_digits-digits_onto (suc f) n rest h = elim (Bool-cases (ltb n 10)) [
  | inl small ↦
      let alone : 0 * 10 + n ≡ n = omega arith in
      rw small (scan_digits-digit 0 n rest (ground arith) ∙ ap (λ m. scan_digits m rest) alone)
  | inr large ↦
      let whole : n / 10 * 10 + n % 10 ≡ n = omega arith in
      rw large (
        scan_digits-digits_onto f (n / 10) ((48 + n % 10) ∷ rest) (ground arith)
        ∙ scan_digits-digit (n / 10) (n % 10) rest (omega arith)
        ∙ ap (λ m. scan_digits m rest) whole)
]

is_digit_code : (d : ℕ) → d < 10 → is_digit (48 + d) ≡ true
unfolding is_digit
is_digit_code d h = ground arith

digits_onto-starts_with_digit :
    (f n : ℕ) (rest : Text)
    → starts_with_digit rest ≡ true
    → starts_with_digit (digits_onto f n rest) ≡ true
unfolding digits_onto
digits_onto-starts_with_digit zero n rest h = h
digits_onto-starts_with_digit (suc f) n rest h = elim (Bool-cases (ltb n 10)) [
  | inl small ↦ rw small (is_digit_code n (ground arith))
  | inr large ↦ rw large (
      digits_onto-starts_with_digit f (n / 10) ((48 + n % 10) ∷ rest)
        (is_digit_code (n % 10) (omega arith)))
]

numeral-starts_with_digit :
    (f n : ℕ) (rest : Text) → starts_with_digit (digits_onto (suc f) n rest) ≡ true
unfolding digits_onto
numeral-starts_with_digit f n rest = elim (Bool-cases (ltb n 10)) [
  | inl small ↦ rw small (is_digit_code n (ground arith))
  | inr large ↦ rw large (
      digits_onto-starts_with_digit f (n / 10) ((48 + n % 10) ∷ rest)
        (is_digit_code (n % 10) (omega arith)))
]

-- What follows a numeral is not read as part of it.
abbrev pub Ends : Text → Type 0
Ends rest = starts_with_digit rest ≡ false

scan_digits-Ends : (n : ℕ) (rest : Text) → Ends rest → scan_digits n rest ≡ (n, rest)
unfolding scan_digits
scan_digits-Ends n [] h = refl
scan_digits-Ends n (c ∷ rest) h = rw h

scan_numeral :
    (n : ℕ) (rest : Text) → Ends rest → scan_digits 0 (digits_onto (suc n) n rest) ≡ (n, rest)
scan_numeral n rest h =
    scan_digits-digits_onto (suc n) n rest (omega arith) ∙ scan_digits-Ends n rest h

scan_int_of_digit :
    (str : Text)
    → starts_with_digit str ≡ true
    → scan_int str ≡ some (pos (scan_digits 0 str).0, (scan_digits 0 str).1)
unfolding scan_int is_space is_digit
scan_int_of_digit [] h = cc
scan_int_of_digit (c ∷ str) h = ground arith

scan_int_of_minus :
    (str : Text) (n : ℕ)
    → starts_with_digit str ≡ true
    → (scan_digits 0 str).0 ≡ suc n
    → scan_int (b'-' ∷ str) ≡ some (negsuc n, (scan_digits 0 str).1)
unfolding scan_int is_space
scan_int_of_minus str n h e = rw (h, e)

-- %d reads back what to_string wrote, if no digit follows.
pub scan_int-to_string_onto :
    (i : ℤ) (rest : Text) → Ends rest → scan_int (to_string_onto i rest) ≡ some (i, rest)
unfolding to_string_onto
scan_int-to_string_onto (pos n) rest h =
    scan_int_of_digit _ (numeral-starts_with_digit n n rest) ∙ rw (scan_numeral n rest h) refl
scan_int-to_string_onto (negsuc n) rest h =
    let read = scan_numeral (suc n) rest h in
    scan_int_of_minus _ n (numeral-starts_with_digit (suc n) (suc n) rest) (ap (λ p. p.0) read)
    ∙ rw read refl

digits_onto-append :
    (f n : ℕ) (rest more : Text) → digits_onto f n rest ++ more ≡ digits_onto f n (rest ++ more)
unfolding digits_onto
digits_onto-append zero n rest more = refl
digits_onto-append (suc f) n rest more = elim (Bool-cases (ltb n 10)) [
  | inl small ↦ rw small
  | inr large ↦ rw large (digits_onto-append f (n / 10) ((48 + n % 10) ∷ rest) more)
]

pub to_string-append : (i : ℤ) (rest : Text) → to_string i ++ rest ≡ to_string_onto i rest
unfolding to_string to_string_onto
to_string-append (pos n) rest = digits_onto-append (suc n) n [] rest
to_string-append (negsuc n) rest = ap (◌∷◌ b'-') (digits_onto-append (suc (suc n)) (suc n) [] rest)

-- A numeral holds digits and the minus sign alone.
abbrev pub OfNumerals : (ℕ → Type 0) → Type 0
OfNumerals P = P b'-' × ((d : ℕ) → d < 10 → P (48 + d))

All-digits_onto :
    (P : ℕ → Type 0) (f n : ℕ) (rest : Text)
    → ((d : ℕ) → d < 10 → P (48 + d))
    → All P rest
    → All P (digits_onto f n rest)
unfolding digits_onto
All-digits_onto P zero n rest p h = h
All-digits_onto P (suc f) n rest p h = elim (Bool-cases (ltb n 10)) [
  | inl small ↦ rw small (p n (ground arith), h)
  | inr large ↦
      rw large (All-digits_onto P f (n / 10) ((48 + n % 10) ∷ rest) p (p (n % 10) (omega arith), h))
]

pub All-to_string_onto :
    (P : ℕ → Type 0) (i : ℤ) (rest : Text)
    → OfNumerals P
    → All P rest
    → All P (to_string_onto i rest)
unfolding to_string_onto
All-to_string_onto P (pos n) rest p h = All-digits_onto P (suc n) n rest p.1 h
All-to_string_onto P (negsuc n) rest p h = (p.0, All-digits_onto P (suc (suc n)) (suc n) rest p.1 h)

-- A conversion %d at a numeral stores the number.
pub sscanf-int :
    (ds : List Directive) (i : ℤ) (rest : Text)
    → in_int_range i ≡ true
    → Ends rest
    → sscanf (int ∷ ds) (to_string_onto i rest) ≡ bind (sscanf ds rest) (λ is. ok (i ∷ is))
unfolding sscanf
sscanf-int ds i rest h e = rw (scan_int-to_string_onto i rest e, sscanf) (rw h)

-- A C function reads a text with no zero byte in full.
pub c_str-Lacks : (str : Text) → Lacks 0 str → c_str str ≡ str
unfolding c_str
c_str-Lacks [] h = refl
c_str-Lacks (c ∷ cs) h = ground (arith, c_str-Lacks cs h.1)

skip_spaces_of_digit : (str : Text) → starts_with_digit str ≡ true → skip_spaces str ≡ str
unfolding skip_spaces is_digit
skip_spaces_of_digit [] h = refl
skip_spaces_of_digit (c ∷ str) h = ground arith

skip_spaces-to_string_onto :
    (i : ℤ) (rest : Text) → skip_spaces (to_string_onto i rest) ≡ to_string_onto i rest
unfolding to_string_onto
skip_spaces-to_string_onto (pos n) rest =
    skip_spaces_of_digit _ (numeral-starts_with_digit n n rest)
skip_spaces-to_string_onto (negsuc n) rest = unfold skip_spaces in refl

-- The same behind a space that the format asks for.
pub sscanf-white_int :
    (ds : List Directive) (i : ℤ) (rest : Text)
    → in_int_range i ≡ true
    → Ends rest
    → sscanf (white ∷ int ∷ ds) (b' ' ∷ to_string_onto i rest)
      ≡ bind (sscanf ds rest) (λ is. ok (i ∷ is))
sscanf-white_int ds i rest h e =
    skip ∙ ap (sscanf (int ∷ ds)) (skip_spaces-to_string_onto i rest) ∙ sscanf-int ds i rest h e
  where
    skip :
        sscanf (white ∷ int ∷ ds) (b' ' ∷ to_string_onto i rest)
        ≡ sscanf (int ∷ ds) (skip_spaces (to_string_onto i rest))
    skip = unfold sscanf skip_spaces in refl

-- The numeral of a number that is not negative holds digits alone, and at least one.
pub to_string-digits : (n : ℕ) → All (λ c. is_digit c ≡ true) (to_string (pos n))
unfolding to_string to_string_onto
to_string-digits n = All-digits_onto _ (suc n) n [] is_digit_code tt

pub to_string-cons : (n : ℕ) → (c : ℕ) × (cs : Text) × (to_string (pos n) ≡ c ∷ cs)
to_string-cons n = head_of (to_string (pos n)) (first n)
  where
    first : (n : ℕ) → starts_with_digit (to_string (pos n)) ≡ true
    first n = unfold to_string to_string_onto in numeral-starts_with_digit n n []

    head_of : (str : Text) → starts_with_digit str ≡ true → (c : ℕ) × (cs : Text) × (str ≡ c ∷ cs)
    head_of [] h = cc
    head_of (c ∷ cs) h = (c, cs, refl)

-- std::stoi reads back a numeral in the range of int.
pub stoi-to_string : (i : ℤ) → in_int_range i ≡ true → stoi (to_string i) ≡ ok i
unfolding stoi
stoi-to_string i h =
    ap check_int (
      ap scan_int (sym (append-nil (to_string i)) ∙ to_string-append i [])
      ∙ scan_int-to_string_onto i [] refl)
    ∙ rw h
