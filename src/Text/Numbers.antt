-- ===== src/Text/Numbers.antt =====
-- Decimal numbers: std::to_string, std::stoi, std::stoul and the conversion %d of sscanf.
use mohican.Common.{
  ℕ, zero, suc, ◌+◌, ◌-◌, ◌*◌, ◌/◌, ◌%◌, ◌^◌, Bool, false, Option, none, some, [], ◌∷◌, ltb, ◌==◌,
  if◌then◌else◌, ℤ, pos, negsuc, in_int_range, Result, ok, throw, out_of_range, invalid_argument,
}
use mohican.Text.Defs.{Text, is_space, is_digit}

-- The digits of n in front of `rest`; a number has at most as many digits as its value plus one.
unfoldable pub digits_onto : ℕ → ℕ → Text → Text
digits_onto zero n rest = rest
digits_onto (suc f) n rest =
    let more = digits_onto f (n / 10) ((48 + n % 10) ∷ rest) in
    if ltb n 10 then (48 + n) ∷ rest else more

-- to_string in front of `rest`
unfoldable pub to_string_onto : ℤ → Text → Text
unfolding digits_onto
to_string_onto (pos n) rest = digits_onto (suc n) n rest
to_string_onto (negsuc n) rest = b'-' ∷ digits_onto (suc (suc n)) (suc n) rest

unfoldable pub to_string : ℤ → Text
unfolding to_string_onto
to_string i = to_string_onto i []

-- Reads digits behind a number read so far; gives the number and what follows.
unfoldable pub scan_digits : ℕ → Text → ℕ × Text
scan_digits acc [] = (acc, [])
scan_digits acc (c ∷ cs) =
    if is_digit c then scan_digits (acc * 10 + (c - 48)) cs else (acc, c ∷ cs)

unfoldable pub skip_spaces : Text → Text
unfolding is_space
skip_spaces [] = []
skip_spaces (c ∷ cs) = if is_space c then skip_spaces cs else c ∷ cs

abbrev pub starts_with_digit : Text → Bool
starts_with_digit [] = false
starts_with_digit (c ∷ cs) = is_digit c

abbrev negate : ℕ → ℤ
negate zero = pos 0
negate (suc n) = negsuc n

scan_unsigned : (ℕ → ℤ) → Text → Option (ℤ × Text)
unfolding scan_digits is_digit
scan_unsigned sign str =
    if starts_with_digit str
    then (let (n, rest) = scan_digits 0 str in some (sign n, rest))
    else none

scan_signed : Text → Option (ℤ × Text)
unfolding scan_unsigned
scan_signed [] = none
scan_signed (c ∷ cs) =
    if c == b'-'
    then scan_unsigned negate cs
    else if c == b'+'
    then scan_unsigned pos cs
    else scan_unsigned pos (c ∷ cs)

-- %d, strtol: spaces, a sign, digits. `none` if no number stands there.
unfoldable pub scan_int : Text → Option (ℤ × Text)
unfolding scan_signed skip_spaces
scan_int str = scan_signed (skip_spaces str)

abbrev pub check_int : Option (ℤ × Text) → Result ℤ
check_int none = throw invalid_argument
check_int (some (i, rest)) = if in_int_range i then ok i else throw out_of_range

-- std::stoi
unfoldable pub stoi : Text → Result ℤ
stoi str = check_int (scan_int str)

-- The wrap-around of strtoul for a number with a minus sign.
abbrev to_size : ℤ → ℕ
to_size (pos n) = n
to_size (negsuc n) = 2 ^ 64 - 1 - n

abbrev in_size_range : ℤ → Bool
in_size_range (pos n) = ltb n (2 ^ 64)
in_size_range (negsuc n) = ltb n (2 ^ 64 - 1)

abbrev check_size : Option (ℤ × Text) → Result ℕ
check_size none = throw invalid_argument
check_size (some (i, rest)) = if in_size_range i then ok (to_size i) else throw out_of_range

-- std::stoul
unfoldable pub stoul : Text → Result ℕ
stoul str = check_size (scan_int str)
