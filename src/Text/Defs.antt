-- ===== src/Text/Defs.antt =====
-- The parts of std::string and <cctype> that the sources call, in the C locale.
use Prim.Native.Char.{code}
use mohican.Common.{
  ℕ, zero, suc, ◌+◌, ◌-◌, ◌%◌, ◌^◌, String, Bool, true, false, ◌&&◌, ◌||◌, Option, none, some, List,
  [], ◌∷◌, map, ltb, leb, ◌==◌, if◌then◌else◌, length, take, drop, out_of_range, Result, ok, throw,
  undefined,
}

abbrev pub Text : Type 0
Text = List ℕ

-- A literal of the source.
abbrev pub codes : String → Text
codes String.[] = []
codes (String.◌∷◌ c s) = code c ∷ codes s

-- isspace: space, \t, \n, \v, \f, \r
unfoldable pub is_space : ℕ → Bool
is_space c = c == 32 || (leb 9 c && leb c 13)

unfoldable pub is_digit : ℕ → Bool
is_digit c = leb b'0' c && leb c b'9'

unfoldable pub to_lower : ℕ → ℕ
to_lower c = if leb b'A' c && leb c b'Z' then c + 32 else c

unfoldable pub string_to_lower : Text → Text
string_to_lower str = map to_lower str

-- operator==
unfoldable pub text_eq : Text → Text → Bool
text_eq [] [] = true
text_eq [] (y ∷ ys) = false
text_eq (x ∷ xs) [] = false
text_eq (x ∷ xs) (y ∷ ys) = x == y && text_eq xs ys

-- operator[]
unfoldable pub char_at : Text → ℕ → Result ℕ
char_at [] zero = ok 0
char_at [] (suc i) = undefined
char_at (c ∷ cs) zero = ok c
char_at (c ∷ cs) (suc i) = char_at cs i

unfoldable pub find_from : ℕ → ℕ → Text → Option ℕ
find_from c pos [] = none
find_from c pos (x ∷ xs) = if x == c then some pos else find_from c (pos + 1) xs

-- find(c, start); `none` is npos
unfoldable pub find : Text → ℕ → ℕ → Option ℕ
unfolding find_from
find str c start = find_from c start (drop start str)

unfoldable pub rfind_from : ℕ → ℕ → Option ℕ → Text → Option ℕ
rfind_from c pos last [] = last
rfind_from c pos last (x ∷ xs) = rfind_from c (pos + 1) (if x == c then some pos else last) xs

-- rfind(c)
unfoldable pub rfind : Text → ℕ → Option ℕ
unfolding rfind_from
rfind str c = rfind_from c 0 none str

-- std::string(str, start, count) and str.substr(start, count)
unfoldable pub substr : Text → ℕ → ℕ → Result Text
substr str start count =
    if ltb (length str) start then throw out_of_range else ok (take count (drop start str))

-- a - b on size_t
unfoldable pub sub_size : ℕ → ℕ → ℕ
sub_size a b = (a + 2 ^ 64 - b) % 2 ^ 64

unfoldable pub skip_from : (ℕ → Bool) → ℕ → Text → ℕ
skip_from p pos [] = pos
skip_from p pos (c ∷ cs) = if p c then skip_from p (pos + 1) cs else pos

-- while (p(str[pos])) pos++; for a test that the terminating zero fails
unfoldable pub skip_while : (ℕ → Bool) → Text → ℕ → Result ℕ
unfolding skip_from
skip_while p str pos =
    if ltb (length str) pos then undefined else ok (skip_from p pos (drop pos str))

abbrev pub is_blank : ℕ → Bool
is_blank c = c == 32

-- find(prefix) == 0
unfoldable pub starts_with : Text → Text → Bool
starts_with [] str = true
starts_with (p ∷ ps) [] = false
starts_with (p ∷ ps) (c ∷ cs) = p == c && starts_with ps cs
