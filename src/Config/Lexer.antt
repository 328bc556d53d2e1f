-- ===== src/Config/Lexer.antt =====
-- project/config/src/parse_functions.cpp: the functions that read the text of the configuration file
-- at a position. `int` positions are natural numbers: a text is shorter than 2 ^ 31 bytes.
pub mod Progress
use mohican.Common.{
  ℕ, suc, ◌+◌, ◌-◌, Bool, true, false, not, ◌&&◌, ◌||◌, Option, none, some, List, [], ◌∷◌, length,
  drop, ◌==◌, if◌then◌else◌, Result, ok, bind,
}
use mohican.Text.{Text, codes, text_eq, is_space, char_at, substr, skip_while, starts_with}
use mohican.Config.Server.{
  Location, LocationType, exact_match, preferential_prefix, regex_match, prefix_match,
}

-- lexem_t
pub data Lexem : Type 0 where
  l_protocol l_brace_open l_brace_close l_new_line l_key l_value l_server_start : Lexem
  l_location l_end_location l_server_end l_upstream l_end_upstream l_err : Lexem

-- get_prefix_status: the type of a location, and the position behind its mark
unfoldable pub prefix_status : ℕ → ℕ → ℕ → LocationType × ℕ
prefix_status pos c next =
    if c == b'='
    then (exact_match, pos + 1)
    else if c == b'^' && next == b'~'
    then (preferential_prefix, pos + 2)
    else if c == b'~'
    then (regex_match, pos + 1)
    else (prefix_match, pos)

-- config[pos + 1] is read behind a '^' alone.
unfoldable pub get_prefix_status : Text → ℕ → Result (LocationType × ℕ)
get_prefix_status config pos = bind (char_at config pos) λ c.
    if c == b'^'
    then bind (char_at config (pos + 1)) (λ next. ok (prefix_status pos c next))
    else ok (prefix_status pos c 0)

unfoldable pub skip_space : Text → ℕ → Result ℕ
skip_space = skip_while (λ c. c == b' ')

unfoldable pub skip_isspace : Text → ℕ → Result ℕ
skip_isspace = skip_while is_space

-- The loop over a text for `config[i] == ';'`, up to a line feed or a colon.
unfoldable pub value_end : ℕ → Text → Option ℕ
value_end i [] = none
value_end i (c ∷ cs) =
    if c == b'\n' || c == b':' then none else if c == b';' then some i else value_end (i + 1) cs

unfoldable pub lexem_of : Text → Lexem
lexem_of property =
    if text_eq property (codes "server")
    then l_server_start
    else if text_eq property (codes "location")
    then l_location
    else if text_eq property (codes "upstreams")
    then l_upstream
    else l_key

-- The loop over the properties, for the text `rest` at `pos`.
unfoldable pub property_at : ℕ → Text → List Text → Lexem × ℕ
property_at pos rest [] = (l_err, pos)
property_at pos rest (p ∷ ps) =
    if starts_with p rest then (lexem_of p, pos + length p + 1) else property_at pos rest ps

abbrev pub word_at : ℕ → Text → List Text → Option ℕ → Lexem × ℕ
word_at pos rest properties (some i) = (l_value, i + 1)
word_at pos rest properties none =
    if starts_with (codes "http") rest
    then (l_protocol, pos + 4)
    else property_at pos rest properties

-- get_lexem behind the white space, at the byte `c`
unfoldable pub lexem_at : Text → ℕ → List Text → ℕ → Lexem × ℕ
lexem_at config pos properties c =
    if c == b'\n'
    then (l_new_line, pos + 1)
    else if c == b'{'
    then (l_brace_open, pos + 1)
    else if c == b'}'
    then (l_brace_close, pos + 1)
    else word_at pos (drop pos config) properties (value_end pos (drop pos config))

-- The lexem at a position, and the position behind it.
unfoldable pub get_lexem : Text → ℕ → List Text → Result (Lexem × ℕ)
get_lexem config pos properties =
    bind (skip_while (λ c. is_space c && not (c == b'\n')) config pos)
      λ begin. bind (char_at config begin) λ c. ok (lexem_at config begin properties c)
