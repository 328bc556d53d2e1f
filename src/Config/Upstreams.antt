-- ===== src/Config/Upstreams.antt =====
-- project/config/src/parse_functions.cpp: set_upstream_settings and parse_upstreams. `none` outside is a
-- loop that has run out of fuel, and `none` inside L_ERR.
pub mod Total
use mohican.Common.{
  ℕ, zero, suc, ◌+◌, ◌-◌, Bool, true, false, not, ◌&&◌, Option, none, some, List, [], ◌∷◌, length,
  drop, ltb, ◌==◌, if◌then◌else◌, ℤ, pos, negsuc, Result, ok, throw, undefined, bind,
}
use mohican.Text.{Text, codes, text_eq, is_digit, char_at, substr, skip_from, skip_while, stoi}
use mohican.Config.Server.{ServerSettings, add_upstream}
use mohican.Config.Lexer.{skip_space, skip_isspace}

-- The number behind '=', and the position behind it
unfoldable pub setting_number : Text → ℕ → Result (ℤ × ℕ)
setting_number config start = bind (skip_space config start) λ begin.
    bind (skip_while is_digit config begin) λ end.
      bind (bind (substr config begin (end - begin)) stoi)
        λ n. bind (skip_space config end) λ p. bind (skip_isspace config p) λ p'. ok (n, p')

-- The setting behind its name; without '=' it is -1.
unfoldable pub named_setting : Text → ℕ → Result (ℤ × ℕ)
named_setting config start = bind (skip_space config start) λ p.
    bind (char_at config p)
      λ c. if c == b'=' then setting_number config (p + 1) else ok (negsuc 0, p)

unfoldable pub set_upstream_settings : Text → ℕ → Text → Result (ℤ × ℕ)
set_upstream_settings config start name = bind (substr config start (length name)) λ here.
    if text_eq here name
    then named_setting config (start + length name)
    else bind (skip_isspace config start) λ p. ok (negsuc 0, p)

-- -1 stands for the default.
abbrev or_default : ℕ → ℤ → ℤ
or_default n (pos m) = pos m
or_default n (negsuc m) = pos n

-- An entry of the block, up to the next one: address, weight, port and position.
abbrev pub UpstreamEntry : Type 0
UpstreamEntry = Text × ℤ × ℤ × ℕ

unfoldable pub address_end : Text → ℕ → ℕ
address_end config start =
    skip_from (λ c. not (c == b' ') && not (c == b';')) start (drop start config)

abbrev entry_end : Text → Text → ℤ → ℤ → ℕ → Result (Option UpstreamEntry)
entry_end config address weight port p = bind (char_at config p) λ c.
    if c == b';'
    then bind (skip_isspace config (p + 1))
        (λ p'. ok (some (address, or_default 1 weight, or_default 80 port, p')))
    else ok none

unfoldable pub read_entry : Text → ℕ → Result (Option UpstreamEntry)
read_entry config start = bind (substr config start (address_end config start - start)) λ address.
    bind (skip_space config (address_end config start)) λ p.
      bind (set_upstream_settings config p (codes "weight")) λ weight.
        bind (set_upstream_settings config weight.1 (codes "port"))
          λ port. entry_end config address weight.0 port.0 port.1

abbrev pub UpstreamsEnd : Type 0
UpstreamsEnd = Option (Result (Option (ServerSettings × ℕ)))

-- pos < config.length() && config[pos] != '}'
abbrev pub at_entry : Text → ℕ → Result Bool
at_entry config start =
    if ltb start (length config)
    then bind (char_at config start) (λ c. ok (not (c == b'}')))
    else ok false

-- config[pos++] == '}'
abbrev close_brace : Text → ServerSettings → ℕ → Result (Option (ServerSettings × ℕ))
close_brace config s start =
    bind (char_at config start) λ c. ok (if c == b'}' then some (s, start + 1) else none)

module _ (go : ServerSettings → ℕ → UpstreamsEnd) where
  abbrev pub on_added : ℕ → Result (Unit {0}) × ServerSettings → UpstreamsEnd
  on_added p (ok done, s) = go s p
  on_added p (throw e, s) = some (throw e)
  on_added p (undefined, s) = some undefined

  abbrev pub on_entry : ServerSettings → Result (Option UpstreamEntry) → UpstreamsEnd
  on_entry s (ok (some (address, weight, port, p))) =
      on_added p (add_upstream address weight port s)
  on_entry s (ok none) = some (ok none)
  on_entry s (throw e) = some (throw e)
  on_entry s undefined = some undefined

  abbrev pub on_test : Text → ServerSettings → ℕ → Result Bool → UpstreamsEnd
  on_test config s start (ok true) = on_entry s (read_entry config start)
  on_test config s start (ok false) = some (close_brace config s start)
  on_test config s start (throw e) = some (throw e)
  on_test config s start undefined = some undefined

-- The loop of parse_upstreams.
unfoldable pub parse_entries : ℕ → Text → ServerSettings → ℕ → UpstreamsEnd
parse_entries zero config s start = none
parse_entries (suc fuel) config s start =
    on_test (parse_entries fuel config) config s start (at_entry config start)

-- The position of the first entry
abbrev upstreams_head : Text → ℕ → Result (Option ℕ)
upstreams_head config start = bind (skip_isspace config start) λ p.
    bind (char_at config p)
      λ c. if c == b'{' then bind (skip_isspace config (p + 1)) (λ p'. ok (some p')) else ok none

abbrev pub entries_of : Text → ServerSettings → Result (Option ℕ) → UpstreamsEnd
entries_of config s (ok (some start)) = parse_entries (length config + 1) config s start
entries_of config s (ok none) = some (ok none)
entries_of config s (throw e) = some (throw e)
entries_of config s undefined = some undefined

-- An iteration reads a byte or more, so the length of the text and one iteration are enough.
unfoldable pub parse_upstreams : ServerSettings → Text → ℕ → UpstreamsEnd
parse_upstreams s config start = entries_of config s (upstreams_head config start)
