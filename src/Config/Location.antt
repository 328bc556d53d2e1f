-- ===== src/Config/Location.antt =====
-- project/config/src/parse_functions.cpp: parse_location. `none` is a loop that has run out of fuel.
pub mod Head
pub mod Total
use mohican.Common.{
  ℕ, zero, suc, ◌+◌, ◌-◌, Bool, true, false, not, ◌&&◌, ◌||◌, Option, none, some, List, [], ◌∷◌,
  ◌++◌, length, drop, ◌==◌, if◌then◌else◌, Result, ok, throw, undefined, bind,
}
use mohican.Text.{Text, codes, text_eq, is_space, char_at, substr}
use mohican.Config.Server.{
  Location, ServerSettings, LocationType, exact_match, preferential_prefix, regex_match,
  prefix_match, valid_location_properties, get_number_of_location_property, set_location_property,
  add_exact_match_url, add_preferential_prefix_urls, add_regex_match_urls, add_prefix_match_urls,
}
use mohican.Config.Lexer.{
  Lexem, l_protocol, l_brace_open, l_brace_close, l_new_line, l_key, l_value, l_server_start,
  l_location, l_end_location, l_server_end, l_upstream, l_end_upstream, l_err, get_prefix_status,
  skip_isspace, get_lexem,
}

-- The loop of get_url; it has no test for the end of the text.
unfoldable pub url_end : ℕ → Text → Result ℕ
url_end pos [] = undefined
url_end pos (c ∷ cs) = let rest = url_end (pos + 1) cs in if is_space c then ok pos else rest

-- get_url: the url and the position behind it, or `none` for false
unfoldable pub get_url : Text → ℕ → Result (Option (Text × ℕ))
get_url config pos = bind (char_at config pos) λ c.
    if c == b'/'
    then bind (url_end pos (drop pos config))
        (λ end. bind (substr config pos (end - pos)) λ url. ok (some (url, end)))
    else ok none

-- `location` before its properties are read
abbrev new_location : ServerSettings → Bool → Text → Location
new_location s case_sensitive url = record {
  url = url;
  root = if s.is_root then s.root else b'\n' ∷ [];
  upstreams = [];
  case_sensitive = case_sensitive;
  is_access_log = none;
  is_error_log = none;
  is_proxy = false;
}

-- What stands before the properties, up to the brace; `none` is L_ERR.
abbrev open_brace :
    ServerSettings
    → Text
    → Bool
    → LocationType
    → Option (Text × ℕ)
    → Result (Option (LocationType × Location × ℕ))
open_brace s config case_sensitive type none = ok none
open_brace s config case_sensitive type (some (url, end)) = bind (skip_isspace config end) λ pos.
    bind (char_at config pos)
      λ c. ok (if c == b'{' then some (type, new_location s case_sensitive url, pos + 1) else none)

unfoldable pub location_head :
    ServerSettings → Text → ℕ → Result (Option (LocationType × Location × ℕ))
location_head s config start = bind (skip_isspace config start) λ pos.
    bind (char_at config pos) λ c.
      bind (get_prefix_status config (if c == b'*' then pos + 1 else pos)) λ (type, mark).
        bind (skip_isspace config mark)
          λ pos'. bind (get_url config pos') (open_brace s config (not (c == b'*')) type)

-- The state of the loop: S_KEY, or S_VALUE with the number of the property.
pub data LocationState : Type 0 where
  s_key : LocationState
  s_value : Option ℕ → LocationState

-- How the loop ends: is it S_END, with the location and the position.
abbrev pub LocationEnd : Type 0
LocationEnd = Option (Result (Bool × Location × ℕ))

module _ (config : Text) (s : ServerSettings) (go : LocationState → Location → ℕ → LocationEnd)
    (l : Location) (before pos : ℕ) where
  abbrev key_read : Result (Option ℕ) → LocationEnd
  key_read (ok number) = go (s_value number) l pos
  key_read (throw e) = some (throw e)
  key_read undefined = some undefined

  -- Any exception of set_location_property ends the loop in S_ERR.
  abbrev value_read : Result (Unit {0}) × Location → LocationEnd
  value_read (ok done, l') = go s_key l' pos
  value_read (throw e, l') = some (ok (false, l', pos))
  value_read (undefined, l') = some undefined

  abbrev with_text : (Text → LocationEnd) → Result Text → LocationEnd
  with_text f (ok text) = f text
  with_text f (throw e) = some (throw e)
  with_text f undefined = some undefined

  -- One iteration, for the lexem from `before` to `pos`.
  unfoldable pub on_lexem : LocationState → Lexem → LocationEnd
  on_lexem s_key l_new_line = go s_key l pos
  on_lexem s_key l_key =
      with_text (λ text. key_read (get_number_of_location_property text))
        (substr config before (pos - before))
  on_lexem s_key l_brace_close = some (ok (true, l, pos))
  on_lexem (s_value number) l_value =
      with_text (λ text. value_read (set_location_property s number text l))
        (substr config before (pos - before))
  on_lexem _ _ = some (ok (false, l, pos))

abbrev pub on_read :
    Text
    → ServerSettings
    → (LocationState → Location → ℕ → LocationEnd)
    → Location
    → ℕ
    → LocationState
    → Result (Lexem × ℕ)
    → LocationEnd
on_read config s go l before state (ok (lexem, pos)) = on_lexem config s go l before pos state lexem
on_read config s go l before state (throw e) = some (throw e)
on_read config s go l before state undefined = some undefined

-- The loop of parse_location.
unfoldable pub parse_properties :
    ℕ → Text → ServerSettings → LocationState → Location → ℕ → LocationEnd
parse_properties zero config s state l pos = none
parse_properties (suc fuel) config s state l pos =
    on_read config s (parse_properties fuel config s) l pos state
      (get_lexem config pos valid_location_properties)

abbrev add_url : LocationType → Location → ServerSettings → ServerSettings
add_url exact_match = add_exact_match_url
add_url preferential_prefix = add_preferential_prefix_urls
add_url regex_match = add_regex_match_urls
add_url prefix_match = add_prefix_match_urls

-- The end of parse_location: the server with the location and the position, or `none` for L_ERR.
abbrev pub add_location :
    ServerSettings
    → LocationType
    → Result (Bool × Location × ℕ)
    → Result (Option (ServerSettings × ℕ))
add_location s type (ok (ended, l, pos)) =
    ok (if not (text_eq l.root (b'\n' ∷ [])) && ended then some (add_url type l s, pos) else none)
add_location s type (throw e) = throw e
add_location s type undefined = undefined

abbrev pub locate_end :
    ServerSettings → LocationType → LocationEnd → Option (Result (Option (ServerSettings × ℕ)))
locate_end s type none = none
locate_end s type (some r) = some (add_location s type r)

abbrev pub properties_of :
    ℕ
    → Text
    → ServerSettings
    → Result (Option (LocationType × Location × ℕ))
    → Option (Result (Option (ServerSettings × ℕ)))
properties_of fuel config s (ok (some (type, l, pos))) =
    locate_end s type (parse_properties fuel config s s_key l pos)
properties_of fuel config s (ok none) = some (ok none)
properties_of fuel config s (throw e) = some (throw e)
properties_of fuel config s undefined = some undefined

-- An iteration reads a byte or more, so the length of the text and two iterations are enough.
unfoldable pub parse_location :
    ServerSettings → Text → ℕ → Option (Result (Option (ServerSettings × ℕ)))
parse_location s config pos =
    properties_of (length config + 2) config s (location_head s config pos)
