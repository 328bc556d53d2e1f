-- ===== src/Config/Parser.antt =====
-- project/config/src/parse_functions.cpp: parse_config, and the constructor of MainServerSettings that
-- calls it. `none` outside is a loop that has run out of fuel. The position in the message of
-- InvalidConfigException is left out.
pub mod Total
use mohican.Common.{
  ℕ, zero, suc, ◌+◌, ◌-◌, Bool, true, false, not, Option, none, some, List, [], ◌∷◌, length,
  if◌then◌else◌, Result, ok, throw, undefined, invalid_config, Method, bind,
}
use mohican.Text.{Text, substr}
use mohican.Config.Server as ServerSettings
use mohican.Config.Server.{ServerSettings, get_number_of_property}
use mohican.Config.Lexer.{
  Lexem, l_protocol, l_brace_open, l_brace_close, l_new_line, l_key, l_value, l_server_start,
  l_location, l_end_location, l_server_end, l_upstream, l_end_upstream, l_err, get_lexem,
}
use mohican.Config.Location.{parse_location}
use mohican.Config.Upstreams.{parse_upstreams}
use mohican.Config.Main as Main
use mohican.Config.Main.{
  MainServerSettings, new_main, get_number_of_properties, in_server, add_server,
}

-- state_t
pub data State : Type 0 where
  s_start s_brace_open s_key s_value s_upstream s_server_start s_brace_close s_location s_err
        s_end :
      State

-- The table of parse_config; every entry that is not named is S_ERR.
unfoldable pub stages : State → Lexem → State
stages s_start l_protocol = s_brace_open
stages s_start l_new_line = s_start
stages s_brace_open l_brace_open = s_key
stages s_brace_open l_new_line = s_brace_open
stages s_key l_brace_close = s_end
stages s_key l_new_line = s_key
stages s_key l_key = s_value
stages s_key l_server_start = s_server_start
stages s_key l_location = s_location
stages s_key l_server_end = s_key
stages s_key l_upstream = s_upstream
stages s_value l_value = s_key
stages s_upstream l_end_upstream = s_key
stages s_server_start l_brace_open = s_key
stages s_server_start l_new_line = s_server_start
stages s_location l_end_location = s_key
stages _ _ = s_err

-- The variables of the loop: is_server_adding, property_number, main_server and pos.
pub record Parsing : Type 0 where
  pub is_server_adding : Bool
  pub property_number : ℕ
  pub main : MainServerSettings
  pub pos : ℕ

-- How the loop ends: did it end in another state than S_ERR, and what it left of main_server.
abbrev pub ConfigEnd : Type 0
ConfigEnd = Option (Result (Bool × MainServerSettings))

abbrev pub stop : Bool → Parsing → ConfigEnd
stop is_valid p = some (ok (is_valid, p.main))

-- The properties of the block that is read.
abbrev pub properties_of : Parsing → List Text
properties_of p =
    if p.is_server_adding then ServerSettings.valid_properties else Main.valid_properties

abbrev number_of : Parsing → Text → Result (Option ℕ)
number_of p = if p.is_server_adding then get_number_of_property else get_number_of_properties

abbrev set_value : Parsing → Text → Result (Unit {0}) × MainServerSettings
set_value p value =
    if p.is_server_adding
    then in_server (ServerSettings.set_property p.property_number value) p.main
    else Main.set_property p.property_number value p.main

module _ (config : Text) (go : State → Parsing → ConfigEnd) where
  -- The test of the loop.
  unfoldable pub next : State → Parsing → ConfigEnd
  next s_end p = stop true p
  next s_err p = stop false p
  next s p = go s p

  abbrev key_read : State → Parsing → Result (Option ℕ) → ConfigEnd
  key_read state p (ok (some number)) =
      next (stages state l_key) (record p { property_number = number })
  key_read state p (ok none) = stop false p
  key_read state p (throw e) = some (throw e)
  key_read state p undefined = some undefined

  -- An exception of set_property ends the loop by `break`, in a state that is not S_ERR.
  abbrev value_read : State → Parsing → Result (Unit {0}) × MainServerSettings → ConfigEnd
  value_read state p (ok done, main) = next (stages state l_value) (record p { main = main })
  value_read state p (throw e, main) = stop true (record p { main = main })
  value_read state p (undefined, main) = some undefined

  abbrev with_text : (Text → ConfigEnd) → Result Text → ConfigEnd
  with_text f (ok text) = f text
  with_text f (throw e) = some (throw e)
  with_text f undefined = some undefined

  -- What parse_location and parse_upstreams leave, with the lexem that they end in.
  abbrev block_read :
      State → Lexem → Parsing → Option (Result (Option (ServerSettings × ℕ))) → ConfigEnd
  block_read state lexem p none = none
  block_read state lexem p (some (ok (some (server, end)))) =
      next (stages state lexem) (record p { main = record (p.main) { server = server }; pos = end })
  block_read state lexem p (some (ok none)) = next (stages state l_err) p
  block_read state lexem p (some (throw e)) = some (throw e)
  block_read state lexem p (some undefined) = some undefined

  -- One iteration behind the test for S_ERR, for the lexem between `before` and p.pos.
  unfoldable pub on_lexem : State → Parsing → ℕ → Lexem → ConfigEnd
  on_lexem state p before l_key =
      with_text (λ text. key_read state p (number_of p text))
        (substr config before (p.pos - before))
  on_lexem state p before l_value =
      with_text (λ text. value_read state p (set_value p text))
        (substr config before (p.pos - before))
  on_lexem state p before l_server_start =
      if p.is_server_adding
      then stop false p
      else next (stages state l_server_start) (record p { is_server_adding = true })
  on_lexem state p before l_brace_close =
      if p.is_server_adding
      then next (stages state l_server_end) (record p { is_server_adding = false })
      else next (stages state l_brace_close) p
  on_lexem state p before l_location =
      if p.is_server_adding
      then block_read s_location l_end_location p (parse_location p.main.server config p.pos)
      else stop false p
  on_lexem state p before l_upstream =
      block_read (stages state l_upstream) l_end_upstream p
        (parse_upstreams p.main.server config p.pos)
  on_lexem state p before lexem = next (stages state lexem) p

  abbrev pub not_error : State → Parsing → ℕ → Lexem → State → ConfigEnd
  not_error state p before lexem s_err = stop false p
  not_error state p before lexem _ = on_lexem state p before lexem

  abbrev pub on_read : State → Parsing → Result (Lexem × ℕ) → ConfigEnd
  on_read state p (ok (lexem, end)) =
      not_error state (record p { pos = end }) p.pos lexem (stages state lexem)
  on_read state p (throw e) = some (throw e)
  on_read state p undefined = some undefined

-- The loop of parse_config.
unfoldable pub parse_blocks : ℕ → Text → State → Parsing → ConfigEnd
parse_blocks zero config state p = none
parse_blocks (suc fuel) config state p =
    on_read config (parse_blocks fuel config) state p (get_lexem config p.pos (properties_of p))

abbrev pub conclude : ConfigEnd → Option (Result MainServerSettings)
conclude none = none
conclude (some (ok (true, main))) = some (ok main)
conclude (some (ok (false, main))) = some (throw (invalid_config "Invalid config file"))
conclude (some (throw e)) = some (throw e)
conclude (some undefined) = some undefined

-- `file` is the text of the file, or `none` if it cannot be opened; then parse_config goes on with
-- the empty text.
abbrev text_of : Option Text → Text
text_of none = []
text_of (some config) = config

unfoldable pub parse_config : Option Text → MainServerSettings → Option (Result MainServerSettings)
parse_config file main = conclude (
    parse_blocks (length (text_of file) + 2) (text_of file) s_start
      (record { is_server_adding = false; property_number = 0; main = main; pos = 0 }))

abbrev pub after_add_server :
    Option Text → Result (Unit {0}) × MainServerSettings → Option (Result MainServerSettings)
after_add_server file (ok done, main) = parse_config file main
after_add_server file (throw e, main) = some (throw e)
after_add_server file (undefined, main) = some undefined

-- MainServerSettings(config_file_name)
unfoldable pub read_settings : Option Text → Option (Result MainServerSettings)
read_settings file = after_add_server file (add_server new_main)
