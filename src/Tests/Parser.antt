-- ===== src/Tests/Parser.antt =====
-- The configuration file.
use mohican.Common.{◌≡◌, ◌↔◌, ◌>>=◌, arith, ◌<◌, refl, some, pos, ok}
use mohican.Text.{
  Text, codes, skip_while, char_at, is_space, starts_with, text_eq, substr, scan_int, stoi,
}
use mohican.Config.Server.{new_server, valid_properties, get_number, trimmed, index_from}
use mohican.Config.Lexer.{l_key, lexem_at, value_end, property_at, lexem_of, get_lexem}
use mohican.Config.Lexer.Progress.{get_lexem_lt}
use mohican.Config.Main as Main
use mohican.Config.Main.{MainServerSettings, new_main, in_server, get_number_of_properties}
use mohican.Config.Parser.{parse_blocks, next, on_lexem, stages, parse_config}
use mohican.Config.Location.{parse_location}
use mohican.Config.Location.Total.{BlockEnds, parse_location-BlockEnds}
use mohican.Http.Date.{get_week_day}
use mohican.Http.Date.Days.{day_name, get_week_day_iff}

abbrev port_text : Text
port_text = codes "  listen: 80;\n"

listens : get_lexem port_text 0 valid_properties ≡ ok (l_key, 9)
unfolding get_lexem skip_while char_at is_space lexem_at value_end starts_with property_at lexem_of
    text_eq
listens = refl

get_lexem_example : 0 < 9
get_lexem_example = get_lexem_lt port_text 0 valid_properties listens (λ e. cc)

abbrev config : Text
config = codes "http {\ncount_workflows: 2;\n}"

parse_location_example : BlockEnds 0 (parse_location new_server (codes "/ {\nroot: a;\n}") 0)
parse_location_example = parse_location-BlockEnds new_server (codes "/ {\nroot: a;\n}") 0

parses :
    parse_config (some config) new_main ≡ some (ok (record new_main { count_workflows = pos 2 }))
unfolding parse_config parse_blocks next on_lexem stages get_lexem skip_while char_at is_space
    lexem_at value_end starts_with property_at lexem_of text_eq substr get_number_of_properties
    get_number trimmed index_from Main.set_property Main.store_property stoi scan_int ◌>>=◌
    in_server
parses = refl

get_week_day_example : (get_week_day 0 ≡ day_name 0) ↔ (0 < 0)
get_week_day_example = get_week_day_iff 0 (omega arith)
