-- ===== src/Config/Parser/Total.antt =====
-- parse_functions.cpp: the fuel of parse_config.
use mohican.Common.{◌≢◌, none}
use mohican.Text.{Text}
use mohican.Config.Parser.{ConfigEnd}

abbrev IsEnd : ConfigEnd → Type 0
IsEnd end = end ≢ none
