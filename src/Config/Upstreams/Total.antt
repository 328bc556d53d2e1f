-- ===== src/Config/Upstreams/Total.antt =====
-- parse_functions.cpp: the fuel of parse_upstreams.
use mohican.Common.{ℕ, Option, none, some}
use mohican.Text.{Text}
use mohican.Config.Upstreams.{UpstreamEntry}

abbrev end_of : Option UpstreamEntry → ℕ
end_of (some (a, w, n, p)) = p
end_of none = 0

abbrev head_place : Option ℕ → ℕ → ℕ
head_place none start = start
head_place (some p) start = p
