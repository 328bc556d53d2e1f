-- ===== src/Tests/Config.antt =====
-- Servers and upstreams.
use mohican.Common.{
  ◌≡◌, ◌↔◌, refl, Bool, true, false, ◌&&◌, none, [], ◌∷◌, pos, Result, ok, throw,
  root_not_found_exception,
}
use mohican.Text.{Text, codes, text_eq}
use mohican.Config.Upstream.{make_upstream}
use mohican.Config.Upstream.Dotted.{dotted, is_byte_value, make_upstream-dotted}
use mohican.Config.Server.{Location, ServerSettings, new_server, get_location}
use mohican.Config.Server.Choice.{candidates, IsFirst, get_location_iff, get_location-none}

make_upstream-dotted_example :
    make_upstream (dotted 127 0 0 256) (pos 1) (pos 80)
    ≡ ok (record {
      upstream_address = dotted 127 0 0 256;
      weight = pos 1;
      port = pos 80;
      is_ip = is_byte_value 127 && (is_byte_value 0 && (is_byte_value 0 && is_byte_value 256));
    })
make_upstream-dotted_example = make_upstream-dotted 127 0 0 256 (pos 1) (pos 80) refl refl refl refl

abbrev location : Location
location = record {
  url = codes "/";
  root = codes "srv";
  upstreams = [];
  case_sensitive = true;
  is_access_log = none;
  is_error_log = none;
  is_proxy = false;
}

abbrev server : ServerSettings
server = record new_server { exact_match_urls = location ∷ [] }

-- A matcher that refuses every url.
abbrev no_match : Text → Text → Result Bool
no_match pattern url = ok false

get_location_example :
    (get_location no_match server (codes "/") ≡ ok location)
    ↔ IsFirst no_match (codes "/") (candidates server) location
get_location_example = get_location_iff no_match (codes "/") server location

get_location-none_example :
    get_location no_match server (codes "/b") ≡ throw (root_not_found_exception "404")
unfolding text_eq
get_location-none_example = get_location-none no_match (codes "/b") server (refl, tt)
