-- ===== src/Config/Server.antt =====
-- project/config/src/server_settings.cpp: the settings of the server block, its locations and the
-- upstreams. std::map is an association list; std::regex is an argument: `regex pattern str`,
-- which throws for a pattern that is no regular expression.
pub mod Choice
use mohican.Common.{
  ℕ, zero, suc, ◌+◌, ◌-◌, Bool, true, false, not, ◌&&◌, ◌||◌, Option, none, some, List, [], ◌∷◌,
  ◌++◌, map, ◌==◌, if◌then◌else◌, length, String, ℤ, Exception, out_of_range, invalid_argument,
  invalid_config, root_not_found_exception, Result, ok, throw, undefined, bind, Method, ◌>>=◌, ◌>>◌,
  return, raise, lift, modify, require, get,
}
use mohican.Text.{
  Text, codes, is_space, char_at, substr, skip_while, text_eq, starts_with, string_to_lower, stoi,
}
use mohican.Config.Upstream.{UpstreamSettings, make_upstream}

-- location_t; a flag that was never written has no value
pub record Location : Type 0 where
  pub url : Text
  pub root : Text
  pub upstreams : List UpstreamSettings
  pub case_sensitive : Bool
  pub is_access_log : Option Bool
  pub is_error_log : Option Bool
  pub is_proxy : Bool

-- location_type_t of parse_functions.h
pub data LocationType : Type 0 where
  exact_match preferential_prefix regex_match prefix_match : LocationType

abbrev pub Upstreams : Type 0
Upstreams = List (Text × UpstreamSettings)

-- ServerSettings; `port` has no value until it is set
pub record ServerSettings : Type 0 where
  pub port : Option ℤ
  pub servername : Text
  pub access_log_file : Text
  pub error_log_file : Text
  pub root : Text
  pub is_root : Bool
  pub exact_match_urls : List Location
  pub preferential_prefix_urls : List Location
  pub regex_match_urls : List Location
  pub prefix_match_urls : List Location
  pub upstreams : Upstreams

-- ServerSettings() = default
abbrev pub new_server : ServerSettings
new_server = record {
  port = none;
  servername = [];
  access_log_file = [];
  error_log_file = [];
  root = [];
  is_root = false;
  exact_match_urls = [];
  preferential_prefix_urls = [];
  regex_match_urls = [];
  prefix_match_urls = [];
  upstreams = [];
}

abbrev pub statics_folder_path : Text
statics_folder_path = codes "static"

abbrev pub valid_properties : List Text
valid_properties =
    map codes ("listen" ∷ "root" ∷ "access_log" ∷ "error_log" ∷ "location" ∷ "servername" ∷ [])

abbrev pub valid_location_properties : List Text
valid_location_properties =
    map codes ("root" ∷ "add_root" ∷ "access_log" ∷ "error_log" ∷ "proxy_path" ∷ [])

-- str[str.length() - 1]
abbrev last_char : Text → Result ℕ
last_char [] = undefined
last_char (c ∷ cs) = char_at (c ∷ cs) (length cs)

-- The text without the white space in front and without one `mark` at the end.
unfoldable pub trimmed : ℕ → Text → Result Text
trimmed mark str = bind (skip_while is_space str 0) λ begin.
    bind (last_char str)
      λ last. substr str begin (if last == mark then length str - begin - 1 else length str - begin)

unfoldable pub index_from : ℕ → Text → List Text → Option ℕ
index_from i property [] = none
index_from i property (p ∷ ps) =
    if text_eq property p then some i else index_from (i + 1) property ps

-- `none` is -1
unfoldable pub get_number : List Text → Text → Result (Option ℕ)
get_number properties property =
    bind (trimmed b':' property) λ name. ok (index_from 0 name properties)

unfoldable pub get_number_of_property : Text → Result (Option ℕ)
get_number_of_property = get_number valid_properties

unfoldable pub get_number_of_location_property : Text → Result (Option ℕ)
get_number_of_location_property = get_number valid_location_properties

-- The handler of the call of stoi: any exception becomes InvalidConfigException.
abbrev port_or_invalid : Result ℤ → Result ℤ
port_or_invalid (ok port) = ok port
port_or_invalid (throw e) = throw (invalid_config "listen port can be only integer")
port_or_invalid undefined = undefined

-- The cases of the switch in set_property, on the trimmed value.
unfoldable pub store_property : ℕ → Text → Method ServerSettings (Unit {0})
store_property zero value = do
  port ← lift (port_or_invalid (stoi value))
  modify (λ s. record s { port = some port })
store_property (suc zero) value =
    modify (λ s. record s { root = statics_folder_path ++ value; is_root = true })
store_property (suc (suc zero)) value = modify (λ s. record s { access_log_file = value })
store_property (suc (suc (suc zero))) value = modify (λ s. record s { error_log_file = value })
store_property (suc (suc (suc (suc zero)))) value = return tt
store_property (suc (suc (suc (suc (suc zero))))) value =
    modify (λ s. record s { servername = value })
store_property (suc (suc (suc (suc (suc (suc n)))))) value = return tt

unfoldable pub set_property : ℕ → Text → Method ServerSettings (Unit {0})
set_property number value = do trim ← lift (trimmed b';' value); store_property number trim

unfoldable pub find_upstream : Text → Upstreams → Option UpstreamSettings
find_upstream address [] = none
find_upstream address ((a, u) ∷ us) = if text_eq a address then some u else find_upstream address us

unfoldable pub get_upstream : ServerSettings → Text → Result UpstreamSettings
get_upstream s address = elim (find_upstream address s.upstreams) [
  | none ↦ throw (
      invalid_config
        "the upstream defined in the 'location' block is not defined in the 'upstreams' block")
  | some upstream ↦ ok upstream
]

-- upstreams[address] = upstream
unfoldable pub put_upstream : Text → UpstreamSettings → Upstreams → Upstreams
put_upstream address upstream [] = (address, upstream) ∷ []
put_upstream address upstream ((a, u) ∷ us) =
    if text_eq a address then (a, upstream) ∷ us else (a, u) ∷ put_upstream address upstream us

unfoldable pub add_upstream : Text → ℤ → ℤ → Method ServerSettings (Unit {0})
add_upstream address weight port = do
  upstream ← lift (make_upstream address weight port)
  modify (λ s. record s { upstreams = put_upstream address upstream s.upstreams })

-- "on" or "off"
abbrev on_off : Text → String → Result Bool
on_off value message =
    if text_eq value (codes "on")
    then ok true
    else if text_eq value (codes "off")
    then ok false
    else throw (invalid_config message)

-- The cases of the switch in set_location_property, on the trimmed value.
unfoldable pub store_location_property : ServerSettings → ℕ → Text → Method Location (Unit {0})
store_location_property s zero value =
    modify (λ l. record l { root = statics_folder_path ++ value })
store_location_property s (suc zero) value = modify (λ l. record l { root = s.root ++ value })
store_location_property s (suc (suc zero)) value = do
  is_on ← lift (on_off value "access_log field in 'location' must be only 'on' or 'off'")
  modify (λ l. record l { is_access_log = some is_on })
store_location_property s (suc (suc (suc zero))) value = do
  is_on ← lift (on_off value "error_log field in 'location' must be only 'on' or 'off'")
  modify (λ l. record l { is_error_log = some is_on })
store_location_property s (suc (suc (suc (suc zero)))) value = do
  modify (λ l. record l { is_proxy = true })
  upstream ← lift (get_upstream s value)
  modify (λ l. record l { upstreams = l.upstreams ++ upstream ∷ [] })
store_location_property s (suc (suc (suc (suc (suc n))))) value = return tt

-- The number is -1, `none`, for a property that is not known.
abbrev store_known : ServerSettings → Option ℕ → Text → Method Location (Unit {0})
store_known s none value = return tt
store_known s (some number) value = store_location_property s number value

unfoldable pub set_location_property : ServerSettings → Option ℕ → Text → Method Location (Unit {0})
set_location_property s number value = do
  trim ← lift (trimmed b';' value)
  store_known s number trim

-- The four functions add_..._url(s).
abbrev pub add_exact_match_url : Location → ServerSettings → ServerSettings
add_exact_match_url l s = record s { exact_match_urls = s.exact_match_urls ++ l ∷ [] }

abbrev pub add_preferential_prefix_urls : Location → ServerSettings → ServerSettings
add_preferential_prefix_urls l s = record s {
  preferential_prefix_urls = s.preferential_prefix_urls ++ l ∷ [];
}

abbrev pub add_regex_match_urls : Location → ServerSettings → ServerSettings
add_regex_match_urls l s = record s { regex_match_urls = s.regex_match_urls ++ l ∷ [] }

abbrev pub add_prefix_match_urls : Location → ServerSettings → ServerSettings
add_prefix_match_urls l s = record s { prefix_match_urls = s.prefix_match_urls ++ l ∷ [] }

-- One loop of get_location with the test of its body; `rest` is what comes behind the loop.
unfoldable pub first_location :
    (Location → Result Bool) → List Location → Result Location → Result Location
first_location matches [] rest = rest
first_location matches (l ∷ ls) rest =
    let later = first_location matches ls rest in
    bind (matches l) λ found. if found then ok l else later

-- The bodies of the loops: the url in lower case first, for a location that is not case sensitive.
abbrev pub matches_exactly : Text → Location → Result Bool
matches_exactly url l =
    ok ((not l.case_sensitive && text_eq (string_to_lower url) l.url) || text_eq url l.url)

abbrev pub matches_prefix : Text → Location → Result Bool
matches_prefix url l =
    ok ((not l.case_sensitive && starts_with l.url (string_to_lower url)) || starts_with l.url url)

module _ (regex : Text → Text → Result Bool) where
  abbrev pub matches_regex : Text → Location → Result Bool
  matches_regex url l =
      let sensitive = regex l.url url in
      if l.case_sensitive
      then sensitive
      else bind (regex l.url (string_to_lower url)) λ lower. if lower then ok true else sensitive

  unfoldable pub get_location : ServerSettings → Text → Result Location
  get_location s url = first_location (matches_exactly url) s.exact_match_urls (
      first_location (matches_prefix url) s.preferential_prefix_urls (
        first_location (matches_regex url) s.regex_match_urls (
          first_location (matches_prefix url) s.prefix_match_urls
            (throw (root_not_found_exception "404")))))
