-- ===== src/Config/Main.antt =====
-- project/config/src/main_server_settings.cpp: the settings of the main block.
use mohican.Common.{
  ℕ, zero, suc, Bool, true, false, Option, none, some, List, [], ◌∷◌, map, if◌then◌else◌, ℤ, pos,
  Result, Method, ◌>>=◌, ◌>>◌, return, lift, modify, get,
}
use mohican.Text.{Text, codes, stoi}
use mohican.Config.Server as ServerSettings
use mohican.Config.Server.{ServerSettings, new_server, trimmed, get_number, get_number_of_property}

-- log_filename and log_level keep their first values and are left out.
pub record MainServerSettings : Type 0 where
  pub count_workflows : ℤ
  pub access_log_file : Text
  pub error_log_file : Text
  pub server : ServerSettings
  pub is_access_log_file : Bool
  pub is_error_log_file : Bool
  pub is_any_server : Bool

abbrev pub new_main : MainServerSettings
new_main = record {
  count_workflows = pos 4;
  access_log_file = [];
  error_log_file = [];
  server = new_server;
  is_access_log_file = false;
  is_error_log_file = false;
  is_any_server = false;
}

abbrev pub valid_properties : List Text
valid_properties =
    map codes
      ("http" ∷ "count_workflows" ∷ "access_log" ∷ "error_log" ∷ "server" ∷ "upstreams" ∷ [])

unfoldable pub get_number_of_properties : Text → Result (Option ℕ)
get_number_of_properties = get_number valid_properties

-- A call of a member function of `server`.
unfoldable pub in_server : {A : Type 0} → Method ServerSettings A → Method MainServerSettings A
in_server m main = ((m main.server).0, record main { server = (m main.server).1 })

-- set_property(get_number_of_property(name), file); the number -1 is no property.
abbrev set_numbered : Option ℕ → Text → Method ServerSettings (Unit {0})
set_numbered none value = return tt
set_numbered (some number) value = ServerSettings.set_property number value

unfoldable pub set_log : Text → Text → Method MainServerSettings (Unit {0})
set_log name file = do
  number ← lift (get_number_of_property name)
  in_server (set_numbered number file)

-- The cases of the switch in set_property, on the trimmed value.
unfoldable pub store_property : ℕ → Text → Method MainServerSettings (Unit {0})
store_property zero value = return tt
store_property (suc zero) value = do
  count ← lift (stoi value)
  modify (λ m. record m { count_workflows = count })
store_property (suc (suc zero)) value = do
  modify (λ m. record m { access_log_file = value })
  set_log (codes "access_log") value
  modify (λ m. record m { is_access_log_file = true })
store_property (suc (suc (suc zero))) value = do
  modify (λ m. record m { error_log_file = value })
  set_log (codes "error_log") value
  modify (λ m. record m { is_error_log_file = true })
store_property (suc (suc (suc (suc n)))) value = return tt

unfoldable pub set_property : ℕ → Text → Method MainServerSettings (Unit {0})
set_property number value = do trim ← lift (trimmed b';' value); store_property number trim

unfoldable pub add_server : Method MainServerSettings (Unit {0})
add_server = do
  modify (λ m. record m { is_any_server = true })
  m ← get
  if m.is_access_log_file then set_log (codes "access_log") m.access_log_file else return tt
  m' ← get
  if m'.is_error_log_file then set_log (codes "error_log") m'.error_log_file else return tt
