-- ===== src/Config/Tests.antt =====
-- The theorems on the configuration at a concrete file.
use Prim.Native.String.{String}
use text.Mathlib.Text.{◌==◌ as same_text}
use fss_smm_mav.Config.{
  default_config, is_blank, foot_m, set_altitude_metres, load_altitude, set_ranged_int, FmuConfig,
  Json, loaded,
}
use fss_smm_mav.Config.Endpoint.{
  TakenFrom, endpoint_is_configured, only_endpoint_fails, Gives, gives,
}
use fss_smm_mav.Config.Load.{
  member_int, load_fov, check_address, load_address, check_port, load_port, load_level,
  load_log_dir, load_settings, load_root, load_fmu_config, parsed,
}
use fss_smm_mav.Config.Ranges.{loads_only_in_range, WithinRanges}
use fss_smm_mav.Dispatch.{ℤ, pos}
use fss_smm_mav.Prelude.{ℕ, ◌≡◌, refl, Bool, true, false, some, arith, if◌then◌else◌}
use fss_smm_mav.Prelude.Double.{one, of_ℕ, lt, magnitude, pack, round, mul, div}

-- The values of a small file.
data Value : Type 0 where
  absent : Value
  number : ℕ → Value
  word : String → Value
  settings : Value

-- A cap of 400 feet, a floor above it, and a threshold and a level that are refused.
abbrev setting : String → Value
setting key =
    if same_text key "altitude_cap_ft"
    then number 400
    else if same_text key "altitude_floor_m"
    then number 500
    else if same_text key "lowbat_threshold"
    then number 101
    else if same_text key "reconnect_interval_s"
    then number 30
    else if same_text key "mav_address"
    then word "10.0.0.2"
    else if same_text key "mav_port"
    then number 5762
    else if same_text key "log_level"
    then word "loud"
    else absent

abbrev is_number : Value → Bool
is_number (number n) = true
is_number _ = false

abbrev number_of : Value → ℕ
number_of (number n) = n
number_of _ = 0

abbrev is_text : Value → Bool
is_text (word s) = true
is_text _ = false

abbrev text_of : Value → String
text_of (word s) = s
text_of _ = ""

abbrev is_settings : Value → Bool
is_settings settings = true
is_settings _ = false

abbrev is_there : Value → Bool
is_there absent = false
is_there _ = true

abbrev json : Json Value
json = record {
  is_numeric = is_number;
  is_integral = is_number;
  is_string = is_text;
  is_object = is_settings;
  as_double = λ v. of_ℕ (number_of v);
  as_int = λ v. some (pos (number_of v));
  as_string = text_of;
  is_member = λ v key. is_there (setting key);
  get = λ v key. setting key;
  index = λ v key. some settings;
  lround_nan = 0;
}

abbrev config : FmuConfig
config = record default_config {
  altitude_floor_m = 122;
  goto_altitude_m = 122;
  reconnect_interval_s = pos 30;
  mav_address = "10.0.0.2";
  mav_port = pos 5762;
}

config_loads : load_fmu_config json (parsed settings) ≡ loaded config
unfolding load_fmu_config load_root load_settings load_altitude load_fov member_int load_address
    load_port load_level load_log_dir set_altitude_metres set_ranged_int check_address check_port
    is_blank foot_m lt mul div round magnitude pack one
config_loads = refl

loads_only_in_range_example : WithinRanges config
loads_only_in_range_example = loads_only_in_range json (parsed settings) config config_loads

endpoint_is_configured_example : TakenFrom json settings default_config config
endpoint_is_configured_example =
    endpoint_is_configured json settings settings config refl refl config_loads

address_accepted :
    Gives (λ (_ : String). Unit) (load_address json settings default_config.mav_address)
unfolding load_address check_address is_blank
address_accepted = gives "10.0.0.2" tt

port_accepted : Gives (λ (_ : ℤ). Unit) (load_port json settings default_config.mav_port)
unfolding load_port check_port
port_accepted = gives (pos 5762) tt

only_endpoint_fails_example :
    Gives (λ (_ : FmuConfig). Unit) (load_fmu_config json (parsed settings))
only_endpoint_fails_example =
    only_endpoint_fails json settings settings (record { fits = λ v h e. ground (arith, e) }) refl
      address_accepted port_accepted
