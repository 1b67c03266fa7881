-- ===== src/Config.antt =====
-- The asset's configuration: FmuConfig of src/fmu-config.hpp, and in src/fmu-config.cpp the checks of
-- a single setting. Config/Load is loadFmuConfig. The JSON library is a parameter (Json).
pub mod Load
pub mod Holds
pub mod Ranges
pub mod Endpoint
mod Tests
use Prim.Native.Char.{Char, code}
use Prim.Native.String.{String}
use fss_smm_mav.Dispatch.{int_lt, ℤ, pos}
use fss_smm_mav.Prelude.{
  ℕ, ◌-◌, ◌%◌, ◌^◌, Bool, true, false, not, ◌&&◌, ◌||◌, Option, none, some, [], ◌∷◌, leb, ◌==◌,
  if◌then◌else◌,
}
use fss_smm_mav.Prelude.Double.{of_ℕ, lround, lt, mul, div, decimal, Double, fin}

-- LogLevel.
pub data LogLevel : Type 0 where
  error warning info debug : LogLevel

pub record FmuConfig : Type 0 where
  pub altitude_cap_m : ℕ
  pub altitude_breach_latch_count : ℤ
  pub altitude_floor_m : ℕ
  pub goto_altitude_m : ℕ
  pub camera_fov_deg : Double
  pub lowbat_threshold : ℤ
  pub low_battery_latch_count : ℤ
  pub reconnect_interval_s : ℤ
  pub position_stream_interval_ms : ℤ
  pub battery_stream_interval_ms : ℤ
  pub smm_position_report_interval_ms : ℤ
  pub smm_connect_timeout_s : ℤ
  pub smm_transfer_timeout_s : ℤ
  pub mav_address : String
  pub mav_port : ℤ
  pub mav_connect_timeout_s : ℤ
  pub mav_send_timeout_s : ℤ
  pub log_level : LogLevel
  pub log_dir : String

-- `FmuConfig cfg{}`.
abbrev pub default_config : FmuConfig
default_config = record {
  altitude_cap_m = 122;
  altitude_breach_latch_count = pos 5;
  altitude_floor_m = 10;
  goto_altitude_m = 50;
  camera_fov_deg = of_ℕ 90;
  lowbat_threshold = pos 20;
  low_battery_latch_count = pos 4;
  reconnect_interval_s = pos 10;
  position_stream_interval_ms = pos 200;
  battery_stream_interval_ms = pos 1000;
  smm_position_report_interval_ms = pos 1000;
  smm_connect_timeout_s = pos 5;
  smm_transfer_timeout_s = pos 10;
  mav_address = "127.0.0.1";
  mav_port = pos 5760;
  mav_connect_timeout_s = pos 5;
  mav_send_timeout_s = pos 2;
  log_level = info;
  log_dir = "/var/log/cap-fmu";
}

-- What is thrown: the five messages of loadFmuConfig, and the JSON library's own exception.
pub data Failure : Type 0 where
  unable_to_open failed_to_parse address_not_a_string address_is_blank port_not_an_integer : Failure
  port_out_of_range : ℤ → Failure
  json_logic_error : Failure

pub data Result {ℓ} (A : Type ℓ) : Type ℓ where
  loaded : A → Result A
  thrown : Failure → Result A

infixl 5 ◌>>=◌
abbrev pub ◌>>=◌ {ℓ κ} : {A : Type ℓ} {B : Type κ} → Result A → (A → Result B) → Result B
◌>>=◌ (loaded a) f = f a
◌>>=◌ (thrown e) f = thrown e

-- The calls of the JSON library that loadFmuConfig makes. `asInt` throws on a number that an int does
-- not hold, and `root[…]` on what is neither an object nor null. The others are called on values
-- that answer them. `lround_nan` is what std::lround makes of a NaN, which is unspecified.
pub record Json (Value : Type 0) : Type 0 where
  pub is_numeric : Value → Bool
  pub is_integral : Value → Bool
  pub is_string : Value → Bool
  pub is_object : Value → Bool
  pub as_double : Value → Double
  pub as_int : Value → Option ℤ
  pub as_string : Value → String
  pub is_member : Value → String → Bool
  pub get : Value → String → Value
  pub index : Value → String → Option Value
  pub lround_nan : ℕ

abbrev pub or_throw {ℓ} : {A : Type ℓ} → Failure → Option A → Result A
or_throw e none = thrown e
or_throw e (some a) = loaded a

-- std::isspace in the C locale.
abbrev is_space : ℕ → Bool
is_space c = c == 32 || leb 9 c && leb c 13

unfoldable pub is_blank : String → Bool
is_blank String.[] = true
is_blank (String.◌∷◌ c s) = is_space (code c) && is_blank s

-- The constant feet_to_metres.
unfoldable pub foot_m : Double
unfolding div
foot_m = decimal 3048 4

-- `static_cast<uint16_t> (std::lround (metres))`, which wraps; of an infinity it is never taken.
abbrev pub lround_u16 : ℕ → Double → ℕ
lround_u16 lround_nan (fin false n) = lround n % 2 ^ 16
lround_u16 lround_nan (fin true n) = (2 ^ 16 - lround n % 2 ^ 16) % 2 ^ 16
lround_u16 lround_nan _ = lround_nan % 2 ^ 16

-- `metres < 0.0 || metres > std::numeric_limits<uint16_t>::max ()`.
abbrev pub out_of_uint16 : Double → Bool
out_of_uint16 metres = lt metres (of_ℕ 0) || lt (of_ℕ 65535) metres

-- `v < lo || v > hi`.
abbrev pub out_of_range : ℤ → ℤ → ℤ → Bool
out_of_range v lo hi = int_lt v lo || int_lt hi v

module _ {Value : Type 0} (json : Json Value) where
  unfoldable pub set_altitude_metres : ℕ → Value → Double → ℕ
  unfolding mul lt
  set_altitude_metres target value to_metres =
      if not (json.is_numeric value)
      then target
      else let metres = mul (json.as_double value) to_metres in
        if out_of_uint16 metres then target else lround_u16 json.lround_nan metres

  unfoldable pub load_altitude : ℕ → Value → String → String → ℕ
  unfolding set_altitude_metres foot_m
  load_altitude target fmu key_m key_ft =
      if json.is_member fmu key_ft
      then set_altitude_metres target (json.get fmu key_ft) foot_m
      else if json.is_member fmu key_m
      then set_altitude_metres target (json.get fmu key_m) (of_ℕ 1)
      else target

  unfoldable pub set_ranged_int : ℤ → Value → ℤ → ℤ → Result ℤ
  set_ranged_int target value lo hi = if not (json.is_integral value) then loaded target else (do
    v ← or_throw json_logic_error (json.as_int value)
    loaded (if out_of_range v lo hi then target else v))
