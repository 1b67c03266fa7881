-- ===== src/Config/Load.antt =====
-- loadFmuConfig of src/fmu-config.cpp.
use Prim.Native.String.{String}
use text.Mathlib.Text.{◌==◌ as same_text}
use fss_smm_mav.Config.{
  default_config, ◌>>=◌, or_throw, is_blank, out_of_range, load_altitude, set_ranged_int, FmuConfig,
  Json, LogLevel, error, warning, info, debug, unable_to_open, failed_to_parse,
  address_not_a_string, address_is_blank, port_not_an_integer, port_out_of_range, json_logic_error,
  Result, loaded, thrown,
}
use fss_smm_mav.Dispatch.{ℤ, pos}
use fss_smm_mav.Prelude.{ℕ, not, ◌&&◌, ltb, if◌then◌else◌}
use fss_smm_mav.Prelude.Double.{of_ℕ, lt, Double}

-- What std::ifstream and the JSON parser make of the file.
pub data Opened (Value : Type 0) : Type 0 where
  unopened unparsable : Opened Value
  parsed : Value → Opened Value

abbrev pub clamp_floor : ℕ → ℕ → ℕ
clamp_floor cap floor = if ltb cap floor then cap else floor

abbrev pub clamp_goto : ℕ → ℕ → ℕ → ℕ
clamp_goto cap floor asked = if ltb cap asked then cap else if ltb asked floor then floor else asked

module _ {Value : Type 0} (json : Json Value) where
  -- One optional integer setting.
  unfoldable pub member_int : Value → String → ℤ → ℤ → ℤ → Result ℤ
  unfolding set_ranged_int
  member_int fmu key target lo hi =
      if json.is_member fmu key
      then set_ranged_int json target (json.get fmu key) lo hi
      else loaded target

  abbrev pub checked_fov : Double → Value → Double
  checked_fov target fov_value =
      if not (json.is_numeric fov_value)
      then target
      else let fov = json.as_double fov_value in
        if lt (of_ℕ 0) fov && lt fov (of_ℕ 180) then fov else target

  unfoldable pub load_fov : Value → Double → Double
  unfolding lt
  load_fov fmu target =
      if json.is_member fmu "camera_fov_deg"
      then checked_fov target (json.get fmu "camera_fov_deg")
      else target

  unfoldable pub check_address : Value → Result String
  unfolding is_blank
  check_address addr =
      if not (json.is_string addr)
      then thrown address_not_a_string
      else if is_blank (json.as_string addr)
      then thrown address_is_blank
      else loaded (json.as_string addr)

  unfoldable pub load_address : Value → String → Result String
  unfolding check_address
  load_address fmu target =
      if json.is_member fmu "mav_address"
      then check_address (json.get fmu "mav_address")
      else loaded target

  unfoldable pub check_port : Value → Result ℤ
  check_port port = if not (json.is_integral port) then thrown port_not_an_integer else (do
    v ← or_throw json_logic_error (json.as_int port)
    if out_of_range v (pos 1) (pos 65535) then thrown (port_out_of_range v) else loaded v)

  unfoldable pub load_port : Value → ℤ → Result ℤ
  unfolding check_port
  load_port fmu target =
      if json.is_member fmu "mav_port" then check_port (json.get fmu "mav_port") else loaded target

  abbrev pub level_named : String → LogLevel → LogLevel
  level_named s target =
      if same_text s "error"
      then error
      else if same_text s "warning"
      then warning
      else if same_text s "info"
      then info
      else if same_text s "debug"
      then debug
      else target

  abbrev pub level_of : LogLevel → Value → LogLevel
  level_of target lvl =
      if not (json.is_string lvl) then target else level_named (json.as_string lvl) target

  unfoldable pub load_level : Value → LogLevel → LogLevel
  load_level fmu target =
      if json.is_member fmu "log_level" then level_of target (json.get fmu "log_level") else target

  abbrev pub dir_of : String → Value → String
  dir_of target dir =
      if not (json.is_string dir)
      then target
      else if same_text (json.as_string dir) ""
      then target
      else json.as_string dir

  unfoldable pub load_log_dir : Value → String → String
  load_log_dir fmu target =
      if json.is_member fmu "log_dir" then dir_of target (json.get fmu "log_dir") else target

  -- The settings of an "fmu" object. What does not throw is computed where it is used.
  unfoldable pub load_settings : Value → FmuConfig → Result FmuConfig
  unfolding load_altitude load_fov member_int load_address load_port load_level load_log_dir
  load_settings fmu cfg =
      let cap = load_altitude json cfg.altitude_cap_m fmu "altitude_cap_m" "altitude_cap_ft" in
      let floor =
        clamp_floor cap
          (load_altitude json cfg.altitude_floor_m fmu "altitude_floor_m" "altitude_floor_ft") in
      let goto_altitude =
        clamp_goto cap floor
          (load_altitude json cfg.goto_altitude_m fmu "goto_altitude_m" "goto_altitude_ft") in
      do
        lowbat ← member_int fmu "lowbat_threshold" cfg.lowbat_threshold (pos 0) (pos 100)
        low_latch ←
            member_int fmu "low_battery_latch_count" cfg.low_battery_latch_count (pos 1) (pos 100)
        breach_value ←
            member_int fmu "altitude_breach_latch_count" cfg.altitude_breach_latch_count (pos 1)
              (pos 100)
        reconnect_value ←
            member_int fmu "reconnect_interval_s" cfg.reconnect_interval_s (pos 1) (pos 3600)
        position_value ←
            member_int fmu "position_stream_interval_ms" cfg.position_stream_interval_ms (pos 50)
              (pos 60000)
        battery_value ←
            member_int fmu "battery_stream_interval_ms" cfg.battery_stream_interval_ms (pos 50)
              (pos 60000)
        smm_position ←
            member_int fmu "smm_position_report_interval_ms" cfg.smm_position_report_interval_ms
              (pos 100) (pos 60000)
        smm_connect_value ←
            member_int fmu "smm_connect_timeout_s" cfg.smm_connect_timeout_s (pos 1) (pos 30)
        smm_transfer ←
            member_int fmu "smm_transfer_timeout_s" cfg.smm_transfer_timeout_s (pos 1) (pos 60)
        address ← load_address fmu cfg.mav_address
        port ← load_port fmu cfg.mav_port
        connect_timeout ←
            member_int fmu "mav_connect_timeout_s" cfg.mav_connect_timeout_s (pos 1) (pos 30)
        send_timeout ← member_int fmu "mav_send_timeout_s" cfg.mav_send_timeout_s (pos 1) (pos 10)
        loaded (record {
          altitude_cap_m = cap;
          altitude_breach_latch_count = breach_value;
          altitude_floor_m = floor;
          goto_altitude_m = goto_altitude;
          camera_fov_deg = load_fov fmu cfg.camera_fov_deg;
          lowbat_threshold = lowbat;
          low_battery_latch_count = low_latch;
          reconnect_interval_s = reconnect_value;
          position_stream_interval_ms = position_value;
          battery_stream_interval_ms = battery_value;
          smm_position_report_interval_ms = smm_position;
          smm_connect_timeout_s = smm_connect_value;
          smm_transfer_timeout_s = smm_transfer;
          mav_address = address;
          mav_port = port;
          mav_connect_timeout_s = connect_timeout;
          mav_send_timeout_s = send_timeout;
          log_level = load_level fmu cfg.log_level;
          log_dir = load_log_dir fmu cfg.log_dir;
        })

  unfoldable pub load_root : Value → Result FmuConfig
  unfolding load_settings
  load_root fmu =
      if not (json.is_object fmu) then loaded default_config else load_settings fmu default_config

  unfoldable pub load_fmu_config : Opened Value → Result FmuConfig
  unfolding load_root
  load_fmu_config unopened = thrown unable_to_open
  load_fmu_config unparsable = thrown failed_to_parse
  load_fmu_config (parsed root) =
      or_throw json_logic_error (json.index root "fmu") >>= λ fmu. load_root fmu
