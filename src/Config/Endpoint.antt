-- ===== src/Config/Endpoint.antt =====
-- The autopilot's endpoint that loadFmuConfig of src/fmu-config.cpp returns, and when it returns.
use Prim.Native.String.{String}
use fss_smm_mav.Config.{
  default_config, ◌>>=◌, or_throw, is_blank, out_of_range, set_ranged_int, FmuConfig, Json, Failure,
  json_logic_error, Result, loaded,
}
use fss_smm_mav.Config.Holds.{
  of_Holds, bind-Holds, if-Holds, or_throw-Holds, any-Holds, Holds, holds, fails,
}
use fss_smm_mav.Config.Load.{
  member_int, check_address, load_address, check_port, load_port, load_settings, load_root,
  load_fmu_config, parsed,
}
use fss_smm_mav.Dispatch.{ℤ, pos}
use fss_smm_mav.Prelude.{
  ◌≡◌, refl, sym, subst, ◌≢◌, inl, inr, Bool, true, false, not, Option, none, some, if◌then◌else◌,
  Bool-cases,
}

-- Every integer among the settings is one that an int holds.
pub record FitsInt {Value : Type 0} (json : Json Value) (fmu : Value) : Type 0 where
  pub fits :
      (key : String)
      → json.is_integral (json.get fmu key) ≡ true
      → json.as_int (json.get fmu key) ≢ none

-- The result is a value, of which P holds.
pub data Gives {A : Type 0} (P : A → Type 0) : Result A → Type 0 where
  gives : (a : A) → P a → Gives P (loaded a)

bind-Gives :
    {A B : Type 0} {P : A → Type 0} {Q : B → Type 0} {m : Result A} {f : A → Result B}
    → Gives P m
    → ((a : A) → P a → Gives Q (f a))
    → Gives Q (m >>= f)
bind-Gives (gives a p) k = k a p

if-Gives :
    {A : Type 0} {P : A → Type 0} (b : Bool) (x y : Result A)
    → (b ≡ true → Gives P x)
    → (b ≡ false → Gives P y)
    → Gives P (if b then x else y)
if-Gives true x y h k = h refl
if-Gives false x y h k = k refl

or_throw-Gives :
    {A : Type 0} (e : Failure) (o : Option A) → o ≢ none → Gives (λ (_ : A). Unit) (or_throw e o)
or_throw-Gives e none h = absurd (h refl)
or_throw-Gives e (some a) h = gives a tt

default_address : is_blank default_config.mav_address ≡ false
unfolding is_blank
default_address = refl

module _ {Value : Type 0} (json : Json Value) where
  -- The address and the port that the settings ask for.
  abbrev pub configured_address : Value → String → String
  configured_address fmu target =
      if json.is_member fmu "mav_address"
      then json.as_string (json.get fmu "mav_address")
      else target

  abbrev pub configured_port : Value → ℤ → Option ℤ
  configured_port fmu target =
      if json.is_member fmu "mav_port" then json.as_int (json.get fmu "mav_port") else some target

  abbrev pub TakenFrom : Value → FmuConfig → FmuConfig → Type 0
  TakenFrom fmu d c =
      (c.mav_address ≡ configured_address fmu d.mav_address)
      × (is_blank c.mav_address ≡ false)
      × (some c.mav_port ≡ configured_port fmu d.mav_port)

  check_address-Holds :
      (addr : Value)
      → Holds
          (λ (a : String). (a ≡ json.as_string addr) × (is_blank a ≡ false))
          (check_address json addr)
  unfolding check_address
  check_address-Holds addr =
      if-Holds (not (json.is_string addr)) _ _ (λ _. fails)
        λ _. if-Holds (is_blank (json.as_string addr)) _ _ (λ _. fails) (λ e. holds (refl, e))

  load_address-Holds :
      (fmu : Value) (target : String)
      → is_blank target ≡ false
      → Holds
          (λ (a : String). (a ≡ configured_address fmu target) × (is_blank a ≡ false))
          (load_address json fmu target)
  unfolding load_address
  load_address-Holds fmu target h = elim (Bool-cases (json.is_member fmu "mav_address")) [
    | inl e ↦ rw e (check_address-Holds (json.get fmu "mav_address"))
    | inr e ↦ rw e (holds (refl, h))
  ]

  check_port-Holds : (v : Value) → Holds (λ (p : ℤ). some p ≡ json.as_int v) (check_port json v)
  unfolding check_port
  check_port-Holds v =
      if-Holds (not (json.is_integral v)) _ _ (λ _. fails)
        λ _.
          bind-Holds (or_throw-Holds json_logic_error (json.as_int v)) λ p e.
            if-Holds (out_of_range p (pos 1) (pos 65535)) _ _ (λ _. fails) (λ _. holds (sym e))

  load_port-Holds :
      (fmu : Value) (target : ℤ)
      → Holds (λ (p : ℤ). some p ≡ configured_port fmu target) (load_port json fmu target)
  unfolding load_port
  load_port-Holds fmu target = elim (Bool-cases (json.is_member fmu "mav_port")) [
    | inl e ↦ rw e (check_port-Holds (json.get fmu "mav_port"))
    | inr e ↦ rw e (holds refl)
  ]

  load_settings-TakenFrom :
      (fmu : Value) (c : FmuConfig)
      → is_blank c.mav_address ≡ false
      → Holds (TakenFrom fmu c) (load_settings json fmu c)
  unfolding load_settings
  load_settings-TakenFrom fmu c h =
      bind-Holds
        (any-Holds (member_int json fmu "lowbat_threshold" c.lowbat_threshold (pos 0) (pos 100)))
        λ _ _.
          bind-Holds
            (any-Holds (
              member_int json fmu "low_battery_latch_count" c.low_battery_latch_count (pos 1)
                (pos 100)))
            λ _ _.
              bind-Holds
                (any-Holds (
                  member_int json fmu "altitude_breach_latch_count" c.altitude_breach_latch_count
                    (pos 1) (pos 100)))
                λ _ _.
                  bind-Holds
                    (any-Holds (
                      member_int json fmu "reconnect_interval_s" c.reconnect_interval_s (pos 1)
                        (pos 3600)))
                    λ _ _.
                      bind-Holds
                        (any-Holds (
                          member_int json fmu "position_stream_interval_ms"
                            c.position_stream_interval_ms (pos 50) (pos 60000)))
                        λ _ _.
                          bind-Holds
                            (any-Holds (
                              member_int json fmu "battery_stream_interval_ms"
                                c.battery_stream_interval_ms (pos 50) (pos 60000)))
                            λ _ _.
                              bind-Holds
                                (any-Holds (
                                  member_int json fmu "smm_position_report_interval_ms"
                                    c.smm_position_report_interval_ms (pos 100) (pos 60000)))
                                λ _ _.
                                  bind-Holds
                                    (any-Holds (
                                      member_int json fmu "smm_connect_timeout_s"
                                        c.smm_connect_timeout_s (pos 1) (pos 30)))
                                    λ _ _.
                                      bind-Holds
                                        (any-Holds (
                                          member_int json fmu "smm_transfer_timeout_s"
                                            c.smm_transfer_timeout_s (pos 1) (pos 60)))
                                        λ _ _.
                                          bind-Holds (load_address-Holds fmu c.mav_address h) λ _ a.
                                            bind-Holds (load_port-Holds fmu c.mav_port) λ _ p.
                                              bind-Holds
                                                (any-Holds (
                                                  member_int json fmu "mav_connect_timeout_s"
                                                    c.mav_connect_timeout_s (pos 1) (pos 30)))
                                                λ _ _.
                                                  bind-Holds
                                                    (any-Holds (
                                                      member_int json fmu "mav_send_timeout_s"
                                                        c.mav_send_timeout_s (pos 1) (pos 10)))
                                                    λ _ _. holds (a.0, a.1, p)

  -- A configuration that loadFmuConfig returns for a file with an "fmu" object has the address and the
  -- port given there, or the default of one that is not given; the address is not blank.
  pub endpoint_is_configured :
      (root fmu : Value) (c : FmuConfig)
      → json.index root "fmu" ≡ some fmu
      → json.is_object fmu ≡ true
      → load_fmu_config json (parsed root) ≡ loaded c
      → TakenFrom fmu default_config c
  unfolding load_fmu_config load_root
  endpoint_is_configured root fmu c i o h =
      let below : Holds (TakenFrom fmu default_config) (load_fmu_config json (parsed root)) =
        simp (i, o) (load_settings-TakenFrom fmu default_config default_address) in
      of_Holds c (subst (Holds (TakenFrom fmu default_config)) h below)

  member_int-Gives :
      (fmu : Value) (key : String) (target lo hi : ℤ)
      → FitsInt json fmu
      → Gives (λ (_ : ℤ). Unit) (member_int json fmu key target lo hi)
  unfolding member_int set_ranged_int
  member_int-Gives fmu key target lo hi f =
      let v = json.get fmu key in
      if-Gives (json.is_member fmu key) _ _
        (λ _. elim (Bool-cases (json.is_integral v)) [
          | inl e ↦ rw e (
              bind-Gives (or_throw-Gives json_logic_error (json.as_int v) (f.fits key e))
                λ n _. gives (if out_of_range n lo hi then target else n) tt)
          | inr e ↦ rw e (gives target tt)
        ])
        (λ _. gives target tt)

  load_settings-Gives :
      (fmu : Value) (c : FmuConfig)
      → FitsInt json fmu
      → Gives (λ (_ : String). Unit) (load_address json fmu c.mav_address)
      → Gives (λ (_ : ℤ). Unit) (load_port json fmu c.mav_port)
      → Gives (λ (_ : FmuConfig). Unit) (load_settings json fmu c)
  unfolding load_settings
  load_settings-Gives fmu c f a p =
      bind-Gives (member_int-Gives fmu "lowbat_threshold" c.lowbat_threshold (pos 0) (pos 100) f)
        λ _ _.
          bind-Gives
            (member_int-Gives fmu "low_battery_latch_count" c.low_battery_latch_count (pos 1)
              (pos 100) f)
            λ _ _.
              bind-Gives
                (member_int-Gives fmu "altitude_breach_latch_count" c.altitude_breach_latch_count
                  (pos 1) (pos 100) f)
                λ _ _.
                  bind-Gives
                    (member_int-Gives fmu "reconnect_interval_s" c.reconnect_interval_s (pos 1)
                      (pos 3600) f)
                    λ _ _.
                      bind-Gives
                        (member_int-Gives fmu "position_stream_interval_ms"
                          c.position_stream_interval_ms (pos 50) (pos 60000) f)
                        λ _ _.
                          bind-Gives
                            (member_int-Gives fmu "battery_stream_interval_ms"
                              c.battery_stream_interval_ms (pos 50) (pos 60000) f)
                            λ _ _.
                              bind-Gives
                                (member_int-Gives fmu "smm_position_report_interval_ms"
                                  c.smm_position_report_interval_ms (pos 100) (pos 60000) f)
                                λ _ _.
                                  bind-Gives
                                    (member_int-Gives fmu "smm_connect_timeout_s"
                                      c.smm_connect_timeout_s (pos 1) (pos 30) f)
                                    λ _ _.
                                      bind-Gives
                                        (member_int-Gives fmu "smm_transfer_timeout_s"
                                          c.smm_transfer_timeout_s (pos 1) (pos 60) f)
                                        λ _ _. bind-Gives a λ _ _. bind-Gives p λ _ _.
                                          bind-Gives
                                            (member_int-Gives fmu "mav_connect_timeout_s"
                                              c.mav_connect_timeout_s (pos 1) (pos 30) f)
                                            λ _ _.
                                              bind-Gives
                                                (member_int-Gives fmu "mav_send_timeout_s"
                                                  c.mav_send_timeout_s (pos 1) (pos 10) f)
                                                λ _ _. gives _ tt

  -- If every integer among the settings fits an int and the address and the port are accepted, then
  -- loadFmuConfig returns a configuration, whatever the other settings are.
  pub only_endpoint_fails :
      (root fmu : Value)
      → FitsInt json fmu
      → json.index root "fmu" ≡ some fmu
      → Gives (λ (_ : String). Unit) (load_address json fmu default_config.mav_address)
      → Gives (λ (_ : ℤ). Unit) (load_port json fmu default_config.mav_port)
      → Gives (λ (_ : FmuConfig). Unit) (load_fmu_config json (parsed root))
  unfolding load_fmu_config load_root
  only_endpoint_fails root fmu f i a p =
      let below : Gives (λ (_ : FmuConfig). Unit) (load_root json fmu) =
        if-Gives (not (json.is_object fmu)) _ _ (λ _. gives default_config tt)
          (λ _. load_settings-Gives fmu default_config f a p) in
      simp i below
