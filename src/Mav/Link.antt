-- ===== src/Mav/Link.antt =====
-- Whether the autopilot's link is up, is to be redialled, or the autopilot has restarted:
-- src/mav/mav-comms.hpp. The times are uint64_t and uint32_t milliseconds.
use fss_smm_mav.Prelude.{
  ℕ, ◌+◌, ◌-◌, ◌<◌, ◌≡◌, ◌↔◌, Bool, true, false, not, ◌||◌, arith, ltb, leb, ◌==◌, if◌then◌else◌,
}

unfoldable pub mav_comms_is_up : Bool → ℕ → ℕ → ℕ → Bool
mav_comms_is_up fd_open now last_heartbeat_ts timeout_ms =
    if not fd_open
    then false
    else if ltb now last_heartbeat_ts
    then true
    else leb (now - last_heartbeat_ts) timeout_ms

unfoldable pub mav_link_should_retire : Bool → ℕ → ℕ → ℕ → ℕ → Bool
mav_link_should_retire fd_open now last_heartbeat_ts connected_since_ts timeout_ms =
    let last_contact =
      if ltb last_heartbeat_ts connected_since_ts then connected_since_ts else last_heartbeat_ts in
    if not fd_open
    then false
    else if ltb now last_contact
    then false
    else ltb timeout_ms (now - last_contact)

abbrev pub autopilot_restart_margin_ms : ℕ
autopilot_restart_margin_ms = 3000

unfoldable pub autopilot_restarted : ℕ → ℕ → ℕ → Bool
autopilot_restarted last_time_boot_ms now_time_boot_ms margin_ms =
    if last_time_boot_ms == 0 || now_time_boot_ms == 0 || leb last_time_boot_ms now_time_boot_ms
    then false
    else ltb margin_ms (last_time_boot_ms - now_time_boot_ms)

-- A socket is retired exactly if it is open and both its connection and the last heartbeat are more
-- than a timeout ago.
pub retire_iff :
    (fd_open : Bool) (now heartbeat connected timeout : ℕ)
    → (mav_link_should_retire fd_open now heartbeat connected timeout ≡ true)
      ↔ ((fd_open ≡ true) × (heartbeat + timeout < now) × (connected + timeout < now))
unfolding mav_link_should_retire
retire_iff fd_open now heartbeat connected timeout = ground arith

-- An open socket that was connected more than a timeout ago is retired exactly if the link is not
-- up.
pub retire_against_up :
    (fd_open : Bool) (now heartbeat connected timeout : ℕ)
    → fd_open ≡ true
    → connected + timeout < now
    → mav_link_should_retire fd_open now heartbeat connected timeout
      ≡ not (mav_comms_is_up fd_open now heartbeat timeout)
unfolding mav_link_should_retire mav_comms_is_up
retire_against_up fd_open now heartbeat connected timeout h c = ground arith

-- Two uptime readings, neither of which is missing, mean a restart exactly if the later is more
-- than the margin below the earlier.
pub restarted_iff :
    (last now margin : ℕ)
    → (autopilot_restarted last now margin ≡ true) ↔ ((0 < now) × (now + margin < last))
unfolding autopilot_restarted
restarted_iff last now margin = ground arith
