-- ===== src/Mav/Upkeep.antt =====
-- The upkeep of the autopilot's link in src/mav/mavlink.cpp: a pass of heartbeat_loop, a received
-- heartbeat, a failed send, and attemptReconnect with the dial and the teardown. Times are uint64_t
-- milliseconds; what a dial comes to is a parameter.
pub mod Reports
mod Tests
use fss_smm_mav.Mav.Link.{mav_comms_is_up, mav_link_should_retire}
use fss_smm_mav.Prelude.{
  ℕ, ◌+◌, ◌-◌, ◌%◌, ◌^◌, Bool, true, false, not, ◌&&◌, ◌||◌, Option, none, some, List, [], ◌∷◌, ltb,
  ◌==◌, if◌then◌else◌,
}
use fss_smm_mav.Types.{MavCommsStatus, ok, failure}

pub record Upkeep : Type 0 where
  pub fd_open : Bool
  pub broken : Bool
  pub last_heartbeat_ts : ℕ
  pub connected_since_ts : ℕ
  pub mav_comms_ok : Bool
  pub last_tried : ℕ
  pub retry_count : ℕ

-- `mav_connection` before its first dial.
abbrev pub new_upkeep : Upkeep
new_upkeep = record {
  fd_open = false;
  broken = false;
  last_heartbeat_ts = 0;
  connected_since_ts = 0;
  mav_comms_ok = true;
  last_tried = 0;
  retry_count = 0;
}

abbrev pub heartbeat_timeout_ms : ℕ
heartbeat_timeout_ms = 5000

abbrev pub status_of : Bool → MavCommsStatus
status_of true = ok
status_of false = failure

-- The link is reported when it changes; the last component says that it went down, upon which a goto
-- upload that waits for its acknowledgement is given up (Upload.forget_goto).
abbrev pub edge : Bool → Bool → Upkeep → Upkeep × List MavCommsStatus × Bool
edge true true u = (u, [], false)
edge false false u = (u, [], false)
edge false true u = (record u { mav_comms_ok = true }, status_of true ∷ [], false)
edge true false u = (record u { mav_comms_ok = false }, status_of false ∷ [], true)

abbrev pub report_change : Bool → Upkeep → Upkeep × List MavCommsStatus × Bool
report_change up u = edge u.mav_comms_ok up u

abbrev pub retire : Bool → Upkeep → Upkeep
retire silent_for_long u = record u { broken = u.broken || silent_for_long }

unfoldable pub heartbeat_pass : ℕ → Upkeep → Upkeep × List MavCommsStatus × Bool
unfolding mav_comms_is_up mav_link_should_retire
heartbeat_pass now u =
    let up = mav_comms_is_up u.fd_open now u.last_heartbeat_ts heartbeat_timeout_ms in
    let silent_for_long =
      mav_link_should_retire u.fd_open now u.last_heartbeat_ts u.connected_since_ts
        heartbeat_timeout_ms in
    let (v, reports, went_down) = report_change up u in
    (retire silent_for_long v, reports, went_down)

-- A heartbeat of the autopilot in processMavLinkMsg.
abbrev pub heartbeat_received : ℕ → Upkeep → Upkeep
heartbeat_received now u = record u { last_heartbeat_ts = now }

-- sendMavLinkMsgLocked: `taken_by_socket` says whether the socket takes the bytes.
unfoldable pub send_message : Bool → Upkeep → Upkeep × Bool
send_message taken_by_socket u =
    if not u.fd_open
    then (u, false)
    else if taken_by_socket
    then (u, true)
    else (record u { broken = true }, false)

-- connect_to_mav at `now`: the time at which the socket is connected, if it is.
abbrev pub connected : Option ℕ → Upkeep → Upkeep
connected none u = u
connected (some since) u = record u {
  retry_count = 0;
  broken = false;
  connected_since_ts = since;
  fd_open = true;
}

unfoldable pub connect_to_mav : ℕ → Option ℕ → Upkeep → Upkeep
connect_to_mav now dialled u = connected dialled (record u { last_tried = now })

-- The teardown's effect on the link; Receive.reconnect has that on the systems.
abbrev pub disconnect_from_mav : Upkeep → Upkeep
disconnect_from_mav u = record u { fd_open = false }

-- The steps of the backoff, in milliseconds.
abbrev pub backoff_ms : ℕ → ℕ
backoff_ms retry_count =
    if retry_count == 0
    then 1000
    else if retry_count == 1
    then 2000
    else if retry_count == 2
    then 4000
    else if retry_count == 3
    then 8000
    else if retry_count == 4
    then 15000
    else 30000

abbrev pub tear_down : Upkeep → Upkeep
tear_down u = if u.broken then record (disconnect_from_mav u) { broken = false } else u

-- `ts - last_tried` in uint64_t.
abbrev pub elapsed_time : ℕ → Upkeep → ℕ
elapsed_time ts u = (ts + 2 ^ 64 - u.last_tried) % 2 ^ 64

abbrev pub try_now : ℕ → Upkeep → Bool
try_now ts u = not u.fd_open && ltb (backoff_ms u.retry_count) (elapsed_time ts u)

-- retry_count is a uint16_t.
unfoldable pub attempt_reconnect : ℕ → Option ℕ → Upkeep → Upkeep
unfolding connect_to_mav
attempt_reconnect ts dialled u =
    let v = tear_down u in
    if try_now ts v
    then connect_to_mav ts dialled (record v { retry_count = (v.retry_count + 1) % 2 ^ 16 })
    else v
