-- ===== src/Mav/Receive/Foreign.antt =====
-- Other systems on the link cannot influence the unit: src/mav/mavlink.cpp and src/mav/mav-sys.cpp.
use fss_smm_mav.Dispatch.Remembered.{later}
use fss_smm_mav.Mav.Receive.{
  find_component, Systems, target_sys_id, sys_of, with_sys, register, handle_payload,
  process_mav_link_msg, MavSys, Receiver, Mavlink, Payload, heartbeat, global_position_int,
  battery_status, mission_item_reached, mission_request, mission_request_int, mission_ack_received,
  gps_raw_int, system_time, param_value, other_message, Output, requests_streams,
}
use fss_smm_mav.Prelude.{
  ℕ, ◌≡◌, refl, sym, ap, ap₂, subst, ◌∙◌, Bool, true, false, not, ◌&&◌, some, List, [], ◌∷◌, ◌++◌,
  arith, ◌==◌, if◌then◌else◌,
}
use fss_smm_mav.Prelude.Assoc.{find, assign, find-assign, string_eq, nat_eq}

-- All that the unit knows of the autopilot and the link; only other systems' entries may differ.
pub record Unchanged (r s : Receiver) : Type 0 where
  pub same_link : s.link ≡ r.link
  pub same_connection : s.connection ≡ r.connection
  pub same_position : s.last_position ≡ r.last_position
  pub same_fix : s.gps_fix_type ≡ r.gps_fix_type
  pub same_uptime : s.last_time_boot_ms ≡ r.last_time_boot_ms
  pub same_autopilot : find target_sys_id s.systems ≡ find target_sys_id r.systems

pub Unchanged-refl : (r : Receiver) → Unchanged r r
Unchanged-refl r = record {
  same_link = refl;
  same_connection = refl;
  same_position = refl;
  same_fix = refl;
  same_uptime = refl;
  same_autopilot = refl;
}

Unchanged-trans : (r s t : Receiver) → Unchanged r s → Unchanged s t → Unchanged r t
Unchanged-trans r s t h k = record {
  same_link = k.same_link ∙ h.same_link;
  same_connection = k.same_connection ∙ h.same_connection;
  same_position = k.same_position ∙ h.same_position;
  same_fix = k.same_fix ∙ h.same_fix;
  same_uptime = k.same_uptime ∙ h.same_uptime;
  same_autopilot = k.same_autopilot ∙ h.same_autopilot;
}

pub record Received : Type 0 where
  pub sysid : ℕ
  pub compid : ℕ
  pub payload : Payload
  pub now : ℕ

unfoldable pub all_foreign : List Received → Bool
all_foreign [] = true
all_foreign (x ∷ xs) = not (x.sysid == target_sys_id) && all_foreign xs

head_foreign : (b c : Bool) → (not b && c) ≡ true → b ≡ false
head_foreign b c h = ground arith

tail_foreign : (b c : Bool) → (not b && c) ≡ true → c ≡ true
tail_foreign b c h = ground arith

else_taken : {A : Type 0} (b : Bool) (x y : A) → b ≡ false → (if b then x else y) ≡ y
else_taken true x y h = absurd (ground (arith, h))
else_taken false x y h = refl

entry_kept :
    (sysid : ℕ) (sys : MavSys) (systems : Systems)
    → (sysid == target_sys_id) ≡ false
    → find target_sys_id (assign sysid sys systems) ≡ find target_sys_id systems
entry_kept sysid sys systems h =
    find-assign sysid target_sys_id sys systems
    ∙ else_taken (sysid == target_sys_id) (some sys) (find target_sys_id systems) h

registered :
    (sysid : ℕ) (sys : MavSys) (r : Receiver)
    → (sysid == target_sys_id) ≡ false
    → Unchanged r (with_sys sysid sys r)
registered sysid sys r h = record {
  same_link = refl;
  same_connection = refl;
  same_position = refl;
  same_fix = refl;
  same_uptime = refl;
  same_autopilot = entry_kept sysid sys r.systems h;
}

no_streams :
    (fresh b : Bool) (requests : List Output)
    → b ≡ false
    → (if fresh && b then requests else []) ≡ []
no_streams fresh true requests h = absurd (ground (arith, h))
no_streams true false requests h = refl
no_streams false false requests h = refl

module _ (m : Mavlink) where
  unfoldable pub receive_all : List Received → Receiver → Receiver × List Output
  unfolding process_mav_link_msg
  receive_all [] r = (r, [])
  receive_all (x ∷ xs) r =
      let (s, outputs) = process_mav_link_msg m x.sysid x.compid x.payload x.now r in
      let (t, later) = receive_all xs s in (t, outputs ++ later)

  -- Each case of the switch has a guard that another system's message does not pass.
  unheard :
      (sysid : ℕ) (payload : Payload) (now : ℕ) (r : Receiver)
      → (sysid == target_sys_id) ≡ false
      → handle_payload m sysid payload now r ≡ (r, [])
  unfolding handle_payload
  unheard sysid (heartbeat type custom_mode) now r h = rw h refl
  unheard sysid (global_position_int g) now r h = rw h refl
  unheard sysid (battery_status consumed remaining cell0_mv) now r h = rw h refl
  unheard sysid (mission_item_reached seq) now r h = rw h refl
  unheard sysid (mission_request system component seq mission_type) now r h = rw h refl
  unheard sysid (mission_request_int system component seq mission_type) now r h = rw h refl
  unheard sysid (mission_ack_received system component accepted) now r h = rw h refl
  unheard sysid (gps_raw_int fix_type) now r h = rw h refl
  unheard sysid (system_time time_boot_ms) now r h = rw h refl
  unheard sysid (param_value param_id value) now r h = rw h refl
  unheard sysid other_message now r h = refl

  foreign_message :
      (sysid compid : ℕ) (payload : Payload) (now : ℕ) (r : Receiver)
      → (sysid == target_sys_id) ≡ false
      → Unchanged r (process_mav_link_msg m sysid compid payload now r).0
        × ((process_mav_link_msg m sysid compid payload now r).1 ≡ [])
  unfolding process_mav_link_msg register
  foreign_message sysid compid payload now r h =
      let sys = find_component compid (sys_of sysid r.systems) in
      let s = with_sys sysid (record sys { setup = true }) r in
      let same = unheard sysid payload now s h in
      (
        subst (λ (x : Receiver × List Output). Unchanged r x.0) (sym same)
            (registered sysid (record sys { setup = true }) r h),
        ap₂ (λ (a b : List Output). a ++ b)
            (no_streams (not sys.setup) (sysid == target_sys_id)
              (requests_streams sysid compid ∷ []) h)
            (ap (λ (x : Receiver × List Output). x.1) same),
      )

  -- Messages of other systems, however many and whatever they say, have the unit send and report
  -- nothing, and leave all that it knows of the autopilot and of its own missions as it was.
  pub foreign_messages_change_nothing :
      (xs : List Received) (r : Receiver)
      → all_foreign xs ≡ true
      → Unchanged r (receive_all xs r).0 × ((receive_all xs r).1 ≡ [])
  unfolding receive_all all_foreign
  foreign_messages_change_nothing [] r h = (Unchanged-refl r, refl)
  foreign_messages_change_nothing (x ∷ xs) r h =
      let first = foreign_message x.sysid x.compid x.payload x.now r (head_foreign _ _ h) in
      let s = (process_mav_link_msg m x.sysid x.compid x.payload x.now r).0 in
      let others = foreign_messages_change_nothing xs s (tail_foreign _ _ h) in
      (
        Unchanged-trans r s (receive_all xs s).0 first.0 others.0,
        ap₂ (λ (a b : List Output). a ++ b) first.1 others.1,
      )
