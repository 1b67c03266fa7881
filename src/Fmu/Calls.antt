-- ===== src/Fmu/Calls.antt =====
-- The calls that a handler of FMUStateMachine makes (src/fmu.cpp).
use mathlib.Core.Bool.{false≢true}
use fss_smm_mav.Fmu.Action.{action_state, update_and_act, Env, Call}
use fss_smm_mav.Fmu.Handlers.{
  note_low, set_low_battery, over_altitude_cap, count_breach, count_clear, note_altitude,
  set_current_altitude, reassert_state, set_mav_comms_failure,
}
use fss_smm_mav.Fmu.Run.{step, Input, fss, smm, battery, altitude, fss_comms, mav_comms, reassert}
use fss_smm_mav.Fmu.State.{latch_terminate, select_state, update_state, Fmu}
use fss_smm_mav.Fmu.Update.{settled, update_state_stays, update_state_moves}
use fss_smm_mav.Prelude.{
  ◌+◌, ◌≡◌, refl, sym, subst, ◌∙◌, ◌≢◌, inl, inr, ite, if_pos, if_neg, Bool, true, false, not, ◌&&◌,
  ◌||◌, Option, none, some, List, [], arith, ltb, leb, if◌then◌else◌, Bool-cases,
}
use fss_smm_mav.Prelude.Double.{is_finite, Double}
use fss_smm_mav.Types.{FmuState-discrete, FmuState}

-- The inputs after which the state is commanded again though it did not change: the MAV link's
-- return, and a restart of the autopilot.
abbrev pub recommands : Fmu → Input → Bool
recommands s (mav_comms failed) = s.mav_comms_lost && not failed
recommands s reassert = true
recommands s _ = false

abbrev pub changed_between : Fmu → Fmu → Bool
changed_between s t = ite (FmuState-discrete t.current_state s.current_state) false true

-- What a handler has to call, by the machine before and after it.
abbrev pub due_calls : Env → Fmu → Input → Fmu → List Call
due_calls env s i t =
    if changed_between s t || recommands s i then (action_state env t t.current_state).0 else []

update_and_act-calls :
    (env : Env) (s : Fmu)
    → (update_and_act env s).1 ≡ (
        if changed_between s (update_and_act env s).0 || false
        then (action_state env (update_and_act env s).0 (update_and_act env s).0.current_state).0
        else [])
unfolding update_and_act update_state latch_terminate
update_and_act-calls env s = ground arith

pub unchanged : (s t : Fmu) → t.current_state ≡ s.current_state → changed_between s t ≡ false
unchanged s t e = if_pos (FmuState-discrete t.current_state s.current_state) e false true

-- A handler that left the state alone made no call.
abbrev AsDue : Env → Fmu → Fmu × List Call → Type 0
AsDue env s r =
    r.1
    ≡ (if changed_between s r.0 || false then (action_state env r.0 r.0.current_state).0 else [])

quiet-AsDue : (env : Env) (s t : Fmu) → t.current_state ≡ s.current_state → AsDue env s (t, [])
quiet-AsDue env s t e = rw (unchanged s t e)

note_low-AsDue : (env : Env) (t : Fmu) → AsDue env t (note_low env t)
unfolding note_low
note_low-AsDue env t =
    elim (Bool-cases (leb t.low_battery_latch_count t.low_battery_count && not t.low_battery)) [
      | inl e ↦ simp e (update_and_act-calls env (record t { low_battery = true }))
      | inr e ↦ simp e (quiet-AsDue env t t refl)
    ]

note_altitude-AsDue : (env : Env) (s : Fmu) (over : Bool) → AsDue env s (note_altitude env s over)
unfolding note_altitude
note_altitude-AsDue env s true =
    let t = count_breach s in
    elim (Bool-cases
      (leb t.altitude_breach_latch_count t.altitude_breach_count && not t.altitude_breach)) [
        | inl e ↦ simp e (update_and_act-calls env (record t { altitude_breach = true }))
        | inr e ↦ simp e (quiet-AsDue env s t refl)
      ]
note_altitude-AsDue env s false =
    let t = count_clear s in
    elim (Bool-cases
      (leb t.altitude_breach_latch_count t.altitude_clear_count && t.altitude_breach)) [
        | inl e ↦ simp e (update_and_act-calls env (record t { altitude_breach = false }))
        | inr e ↦ simp e (quiet-AsDue env s t refl)
      ]

set_low_battery-AsDue : (env : Env) (s : Fmu) (low : Bool) → AsDue env s (set_low_battery env s low)
unfolding set_low_battery
set_low_battery-AsDue env s true =
    elim (Bool-cases (ltb s.low_battery_count s.low_battery_latch_count)) [
      | inl e ↦
          simp e (note_low-AsDue env (record s { low_battery_count = s.low_battery_count + 1 }))
      | inr e ↦ simp e (note_low-AsDue env s)
    ]
set_low_battery-AsDue env s false = quiet-AsDue env s (record s { low_battery_count = 0 }) refl

set_current_altitude-AsDue :
    (env : Env) (s : Fmu) (fix_valid : Bool) (agl : Double)
    → AsDue env s (set_current_altitude env s fix_valid agl)
unfolding set_current_altitude
set_current_altitude-AsDue env s fix_valid agl = elim (Bool-cases (fix_valid && is_finite agl)) [
  | inl e ↦ simp e (note_altitude-AsDue env s (over_altitude_cap agl s.altitude_cap_m))
  | inr e ↦ simp e (quiet-AsDue env s s refl)
]

pub unchanged_iff : (s t : Fmu) → changed_between s t ≡ false → t.current_state ≡ s.current_state
unchanged_iff s t e = elim (FmuState-discrete t.current_state s.current_state) [
  | yes p ↦ p
  | no n ↦
      absurd (
        false≢true
          (sym e ∙ if_neg (FmuState-discrete t.current_state s.current_state) n false true))
]

pub changed : (s t : Fmu) → t.current_state ≢ s.current_state → changed_between s t ≡ true
changed s t n = if_neg (FmuState-discrete t.current_state s.current_state) n false true

-- The end of setMavCommsFailure, by what updateState gave.
abbrev after_update : Env → Bool → Fmu × Option FmuState → Fmu × List Call
after_update env recovered (t, some state) = (t, (action_state env t state).0)
after_update env recovered (t, none) =
    (t, if recovered then (action_state env t t.current_state).0 else [])

pub latch_terminate-state : (s : Fmu) → (latch_terminate s).current_state ≡ s.current_state
unfolding latch_terminate
latch_terminate-state s = ground arith

abbrev Due : Env → Fmu → Bool → Fmu × List Call → Type 0
Due env s again r =
    r.1
    ≡ (if changed_between s r.0 || again then (action_state env r.0 r.0.current_state).0 else [])

after_update-Due :
    (env : Env) (s : Fmu) (recovered : Bool)
    → Due env s recovered (after_update env recovered (update_state s))
after_update-Due env s recovered =
    elim (FmuState-discrete (select_state (latch_terminate s)) (latch_terminate s).current_state) [
      | yes p ↦
          subst (λ r. Due env s recovered (after_update env recovered r))
            (sym (update_state_stays s p))
            (rw (unchanged s (latch_terminate s) (latch_terminate-state s)))
      | no n ↦
          subst (λ r. Due env s recovered (after_update env recovered r))
            (sym (update_state_moves s n))
            (rw (changed s (settled s) (λ e. n (e ∙ sym (latch_terminate-state s)))))
    ]

mav_calls :
    (env : Env) (s : Fmu) (failed : Bool)
    → (set_mav_comms_failure env s failed).1
      ≡ due_calls env s (mav_comms failed) (set_mav_comms_failure env s failed).0
unfolding set_mav_comms_failure
mav_calls env s failed =
    after_update-Due env (record s { mav_comms_lost = failed }) (s.mav_comms_lost && not failed)

or_true : (b : Bool) → (b || true) ≡ true
or_true b = ground arith

reassert_calls : (env : Env) (s : Fmu) → (reassert_state env s).1 ≡ due_calls env s reassert s
unfolding reassert_state
reassert_calls env s = simp (or_true (changed_between s s))

-- A handler makes calls exactly if the state has changed, or has to be commanded again because the
-- MAV link came back or the autopilot restarted; they are then those of entering the state that the
-- machine is in afterwards, once.
pub step-calls :
    (env : Env) (s : Fmu) (i : Input) → (step env s i).1 ≡ due_calls env s i (step env s i).0
unfolding step
step-calls env s (fss cmd target) =
    update_and_act-calls env (record s { fss_command = cmd; fss_command_target = target })
step-calls env s (smm cmd) = update_and_act-calls env (record s { smm_command = cmd })
step-calls env s (battery low) = set_low_battery-AsDue env s low
step-calls env s (altitude fix_valid agl) = set_current_altitude-AsDue env s fix_valid agl
step-calls env s (fss_comms failed) =
    update_and_act-calls env (record s { fss_comms_lost = failed })
step-calls env s (mav_comms failed) = mav_calls env s failed
step-calls env s reassert = reassert_calls env s
