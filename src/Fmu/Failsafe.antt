-- ===== src/Fmu/Failsafe.antt =====
-- What the loss of a link makes FMUStateMachine do (src/fmu.cpp).
use fss_smm_mav.Fmu.Action.{action_state, Env, Call, mav_set_mode, smm_cancel_search, state_change}
use fss_smm_mav.Fmu.Calls.{recommands, changed, step-calls}
use fss_smm_mav.Fmu.Run.{step, Input}
use fss_smm_mav.Fmu.Settled.{always_updates, step_settles}
use fss_smm_mav.Fmu.State.{select_state, Fmu}
use fss_smm_mav.Prelude.{
  ◌≡◌, sym, ap, ◌∙◌, ◌≢◌, ◌⊎◌, true, false, ◌||◌, List, [], ◌∷◌, arith, if◌then◌else◌,
}
use fss_smm_mav.Types.{FmuState, fmu_state_failsafe, flight_mode_rtl}

abbrev pub IsLost : Fmu → Type 0
IsLost s = (s.fss_comms_lost ≡ true) ⊎ (s.mav_comms_lost ≡ true)

failsafe_rules :
    (s : Fmu)
    → s.terminated ≡ false
    → s.low_battery ≡ false
    → IsLost s
    → select_state s ≡ fmu_state_failsafe
unfolding select_state
failsafe_rules s t b lost = ground arith

-- The calls of a return: revoke the searching role, command RTL, and tell the state-change callback.
abbrev pub return_calls : Fmu → FmuState → List Call
return_calls s state =
    smm_cancel_search
    ∷ (mav_set_mode flight_mode_rtl
        ∷ (if s.has_state_change_cb then state_change state ∷ [] else []))

action_state-failsafe :
    (env : Env) (s : Fmu) (state : FmuState)
    → state ≡ fmu_state_failsafe
    → (action_state env s state).0 ≡ return_calls s fmu_state_failsafe
unfolding action_state
action_state-failsafe env s state e = rw e

-- A machine that is not in failsafe and gets a command or link report after which a link is lost,
-- with neither the terminate nor the battery latch engaged, is then in failsafe, and the handler
-- has revoked the searching role and commanded a return.
pub lost_link_returns :
    (env : Env) (s : Fmu) (i : Input)
    → always_updates i ≡ true
    → s.current_state ≢ fmu_state_failsafe
    → (step env s i).0.terminated ≡ false
    → (step env s i).0.low_battery ≡ false
    → IsLost (step env s i).0
    → ((step env s i).0.current_state ≡ fmu_state_failsafe)
      × ((step env s i).1 ≡ return_calls (step env s i).0 fmu_state_failsafe)
lost_link_returns env s i u n t b lost =
    let s' = (step env s i).0 in
    let now : s'.current_state ≡ fmu_state_failsafe =
      step_settles env s i u ∙ failsafe_rules s' t b lost in
    (
      now,
      step-calls env s i
          ∙ (ap (λ c. if c || recommands s i then (action_state env s' s'.current_state).0 else [])
                (changed s s' (λ e. n (sym e ∙ now)))
              ∙ action_state-failsafe env s' s'.current_state now),
    )
