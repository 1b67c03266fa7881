-- ===== src/Fmu/Commands.antt =====
-- How FMUStateMachine resolves an FSS command, and what the loss of FSS commands (src/fmu.cpp).
use fss_smm_mav.Fmu.Action.{Env, Call}
use fss_smm_mav.Fmu.Calls.{changed_between, unchanged, changed, latch_terminate-state}
use fss_smm_mav.Fmu.Handlers.{fss_new_command}
use fss_smm_mav.Fmu.Settled.{
  settled-Controls, Controls, by_terminate, by_battery, by_failsafe, by_breach, by_command,
}
use fss_smm_mav.Fmu.State.{
  map_smm_state, map_fss_state, commanded_state, latch_terminate, select_state, update_state,
  has_value, resolve_fss_command, Fmu,
}
use fss_smm_mav.Fmu.Update.{
  settled, update_state_stays, update_state_moves, update_state-settled, update_state-IsUpdateOf,
}
use fss_smm_mav.Prelude.{
  ◌≡◌, refl, sym, ap, subst, ◌∙◌, ◌≢◌, ◌↔◌, ◌⊎◌, inl, inr, true, false, Option, none, some, List,
  arith,
}
use fss_smm_mav.Types.{
  FmuState-discrete, FssCommandResolution, FssCommandTarget, FmuState, FssCommand, fss_cmd_unknown,
  fss_cmd_manual, fss_cmd_rtl, fss_cmd_hold, fss_cmd_altitude, fss_cmd_goto, fss_cmd_continue,
  fss_cmd_disarm, fss_cmd_terminate, fss_command_actioned, fss_command_superseded,
}

abbrev pub after_command : Fmu × List Call × FssCommandResolution → Fmu
after_command r = r.0

abbrev pub resolution : Fmu × List Call × FssCommandResolution → FssCommandResolution
resolution r = r.2

-- Something of higher priority than the command is in force.
abbrev pub IsOverruled : Fmu → Type 0
IsOverruled s =
    (s.terminated ≡ true)
    ⊎ (s.low_battery ≡ true)
    ⊎ (s.fss_comms_lost ≡ true)
    ⊎ (s.mav_comms_lost ≡ true)
    ⊎ (s.altitude_breach ≡ true)

-- What the report says of the machine before and after the command.
pub record Reports (s t : Fmu) (res : FssCommandResolution) : Type 0 where
  pub actioned_iff : (res.outcome ≡ fss_command_actioned) ↔ (t.current_state ≡ commanded_state t)
  pub superseded_by :
      res.outcome ≡ fss_command_superseded → res.superseding_state ≡ some t.current_state
  pub actioned_by : res.outcome ≡ fss_command_actioned → res.superseding_state ≡ none
  pub transitioned : res.transitioned ≡ changed_between s t
  pub overruled : res.outcome ≡ fss_command_superseded → IsOverruled t

commanded_state-settled : (s : Fmu) → commanded_state (settled s) ≡ commanded_state s
unfolding commanded_state latch_terminate
commanded_state-settled s = ground arith

Controls-IsOverruled :
    (s : Fmu) (st : FmuState) → Controls s st → st ≢ commanded_state s → IsOverruled s
Controls-IsOverruled s _ (by_terminate t) n = inl t
Controls-IsOverruled s _ (by_battery t b) n = inr (inl b)
Controls-IsOverruled s _ (by_failsafe t b (inl f)) n = inr (inr (inl f))
Controls-IsOverruled s _ (by_failsafe t b (inr m)) n = inr (inr (inr (inl m)))
Controls-IsOverruled s _ (by_breach t b f m a) n = inr (inr (inr (inr a)))
Controls-IsOverruled s _ (by_command t b f m a) n = absurd (n refl)

resolve-actioned :
    (t : Fmu) (desired : FmuState) (o : Option FmuState)
    → ((resolve_fss_command t desired o).outcome ≡ fss_command_actioned)
      ↔ (t.current_state ≡ desired)
unfolding resolve_fss_command
resolve-actioned t desired o = ground arith

resolve-shape :
    (t : Fmu) (desired : FmuState) (o : Option FmuState)
    → let res = resolve_fss_command t desired o in
      (res.outcome ≡ fss_command_superseded → res.superseding_state ≡ some t.current_state)
      × (res.outcome ≡ fss_command_actioned → res.superseding_state ≡ none)
      × (res.transitioned ≡ has_value o)
      × (res.outcome ≡ fss_command_superseded → t.current_state ≢ desired)
unfolding resolve_fss_command
resolve-shape t desired o = ground arith

update_state-has_value :
    (s : Fmu) → has_value (update_state s).1 ≡ changed_between s (update_state s).0
update_state-has_value s =
    elim (FmuState-discrete (select_state (latch_terminate s)) (latch_terminate s).current_state) [
      | yes p ↦
          subst (λ r. has_value r.1 ≡ changed_between s r.0) (sym (update_state_stays s p))
            (sym (unchanged s (latch_terminate s) (latch_terminate-state s)))
      | no n ↦
          subst (λ r. has_value r.1 ≡ changed_between s r.0) (sym (update_state_moves s n))
            (sym (changed s (settled s) (λ e. n (e ∙ sym (latch_terminate-state s)))))
    ]

update_state-commanded : (s : Fmu) → commanded_state (update_state s).0 ≡ commanded_state s
update_state-commanded s = ap commanded_state (update_state-settled s) ∙ commanded_state-settled s

update_state-Reports :
    (s : Fmu)
    → Reports s
        (update_state s).0
        (resolve_fss_command (update_state s).0 (commanded_state s) (update_state s).1)
update_state-Reports s =
    let t = (update_state s).0 in
    let e = update_state-commanded s in
    let iff = resolve-actioned t (commanded_state s) (update_state s).1 in
    let shape = resolve-shape t (commanded_state s) (update_state s).1 in
    record {
      actioned_iff = (λ a. iff.0 a ∙ sym e, λ a. iff.1 (a ∙ e));
      superseded_by = shape.0;
      actioned_by = shape.1;
      transitioned = shape.2 ∙ update_state-has_value s;
      overruled = λ o.
          Controls-IsOverruled t t.current_state
            (settled-Controls t (update_state-IsUpdateOf s).state) (λ a. shape.3 o (a ∙ e));
    }

fss_new_command-Reports :
    (env : Env) (s : Fmu) (cmd : FssCommand) (target : FssCommandTarget)
    → let r = fss_new_command env s cmd target in
      Reports s (after_command r) (resolution r)
      × ((after_command r).fss_command ≡ cmd)
      × ((after_command r).fss_command_target ≡ target)
unfolding fss_new_command
fss_new_command-Reports env s cmd target =
    let s' : Fmu = record s { fss_command = cmd; fss_command_target = target } in
    let r = update_state-Reports s' in
    let rest = (update_state-IsUpdateOf s').rest in
    (
      record {
        actioned_iff = r.actioned_iff;
        superseded_by = r.superseded_by;
        actioned_by = r.actioned_by;
        transitioned = r.transitioned;
        overruled = r.overruled;
      },
      ap (λ (t : Fmu). t.fss_command) rest,
      ap (λ (t : Fmu). t.fss_command_target) rest,
    )

-- A breach alone supersedes every command but the return that it selects itself.
IsOverruled-superseded :
    (env : Env) (s : Fmu) (cmd : FssCommand) (target : FssCommandTarget)
    → (s.altitude_breach ≡ true → cmd ≢ fss_cmd_rtl)
    → IsOverruled s
    → cmd ≢ fss_cmd_terminate
    → (resolution (fss_new_command env s cmd target)).outcome ≡ fss_command_superseded
unfolding fss_new_command update_state latch_terminate select_state commanded_state
    resolve_fss_command map_fss_state map_smm_state
IsOverruled-superseded env s fss_cmd_unknown target h o n = ground arith
IsOverruled-superseded env s fss_cmd_manual target h o n = ground arith
IsOverruled-superseded env s fss_cmd_rtl target h o n = ground arith
IsOverruled-superseded env s fss_cmd_hold target h o n = ground arith
IsOverruled-superseded env s fss_cmd_altitude target h o n = ground arith
IsOverruled-superseded env s fss_cmd_goto target h o n = ground arith
IsOverruled-superseded env s fss_cmd_continue target h o n = ground arith
IsOverruled-superseded env s fss_cmd_disarm target h o n = ground arith
IsOverruled-superseded env s fss_cmd_terminate target h o n = absurd (n refl)

superseded-IsOverruled :
    (env : Env) (s : Fmu) (cmd : FssCommand) (target : FssCommandTarget)
    → (resolution (fss_new_command env s cmd target)).outcome ≡ fss_command_superseded
    → IsOverruled s × (cmd ≢ fss_cmd_terminate)
unfolding fss_new_command update_state latch_terminate select_state commanded_state
    resolve_fss_command map_fss_state map_smm_state
superseded-IsOverruled env s fss_cmd_unknown target e = (ground arith, λ q. ground arith)
superseded-IsOverruled env s fss_cmd_manual target e = (ground arith, λ q. ground arith)
superseded-IsOverruled env s fss_cmd_rtl target e = (ground arith, λ q. ground arith)
superseded-IsOverruled env s fss_cmd_hold target e = (ground arith, λ q. ground arith)
superseded-IsOverruled env s fss_cmd_altitude target e = (ground arith, λ q. ground arith)
superseded-IsOverruled env s fss_cmd_goto target e = (ground arith, λ q. ground arith)
superseded-IsOverruled env s fss_cmd_continue target e = (ground arith, λ q. ground arith)
superseded-IsOverruled env s fss_cmd_disarm target e = (ground arith, λ q. ground arith)
superseded-IsOverruled env s fss_cmd_terminate target e = absurd (ground arith)

-- The report on an FSS command, on every branch, unless it is a return during an altitude breach:
-- it is superseded exactly if a latch or a lost link is in force and the command is not terminate,
-- and it then names the state in force; otherwise it is actioned, and exactly then the machine is
-- in the state that the command asks for. `transitioned` says whether the command moved the
-- machine, and the command is kept either way.
pub latches_supersede_commands :
    (env : Env) (s : Fmu) (cmd : FssCommand) (target : FssCommandTarget)
    → (s.altitude_breach ≡ true → cmd ≢ fss_cmd_rtl)
    → let r = fss_new_command env s cmd target in
      (((resolution r).outcome ≡ fss_command_superseded)
        ↔ (IsOverruled s × (cmd ≢ fss_cmd_terminate)))
      × Reports s (after_command r) (resolution r)
      × ((after_command r).fss_command ≡ cmd)
      × ((after_command r).fss_command_target ≡ target)
latches_supersede_commands env s cmd target h =
    let reports = fss_new_command-Reports env s cmd target in
    (
      (
        superseded-IsOverruled env s cmd target,
        λ p. IsOverruled-superseded env s cmd target h p.0 p.1,
      ),
      reports.0,
      reports.1,
      reports.2,
    )

-- While the altitude breach is in force, and no terminate, low battery or lost link, a commanded
-- return is reported as actioned, though the breach latch selects the same state without it.
pub breach_rtl_is_actioned :
    (env : Env) (s : Fmu) (target : FssCommandTarget)
    → s.terminated ≡ false
    → s.low_battery ≡ false
    → s.fss_comms_lost ≡ false
    → s.mav_comms_lost ≡ false
    → s.altitude_breach ≡ true
    → (resolution (fss_new_command env s fss_cmd_rtl target)).outcome ≡ fss_command_actioned
unfolding fss_new_command update_state latch_terminate select_state commanded_state
breach_rtl_is_actioned env s target t b f m a = ground arith
