-- ===== src/Fmu/Update.antt =====
-- What updateState does to the fields of FMUStateMachine (src/fmu.cpp).
use fss_smm_mav.Fmu.State.{
  commanded_state, is_terminate, latch_terminate, select_state, update_state, Fmu,
}
use fss_smm_mav.Prelude.{◌≡◌, refl, sym, ◌≢◌, if_pos, if_neg, ◌||◌, none, some, arith}
use fss_smm_mav.Types.{FmuState-discrete}

-- The machine after updateState, written as one record.
abbrev pub settled : Fmu → Fmu
settled s = record (latch_terminate s) { current_state = select_state (latch_terminate s) }

select_state-settled : (s : Fmu) → select_state (settled s) ≡ select_state (latch_terminate s)
unfolding select_state commanded_state
select_state-settled s = refl

same_state :
    (t : Fmu) → select_state t ≡ t.current_state → t ≡ record t { current_state = select_state t }
same_state t e = λ i. record t { current_state = sym e i }

pub update_state_stays :
    (s : Fmu)
    → select_state (latch_terminate s) ≡ (latch_terminate s).current_state
    → update_state s ≡ (latch_terminate s, none)
unfolding update_state
update_state_stays s p = rw (if_pos _ p)

pub update_state_moves :
    (s : Fmu)
    → select_state (latch_terminate s) ≢ (latch_terminate s).current_state
    → update_state s ≡ (settled s, some (select_state (latch_terminate s)))
unfolding update_state
update_state_moves s p = rw (if_neg _ p)

pub update_state-settled : (s : Fmu) → (update_state s).0 ≡ settled s
update_state-settled s =
    elim (FmuState-discrete (select_state (latch_terminate s)) (latch_terminate s).current_state) [
      | yes p ↦ rw (update_state_stays s p) (same_state (latch_terminate s) p)
      | no p ↦ rw (update_state_moves s p)
    ]

-- updateState writes the state and the terminate latch, and nothing else.
pub record IsUpdateOf (s t : Fmu) : Type 0 where
  pub state : t.current_state ≡ select_state t
  pub latch : t.terminated ≡ (s.terminated || is_terminate s.fss_command)
  pub rest : t ≡ record s { current_state = t.current_state; terminated = t.terminated }

pub settled-IsUpdateOf : (s : Fmu) → IsUpdateOf s (settled s)
unfolding latch_terminate
settled-IsUpdateOf s = record {
  state = sym (select_state-settled s);
  latch = ground arith;
  rest = ground arith;
}

pub update_state-IsUpdateOf : (s : Fmu) → IsUpdateOf s (update_state s).0
update_state-IsUpdateOf s = rw (update_state-settled s) (settled-IsUpdateOf s)
