-- ===== src/Fmu/Role.antt =====
-- The searching role that FMUStateMachine grants to SMM and takes back (src/fmu.cpp).
use fss_smm_mav.Fmu.Action.{action_state, Env, Call, smm_cancel_search, smm_search}
use fss_smm_mav.Fmu.Calls.{recommands, changed_between, due_calls, unchanged_iff, step-calls}
use fss_smm_mav.Fmu.Run.{step, run, Input}
use fss_smm_mav.Fmu.State.{init, Fmu}
use fss_smm_mav.Prelude.{
  ℕ, ◌≡◌, refl, sym, subst, ◌⊎◌, inl, inr, Bool, true, false, ◌||◌, List, [], ◌∷◌, ◌++◌, arith,
  Bool-cases,
}
use fss_smm_mav.Types.{
  FmuState, fmu_state_manual, fmu_state_searching, fmu_state_waiting_for_tasking,
}

-- The role after a call: `search` grants it and `cancelSearch` revokes it (src/smm/smm.cpp).
abbrev pub role_after_call : Bool → Call → Bool
role_after_call granted smm_cancel_search = false
role_after_call granted (smm_search p) = true
role_after_call granted _ = granted

abbrev pub role_after : Bool → List Call → Bool
role_after granted [] = granted
role_after granted (c ∷ cs) = role_after (role_after_call granted c) cs

-- The role is granted in the searching state, and in no state but that and waiting for tasking.
pub record Fits (granted : Bool) (state : FmuState) : Type 0 where
  pub searching : state ≡ fmu_state_searching → granted ≡ true
  pub only :
      granted ≡ true → (state ≡ fmu_state_searching) ⊎ (state ≡ fmu_state_waiting_for_tasking)

action_state-Fits :
    (env : Env) (s : Fmu) (state : FmuState) (granted : Bool)
    → Fits (role_after granted (action_state env s state).0) state
unfolding action_state
action_state-Fits env s fmu_state_manual granted = ground arith
action_state-Fits env s _ granted = ground arith

or_left : (a b : Bool) → (a || b) ≡ false → a ≡ false
or_left a b e = ground arith

due_calls-Fits :
    (env : Env) (s : Fmu) (i : Input) (t : Fmu) (granted : Bool)
    → Fits granted s.current_state
    → Fits (role_after granted (due_calls env s i t)) t.current_state
due_calls-Fits env s i t granted f = elim (Bool-cases (changed_between s t || recommands s i)) [
  | inl e ↦ simp e (action_state-Fits env t t.current_state granted)
  | inr e ↦ simp e (
      subst (Fits granted)
        (sym (unchanged_iff s t (or_left (changed_between s t) (recommands s i) e))) f)
]

-- The calls of a run, in order.
abbrev pub run_calls : Fmu → List (Env × Input) → List Call
run_calls s [] = []
run_calls s ((env, i) ∷ is) = (step env s i).1 ++ run_calls (step env s i).0 is

role_after-append :
    (granted : Bool) (xs ys : List Call)
    → role_after granted (xs ++ ys) ≡ role_after (role_after granted xs) ys
role_after-append granted [] ys = refl
role_after-append granted (x ∷ xs) ys = role_after-append (role_after_call granted x) xs ys

run-Fits :
    (s : Fmu) (granted : Bool) (is : List (Env × Input))
    → Fits granted s.current_state
    → Fits (role_after granted (run_calls s is)) (run s is).current_state
unfolding run
run-Fits s granted [] f = f
run-Fits s granted ((env, i) ∷ is) f =
    let t = (step env s i).0 in
    let calls = (step env s i).1 in
    let kept : Fits (role_after granted calls) t.current_state =
      rw (step-calls env s i) (due_calls-Fits env s i t granted f) in
    rw (role_after-append granted calls (run_calls t is))
      (run-Fits t (role_after granted calls) is kept)

-- Over any run from a new machine, the calls made so far leave SMM's searching role granted whenever
-- the machine is searching, and granted in no state but searching and waiting for tasking.
pub role_follows_state :
    (n cap k : ℕ) (is : List (Env × Input))
    → Fits (role_after false (run_calls (init n cap k) is)) (run (init n cap k) is).current_state
role_follows_state n cap k is = run-Fits (init n cap k) false is (start n cap k)
  where
    start : (n cap k : ℕ) → Fits false (init n cap k).current_state
    start n cap k = unfold init in ground arith
