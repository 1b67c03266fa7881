-- ===== src/Fmu/History.antt =====
-- The fields of FMUStateMachine as functions of what it has been told (src/fmu.cpp): the last
-- command and report of each kind, and whether a terminate was ever ordered.
use fss_smm_mav.Fmu.Action.{Env}
use fss_smm_mav.Fmu.Invariant.{init-Inv, step-Inv, Inv}
use fss_smm_mav.Fmu.Run.{
  step, run, Input, fss, smm, battery, altitude, fss_comms, mav_comms, reassert,
}
use fss_smm_mav.Fmu.State.{init, is_terminate, latch_terminate, Fmu}
use fss_smm_mav.Prelude.{ℕ, ◌≡◌, refl, ap, ◌∙◌, Bool, false, ◌||◌, List, [], ◌∷◌, arith}
use fss_smm_mav.Types.{FssCommandTarget, FssCommand, SmmCommand}

abbrev pub last_fss : FssCommand → Input → FssCommand
last_fss c (fss cmd target) = cmd
last_fss c _ = c

abbrev pub last_target : FssCommandTarget → Input → FssCommandTarget
last_target t (fss cmd target) = target
last_target t _ = t

abbrev pub last_smm : SmmCommand → Input → SmmCommand
last_smm c (smm cmd) = cmd
last_smm c _ = c

abbrev pub last_fss_comms : Bool → Input → Bool
last_fss_comms b (fss_comms failed) = failed
last_fss_comms b _ = b

abbrev pub last_mav_comms : Bool → Input → Bool
last_mav_comms b (mav_comms failed) = failed
last_mav_comms b _ = b

abbrev pub orders_terminate : Input → Bool
orders_terminate (fss cmd target) = is_terminate cmd
orders_terminate _ = false

-- The effect of one input on the fields that hold what was commanded and reported.
pub record Tracks (s : Fmu) (i : Input) (t : Fmu) : Type 0 where
  pub fss_command : t.fss_command ≡ last_fss s.fss_command i
  pub fss_command_target : t.fss_command_target ≡ last_target s.fss_command_target i
  pub smm_command : t.smm_command ≡ last_smm s.smm_command i
  pub fss_comms_lost : t.fss_comms_lost ≡ last_fss_comms s.fss_comms_lost i
  pub mav_comms_lost : t.mav_comms_lost ≡ last_mav_comms s.mav_comms_lost i
  pub terminated : t.terminated ≡ (s.terminated || orders_terminate i)

pub step-Tracks : (env : Env) (s : Fmu) (i : Input) → Inv s → Tracks s i (step env s i).0
unfolding step latch_terminate
step-Tracks env s (fss cmd target) v = ground arith
step-Tracks env s (smm cmd) v = ground arith
step-Tracks env s (battery low) v = ground arith
step-Tracks env s (altitude fix_valid agl) v = ground arith
step-Tracks env s (fss_comms failed) v = ground arith
step-Tracks env s (mav_comms failed) v = ground arith
step-Tracks env s reassert v = ground arith

-- The inputs of a run, without what the calls answered.
abbrev pub inputs : List (Env × Input) → List Input
inputs [] = []
inputs ((env, i) ∷ is) = i ∷ inputs is

abbrev pub latest {ℓ} : {A : Type ℓ} → (A → Input → A) → A → List Input → A
latest f a [] = a
latest f a (i ∷ is) = latest f (f a i) is

abbrev pub ever : (Input → Bool) → List Input → Bool
ever p [] = false
ever p (i ∷ is) = p i || ever p is

pub record Remembers (s : Fmu) (is : List Input) (t : Fmu) : Type 0 where
  pub fss_command : t.fss_command ≡ latest last_fss s.fss_command is
  pub fss_command_target : t.fss_command_target ≡ latest last_target s.fss_command_target is
  pub smm_command : t.smm_command ≡ latest last_smm s.smm_command is
  pub fss_comms_lost : t.fss_comms_lost ≡ latest last_fss_comms s.fss_comms_lost is
  pub mav_comms_lost : t.mav_comms_lost ≡ latest last_mav_comms s.mav_comms_lost is
  pub terminated : t.terminated ≡ (s.terminated || ever orders_terminate is)

or_assoc : (a b c : Bool) → ((a || b) || c) ≡ (a || (b || c))
or_assoc a b c = ground arith

or_none : (a : Bool) → a ≡ (a || false)
or_none a = ground arith

pub run-Remembers_from :
    (s : Fmu) (is : List (Env × Input)) → Inv s → Remembers s (inputs is) (run s is)
unfolding run
run-Remembers_from s [] v = record {
  fss_command = refl;
  fss_command_target = refl;
  smm_command = refl;
  fss_comms_lost = refl;
  mav_comms_lost = refl;
  terminated = or_none s.terminated;
}
run-Remembers_from s ((env, i) ∷ is) v =
    let t = step-Tracks env s i v in
    let r = run-Remembers_from (step env s i).0 is (step-Inv env s i v) in
    record {
      fss_command = r.fss_command ∙ ap (λ c. latest last_fss c (inputs is)) t.fss_command;
      fss_command_target =
          r.fss_command_target ∙ ap (λ c. latest last_target c (inputs is)) t.fss_command_target;
      smm_command = r.smm_command ∙ ap (λ c. latest last_smm c (inputs is)) t.smm_command;
      fss_comms_lost =
          r.fss_comms_lost ∙ ap (λ c. latest last_fss_comms c (inputs is)) t.fss_comms_lost;
      mav_comms_lost =
          r.mav_comms_lost ∙ ap (λ c. latest last_mav_comms c (inputs is)) t.mav_comms_lost;
      terminated =
          r.terminated
          ∙ (ap (λ b. b || ever orders_terminate (inputs is)) t.terminated
              ∙ or_assoc s.terminated (orders_terminate i) (ever orders_terminate (inputs is)));
    }

-- From a new machine on, its commands, target and link flags are those of the last command and
-- report of each kind, and the terminate latch is engaged exactly if a terminate was ever ordered.
pub run-Remembers :
    (n cap k : ℕ) (is : List (Env × Input))
    → Remembers (init n cap k) (inputs is) (run (init n cap k) is)
run-Remembers n cap k is = run-Remembers_from (init n cap k) is (init-Inv n cap k)
