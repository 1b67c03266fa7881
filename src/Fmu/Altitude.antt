-- ===== src/Fmu/Altitude.antt =====
-- The altitude-cap latch of FMUStateMachine as a debounce of the valid readings (src/fmu.cpp).
use fss_smm_mav.Fmu.Action.{Env}
use fss_smm_mav.Fmu.Handlers.{over_altitude_cap}
use fss_smm_mav.Fmu.History.{inputs}
use fss_smm_mav.Fmu.Run.{
  step, run, Input, fss, smm, battery, altitude, fss_comms, mav_comms, reassert,
}
use fss_smm_mav.Fmu.State.{init, latch_terminate, Fmu}
use fss_smm_mav.Prelude.{
  ℕ, zero, suc, ◌+◌, ◌≤◌, ◌<◌, ◌≡◌, refl, ap, ◌∙◌, Bool, true, false, not, ◌&&◌, ◌||◌, Option, none,
  some, List, [], ◌∷◌, ◌++◌, arith, replicate, ltb, leb, if◌then◌else◌,
}
use fss_smm_mav.Prelude.Double.{is_finite}

-- The three fields of the latch.
pub record Latch : Type 0 where
  pub breaches : ℕ
  pub clears : ℕ
  pub engaged : Bool

abbrev pub latch_of : Fmu → Latch
latch_of s = record {
  breaches = s.altitude_breach_count;
  clears = s.altitude_clear_count;
  engaged = s.altitude_breach;
}

-- What an altitude reading says: over the cap or not, and nothing without a fix or a finite value.
abbrev pub reading : ℕ → Input → Option Bool
reading cap (altitude fix_valid agl) =
    if fix_valid && is_finite agl then some (over_altitude_cap agl cap) else none
reading cap _ = none

abbrev pub count_to : ℕ → ℕ → ℕ
count_to n k = if ltb k n then k + 1 else k

-- A debounce with the same count both ways.
abbrev pub note : ℕ → Latch → Bool → Latch
note n l true =
    let k = count_to n l.breaches in
    record { breaches = k; clears = 0; engaged = l.engaged || leb n k }
note n l false =
    let k = count_to n l.clears in
    record { breaches = 0; clears = k; engaged = l.engaged && not (leb n k) }

abbrev pub note? : ℕ → Latch → Option Bool → Latch
note? n l none = l
note? n l (some over) = note n l over

pub record Debounces (s : Fmu) (i : Input) (t : Fmu) : Type 0 where
  pub cap : t.altitude_cap_m ≡ s.altitude_cap_m
  pub latch_count : t.altitude_breach_latch_count ≡ s.altitude_breach_latch_count
  pub latch :
      latch_of t ≡ note? s.altitude_breach_latch_count (latch_of s) (reading s.altitude_cap_m i)

pub step-Debounces : (env : Env) (s : Fmu) (i : Input) → Debounces s i (step env s i).0
unfolding step latch_terminate
step-Debounces env s (fss cmd target) = ground arith
step-Debounces env s (smm cmd) = ground arith
step-Debounces env s (battery low) = ground arith
step-Debounces env s (altitude fix_valid agl) = ground arith
step-Debounces env s (fss_comms failed) = ground arith
step-Debounces env s (mav_comms failed) = ground arith
step-Debounces env s reassert = ground arith

abbrev pub cons? : Option Bool → List Bool → List Bool
cons? none rs = rs
cons? (some over) rs = over ∷ rs

-- The readings that count, oldest first.
abbrev pub valid_readings : ℕ → List Input → List Bool
valid_readings cap [] = []
valid_readings cap (i ∷ is) = cons? (reading cap i) (valid_readings cap is)

abbrev pub debounce : ℕ → Latch → List Bool → Latch
debounce n l [] = l
debounce n l (over ∷ rs) = debounce n (note n l over) rs

debounce-cons? :
    (n : ℕ) (l : Latch) (o : Option Bool) (rs : List Bool)
    → debounce n (note? n l o) rs ≡ debounce n l (cons? o rs)
debounce-cons? n l none rs = refl
debounce-cons? n l (some over) rs = refl

-- However the readings are interleaved with other inputs, the latch is a debounce of the readings
-- that have a fix and a finite altitude: the others neither trip it, nor clear it, nor interrupt a
-- run.
pub run_debounces :
    (s : Fmu) (is : List (Env × Input))
    → latch_of (run s is)
      ≡ debounce s.altitude_breach_latch_count
          (latch_of s)
          (valid_readings s.altitude_cap_m (inputs is))
unfolding run
run_debounces s [] = refl
run_debounces s ((env, i) ∷ is) =
    let t = (step env s i).0 in
    let d = step-Debounces env s i in
    run_debounces t is
    ∙ (ap (λ n. debounce n (latch_of t) (valid_readings t.altitude_cap_m (inputs is))) d.latch_count
        ∙ (ap
              (λ c.
                debounce s.altitude_breach_latch_count (latch_of t) (valid_readings c (inputs is)))
              d.cap
            ∙ (ap
                  (λ l.
                    debounce s.altitude_breach_latch_count l
                      (valid_readings s.altitude_cap_m (inputs is)))
                  d.latch
                ∙ debounce-cons? s.altitude_breach_latch_count (latch_of s)
                    (reading s.altitude_cap_m i) (valid_readings s.altitude_cap_m (inputs is)))))

-- A full run on one side has moved the latch to that side.
record IsSound (n : ℕ) (l : Latch) : Type 0 where
  breaches_bounded : l.breaches ≤ n
  clears_bounded : l.clears ≤ n
  full_breach : l.breaches ≡ n → l.engaged ≡ true
  full_clear : l.clears ≡ n → l.engaged ≡ false

note-IsSound : (n : ℕ) (l : Latch) (over : Bool) → 0 < n → IsSound n l → IsSound n (note n l over)
note-IsSound n l true h v = ground arith
note-IsSound n l false h v = ground arith

abbrev run_length : Bool → Latch → ℕ
run_length true l = l.breaches
run_length false l = l.clears

debounce_run :
    (n m : ℕ) (l : Latch) (over : Bool)
    → 0 < n
    → IsSound n l
    → n ≤ run_length over l + m
    → (debounce n l (replicate m over)).engaged ≡ over
debounce_run n zero l true h v f = v.full_breach (omega arith)
debounce_run n zero l false h v f = v.full_clear (omega arith)
debounce_run n (suc m) l true h v f =
    debounce_run n m (note n l true) true h (note-IsSound n l true h v) (ground arith)
debounce_run n (suc m) l false h v f =
    debounce_run n m (note n l false) false h (note-IsSound n l false h v) (ground arith)

debounce_suffix :
    (n : ℕ) (l : Latch) (rs : List Bool) (over : Bool)
    → 0 < n
    → IsSound n l
    → (debounce n l (rs ++ replicate n over)).engaged ≡ over
debounce_suffix n l [] over h v = debounce_run n n l over h v (omega arith)
debounce_suffix n l (r ∷ rs) over h v =
    debounce_suffix n (note n l r) rs over h (note-IsSound n l r h v)

init-IsSound : (n cap k : ℕ) → 0 < k → IsSound k (latch_of (init n cap k))
unfolding init
init-IsSound n cap k h = ground arith

-- With a latch count above 0, from a new machine: if the latest valid readings, as many as the
-- count, all say over the cap, the breach latch is engaged, and if they all say not over, it is
-- released, whatever came before and in between.
pub altitude_latch_follows :
    (n cap k : ℕ) (is : List (Env × Input)) (earlier : List Bool) (over : Bool)
    → 0 < k
    → valid_readings cap (inputs is) ≡ earlier ++ replicate k over
    → (run (init n cap k) is).altitude_breach ≡ over
unfolding init
altitude_latch_follows n cap k is earlier over h e =
    ap (λ (l : Latch). l.engaged)
      (run_debounces (init n cap k) is ∙ ap (debounce k (latch_of (init n cap k))) e)
    ∙ debounce_suffix k (latch_of (init n cap k)) earlier over h (init-IsSound n cap k h)
