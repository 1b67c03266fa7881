-- ===== src/Fmu/Battery.antt =====
-- The low-battery latch of FMUStateMachine as a function of the battery readings (src/fmu.cpp).
use fss_smm_mav.Fmu.Action.{Env}
use fss_smm_mav.Fmu.History.{inputs}
use fss_smm_mav.Fmu.Invariant.{init-Inv, step-Inv, Inv}
use fss_smm_mav.Fmu.Run.{
  step, run, Input, fss, smm, battery, altitude, fss_comms, mav_comms, reassert,
}
use fss_smm_mav.Fmu.Safety.{run-low_battery}
use fss_smm_mav.Fmu.State.{init, latch_terminate, Fmu}
use fss_smm_mav.Prelude.{
  ℕ, zero, suc, ◌+◌, ◌≤◌, ◌<◌, ◌≡◌, refl, sym, ap, subst, ◌∙◌, ◌↔◌, inl, inr, Bool, true, false,
  ◌&&◌, ◌||◌, List, [], ◌∷◌, ◌++◌, arith, replicate, replicate-append_cons, ltb, leb, if◌then◌else◌,
  Bool-cases,
}

-- The battery readings among the inputs.
abbrev pub readings : List Input → List Bool
readings [] = []
readings (battery low ∷ is) = low ∷ readings is
readings (_ ∷ is) = readings is

-- Does a run of `n` low readings complete, after `k` that went before?
abbrev pub completes : ℕ → ℕ → List Bool → Bool
completes n k [] = false
completes n k (true ∷ bs) =
    let rest = completes n (suc k) bs in if leb n (suc k) then true else rest
completes n k (false ∷ bs) = completes n 0 bs

-- `n` low readings in a row, somewhere.
abbrev pub HasRun : ℕ → List Bool → Type 0
HasRun n bs =
    (before : List Bool) × (after : List Bool) × (bs ≡ before ++ (replicate n true ++ after))

HasRun-cons : (n : ℕ) (b : Bool) (bs : List Bool) → HasRun n bs → HasRun n (b ∷ bs)
HasRun-cons n b bs (before, after, e) = (b ∷ before, after, ap (◌∷◌ b) e)

HasRun-prepend : (n k : ℕ) (bs : List Bool) → HasRun n bs → HasRun n (replicate k true ++ bs)
HasRun-prepend n zero bs h = h
HasRun-prepend n (suc k) bs h =
    HasRun-cons n true (replicate k true ++ bs) (HasRun-prepend n k bs h)

completes-HasRun :
    (n k : ℕ) (bs : List Bool) → k < n → completes n k bs ≡ true → HasRun n (replicate k true ++ bs)
completes-HasRun n k [] h c = cc
completes-HasRun n k (false ∷ bs) h c =
    HasRun-prepend n k (false ∷ bs)
      (HasRun-cons n false bs (completes-HasRun n 0 bs (omega arith) c))
completes-HasRun n k (true ∷ bs) h c = elim (Bool-cases (leb n (suc k))) [
  | inl full ↦
      subst (λ m. HasRun m (replicate k true ++ true ∷ bs)) (full_eq full)
        ([], bs, replicate-append_cons k true bs)
  | inr more ↦
      rw (replicate-append_cons k true bs)
        (completes-HasRun n (suc k) bs (ground arith) (rw more at c))
]
  where
    full_eq : leb n (suc k) ≡ true → suc k ≡ n
    full_eq full = ground arith

completes_run :
    (n k m : ℕ) (after : List Bool)
    → n ≤ k + m
    → k < n
    → completes n k (replicate m true ++ after) ≡ true
completes_run n k zero after h l = absurd (omega arith)
completes_run n k (suc m) after h l = elim (Bool-cases (leb n (suc k))) [
  | inl full ↦ rw full
  | inr more ↦ rw more (completes_run n (suc k) m after (omega arith) (ground arith))
]

HasRun-completes :
    (n k : ℕ) (before after : List Bool)
    → k < n
    → completes n k (before ++ (replicate n true ++ after)) ≡ true
HasRun-completes n k [] after l = completes_run n k n after (omega arith) l
HasRun-completes n k (false ∷ before) after l = HasRun-completes n 0 before after (omega arith)
HasRun-completes n k (true ∷ before) after l = elim (Bool-cases (leb n (suc k))) [
  | inl full ↦ rw full
  | inr more ↦ rw more (HasRun-completes n (suc k) before after (ground arith))
]

-- How one input moves the counter and the latch.
abbrev pub next_count : ℕ → ℕ → Input → ℕ
next_count n k (battery true) = if ltb k n then k + 1 else k
next_count n k (battery false) = 0
next_count n k _ = k

abbrev pub is_low : Input → Bool
is_low (battery low) = low
is_low _ = false

pub record Counts (s : Fmu) (i : Input) (t : Fmu) : Type 0 where
  pub latch_count : t.low_battery_latch_count ≡ s.low_battery_latch_count
  pub count : t.low_battery_count ≡ next_count s.low_battery_latch_count s.low_battery_count i
  pub latch :
      t.low_battery
      ≡ (s.low_battery || (is_low i && leb s.low_battery_latch_count (s.low_battery_count + 1)))

step-Counts : (env : Env) (s : Fmu) (i : Input) → Inv s → Counts s i (step env s i).0
unfolding step latch_terminate
step-Counts env s (fss cmd target) v = ground arith
step-Counts env s (smm cmd) v = ground arith
step-Counts env s (battery low) v = ground arith
step-Counts env s (altitude fix_valid agl) v = ground arith
step-Counts env s (fss_comms failed) v = ground arith
step-Counts env s (mav_comms failed) v = ground arith
step-Counts env s reassert v = ground arith

module _ (n : ℕ) where
  record Counting (s : Fmu) (k : ℕ) : Type 0 where
    inv : Inv s
    latch_count : s.low_battery_latch_count ≡ n
    count : s.low_battery_count ≡ k
    open_latch : s.low_battery ≡ false
    below : k < n

  -- An input that completes no run.
  step-Counting :
      (env : Env) (s : Fmu) (i : Input) (k : ℕ)
      → Counting s k
      → (is_low i && leb n (suc k)) ≡ false
      → next_count n k i < n
      → Counting (step env s i).0 (next_count n k i)
  step-Counting env s i k c e l =
      let t = step-Counts env s i c.inv in
      record {
        inv = step-Inv env s i c.inv;
        latch_count = t.latch_count ∙ c.latch_count;
        count = cc t.count;
        open_latch = ground (arith, t.latch);
        below = l;
      }

  low_Counting :
      (env : Env) (s : Fmu) (k : ℕ)
      → Counting s k
      → leb n (suc k) ≡ false
      → Counting (step env s (battery true)).0 (suc k)
  low_Counting env s k c more =
      let e : next_count n k (battery true) ≡ suc k = ground (arith, c.below) in
      subst (Counting (step env s (battery true)).0) e
        (step-Counting env s (battery true) k c more (ground (arith, c.below)))

  latch_run :
      (s : Fmu) (is : List (Env × Input)) (k : ℕ)
      → Counting s k
      → (run s is).low_battery ≡ completes n k (readings (inputs is))
  unfolding run
  latch_run s [] k c = c.open_latch
  latch_run s ((env, battery true) ∷ is) k c = elim (Bool-cases (leb n (suc k))) [
    | inl full ↦ rw full (
        run-low_battery (step env s (battery true)).0 is
          (ground (arith, (step-Counts env s (battery true) c.inv).latch, c.latch_count, c.count)))
    | inr more ↦
        rw more (latch_run (step env s (battery true)).0 is (suc k) (low_Counting env s k c more))
  ]
  latch_run s ((env, battery false) ∷ is) k c =
      latch_run (step env s (battery false)).0 is 0
        (step-Counting env s (battery false) k c refl (ground (arith, c.below)))
  latch_run s ((env, i) ∷ is) k c =
      latch_run (step env s i).0 is k (step-Counting env s i k c refl c.below)

init-Counting : (n cap k : ℕ) → 0 < n → Counting n (init n cap k) 0
unfolding init
init-Counting n cap k h = record {
  inv = init-Inv n cap k;
  latch_count = refl;
  count = refl;
  open_latch = refl;
  below = h;
}

-- With a latch count above 0, the battery latch of a new machine engages exactly if, among the
-- battery readings, that many low ones have come in a row, whatever else was reported or commanded.
pub low_battery_iff :
    (n cap k : ℕ) (is : List (Env × Input))
    → 0 < n
    → ((run (init n cap k) is).low_battery ≡ true) ↔ HasRun n (readings (inputs is))
low_battery_iff n cap k is h =
    let e = latch_run n (init n cap k) is 0 (init-Counting n cap k h) in
    (
      λ engaged. completes-HasRun n 0 (readings (inputs is)) h (sym e ∙ engaged),
      λ (before, after, split).
          e ∙ (ap (completes n 0) split ∙ HasRun-completes n 0 before after h),
    )
