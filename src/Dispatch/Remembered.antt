-- ===== src/Dispatch/Remembered.antt =====
-- What the throttle remembers of the reports it let through: src/event-dispatcher.cpp.
use fss_smm_mav.Dispatch.{
  adsb_forward_interval_ms, elapsed, prune_adsb_throttle, may_forward, Dispatcher, Answers,
}
use fss_smm_mav.Prelude.{
  ℕ, ◌+◌, ◌-◌, ◌^◌, ◌≤◌, ◌<◌, ◌≡◌, refl, subst, ◌∙◌, inl, inr, Bool, true, false, Option, some,
  List, [], ◌∷◌, arith, leb, ◌==◌, if◌then◌else◌, Bool-cases,
}
use fss_smm_mav.Prelude.Assoc.{nat_eq, find, assign, find-assign, erase_if, string_eq}
use fss_smm_mav.Prelude.Double.{le}

elapsed_since : (now ts : ℕ) → ts ≤ now → now < 2 ^ 64 → elapsed now ts ≡ now - ts
elapsed_since now ts h b = omega (arith, h, b)

-- The throttle remembers a forward at `t`, or the interval has gone by.
pub data Remembers (icao t : ℕ) (m : List (ℕ × ℕ)) (now : ℕ) : Type 0 where
  entry : (ts : ℕ) → find icao m ≡ some ts → t ≤ ts → ts ≤ now → Remembers icao t m now
  old : t + adsb_forward_interval_ms ≤ now → Remembers icao t m now

find-erase_if :
    (p : ℕ → Bool) (k v : ℕ) (m : List (ℕ × ℕ))
    → find k m ≡ some v
    → p v ≡ false
    → find k (erase_if p m) ≡ some v
unfolding find erase_if
find-erase_if p k v [] e h = cc
find-erase_if p k v ((j, w) ∷ m) e h = ground (arith, find-erase_if p k v m)

pub waited :
    (now ts t : ℕ)
    → t ≤ ts
    → ts ≤ now
    → now < 2 ^ 64
    → leb adsb_forward_interval_ms (elapsed now ts) ≡ true
    → t + adsb_forward_interval_ms ≤ now
waited now ts t h le b e =
    let w : leb 1000 (now - ts) ≡ true =
      subst (λ n. leb 1000 n ≡ true) (elapsed_since now ts le b) e in
    ground (arith, w)

prune_keeps :
    (icao t ts now : ℕ) (m : List (ℕ × ℕ))
    → find icao m ≡ some ts
    → t ≤ ts
    → ts ≤ now
    → now < 2 ^ 64
    → Remembers icao t (prune_adsb_throttle now m) now
unfolding prune_adsb_throttle
prune_keeps icao t ts now m f h le b =
    elim (Bool-cases (leb adsb_forward_interval_ms (elapsed now ts))) [
      | inl e ↦ old (waited now ts t h le b e)
      | inr e ↦
          entry ts
            (find-erase_if (λ (u : ℕ). leb adsb_forward_interval_ms (elapsed now u)) icao ts m f e)
            h le
    ]

find-assign_same : (k v : ℕ) (m : List (ℕ × ℕ)) → find k (assign k v m) ≡ some v
find-assign_same k v m = find-assign k k v m ∙ simp ((nat_eq.beq_iff k k).1 refl) refl

find-assign_other :
    (j k v : ℕ) (m : List (ℕ × ℕ)) → (j == k) ≡ false → find k (assign j v m) ≡ find k m
find-assign_other j k v m e = find-assign j k v m ∙ simp e refl

-- The map after the test has passed or not.
abbrev pub noted : Bool → ℕ → ℕ → List (ℕ × ℕ) → List (ℕ × ℕ)
noted forwards icao now m = if forwards then assign icao now m else m

pub later :
    (icao t before now : ℕ) (m : List (ℕ × ℕ))
    → Remembers icao t m before
    → before ≤ now
    → Remembers icao t m now
later icao t before now m (entry ts f h u) le = entry ts f h (omega (arith, u, le))
later icao t before now m (old h) le = old (omega (arith, h, le))

pub sent_remembered :
    (icao j now : ℕ) (m : List (ℕ × ℕ))
    → may_forward now (find j m) ≡ true
    → j ≡ icao
    → now < 2 ^ 64
    → Remembers icao now (prune_adsb_throttle now (noted (may_forward now (find j m)) j now m)) now
sent_remembered icao j now m p e b = rw p (
    prune_keeps icao now now now (assign j now m)
      (subst (λ k. find k (assign j now m) ≡ some now) e (find-assign_same j now m)) (omega arith)
      (omega arith) b)

pub noted_keeps :
    (forwards : Bool) (j icao t ts now : ℕ) (m : List (ℕ × ℕ))
    → find icao m ≡ some ts
    → t ≤ ts
    → ts ≤ now
    → now < 2 ^ 64
    → Remembers icao t (prune_adsb_throttle now (noted forwards j now m)) now
noted_keeps false j icao t ts now m f h le b = prune_keeps icao t ts now m f h le b
noted_keeps true j icao t ts now m f h le b = elim (Bool-cases (j == icao)) [
  | inl e ↦
      prune_keeps icao t now now (assign j now m)
        (subst (λ k. find k (assign j now m) ≡ some now) ((nat_eq.beq_iff j icao).0 e)
          (find-assign_same j now m))
        (omega (arith, h, le)) (omega arith) b
  | inr e ↦ prune_keeps icao t ts now (assign j now m) (find-assign_other j icao now m e ∙ f) h le b
]

-- A report that is sent comes an interval after the one remembered, and is remembered.
pub record Sent (icao : ℕ) (a : Answers) (d d' : Dispatcher) : Type 0 where
  pub spaced :
      (t before : ℕ)
      → Remembers icao t d.adsb_last_forwarded_ms before
      → before ≤ a.now_ms
      → a.now_ms < 2 ^ 64
      → t + adsb_forward_interval_ms ≤ a.now_ms
  pub remembered : a.now_ms < 2 ^ 64 → Remembers icao a.now_ms d'.adsb_last_forwarded_ms a.now_ms

pub allowed_spaced :
    (icao t before now : ℕ) (m : List (ℕ × ℕ))
    → Remembers icao t m before
    → before ≤ now
    → now < 2 ^ 64
    → may_forward now (find icao m) ≡ true
    → t + adsb_forward_interval_ms ≤ now
allowed_spaced icao t before now m (old h) le b p = omega (arith, h, le)
allowed_spaced icao t before now m (entry ts f h u) le b p =
    waited now ts t h (omega (arith, u, le)) b
      (subst (λ (o : Option ℕ). may_forward now o ≡ true) f p)
