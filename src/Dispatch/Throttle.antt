-- ===== src/Dispatch/Throttle.antt =====
-- Reports of one address go to the autopilot at least an interval apart: src/event-dispatcher.cpp.
use fss_smm_mav.Dispatch.{
  Event, adsb_forward_interval_ms, may_forward, forward_adsb, dispatch, PositionData, Dispatcher,
  Answers, Action, mav_send_adsb,
}
use fss_smm_mav.Dispatch.Effect.{sends, dispatch-Effect, Effect, quiet, report}
use fss_smm_mav.Dispatch.Remembered.{
  Remembers, entry, old, later, sent_remembered, noted_keeps, allowed_spaced, Sent,
}
use fss_smm_mav.Prelude.{
  ℕ, ◌^◌, ◌≤◌, ◌<◌, ◌≡◌, sym, subst, inl, inr, Bool, true, false, List, [], ◌∷◌, arith, Spaced,
  Separated, ◌==◌, if◌then◌else◌, Bool-cases,
}
use fss_smm_mav.Prelude.Assoc.{nat_eq, find, string_eq}
use fss_smm_mav.Prelude.Double.{le}

module _ (Ack Search : Type 0) where
  forward_keeps :
      (icao t before : ℕ) (a : Answers) (d : Dispatcher) (pd : PositionData)
      → Remembers icao t d.adsb_last_forwarded_ms before
      → before ≤ a.now_ms
      → a.now_ms < 2 ^ 64
      → Remembers icao t
          (forward_adsb {Ack = Ack} {Search = Search} a d pd).0.adsb_last_forwarded_ms
          a.now_ms
  unfolding forward_adsb
  forward_keeps icao t before a d pd (old h) le b = old (omega (arith, h, le))
  forward_keeps icao t before a d pd (entry ts f h u) le b =
      let m = d.adsb_last_forwarded_ms in
      noted_keeps (may_forward a.now_ms (find pd.icaoaddress m)) pd.icaoaddress icao t ts a.now_ms m
        f h (omega (arith, u, le)) b

  sent_facts :
      (icao : ℕ) (forwards : Bool) (pd : PositionData)
      → sends {Ack = Ack} {Search = Search} icao (if forwards then mav_send_adsb pd ∷ [] else [])
        ≡ true
      → (forwards ≡ true) × ((pd.icaoaddress == icao) ≡ true)
  sent_facts icao true pd h = ground arith
  sent_facts icao false pd h = cc

  forward-Sent :
      (icao : ℕ) (a : Answers) (d : Dispatcher) (pd : PositionData)
      → sends {Ack = Ack} {Search = Search} icao (forward_adsb a d pd).1 ≡ true
      → Sent icao a d (forward_adsb {Ack = Ack} {Search = Search} a d pd).0
  unfolding forward_adsb
  forward-Sent icao a d pd h =
      let m = d.adsb_last_forwarded_ms in
      let facts = sent_facts icao (may_forward a.now_ms (find pd.icaoaddress m)) pd h in
      let same = (nat_eq.beq_iff pd.icaoaddress icao).0 facts.1 in
      record {
        spaced = λ t before r le b.
            allowed_spaced icao t before a.now_ms m r le b
              (subst (λ k. may_forward a.now_ms (find k m) ≡ true) same facts.0);
        remembered = λ b. sent_remembered icao pd.icaoaddress a.now_ms m facts.0 same b;
      }

module _ {Ack Search : Type 0} where
  event_remembered :
      (icao t before : ℕ) (a : Answers) (d : Dispatcher) (r : Dispatcher × List (Action Ack Search))
      → Effect icao a d r
      → Remembers icao t d.adsb_last_forwarded_ms before
      → before ≤ a.now_ms
      → a.now_ms < 2 ^ 64
      → Remembers icao t r.0.adsb_last_forwarded_ms a.now_ms
  event_remembered icao t before a d r (quiet q s) m le b =
      subst (λ k. Remembers icao t k a.now_ms) (sym q)
        (later icao t before a.now_ms d.adsb_last_forwarded_ms m le)
  event_remembered icao t before a d r (report pd e) m le b =
      subst
        (λ (x : Dispatcher × List (Action Ack Search)).
          Remembers icao t x.0.adsb_last_forwarded_ms a.now_ms)
        (sym e) (forward_keeps Ack Search icao t before a d pd m le b)

  Effect-Sent :
      (icao : ℕ) (a : Answers) (d : Dispatcher) (r : Dispatcher × List (Action Ack Search))
      → Effect icao a d r
      → sends icao r.1 ≡ true
      → Sent icao a d r.0
  Effect-Sent icao a d r (quiet q s) h = cc
  Effect-Sent icao a d r (report pd e) h =
      subst (λ (x : Dispatcher × List (Action Ack Search)). Sent icao a d x.0) (sym e)
        (forward-Sent Ack Search icao a d pd
          (subst (λ (x : Dispatcher × List (Action Ack Search)). sends icao x.1 ≡ true) e h))

  -- The local times at which reports of the address go to the autopilot.
  abbrev pub sent_times : ℕ → Dispatcher → List (Answers × Event Ack Search) → List ℕ
  sent_times icao d [] = []
  sent_times icao d ((a, e) ∷ es) =
      let rest = sent_times icao (dispatch a d e).0 es in
      if sends icao (dispatch a d e).1 then a.now_ms ∷ rest else rest

  -- The local clock does not go back, and stays within 64 bits.
  abbrev pub ClockRuns : ℕ → List (Answers × Event Ack Search) → Type 0
  ClockRuns t [] = Unit
  ClockRuns t ((a, e) ∷ es) = (t ≤ a.now_ms) × (a.now_ms < 2 ^ 64) × ClockRuns a.now_ms es

  sent_times-Spaced :
      (icao t before : ℕ) (d : Dispatcher) (es : List (Answers × Event Ack Search))
      → Remembers icao t d.adsb_last_forwarded_ms before
      → ClockRuns before es
      → Spaced adsb_forward_interval_ms t (sent_times icao d es)
  sent_times-Spaced icao t before d [] r c = tt
  sent_times-Spaced icao t before d ((a, e) ∷ es) r c =
      let d' = (dispatch a d e).0 in
      let effect = dispatch-Effect icao a d e in
      elim (Bool-cases (sends icao (dispatch a d e).1)) [
        | inl s ↦
            let sent = Effect-Sent icao a d (dispatch a d e) effect s in
            rw s (
              sent.spaced t before r c.0 c.1,
              sent_times-Spaced icao a.now_ms a.now_ms d' es (sent.remembered c.1) c.2,
            )
        | inr s ↦ rw s (
            sent_times-Spaced icao t a.now_ms d' es
              (event_remembered icao t before a d (dispatch a d e) effect r c.0 c.1) c.2)
      ]

  -- While the local clock does not go back and stays below 2 ^ 64: whatever events the queue holds,
  -- and however the throttle is pruned, any two consecutive reports of one address go to the
  -- autopilot an interval apart.
  pub adsb_reports_are_spaced :
      (icao start : ℕ) (d : Dispatcher) (es : List (Answers × Event Ack Search))
      → ClockRuns start es
      → Separated adsb_forward_interval_ms (sent_times icao d es)
  adsb_reports_are_spaced icao start d [] c = tt
  adsb_reports_are_spaced icao start d ((a, e) ∷ es) c =
      let d' = (dispatch a d e).0 in
      elim (Bool-cases (sends icao (dispatch a d e).1)) [
        | inl s ↦
            let sent = Effect-Sent icao a d (dispatch a d e) (dispatch-Effect icao a d e) s in
            rw s (sent_times-Spaced icao a.now_ms a.now_ms d' es (sent.remembered c.1) c.2)
        | inr s ↦ rw s (adsb_reports_are_spaced icao a.now_ms d' es c.2)
      ]
