-- ===== src/Mav/Upkeep/Reports.antt =====
-- What the link's upkeep in src/mav/mavlink.cpp reports, and when it dials again.
use fss_smm_mav.Dispatch.Remembered.{later}
use fss_smm_mav.Mav.Upkeep.{
  edge, heartbeat_pass, heartbeat_received, send_message, connect_to_mav, disconnect_from_mav,
  backoff_ms, tear_down, elapsed_time, try_now, attempt_reconnect, Upkeep,
}
use fss_smm_mav.Prelude.{
  ℕ, ◌+◌, ◌-◌, ◌%◌, ◌^◌, ◌≤◌, ◌<◌, ◌≡◌, refl, sym, subst, ◌∙◌, Bool, true, false, not, ◌||◌, Option,
  none, some, List, [], ◌∷◌, ◌++◌, arith, ltb, if◌then◌else◌,
}
use fss_smm_mav.Types.{MavCommsStatus, ok, failure}

-- What the threads do to the link, in the order in which it happens.
pub data Chore : Type 0 where
  passes hears : (now : ℕ) → Chore
  sends : (taken_by_socket : Bool) → Chore
  reconnects : (now : ℕ) → (dialled : Option ℕ) → Chore

unfoldable pub chore : Chore → Upkeep → Upkeep × List MavCommsStatus
unfolding heartbeat_pass send_message attempt_reconnect
chore (passes now) u = let (v, reports, went_down) = heartbeat_pass now u in (v, reports)
chore (hears now) u = (heartbeat_received now u, [])
chore (sends taken_by_socket) u = ((send_message taken_by_socket u).0, [])
chore (reconnects now dialled) u = (attempt_reconnect now dialled u, [])

unfoldable pub chores : List Chore → Upkeep → Upkeep × List MavCommsStatus
unfolding chore
chores [] u = (u, [])
chores (c ∷ cs) u =
    let (v, reports) = chore c u in let (w, later) = chores cs v in (w, reports ++ later)

-- Reports that each change the status, from the first to the last.
pub data Alternates : Bool → List MavCommsStatus → Bool → Type 0 where
  stays : (b : Bool) → Alternates b [] b
  goes_down :
      {rs : List MavCommsStatus} {e : Bool}
      → Alternates false rs e
      → Alternates true (failure ∷ rs) e
  comes_up :
      {rs : List MavCommsStatus} {e : Bool} → Alternates true rs e → Alternates false (ok ∷ rs) e

append-Alternates :
    {a b e : Bool} {rs ss : List MavCommsStatus}
    → Alternates a rs b
    → Alternates b ss e
    → Alternates a (rs ++ ss) e
append-Alternates (stays b) k = k
append-Alternates (goes_down h) k = goes_down (append-Alternates h k)
append-Alternates (comes_up h) k = comes_up (append-Alternates h k)

edge-Alternates :
    (was up : Bool) (u : Upkeep)
    → u.mav_comms_ok ≡ was
    → Alternates was (edge was up u).1 (edge was up u).0.mav_comms_ok
edge-Alternates true true u h = subst (Alternates true []) (sym h) (stays true)
edge-Alternates false false u h = subst (Alternates false []) (sym h) (stays false)
edge-Alternates false true u h = comes_up (stays true)
edge-Alternates true false u h = goes_down (stays false)

same-Alternates : (b e : Bool) → e ≡ b → Alternates b [] e
same-Alternates b e h = subst (Alternates b []) (sym h) (stays b)

sent_keeps : (b : Bool) (u : Upkeep) → (send_message b u).0.mav_comms_ok ≡ u.mav_comms_ok
unfolding send_message
sent_keeps b u = ground arith

torn_keeps :
    (b : Bool) (u : Upkeep)
    → (if b then record (disconnect_from_mav u) { broken = false } else u).mav_comms_ok
      ≡ u.mav_comms_ok
torn_keeps true u = refl
torn_keeps false u = refl

dialled_keeps :
    (b : Bool) (now : ℕ) (dialled : Option ℕ) (v : Upkeep) (n : ℕ)
    → (if b then connect_to_mav now dialled (record v { retry_count = n }) else v).mav_comms_ok
      ≡ v.mav_comms_ok
unfolding connect_to_mav
dialled_keeps true now none v n = refl
dialled_keeps true now (some since) v n = refl
dialled_keeps false now dialled v n = refl

reconnect_keeps :
    (now : ℕ) (dialled : Option ℕ) (u : Upkeep)
    → (attempt_reconnect now dialled u).mav_comms_ok ≡ u.mav_comms_ok
unfolding attempt_reconnect
reconnect_keeps now dialled u =
    dialled_keeps (try_now now (tear_down u)) now dialled (tear_down u) _ ∙ torn_keeps u.broken u

chore-Alternates :
    (c : Chore) (u : Upkeep) → Alternates u.mav_comms_ok (chore c u).1 (chore c u).0.mav_comms_ok
unfolding chore heartbeat_pass
chore-Alternates (passes now) u = edge-Alternates u.mav_comms_ok _ u refl
chore-Alternates (hears now) u = stays u.mav_comms_ok
chore-Alternates (sends b) u = same-Alternates _ _ (sent_keeps b u)
chore-Alternates (reconnects now dialled) u = same-Alternates _ _ (reconnect_keeps now dialled u)

-- Whatever happens on the link, and in whatever order: the statuses that are reported alternate, a
-- failure after a recovery and a recovery after a failure, and the last one is the status held.
pub reports_alternate :
    (cs : List Chore) (u : Upkeep)
    → Alternates u.mav_comms_ok (chores cs u).1 (chores cs u).0.mav_comms_ok
unfolding chores
reports_alternate [] u = stays u.mav_comms_ok
reports_alternate (c ∷ cs) u =
    append-Alternates (chore-Alternates c u) (reports_alternate cs (chore c u).0)

below : (m n : ℕ) → m < n → ltb m n ≡ true
below m n h = ground arith

backoff_passed :
    (now last n : ℕ)
    → last + 30000 < now
    → now < 2 ^ 64
    → ltb (backoff_ms n) ((now + 2 ^ 64 - last) % 2 ^ 64) ≡ true
backoff_passed now last n k b =
    let far : 30000 < (now + 2 ^ 64 - last) % 2 ^ 64 = omega (arith, k, b) in
    let near : backoff_ms n ≤ 30000 = ground arith in
    below (backoff_ms n) _ (omega (arith, far, near))

ready_after :
    (b : Bool) (now : ℕ) (u : Upkeep)
    → (b || not u.fd_open) ≡ true
    → ltb (backoff_ms u.retry_count) (elapsed_time now u) ≡ true
    → try_now now (if b then record (disconnect_from_mav u) { broken = false } else u) ≡ true
ready_after true now u h k = k
ready_after false now u h k = rw (h, k) refl

dialled_at :
    (b : Bool) (now : ℕ) (dialled : Option ℕ) (v : Upkeep) (n : ℕ)
    → b ≡ true
    → (if b then connect_to_mav now dialled (record v { retry_count = n }) else v).last_tried ≡ now
unfolding connect_to_mav
dialled_at true now none v n h = refl
dialled_at true now (some since) v n h = refl
dialled_at false now dialled v n h = absurd (ground (arith, h))

-- A pass of the reconnector more than 30 s after the last dial always dials a link that is broken or
-- closed, however many dials have failed.
pub old_link_is_redialled :
    (now : ℕ) (dialled : Option ℕ) (u : Upkeep)
    → (u.broken || not u.fd_open) ≡ true
    → u.last_tried + 30000 < now
    → now < 2 ^ 64
    → (attempt_reconnect now dialled u).last_tried ≡ now
unfolding attempt_reconnect connect_to_mav
old_link_is_redialled now dialled u h k b =
    dialled_at (try_now now (tear_down u)) now dialled (tear_down u) _
      (ready_after u.broken now u h (backoff_passed now u.last_tried u.retry_count k b))
