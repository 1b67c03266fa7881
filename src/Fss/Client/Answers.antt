-- ===== src/Fss/Client/Answers.antt =====
-- Every copy of a command gets its acks: src/fss/fss-client-ssl.cpp.
use mathlib.Core.List.{Perm, append-nil}
use mathlib.Core.List.Perm
use fss_smm_mav.Fss.AckGroup.{
  init, on_delivery, resolve, Group, DeliveryResult, Disposition, actuate, already_resolved,
  pending, stale_superseded,
}
use fss_smm_mav.Fss.AckGroup.Conservation.{on_delivery-IsBalanced, resolve-IsBalanced}
use fss_smm_mav.Fss.AckGroup.Events.{due_of}
use fss_smm_mav.Fss.Client.{
  fss_command_of, has_valid_target, copy_of, delivery_of, send_command_ack, ack_pending, ack_stale,
  ack_each, resolved_acks, dispose, deliver, handle_actionable, handle_command_from, respond,
  Transport, AssetMessage, PendingCommandAck, CommandAck,
}
use fss_smm_mav.Fss.Client.Cached.{is_cached, on_delivery-IsCached}
use fss_smm_mav.Fss.CommandAck.{
  fss_command_ack_outcome_for, stale_command_ack_outcome, stale_command_ack_reason,
  fss_command_ack_reason_for, AckOutcome, command_ack_received, command_ack_rejected, AckReason,
  supersede_none,
}
use fss_smm_mav.Prelude.{
  ℕ, ◌≡◌, refl, ap, ◌∙◌, inl, inr, Bool, true, false, Option, none, some, List, [], ◌∷◌, ◌++◌,
  arith, if◌then◌else◌, Bool-cases,
}
use fss_smm_mav.Prelude.Conserve.{final, outgoing, incoming, run_conserves}
use fss_smm_mav.Types.{FssCommandResolution, FssCommand}

-- The calls on the client that concern commands, in the order in which the group's mutex admits them.
pub data ClientEvent (Conn : Type 0) : Type 0 where
  arrived : AssetMessage Conn → ClientEvent Conn
  resolution_of : ℕ → FssCommandResolution → ClientEvent Conn

abbrev pub is_received : AckOutcome → Bool
is_received command_ack_received = true
is_received _ = false

module _ {Conn : Type 0} where
  -- The copies that the acks are for, but the acks of receipt.
  abbrev pub answered : List (CommandAck Conn) → List (PendingCommandAck Conn)
  answered [] = []
  answered (a ∷ acks) =
      let rest = answered acks in if is_received a.outcome then rest else a.target ∷ rest

  abbrev pub arrivals : ClientEvent Conn → List (PendingCommandAck Conn)
  arrivals (arrived msg) = copy_of msg ∷ []
  arrivals (resolution_of epoch res) = []

  -- Every connection is there and has the feature.
  pub record IsListening (tr : Transport Conn) : Type 0 where
    pub alive : (c : Conn) → tr.is_alive c ≡ true
    pub has_ack : (c : Conn) → tr.has_command_ack c ≡ true

module _ {Conn : Type 0} (tr : Transport Conn) where
  abbrev pub after_client :
      Group (PendingCommandAck Conn)
      → ClientEvent Conn
      → Group (PendingCommandAck Conn) × List (PendingCommandAck Conn)
  after_client g (arrived msg) =
      let (g', acks, report) = handle_command_from tr g msg in (g', answered acks)
  after_client g (resolution_of epoch res) =
      let (g', acks) = respond tr g epoch res in (g', answered acks)

  sent :
      (t : PendingCommandAck Conn) (o : AckOutcome) (r : AckReason)
      → IsListening tr
      → send_command_ack tr t o r ≡ record { target = t; outcome = o; reason = r } ∷ []
  unfolding send_command_ack
  sent t o r l = simp (l.alive t.conn, l.has_ack t.conn) refl

  ack_stale-answered :
      (t : PendingCommandAck Conn) → IsListening tr → answered (ack_stale tr t) ≡ t ∷ []
  unfolding ack_stale
  ack_stale-answered t l = rw (sent t stale_command_ack_outcome stale_command_ack_reason l) refl

  outcome_not_received :
      (res : FssCommandResolution) → is_received (fss_command_ack_outcome_for res) ≡ false
  unfolding fss_command_ack_outcome_for
  outcome_not_received res = ground arith

  ack_pending-answered :
      (res : FssCommandResolution) (t : PendingCommandAck Conn)
      → IsListening tr
      → answered (ack_pending tr res t) ≡ t ∷ []
  unfolding ack_pending
  ack_pending-answered res t l =
      rw
        (
          sent t (fss_command_ack_outcome_for res) (fss_command_ack_reason_for res) l,
          outcome_not_received res,
        )
        refl

  cons_if :
      (b : Bool) (x : PendingCommandAck Conn) (xs ys zs : List (PendingCommandAck Conn))
      → xs ≡ ys ++ zs
      → (if b then xs else x ∷ xs) ≡ (if b then ys else x ∷ ys) ++ zs
  cons_if true x xs ys zs e = e
  cons_if false x xs ys zs e = ap (◌∷◌ x) e

  cached_ack :
      (o : Option FssCommandResolution) (t : PendingCommandAck Conn)
      → IsListening tr
      → is_cached already_resolved o ≡ true
      → answered (resolved_acks tr o t) ≡ t ∷ []
  cached_ack (some res) t l c = ack_pending-answered res t l
  cached_ack none t l c = cc

  answered-append :
      (xs ys : List (CommandAck Conn)) → answered (xs ++ ys) ≡ answered xs ++ answered ys
  answered-append [] ys = refl
  answered-append (a ∷ xs) ys =
      cons_if (is_received a.outcome) a.target (answered (xs ++ ys)) (answered xs) (answered ys)
        (answered-append xs ys)

  ack_each-answered :
      (f : PendingCommandAck Conn → List (CommandAck Conn)) (ts : List (PendingCommandAck Conn))
      → ((t : PendingCommandAck Conn) → answered (f t) ≡ t ∷ [])
      → answered (ack_each tr f ts) ≡ ts
  ack_each-answered f [] h = refl
  ack_each-answered f (t ∷ ts) h =
      answered-append (f t) (ack_each tr f ts) ∙ rw (h t) (ap (◌∷◌ t) (ack_each-answered f ts h))

  dispose-answered :
      (cmd : FssCommand) (msg : AssetMessage Conn) (o : Disposition)
      (r : DeliveryResult (PendingCommandAck Conn))
      → IsListening tr
      → is_cached o r.resolution ≡ true
      → answered (dispose tr cmd msg o r).0 ≡ due_of o (copy_of msg) r.superseded
  unfolding dispose
  dispose-answered cmd msg pending r l c = refl
  dispose-answered cmd msg already_resolved r l c = cached_ack r.resolution (copy_of msg) l c
  dispose-answered cmd msg stale_superseded r l c = ack_stale-answered (copy_of msg) l
  dispose-answered cmd msg actuate r l c =
      ack_each-answered (ack_stale tr) r.superseded (λ t. ack_stale-answered t l)

  deliver-Balanced :
      (cmd : FssCommand) (g : Group (PendingCommandAck Conn)) (msg : AssetMessage Conn)
      → IsListening tr
      → Perm
          (answered (deliver tr g msg cmd).1 ++ (deliver tr g msg cmd).0.waiting)
          (copy_of msg ∷ g.waiting)
  unfolding deliver
  deliver-Balanced cmd g msg l =
      let d = delivery_of tr msg in
      let r = (on_delivery g d).1 in
      rw (dispose-answered cmd msg r.disposition r l (on_delivery-IsCached g d))
        (on_delivery-IsBalanced g d)

  handle_actionable-Balanced :
      (o : Option FssCommand) (g : Group (PendingCommandAck Conn)) (msg : AssetMessage Conn)
      → IsListening tr
      → Perm
          (answered (handle_actionable tr o g msg).1 ++ (handle_actionable tr o g msg).0.waiting)
          (copy_of msg ∷ g.waiting)
  unfolding handle_actionable
  handle_actionable-Balanced none g msg l =
      rw (sent (copy_of msg) command_ack_rejected supersede_none l)
        (Perm.refl (copy_of msg ∷ g.waiting))
  handle_actionable-Balanced (some cmd) g msg l =
      elim (Bool-cases (has_valid_target msg.command msg.latitude msg.longitude)) [
        | inl v ↦ rw v (deliver-Balanced cmd g msg l)
        | inr v ↦
            rw (v, sent (copy_of msg) command_ack_rejected supersede_none l)
              (Perm.refl (copy_of msg ∷ g.waiting))
      ]

  handle-Balanced :
      (g : Group (PendingCommandAck Conn)) (e : ClientEvent Conn)
      → IsListening tr
      → Perm ((after_client g e).1 ++ (after_client g e).0.waiting) (arrivals e ++ g.waiting)
  unfolding handle_command_from respond
  handle-Balanced g (arrived msg) l =
      rw (sent (copy_of msg) command_ack_received supersede_none l)
        (handle_actionable-Balanced (fss_command_of msg.command) g msg l)
  handle-Balanced g (resolution_of epoch res) l =
      rw
        (ack_each-answered (ack_pending tr res) (resolve g epoch res).1
          (λ t. ack_pending-answered res t l))
        (resolve-IsBalanced g epoch res)

  -- While every connection is there and has negotiated acks: in any order of copies and resolutions,
  -- the copies answered so far, other than by the ack of receipt, and the copies still waiting are
  -- together exactly the copies that arrived. So no copy is answered twice, and none is dropped.
  pub every_copy_is_answered_once :
      (tolerance_ms : ℕ) (es : List (ClientEvent Conn))
      → IsListening tr
      → Perm
          (outgoing after_client (init tolerance_ms) es
            ++ (final after_client (init tolerance_ms) es).waiting)
          (incoming arrivals es)
  unfolding init
  every_copy_is_answered_once tolerance_ms es l = rw (← append-nil (incoming arrivals es)) (
      run_conserves after_client arrivals (λ g. g.waiting) (λ g e. handle-Balanced g e l)
        (init tolerance_ms) es)
