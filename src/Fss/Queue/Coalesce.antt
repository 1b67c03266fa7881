-- ===== src/Fss/Queue/Coalesce.antt =====
-- A backlog of positions cannot build up: src/fss/fss.cpp.
use fss_smm_mav.Fss.Queue.{
  is_position, without_positions, enqueue, turn_of, worker_turn, stop_worker, start_worker, Worker,
  FssTask,
}
use fss_smm_mav.Fss.Queue.Order.{after_turn, after_queue, QueueEvent, queued, turn, stopped}
use fss_smm_mav.Prelude.{
  ℕ, suc, ◌+◌, ◌≤◌, ◌≡◌, refl, sym, subst, inl, inr, Bool, true, false, List, [], ◌∷◌, ◌++◌, arith,
  if◌then◌else◌, Bool-cases,
}
use fss_smm_mav.Prelude.Conserve.{final}

suc_if :
    (b : Bool) (m n k : ℕ) → m ≡ n + k → (if b then suc m else m) ≡ (if b then suc n else n) + k
suc_if true m n k e = omega (arith, e)
suc_if false m n k e = e

rest_of_if : (b : Bool) (n : ℕ) → (if b then suc n else n) ≤ 1 → n ≤ 1
rest_of_if true n h = omega (arith, h)
rest_of_if false n h = h

module _ {Ack : Type 0} where
  abbrev pub positions : List (FssTask Ack) → ℕ
  positions [] = 0
  positions (t ∷ ts) = let rest = positions ts in if is_position t then suc rest else rest

  positions_without : (xs : List (FssTask Ack)) → positions (without_positions xs) ≡ 0
  positions_without [] = refl
  positions_without (t ∷ ts) = elim (Bool-cases (is_position t)) [
    | inl e ↦ rw e (positions_without ts)
    | inr e ↦ simp e (positions_without ts)
  ]

  positions-append :
      (xs ys : List (FssTask Ack)) → positions (xs ++ ys) ≡ positions xs + positions ys
  positions-append [] ys = omega arith
  positions-append (t ∷ ts) ys =
      suc_if (is_position t) (positions (ts ++ ys)) (positions ts) (positions ys)
        (positions-append ts ys)

  enqueue-positions :
      (b : Bool) (t : FssTask Ack) (q : List (FssTask Ack))
      → is_position t ≡ b
      → positions q ≤ 1
      → positions ((if b then without_positions q else q) ++ t ∷ []) ≤ 1
  enqueue-positions true t q e h =
      rw (positions-append (without_positions q) (t ∷ []), positions_without q, e) (omega arith)
  enqueue-positions false t q e h = rw (positions-append q (t ∷ []), e) (omega (arith, h))

  turn-positions :
      (q : List (FssTask Ack)) (running : Bool) (w : Worker Ack)
      → w.task_queue ≡ q
      → positions q ≤ 1
      → positions (after_turn w (turn_of q running)).0.task_queue ≤ 1
  turn-positions [] true w e h = subst (λ x. positions x ≤ 1) (sym e) h
  turn-positions [] false w e h = subst (λ x. positions x ≤ 1) (sym e) h
  turn-positions (t ∷ ts) running w e h = rest_of_if (is_position t) (positions ts) h

  after_queue-positions :
      (w : Worker Ack) (e : QueueEvent Ack)
      → positions w.task_queue ≤ 1
      → positions (after_queue w e).0.task_queue ≤ 1
  unfolding enqueue worker_turn stop_worker
  after_queue-positions w (queued t) h = enqueue-positions (is_position t) t w.task_queue refl h
  after_queue-positions w turn h = turn-positions w.task_queue w.worker_running w refl h
  after_queue-positions w stopped h = h

  run-positions :
      (w : Worker Ack) (es : List (QueueEvent Ack))
      → positions w.task_queue ≤ 1
      → positions (final after_queue w es).task_queue ≤ 1
  run-positions w [] h = h
  run-positions w (e ∷ es) h = run-positions (after_queue w e).0 es (after_queue-positions w e h)

  -- At no time does more than one position report wait to be sent, however long a send takes.
  pub one_position_waits :
      (es : List (QueueEvent Ack)) → positions (final after_queue start_worker es).task_queue ≤ 1
  unfolding start_worker
  one_position_waits es = run-positions start_worker es (omega arith)
