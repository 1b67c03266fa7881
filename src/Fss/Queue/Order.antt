-- ===== src/Fss/Queue/Order.antt =====
-- What the send worker sends: src/fss/fss.cpp.
use mathlib.Core.List.{append-nil, append_assoc}
use fss_smm_mav.Fss.Queue.{
  is_position, without_positions, enqueue, turn_of, worker_turn, stop_worker, start_worker, Worker,
  FssTask, position_task, reached_task, battery_task, ack_task, Turn, waits, returns, sends_task,
}
use fss_smm_mav.Prelude.{
  ◌≡◌, refl, sym, ap, ◌∙◌, Bool, true, false, List, [], ◌∷◌, ◌++◌, if◌then◌else◌,
}
use fss_smm_mav.Prelude.Conserve.{final, outgoing, incoming}

-- The accesses of the queue, in the order in which its lock admits them.
pub data QueueEvent (Ack : Type 0) : Type 0 where
  queued : FssTask Ack → QueueEvent Ack
  turn stopped : QueueEvent Ack

module _ {Ack : Type 0} where
  abbrev pub after_turn : Worker Ack → Turn Ack → Worker Ack × List (FssTask Ack)
  after_turn w waits = (w, [])
  after_turn w returns = (w, [])
  after_turn w (sends_task t w') = (w', t ∷ [])

  -- The worker after an event, and what it sends.
  abbrev pub after_queue : Worker Ack → QueueEvent Ack → Worker Ack × List (FssTask Ack)
  after_queue w (queued t) = (enqueue w t, [])
  after_queue w turn = after_turn w (worker_turn w)
  after_queue w stopped = (stop_worker w, [])

  abbrev pub tasks : QueueEvent Ack → List (FssTask Ack)
  tasks (queued t) = t ∷ []
  tasks _ = []

  -- Everything but the position reports.
  abbrev pub others : List (FssTask Ack) → List (FssTask Ack)
  others [] = []
  others (position_task t ∷ ts) = others ts
  others (reached_task point total ∷ ts) = reached_task point total ∷ others ts
  others (battery_task remaining consumed voltage ∷ ts) =
      battery_task remaining consumed voltage ∷ others ts
  others (ack_task ack res ∷ ts) = ack_task ack res ∷ others ts

  others-append : (xs ys : List (FssTask Ack)) → others (xs ++ ys) ≡ others xs ++ others ys
  others-append [] ys = refl
  others-append (position_task t ∷ ts) ys = others-append ts ys
  others-append (reached_task point total ∷ ts) ys =
      ap (◌∷◌ (reached_task point total)) (others-append ts ys)
  others-append (battery_task remaining consumed voltage ∷ ts) ys =
      ap (◌∷◌ (battery_task remaining consumed voltage)) (others-append ts ys)
  others-append (ack_task ack res ∷ ts) ys = ap (◌∷◌ (ack_task ack res)) (others-append ts ys)

  -- The erase loop takes none of them.
  others-without_positions : (ts : List (FssTask Ack)) → others (without_positions ts) ≡ others ts
  others-without_positions [] = refl
  others-without_positions (position_task t ∷ ts) = others-without_positions ts
  others-without_positions (reached_task point total ∷ ts) =
      ap (◌∷◌ (reached_task point total)) (others-without_positions ts)
  others-without_positions (battery_task remaining consumed voltage ∷ ts) =
      ap (◌∷◌ (battery_task remaining consumed voltage)) (others-without_positions ts)
  others-without_positions (ack_task ack res ∷ ts) =
      ap (◌∷◌ (ack_task ack res)) (others-without_positions ts)

  kept_others :
      (b : Bool) (xs : List (FssTask Ack))
      → others (if b then without_positions xs else xs) ≡ others xs
  kept_others true xs = others-without_positions xs
  kept_others false xs = refl

  enqueue-others :
      (w : Worker Ack) (t : FssTask Ack)
      → others (enqueue w t).task_queue ≡ others w.task_queue ++ others (t ∷ [])
  unfolding enqueue
  enqueue-others w t =
      others-append (if is_position t then without_positions w.task_queue else w.task_queue)
        (t ∷ [])
      ∙ rw (kept_others (is_position t) w.task_queue) refl

  turn_of-others :
      (q : List (FssTask Ack)) (running : Bool) (w : Worker Ack)
      → w.task_queue ≡ q
      → others (after_turn w (turn_of q running)).1
          ++ others (after_turn w (turn_of q running)).0.task_queue
        ≡ others q
  turn_of-others [] true w e = ap others e
  turn_of-others [] false w e = ap others e
  turn_of-others (t ∷ ts) running w e = sym (others-append (t ∷ []) ts)

  after_queue-others :
      (w : Worker Ack) (e : QueueEvent Ack)
      → others (after_queue w e).1 ++ others (after_queue w e).0.task_queue
        ≡ others w.task_queue ++ others (tasks e)
  unfolding worker_turn stop_worker
  after_queue-others w (queued t) = enqueue-others w t
  after_queue-others w turn =
      turn_of-others w.task_queue w.worker_running w refl ∙ sym (append-nil (others w.task_queue))
  after_queue-others w stopped = sym (append-nil (others w.task_queue))

  run-others :
      (w : Worker Ack) (es : List (QueueEvent Ack))
      → others (outgoing after_queue w es) ++ others (final after_queue w es).task_queue
        ≡ others w.task_queue ++ others (incoming tasks es)
  run-others w [] = sym (append-nil (others w.task_queue))
  run-others w (e ∷ es) =
      let (w', out) = after_queue w e in
      rw
        (
          others-append out (outgoing after_queue w' es),
          others-append (tasks e) (incoming tasks es),
          append_assoc (others out) (others (outgoing after_queue w' es))
              (others (final after_queue w' es).task_queue),
          run-others w' es,
          ← append_assoc (others out) (others w'.task_queue) (others (incoming tasks es)),
          after_queue-others w e,
        )
        (append_assoc (others w.task_queue) (others (tasks e)) (others (incoming tasks es)))

  -- In any order of reports, turns of the worker and its stopping: the reached points, battery reports
  -- and acks that have been sent, followed by those still queued, are exactly those handed over, in
  -- order. The coalescing of positions loses none of them.
  pub others_go_in_order :
      (es : List (QueueEvent Ack))
      → others (outgoing after_queue start_worker es)
          ++ others (final after_queue start_worker es).task_queue
        ≡ others (incoming tasks es)
  unfolding start_worker
  others_go_in_order es = run-others start_worker es
