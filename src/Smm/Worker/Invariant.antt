-- ===== src/Smm/Worker/Invariant.antt =====
-- What holds of the worker between two of its tasks: src/smm/smm.cpp.
pub mod Run
pub mod Reach
use fss_smm_mav.Prelude.{
  ℕ, ◌+◌, ◌≤◌, ◌≡◌, refl, ap, inl, inr, Bool, true, false, ◌||◌, Option, List, [], ◌∷◌, ◌++◌, arith,
  if◌then◌else◌, Bool-cases,
}
use fss_smm_mav.Smm.Search.{SmmSearch}
use fss_smm_mav.Smm.Worker.{
  is_report, is_retry, without_reports, any_retry, enqueue_task, held_points, queue_task, request,
  requests, publish_search, Smm, SmmTask, connect_task, report_position_task, reached_point_task,
  search_task, retry_pending_task, Request, on_connect, on_search, on_cancel_search,
  on_retry_pending, on_report_position, on_reached_point,
}
use fss_smm_mav.Smm.Worker.Tasks.{next_task, takes_task}
use fss_smm_mav.Smm.Worker.Whole.{IsWhole}

abbrev pub reports : List SmmTask → ℕ
reports [] = 0
reports (t ∷ ts) = (if is_report t then 1 else 0) + reports ts

abbrev pub retries : List SmmTask → ℕ
retries [] = 0
retries (t ∷ ts) = (if is_retry t then 1 else 0) + retries ts

reports-append : (xs ys : List SmmTask) → reports (xs ++ ys) ≡ reports xs + reports ys
reports-append [] ys = omega arith
reports-append (t ∷ ts) ys = omega (arith, reports-append ts ys)

retries-append : (xs ys : List SmmTask) → retries (xs ++ ys) ≡ retries xs + retries ys
retries-append [] ys = omega arith
retries-append (t ∷ ts) ys = omega (arith, retries-append ts ys)

reports-without : (q : List SmmTask) → reports (without_reports q) ≡ 0
reports-without [] = refl
reports-without (t ∷ ts) = elim (Bool-cases (is_report t)) [
  | inl e ↦ simp e (reports-without ts)
  | inr e ↦ simp e (omega (arith, reports-without ts))
]

retries-without : (q : List SmmTask) → retries (without_reports q) ≤ retries q
retries-without [] = omega arith
retries-without (t ∷ ts) = elim (Bool-cases (is_report t)) [
  | inl e ↦ simp e (omega (arith, retries-without ts))
  | inr e ↦ simp e (omega (arith, retries-without ts))
]

or_false : (a b : Bool) → (a || b) ≡ false → (a ≡ false) × (b ≡ false)
or_false true b h = cc
or_false false b h = (refl, h)

any_retry-false : (q : List SmmTask) → any_retry q ≡ false → retries q ≡ 0
any_retry-false [] h = refl
any_retry-false (t ∷ ts) h =
    let none_here = or_false (is_retry t) (any_retry ts) h in
    simp none_here.0 (omega (arith, any_retry-false ts none_here.1))

enqueue-reports : (q : List SmmTask) (t : SmmTask) → reports q ≤ 1 → reports (enqueue_task q t) ≤ 1
unfolding enqueue_task
enqueue-reports q (report_position_task pd) h =
    omega
      (arith, reports-append (without_reports q) (report_position_task pd ∷ []), reports-without q)
enqueue-reports q (connect_task host user pass name) h =
    omega (arith, reports-append q (connect_task host user pass name ∷ []))
enqueue-reports q (reached_point_task n) h =
    omega (arith, reports-append q (reached_point_task n ∷ []))
enqueue-reports q (search_task p) h = omega (arith, reports-append q (search_task p ∷ []))
enqueue-reports q (retry_pending_task p) h = elim (Bool-cases (any_retry q)) [
  | inl e ↦ rw e h
  | inr e ↦ rw e (omega (arith, reports-append q (retry_pending_task p ∷ [])))
]

enqueue-retries : (q : List SmmTask) (t : SmmTask) → retries q ≤ 1 → retries (enqueue_task q t) ≤ 1
unfolding enqueue_task
enqueue-retries q (report_position_task pd) h =
    omega
      (arith, retries-append (without_reports q) (report_position_task pd ∷ []), retries-without q)
enqueue-retries q (connect_task host user pass name) h =
    omega (arith, retries-append q (connect_task host user pass name ∷ []))
enqueue-retries q (reached_point_task n) h =
    omega (arith, retries-append q (reached_point_task n ∷ []))
enqueue-retries q (search_task p) h = omega (arith, retries-append q (search_task p ∷ []))
enqueue-retries q (retry_pending_task p) h = elim (Bool-cases (any_retry q)) [
  | inl e ↦ rw e h
  | inr e ↦ rw e (omega (arith, retries-append q (retry_pending_task p ∷ []), any_retry-false q e))
]

rest-of :
    (q : List SmmTask) (running : Bool) (task : SmmTask) (rest : List SmmTask)
    → next_task q running ≡ takes_task task rest
    → q ≡ task ∷ rest
unfolding next_task
rest-of [] true task rest e = cc
rest-of [] false task rest e = cc
rest-of (t ∷ ts) running task rest e = cc

module _ {Conn Asset Handle : Type 0} where
  -- The cached count is that of the held search, the connection is whole, and at most one report and
  -- one retry wait.
  pub record Inv (s : Smm Conn Asset Handle) : Type 0 where
    pub points : s.current_search_points ≡ held_points s.current_search
    pub whole : IsWhole s.session
    pub one_report : reports s.task_queue ≤ 1
    pub one_retry : retries s.task_queue ≤ 1

  queued-Inv : (s : Smm Conn Asset Handle) (task : SmmTask) → Inv s → Inv (queue_task s task)
  queued-Inv s task h = record {
    points = h.points;
    whole = h.whole;
    one_report = enqueue-reports s.task_queue task h.one_report;
    one_retry = enqueue-retries s.task_queue task h.one_retry;
  }

  role-Inv : (s : Smm Conn Asset Handle) (b : Bool) → Inv s → Inv (record s { search_active = b })
  role-Inv s b h = record {
    points = h.points;
    whole = h.whole;
    one_report = h.one_report;
    one_retry = h.one_retry;
  }

  pub request-Inv : (s : Smm Conn Asset Handle) (r : Request) → Inv s → Inv (request s r)
  unfolding request
  request-Inv s (on_connect host user pass name) h =
      queued-Inv s (connect_task host user pass name) h
  request-Inv s (on_search p) h =
      queued-Inv (record s { search_active = true }) (search_task p) (role-Inv s true h)
  request-Inv s on_cancel_search h = role-Inv s false h
  request-Inv s (on_retry_pending p) h = queued-Inv s (retry_pending_task p) h
  request-Inv s (on_report_position pd) h = queued-Inv s (report_position_task pd) h
  request-Inv s (on_reached_point n) h = queued-Inv s (reached_point_task n) h

  pub requests-Inv : (s : Smm Conn Asset Handle) (rs : List Request) → Inv s → Inv (requests s rs)
  unfolding requests
  requests-Inv s [] h = h
  requests-Inv s (r ∷ rs) h = requests-Inv (request s r) rs (request-Inv s r h)

  pub publish-Inv :
      (s : Smm Conn Asset Handle) (c : Option (SmmSearch Handle)) → Inv s → Inv (publish_search s c)
  unfolding publish_search
  publish-Inv s c h = record {
    points = refl;
    whole = h.whole;
    one_report = h.one_report;
    one_retry = h.one_retry;
  }

  pub retry-Inv :
      (s : Smm Conn Asset Handle) (ts : ℕ) → Inv s → Inv (record s { search_retry_ts = ts })
  retry-Inv s ts h = record {
    points = h.points;
    whole = h.whole;
    one_report = h.one_report;
    one_retry = h.one_retry;
  }

  pub taken-Inv :
      (s : Smm Conn Asset Handle) (task : SmmTask) (rest : List SmmTask)
      → next_task s.task_queue s.worker_running ≡ takes_task task rest
      → Inv s
      → Inv (record s { task_queue = rest })
  taken-Inv s task rest e h =
      let q = rest-of s.task_queue s.worker_running task rest e in
      record {
        points = h.points;
        whole = h.whole;
        one_report = omega (arith, h.one_report, ap reports q);
        one_retry = omega (arith, h.one_retry, ap retries q);
      }
