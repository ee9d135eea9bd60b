-- ===== src/Task/Lifecycle.antt =====
-- The state machine of a task's status (src/core/Task.cpp).
use axon_queue.Prelude.{
  ℕ, String, List, [], ◌∷◌, ◌≡◌, refl, sym, subst, ◌∙◌, ◌≢◌, ◌⊎◌, inl, inr, arith, ◌<◌, ◌≤◌,
}
use axon_queue.Task.{
  Task, TaskStatus, TaskPtr, created, queued, running, completed, failed, cancelled, mark_queued,
  mark_started, mark_completed, mark_failed, cancel, set_max_retries, add_dependency,
}

-- The calls that a client can make on a task, but for `fromJson`, which overwrites all fields.
pub data Call : Type 0 where
  queues starts completes cancels : Call
  fails : String → Call
  sets_max_retries : ℕ → Call
  depends : TaskPtr → Call

unfoldable pub apply : ℕ → Call → Task → Task
apply now queues t = mark_queued now t
apply now starts t = mark_started now t
apply now completes t = mark_completed now t
apply now cancels t = cancel now t
apply now (fails error) t = mark_failed now error t
apply now (sets_max_retries n) t = set_max_retries n t
apply now (depends p) t = add_dependency p t

-- The edges of the status graph: where a call takes a task. A failure with a retry left makes the
-- task `created` again.
pub data Edge : Call → Task → TaskStatus → Type 0 where
  queue : {t : Task} → t.status ≡ created → Edge queues t queued
  start : {t : Task} → t.status ≡ queued → Edge starts t running
  complete : {t : Task} → t.status ≡ running → Edge completes t completed
  fail :
      {t : Task} {error : String}
      → t.status ≡ running
      → t.max_retries ≤ t.retry_count
      → Edge (fails error) t failed
  again :
      {t : Task} {error : String}
      → t.status ≡ running
      → t.retry_count < t.max_retries
      → Edge (fails error) t created
  withdraw :
      {t : Task}
      → t.status ≢ completed
      → t.status ≢ failed
      → t.status ≢ cancelled
      → Edge cancels t cancelled

abbrev pub Moves : Call → Task → TaskStatus → Type 0
Moves c t s' = Edge c t s' ⊎ ((s' ≡ t.status) × ((s : TaskStatus) → ¬ Edge c t s))

-- The statuses that no call leaves.
abbrev pub IsFinal : TaskStatus → Type 0
IsFinal s = (s ≡ completed) ⊎ (s ≡ failed) ⊎ (s ≡ cancelled)

-- Where each call has an edge from.
queues-source : {t : Task} {s : TaskStatus} → Edge queues t s → t.status ≡ created
queues-source (queue e) = e

starts-source : {t : Task} {s : TaskStatus} → Edge starts t s → t.status ≡ queued
starts-source (start e) = e

completes-source : {t : Task} {s : TaskStatus} → Edge completes t s → t.status ≡ running
completes-source (complete e) = e

fails-source :
    {t : Task} {error : String} {s : TaskStatus} → Edge (fails error) t s → t.status ≡ running
fails-source (fail e l) = e
fails-source (again e l) = e

cancels-source :
    {t : Task} {s : TaskStatus}
    → Edge cancels t s
    → (t.status ≢ completed) × (t.status ≢ failed) × (t.status ≢ cancelled)
cancels-source (withdraw a b c) = (a, b, c)

no_queue : (t : Task) → t.status ≢ created → (s : TaskStatus) → ¬ Edge queues t s
no_queue t n s e = n (queues-source e)

no_start : (t : Task) → t.status ≢ queued → (s : TaskStatus) → ¬ Edge starts t s
no_start t n s e = n (starts-source e)

no_complete : (t : Task) → t.status ≢ running → (s : TaskStatus) → ¬ Edge completes t s
no_complete t n s e = n (completes-source e)

no_fail :
    (t : Task) (error : String) → t.status ≢ running → (s : TaskStatus) → ¬ Edge (fails error) t s
no_fail t error n s e = n (fails-source e)

no_withdraw : (t : Task) → IsFinal t.status → (s : TaskStatus) → ¬ Edge cancels t s
no_withdraw t f s e =
    let (a, b, c) = cancels-source e in
    elim f [ inl x ↦ a x | inr (inl x) ↦ b x | inr (inr x) ↦ c x ]

to_queued : (t : Task) → t.status ≡ created → Edge queues t queued
to_queued t = queue

to_running : (t : Task) → t.status ≡ queued → Edge starts t running
to_running t = start

to_completed : (t : Task) → t.status ≡ running → Edge completes t completed
to_completed t = complete

to_failed :
    (t : Task) (error : String)
    → t.status ≡ running
    → t.max_retries ≤ t.retry_count
    → Edge (fails error) t failed
to_failed t error = fail

to_created :
    (t : Task) (error : String)
    → t.status ≡ running
    → t.retry_count < t.max_retries
    → Edge (fails error) t created
to_created t error = again

to_cancelled :
    (t : Task)
    → t.status ≢ completed
    → t.status ≢ failed
    → t.status ≢ cancelled
    → Edge cancels t cancelled
to_cancelled t = withdraw

mark_queued-Moves : (now : ℕ) (t : Task) → Moves queues t (mark_queued now t).status
unfolding mark_queued
mark_queued-Moves now t = ground (arith, to_queued t, no_queue t)

mark_started-Moves : (now : ℕ) (t : Task) → Moves starts t (mark_started now t).status
unfolding mark_started
mark_started-Moves now t = ground (arith, to_running t, no_start t)

mark_completed-Moves : (now : ℕ) (t : Task) → Moves completes t (mark_completed now t).status
unfolding mark_completed
mark_completed-Moves now t = ground (arith, to_completed t, no_complete t)

mark_failed-Moves :
    (now : ℕ) (error : String) (t : Task) → Moves (fails error) t (mark_failed now error t).status
unfolding mark_failed
mark_failed-Moves now error t =
    ground (arith, to_failed t error, to_created t error, no_fail t error)

cancel-Moves : (now : ℕ) (t : Task) → Moves cancels t (cancel now t).status
unfolding cancel
cancel-Moves now t = ground (arith, to_cancelled t, no_withdraw t)

no_retries : (n : ℕ) (t : Task) (s : TaskStatus) → ¬ Edge (sets_max_retries n) t s
no_retries n t s e = elim e [ ]

no_depends : (p : TaskPtr) (t : Task) (s : TaskStatus) → ¬ Edge (depends p) t s
no_depends p t s e = elim e [ ]

-- Each call takes a task along its own edge of the graph, and keeps the status only if it has no
-- edge from there.
pub apply-Moves : (now : ℕ) (c : Call) (t : Task) → Moves c t (apply now c t).status
unfolding apply set_max_retries add_dependency
apply-Moves now queues t = mark_queued-Moves now t
apply-Moves now starts t = mark_started-Moves now t
apply-Moves now completes t = mark_completed-Moves now t
apply-Moves now cancels t = cancel-Moves now t
apply-Moves now (fails error) t = mark_failed-Moves now error t
apply-Moves now (sets_max_retries n) t = inr (refl, no_retries n t)
apply-Moves now (depends p) t = inr (refl, no_depends p t)

-- A final status admits no edge.
IsFinal-no_edge : {c : Call} {t : Task} {s' : TaskStatus} → Edge c t s' → ¬ IsFinal t.status
IsFinal-no_edge (queue e) f = ground (arith, e, f)
IsFinal-no_edge (start e) f = ground (arith, e, f)
IsFinal-no_edge (complete e) f = ground (arith, e, f)
IsFinal-no_edge (fail e l) f = ground (arith, e, f)
IsFinal-no_edge (again e l) f = ground (arith, e, f)
IsFinal-no_edge (withdraw a b c) f = ground (arith, a, b, c, f)

unfoldable pub apply_all : List (ℕ × Call) → Task → Task
apply_all [] t = t
apply_all ((now, c) ∷ cs) t = apply_all cs (apply now c t)

-- Once a task is completed, failed or cancelled, no sequence of the calls of `Call` (markQueued,
-- markStarted, markCompleted, markFailed, cancel, setMaxRetries, addDependency; not fromJson)
-- changes its status.
pub apply_all-final :
    (cs : List (ℕ × Call)) (t : Task) → IsFinal t.status → (apply_all cs t).status ≡ t.status
unfolding apply_all
apply_all-final [] t f = refl
apply_all-final ((now, c) ∷ cs) t f = elim (apply-Moves now c t) [
  | inl edge ↦ absurd (IsFinal-no_edge edge f)
  | inr (same, _) ↦ apply_all-final cs (apply now c t) (subst IsFinal (sym same) f) ∙ same
]

-- A task that no call has queued or started cannot complete: starting and completing a task whose
-- status is `created` does nothing.
unqueued_start :
    (now later : ℕ) (t : Task) → t.status ≡ created → mark_completed later (mark_started now t) ≡ t
unfolding mark_started mark_completed
unqueued_start now later t e = ground arith
