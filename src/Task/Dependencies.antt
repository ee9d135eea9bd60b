-- ===== src/Task/Dependencies.antt =====
-- `addDependency` and `areDependenciesMet` of Task.cpp.
use axon_queue.Prelude.{
  ◌≡◌, refl, ◌↔◌, true, Option, some, List, [], ◌∷◌, arith, All, All-split, All-append,
  Option-cases, inl, inr,
}
use axon_queue.Task.{
  Task, TaskPtr, TaskStatus, completed, is_completed, all_completed, are_dependencies_met,
  add_dependency,
}

-- What a weak pointer demands: the task is gone, or it has completed.
abbrev pub IsMet : (TaskPtr → Option Task) → TaskPtr → Type 0
IsMet lock p = (dep : Task) → lock p ≡ some dep → dep.status ≡ completed

is_completed_iff : (s : TaskStatus) → (is_completed s ≡ true) ↔ (s ≡ completed)
is_completed_iff s = ground arith

all_completed_iff :
    (lock : TaskPtr → Option Task) (ps : List TaskPtr)
    → (all_completed lock ps ≡ true) ↔ All (IsMet lock) ps
unfolding all_completed
all_completed_iff lock [] = (λ _. tt, λ _. refl)
all_completed_iff lock (p ∷ ps) = elim (Option-cases (lock p)) [
  | inl gone ↦ ground (arith, all_completed_iff lock ps)
  | inr (dep, found) ↦ (
    λ h. (λ d e. ground arith, (all_completed_iff lock ps).0 (ground arith)),
    λ (met, rest). ground (arith, met dep found, (all_completed_iff lock ps).1 rest),
  )
]

-- `areDependenciesMet` answers true exactly when each of the task's dependencies that still exists
-- has completed.
pub are_dependencies_met_iff :
    (lock : TaskPtr → Option Task) (t : Task)
    → (are_dependencies_met lock t ≡ true) ↔ All (IsMet lock) t.dependencies
unfolding are_dependencies_met
are_dependencies_met_iff lock t = all_completed_iff lock t.dependencies

-- After a dependency is added the task waits for it and for all it waited for before.
are_dependencies_met-add :
    (lock : TaskPtr → Option Task) (p : TaskPtr) (t : Task)
    → (are_dependencies_met lock (add_dependency p t) ≡ true)
      ↔ ((are_dependencies_met lock t ≡ true) × IsMet lock p)
unfolding add_dependency
are_dependencies_met-add lock p t =
    let before = are_dependencies_met_iff lock t in
    let after = are_dependencies_met_iff lock (add_dependency p t) in
    (
      λ h.
          let (old, new) = All-split (IsMet lock) t.dependencies (p ∷ []) (after.0 h) in
          (before.1 old, new.0),
      λ (h, met). after.1 (All-append (IsMet lock) t.dependencies (p ∷ []) (before.0 h) (met, tt)),
    )
