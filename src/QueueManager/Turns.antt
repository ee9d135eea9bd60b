-- ===== src/QueueManager/Turns.antt =====
-- The round-robin mode of QueueManager.cpp: `dequeue` tries every group.
use native.Mathlib.Nat.{mod-lt, mod-eq_of_lt, mod-add-mod, add-mod-mod, add-mod_right}
use axon_queue.Prelude.{
  ℕ, zero, suc, ◌+◌, ◌-◌, ◌%◌, ◌<◌, ◌≤◌, ◌≡◌, ◌≢◌, refl, sym, ap, ◌∙◌, true, Option, none, some,
  List, [], ◌∷◌, arith, inl, inr, Option-cases, length, get_elem?, is_some, inc64, u64_mod,
  string_eq,
}
use axon_queue.Prelude.Dict.{find}
use axon_queue.Task.{TaskPtr}
use axon_queue.Queues.Family.{Group, Family, take_from}
use axon_queue.QueueManager.{
  QueueManager, round_robin, name_at, next_group_of, get_next_round_robin_group, get_task_from_fifo,
  round_robin_loop, get_task_round_robin, take_in, take_next, dequeue, size,
}
use axon_queue.QueueManager.Stored.{round}
use axon_queue.QueueManager.Order.{dequeue-take_next}

-- The place that the loop reaches from `i` to be at `j`.
abbrev turns_to : (i j len : ℕ) → ℕ
turns_to i j len = (j + (len - i % len)) % len

turns_to-reaches : (i j len : ℕ) → j < len → (i + turns_to i j len) % len ≡ j
turns_to-reaches i j len h =
    let at : i % len < len = mod-lt i (omega (arith, h)) in
    add-mod-mod i (j + (len - i % len)) len
    ∙ (sym (mod-add-mod i len (j + (len - i % len)))
        ∙ (ap (λ n. n % len) (omega (arith, at)) ∙ (add-mod_right j len ∙ mod-eq_of_lt h)))

next_group_of_lem :
    (names : List Group) (m : QueueManager)
    → names ≢ []
    → next_group_of names m ≡ (
      name_at names (m.current_group_index % length names),
      record m { current_group_index = inc64 m.current_group_index },
    )
unfolding next_group_of
next_group_of_lem [] m n = absurd (n refl)
next_group_of_lem (x ∷ xs) m n = refl

take_from-none : (g : Group) (q : Family TaskPtr) → (take_from g q).0 ≡ none → (take_from g q).1 ≡ q
unfolding take_from
take_from-none g q h = elim (Option-cases (find g q)) [
  | inl e ↦ rw (e, take_from) refl
  | inr ([], e) ↦ rw (e, take_from) refl
  | inr (x ∷ xs, e) ↦
      let s : (take_from g q).0 ≡ some x = rw (e, take_from) refl in absurd (ground (arith, s, h))
]

abbrev turned : QueueManager → QueueManager
turned m = record m { current_group_index = inc64 m.current_group_index }

-- A round that takes nothing.
round-none :
    (m : QueueManager)
    → m.group_names ≢ []
    → (round m).0 ≡ none
    → ((take_from
          (name_at m.group_names (m.current_group_index % length m.group_names))
          m.fifo_queues).0
        ≡ none)
      × ((round m).1 ≡ turned m)
unfolding get_task_from_fifo get_next_round_robin_group
round-none m n h =
    let g = name_at m.group_names (m.current_group_index % length m.group_names) in
    let e : round m ≡ get_task_from_fifo g (turned m) =
      ap {B = Option TaskPtr × QueueManager} (λ r. get_task_from_fifo r.0 r.1)
        (next_group_of_lem m.group_names m n) in
    let empty : (take_from g m.fifo_queues).0 ≡ none =
      sym (ap (λ (r : Option TaskPtr × QueueManager). r.0) e) ∙ h in
    (
      empty,
      ap (λ (r : Option TaskPtr × QueueManager). r.1) e
          ∙ ap {A = Family TaskPtr} {B = QueueManager} (λ q. record (turned m) { fifo_queues = q })
              (take_from-none g m.fifo_queues empty),
    )

loop_taken :
    (n : ℕ) (m : QueueManager) (p : TaskPtr)
    → (round m).0 ≡ some p
    → (round_robin_loop (suc n) m).0 ≡ some p
unfolding round_robin_loop
loop_taken n m p e = rw (e, round_robin_loop) refl

loop_passed :
    (n : ℕ) (m : QueueManager)
    → (round m).0 ≡ none
    → (round_robin_loop (suc n) m).0 ≡ (round_robin_loop n (round m).1).0
unfolding round_robin_loop
loop_passed n m e = rw (e, round_robin_loop) refl

-- The first turn, or a turn of the rest of the loop.
loop-none_step :
    (n : ℕ) (m : QueueManager) (k : ℕ) (tried : ℕ → Option TaskPtr)
    → tried m.current_group_index ≡ none
    → m.current_group_index + suc n ≤ u64_mod
    → k < suc n
    → ((j : ℕ)
        → j < n
        → inc64 m.current_group_index + n ≤ u64_mod
        → tried (inc64 m.current_group_index + j) ≡ none)
    → tried (m.current_group_index + k) ≡ none
loop-none_step n m zero tried empty room low rest = ap tried (omega arith) ∙ empty
loop-none_step n m (suc k) tried empty room low rest =
    ap tried (omega (arith, room, low)) ∙ rest k (omega (arith, low)) (omega (arith, room, low))

-- When the loop takes nothing, no group whose turn came has a task.
loop-none :
    (n : ℕ) (m : QueueManager) (k : ℕ)
    → m.group_names ≢ []
    → (round_robin_loop n m).0 ≡ none
    → m.current_group_index + n ≤ u64_mod
    → k < n
    → (take_from
        (name_at m.group_names ((m.current_group_index + k) % length m.group_names))
        m.fifo_queues).0
      ≡ none
loop-none zero m k names h room low = absurd (omega (arith, low))
loop-none (suc n) m k names h room low =
    let tried =
      λ (i : ℕ). (take_from (name_at m.group_names (i % length m.group_names)) m.fifo_queues).0 in
    elim (Option-cases (round m).0) [
      | inr (p, e) ↦ absurd (ground (arith, loop_taken n m p e, h))
      | inl e ↦
          let (empty, next) = round-none m names e in
          let rest : (round_robin_loop n (turned m)).0 ≡ none =
            ap (λ x. (round_robin_loop n x).0) (sym next) ∙ (sym (loop_passed n m e) ∙ h) in
          loop-none_step n m k tried empty room low
            (λ j l w. loop-none n (turned m) j names rest w l)
    ]

get_elem?-bound :
    (names : List Group) (j : ℕ) (g : Group) → get_elem? names j ≡ some g → j < length names
get_elem?-bound [] j g e = absurd (ground (arith, e))
get_elem?-bound (x ∷ xs) zero g e = omega arith
get_elem?-bound (x ∷ xs) (suc j) g e = omega (arith, get_elem?-bound xs j g e)

not_nil : (names : List Group) (j : ℕ) → j < length names → names ≢ []
not_nil names j h e = omega (arith, h, ap length e)

take_from-some :
    (g : Group) (q : Family TaskPtr) (x : TaskPtr) (xs : List TaskPtr)
    → find g q ≡ some (x ∷ xs)
    → (take_from g q).0 ≡ some x
unfolding take_from
take_from-some g q x xs e = rw (e, take_from) refl

-- In the round-robin mode, as long as the index of the next group does not wrap around in the call:
-- if a group that has been given has a task in its queue and the size is not 0, `dequeue` hands
-- out a task.
pub dequeue_turns :
    (now : ℕ) (m : QueueManager) (j : ℕ) (group : Group) (x : TaskPtr) (xs : List TaskPtr)
    → m.mode ≡ round_robin
    → size m ≢ 0
    → m.current_group_index + length m.group_names ≤ u64_mod
    → get_elem? m.group_names j ≡ some group
    → find group m.fifo_queues ≡ some (x ∷ xs)
    → is_some (dequeue now m).0 ≡ true
unfolding take_next take_in get_task_round_robin
dequeue_turns now m j group x xs mode n room named queued =
    let len = length m.group_names in
    let low = get_elem?-bound m.group_names j group named in
    let k = turns_to m.current_group_index j len in
    let taken : (dequeue now m).0 ≡ (round_robin_loop len m).0 =
      dequeue-take_next now m n ∙ ap (λ d. (take_in d m).0) mode in
    elim (Option-cases (round_robin_loop len m).0) [
      | inr (p, e) ↦ rw (taken ∙ e) refl
      | inl e ↦
          let empty =
            loop-none len m k (not_nil m.group_names j low) e room
              (mod-lt (j + (len - m.current_group_index % len)) (omega (arith, low))) in
          let here : name_at m.group_names ((m.current_group_index + k) % len) ≡ group =
            ap (name_at m.group_names) (turns_to-reaches m.current_group_index j len low)
            ∙ rw (named, name_at) refl in
          let found = take_from-some group m.fifo_queues x xs queued in
          let both : none ≡ some x =
            sym empty ∙ (ap (λ (g : Group). (take_from g m.fifo_queues).0) here ∙ found) in
          absurd (ground (arith, both))
    ]
