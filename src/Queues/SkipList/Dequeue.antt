-- ===== src/Queues/SkipList/Dequeue.antt =====
-- `LockFreePriorityQueue::dequeue` takes the first node out of every level it has.
use axon_queue.Prelude.{
  ℕ, zero, suc, ◌≤◌, ◌<◌, ◌≡◌, refl, ◌∙◌, sym, subst, Bool, true, none, some, List, [], ◌∷◌, arith,
  ◌==◌, nat_eq, if◌then◌else◌, inl, inr, Bool-cases, All, ltb, dec64,
}
use axon_queue.Queues.SkipList.{
  Node, Place, place_eq, Next, SkipList, set_next, unlink, unlink_levels, unlinked, finish, dequeue,
}
use axon_queue.Queues.SkipList.Towers.{tower, HasLevel}
use axon_queue.Queues.SkipList.Search.{Chain, AreChains}
use axon_queue.Queues.SkipList.Link.{set_next-here, set_next-apart, set_next-level}
use axon_queue.Queues.SkipList.Insert.{Chain-kept}

-- However often the exchange fails, it ends as one that succeeds at once.
unlink_lem :
    (fails i : ℕ) (x : Node) (next : Next)
    → next none 0 ≡ some x
    → next none i ≡ some x
    → unlink fails i x next ≡ unlinked x (set_next none i (next (some x.address) i) next)
unfolding unlink
unlink_lem zero i x next e h =
    let same : (x.address == x.address) ≡ true = ground arith in rw (h, unlink, same) refl
unlink_lem (suc n) i x next e h = rw (e, unlink) (unlink_lem n i x next e h)

-- What the memory is after the loop: the head points past the node on the levels below `n`.
abbrev IsUnlinked : ℕ → Node → Next → Next → Type 0
IsUnlinked n x next next' =
    ((j : ℕ) → j < n → next' none j ≡ next (some x.address) j)
    × ((q : Place) (j : ℕ) → n ≤ j → next' q j ≡ next q j)
    × ((a j : ℕ) → next' (some a) j ≡ next (some a) j)

unlink_levels_lem :
    (fails : ℕ → ℕ) (n : ℕ) (x : Node) (next : Next)
    → ((j : ℕ) → j < n → next none j ≡ some x)
    → (next' : Next) × (unlink_levels fails n x next ≡ unlinked x next') × IsUnlinked n x next next'
unfolding unlink_levels
unlink_levels_lem fails zero x next h =
    (next, refl, ((λ j low. absurd (omega (arith, low))), (λ q j l. refl), (λ a j. refl)))
unlink_levels_lem fails (suc i) x next h =
    let v = next (some x.address) i in
    let next1 = set_next none i v next in
    let one = unlink_lem (fails i) i x next (h 0 (omega arith)) (h i (omega arith)) in
    let (next', e, (past, above, nodes)) = unlink_levels_lem fails i x next1 (λ j low.
      set_next-level none i v next none j (ground (arith, low)) ∙ h j (omega (arith, low))) in
    let top : next' none i ≡ next (some x.address) i =
      above none i (omega arith) ∙ set_next-here none i v next in
    (
      next',
      rw (one, unlink_levels) e,
      (
        (λ j low. elim (Bool-cases (i == j)) [
          | inl same ↦
              subst (λ k. next' none k ≡ next (some x.address) k) ((nat_eq.agrees i j).0 same) top
          | inr other ↦
              past j (ground (arith, low, other))
              ∙ set_next-apart none i v next (some x.address) j refl
        ]),
        (λ q j l.
            above q j (omega (arith, l)) ∙ set_next-level none i v next q j (ground (arith, l))),
        (λ a j. nodes a j ∙ set_next-apart none i v next (some a) j refl),
      ),
    )

same_nodes :
    (next next' : Next) (j : ℕ)
    → ((a : ℕ) → next' (some a) j ≡ next (some a) j)
    → (xs : List Node) → All (λ (x : Node). next' (some x.address) j ≡ next (some x.address) j) xs
same_nodes next next' j same [] = tt
same_nodes next next' j same (x ∷ xs) = (same x.address, same_nodes next next' j same xs)

module _ (x : Node) (xs : List Node) (next : Next) (c : AreChains next (x ∷ xs)) where
  first_lem :
      (j : ℕ)
      → x.level ≤ 16
      → j < x.level
      → (next none j ≡ some x) × Chain next j (next (some x.address) j) (tower j xs)
  unfolding tower
  first_lem j l low =
      let on : ltb j x.level ≡ true = ground (arith, low) in
      subst (λ (b : Bool). Chain next j (next none j) (if b then x ∷ tower j xs else tower j xs)) on
        (c j (omega (arith, l, low)))

  taken : (next' : Next) → x.level ≤ 16 → IsUnlinked x.level x next next' → AreChains next' xs
  unfolding tower
  taken next' l (past, above, nodes) j low = elim (Bool-cases (ltb j x.level)) [
    | inl on ↦
        let inside : j < x.level = ground (arith, on) in
        Chain-kept next next' j (tower j xs) (next' none j)
          (same_nodes next next' j (λ a. nodes a j) (tower j xs))
          (subst (λ q. Chain next j q (tower j xs)) (sym (past j inside)) (first_lem j l inside).1)
    | inr off ↦
        let outside : x.level ≤ j = ground (arith, off) in
        Chain-kept next next' j (tower j xs) (next' none j)
          (same_nodes next next' j (λ a. nodes a j) (tower j xs))
          (subst (λ q. Chain next j q (tower j xs)) (sym (above none j outside))
            (subst
              (λ (b : Bool). Chain next j (next none j) (if b then x ∷ tower j xs else tower j xs))
              off (c j low)))
  ]

pub dequeue_chains :
    (fails : ℕ → ℕ) (s : SkipList) (x : Node) (xs : List Node)
    → AreChains s.next (x ∷ xs)
    → HasLevel x
    → (next : Next) × (dequeue fails s
        ≡ some (some x.value, record { next = next; size = dec64 s.size }))
      × AreChains next xs
unfolding dequeue finish
dequeue_chains fails s x xs c h =
    let heads : (j : ℕ) → j < x.level → s.next none j ≡ some x =
      λ j low. (first_lem x xs s.next c j h.1 low).0 in
    let (next, e, after) = unlink_levels_lem fails x.level x s.next heads in
    (next, rw (heads 0 (ground (arith, h.0)), e, dequeue) refl, taken x xs s.next c next h.1 after)
