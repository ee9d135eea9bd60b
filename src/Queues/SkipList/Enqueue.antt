-- ===== src/Queues/SkipList/Enqueue.antt =====
-- `LockFreePriorityQueue::enqueue` makes every level the one of the list with the new node placed.
use axon_queue.Prelude.{
  ℕ, ◌≤◌, ◌<◌, ◌≡◌, refl, ap, ◌∙◌, sym, subst, true, false, none, some, List, ◌∷◌, ◌++◌, arith,
  ◌==◌, nat_eq, inl, inr, Bool-cases, All, All-split, ltb, length, length-append, inc64,
}
use axon_queue.Queues.SkipList.{
  Node, Place, place_eq, Next, SkipList, max_level, construct, link_levels, enqueue,
}
use axon_queue.Queues.SkipList.Towers.{
  tower, before, behind, place, before-append-behind, tower-append, All-tower, IsApart, IsDistinct,
  IsDistinct-tower, last_from, HasLevel, IsSorted, All-before, All-behind, tower-top,
}
use axon_queue.Queues.SkipList.Search.{Chain, AreChains, IsFound, search_lem}
use axon_queue.Queues.SkipList.Link.{
  apart_sym, written, IsSafe, link_levels-outside, link_levels-within,
}
use axon_queue.Queues.SkipList.Insert.{
  Chain-kept, none-IsApart, last_from-apart, IsWritten, Chain-insert, construct-kept, construct-All,
  everywhere,
}

module _ (new : Node) (xs : List Node) where
  -- The nodes that are passed over, and the others.
  abbrev passed : List Node
  passed = before new.priority xs

  abbrev others : List Node
  others = behind new.priority xs

  parts : (j : ℕ) → tower j xs ≡ tower j passed ++ tower j others
  parts j = ap (tower j) (sym (before-append-behind new.priority xs)) ∙ tower-append j passed others

  abbrev Levels : Next → Type 0
  Levels next =
      (j : ℕ) → j < max_level → Chain next j (next none j) (tower j passed ++ tower j others)

  constructed :
      (next : Next)
      → AreChains next xs
      → IsApart (some new.address) xs
      → Levels (construct new next)
  constructed next c fresh j l =
      let next' = construct new next in
      subst (Chain next' j (next' none j)) (parts j) (
        subst (λ q. Chain next' j q (tower j xs)) (sym (construct-kept new next none j refl))
          (Chain-kept next next' j (tower j xs) (next none j)
            (construct-All new next j (tower j xs)
              (All-tower (λ x. (some new.address == some x.address) ≡ false) j xs fresh))
            (c j l)))

  linked :
      (next next' : Next) (j : ℕ)
      → IsApart (some new.address) xs
      → IsDistinct xs
      → IsWritten new next next' j (last_from none (tower j passed))
      → ltb j new.level ≡ true
      → Chain next j (next none j) (tower j passed ++ tower j others)
      → Chain next' j (next' none j) (tower j (place new xs))
  unfolding tower
  linked next next' j fresh distinct at on c =
      let whole : tower j (place new xs) ≡ tower j passed ++ new ∷ tower j others =
        tower-append j passed (new ∷ others) ∙ rw on refl in
      subst (Chain next' j (next' none j)) (sym whole) (
        Chain-insert new next next' j none (tower j passed) (tower j others) at
          (subst (IsApart (some new.address)) (parts j)
            (All-tower (λ x. (some new.address == some x.address) ≡ false) j xs fresh))
          refl (none-IsApart (tower j passed ++ tower j others))
          (subst IsDistinct (parts j) (IsDistinct-tower j xs distinct)) c)

  unlinked :
      (next next' : Next) (j : ℕ)
      → ((q : Place) → next' q j ≡ next q j)
      → ltb j new.level ≡ false
      → Chain next j (next none j) (tower j passed ++ tower j others)
      → Chain next' j (next' none j) (tower j (place new xs))
  unfolding tower
  unlinked next next' j same off c =
      let whole : tower j (place new xs) ≡ tower j passed ++ tower j others =
        tower-append j passed (new ∷ others) ∙ rw off refl in
      let all = tower j passed ++ tower j others in
      subst (Chain next' j (next' none j)) (sym whole) (
        subst (λ q. Chain next' j q all) (sym (same none))
          (Chain-kept next next' j all (next none j) (everywhere next next' j same all) c))

  passed-All {κ} : (P : Node → Type κ) → All P xs → All P passed
  passed-All P h =
      (All-split P passed others (subst (All P) (sym (before-append-behind new.priority xs)) h)).0

  -- The new node is not among the places that the search finds.
  safe :
      (fails : ℕ → ℕ) (update : ℕ → Place)
      → new.level ≤ 16
      → IsApart (some new.address) xs
      → IsFound 0 passed update
      → IsSafe fails new update new.level 0
  safe fails update l fresh found j low high =
      let away =
        last_from-apart none (some new.address) (tower j passed)
          (All-tower (λ x. (some new.address == some x.address) ≡ false) j passed
            (passed-All (λ x. (some new.address == some x.address) ≡ false) fresh))
          refl in
      apart_sym (update j) (some new.address)
        (ap (λ d. d == some new.address) (found j (omega arith) (omega (arith, l, high))) ∙ away)

  linked_levels :
      (fails : ℕ → ℕ) (next : Next) (update : ℕ → Place)
      → Levels next
      → IsDistinct xs
      → new.level ≤ 16
      → IsApart (some new.address) xs
      → IsFound 0 passed update
      → AreChains (link_levels fails new update new.level 0 next) (place new xs)
  linked_levels fails next update chains distinct l fresh found j low =
      let next' = link_levels fails new update new.level 0 next in
      let free = safe fails update l fresh found in
      elim (Bool-cases (ltb j new.level)) [
        | inl on ↦
            linked next next' j fresh distinct
              (λ q.
                link_levels-within fails new update new.level 0 next free q j (omega arith)
                  (ground (arith, on))
                ∙ ap (λ d. written new d (λ e. next e j) q) (found j (omega arith) low))
              on (chains j low)
        | inr off ↦
            unlinked next next' j
              (λ q.
                link_levels-outside fails new update new.level 0 next free q j
                  (λ k least below. ground (arith, off, below)))
              off (chains j low)
      ]

  pub enqueue_chains :
      (fuel : ℕ) (fails : ℕ → ℕ) (s : SkipList)
      → AreChains s.next xs
      → All HasLevel xs
      → IsSorted xs
      → IsDistinct xs
      → HasLevel new
      → IsApart (some new.address) xs
      → length xs < fuel
      → (next : Next) × (enqueue fuel fails new s
          ≡ some (record { next = next; size = inc64 s.size }))
        × AreChains next (place new xs)
  unfolding enqueue
  enqueue_chains fuel fails s c level sorted distinct h fresh f =
      let next = construct new s.next in
      let chains = constructed s.next c fresh in
      let high = passed-All HasLevel level in
      let short : length passed < fuel =
        omega (
          arith,
          f,
          ap length (before-append-behind new.priority xs),
          length-append passed others,
        ) in
      let top : none ≡ last_from none (tower max_level passed) =
        sym (ap (last_from none) (tower-top passed high)) in
      let (update, e, found) =
        search_lem fuel new.priority next passed others max_level none (λ i. none) (omega arith)
          short chains (All-before new.priority xs) (All-behind new.priority xs sorted) top
          (λ j low below. absurd (omega (arith, low, below))) in
      (
        link_levels fails new update new.level 0 next,
        rw (e, enqueue) refl,
        linked_levels fails next update chains distinct h.1 fresh found,
      )
