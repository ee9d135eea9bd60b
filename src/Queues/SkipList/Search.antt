-- ===== src/Queues/SkipList/Search.antt =====
-- The search of `LockFreePriorityQueue::enqueue` finds the place of the new node on each level.
use mathlib.Core.List.{append_assoc}
use axon_queue.Prelude.{
  ℕ, zero, suc, ◌≤◌, ◌<◌, ◌≡◌, refl, ap, subst, ◌∙◌, sym, Option, none, some, List, [], ◌∷◌, ◌++◌,
  arith, ◌==◌, nat_eq, inl, inr, Bool-cases, All, All-split, length, length-append,
}
use axon_queue.Queues.SkipList.{Node, Place, Next, max_level, advance, search, store}
use axon_queue.Queues.SkipList.Towers.{
  tower, IsHigher, IsOther, last_from, climb, All-tower, length-tower,
}

-- From `p` the pointers of a level lead through `xs` to the null pointer.
abbrev pub Chain : Next → ℕ → Option Node → List Node → Type 0
Chain next i p [] = p ≡ none
Chain next i p (x ∷ xs) = (p ≡ some x) × Chain next i (next (some x.address) i) xs

pub Chain-drop :
    (next : Next) (i : ℕ) (d : Place) (us ws : List Node)
    → Chain next i (next d i) (us ++ ws)
    → Chain next i (next (last_from d us) i) ws
Chain-drop next i d [] ws c = c
Chain-drop next i d (u ∷ us) ws c = Chain-drop next i (some u.address) us ws c.1

last_from-append :
    (d : Place) (us vs : List Node) → last_from d (us ++ vs) ≡ last_from (last_from d us) vs
last_from-append d [] vs = refl
last_from-append d (u ∷ us) vs = last_from-append (some u.address) us vs

-- The inner loop passes over the higher priorities and stops before the others.
advance_lem :
    (fuel : ℕ) (next : Next) (i p : ℕ) (d : Place) (vs ws : List Node)
    → length vs < fuel
    → Chain next i (next d i) (vs ++ ws)
    → All (IsHigher p) vs
    → All (IsOther p) ws
    → advance fuel next i p d ≡ some (last_from d vs)
unfolding advance
advance_lem zero next i p d vs ws f c h o = absurd (omega (arith, f))
advance_lem (suc n) next i p d [] [] f c h o = rw (c, advance) refl
advance_lem (suc n) next i p d [] (w ∷ ws) f c h o = rw (c.0, advance, o.0) refl
advance_lem (suc n) next i p d (v ∷ vs) ws f c h o =
    rw (c.0, advance, h.0)
      (advance_lem n next i p (some v.address) vs ws (omega (arith, f)) c.1 h.1 o)

-- Every level of a list in two parts, the nodes of a higher priority and the others.
abbrev pub AreChains : Next → List Node → Type 0
AreChains next xs = (i : ℕ) → i < max_level → Chain next i (next none i) (tower i xs)

-- `update` holds the last place of the higher priorities, on each level from `i` on.
abbrev pub IsFound : ℕ → List Node → (ℕ → Place) → Type 0
IsFound i bs update = (j : ℕ) → i ≤ j → j < max_level → update j ≡ last_from none (tower j bs)

module _ (fuel p : ℕ) (next : Next) (bs ws : List Node) where
  stored :
      (i : ℕ) (place : Place) (update : ℕ → Place)
      → place ≡ last_from none (tower i bs)
      → IsFound (suc i) bs update
      → IsFound i bs (store update i place)
  stored i place update e u j low high = elim (Bool-cases (i == j)) [
    | inl same ↦ rw same (e ∙ ap (λ k. last_from none (tower k bs)) ((nat_eq.agrees i j).0 same))
    | inr other ↦ rw other (u j (ground (arith, other, low, nat_eq.agrees i j)) high)
  ]

  pub search_lem :
      (i : ℕ) (current : Place) (update : ℕ → Place)
      → i ≤ max_level
      → length bs < fuel
      → ((j : ℕ) → j < max_level → Chain next j (next none j) (tower j bs ++ tower j ws))
      → All (IsHigher p) bs
      → All (IsOther p) ws
      → current ≡ last_from none (tower i bs)
      → IsFound i bs update
      → (found : ℕ → Place) × (search fuel next p i current update ≡ some found)
        × IsFound 0 bs found
  unfolding search
  search_lem zero current update l f c h o e u = (update, refl, u)
  search_lem (suc i) current update l f c h o e u =
      let (us, vs, split, last) = climb i none bs in
      let high =
        All-split (IsHigher p) us vs
          (subst (All (IsHigher p)) split (All-tower (IsHigher p) i bs h)) in
      let chain : Chain next i (next none i) (us ++ (vs ++ tower i ws)) =
        subst (Chain next i (next none i))
          (ap (λ t. t ++ tower i ws) split ∙ append_assoc us vs (tower i ws))
          (c i (omega (arith, l))) in
      let short : length vs < fuel =
        omega (arith, f, length-tower i bs, ap length split, length-append us vs) in
      let place = last_from none (tower i bs) in
      let moved : advance fuel next i p current ≡ some place =
        ap (advance fuel next i p) (e ∙ sym last)
        ∙ (advance_lem fuel next i p (last_from none us) vs (tower i ws) short
              (Chain-drop next i none us (vs ++ tower i ws) chain) high.1
              (All-tower (IsOther p) i ws o)
            ∙ ap some (sym (last_from-append none us vs) ∙ ap (last_from none) (sym split))) in
      rw (moved, search)
        (search_lem i place (store update i place) (omega (arith, l)) f c h o refl
          (stored i place update refl u))
