-- ===== src/Queues/SkipList/Insert.antt =====
-- The chain of one level before and after `LockFreePriorityQueue::enqueue` puts a node into it.
use axon_queue.Prelude.{
  ℕ, ◌≡◌, refl, ◌∙◌, sym, subst, false, Option, none, some, List, [], ◌∷◌, ◌++◌, ◌==◌, nat_eq, All,
  All-split,
}
use axon_queue.Queues.SkipList.{Node, Place, place_eq, Next, construct}
use axon_queue.Queues.SkipList.Towers.{place, IsApart, IsDistinct, last_from}
use axon_queue.Queues.SkipList.Search.{Chain}
use axon_queue.Queues.SkipList.Link.{same_place_refl, apart_sym, written}

-- Where the pointers of the nodes of a list are the same, they lead through the same list.
pub Chain-kept :
    (next next' : Next) (i : ℕ) (xs : List Node) (p : Option Node)
    → All (λ (x : Node). next' (some x.address) i ≡ next (some x.address) i) xs
    → Chain next i p xs
    → Chain next' i p xs
Chain-kept next next' i [] p same c = c
Chain-kept next next' i (x ∷ xs) p same c = (
  c.0,
  Chain-kept next next' i xs (next' (some x.address) i) same.1
      (subst (λ q. Chain next i q xs) (sym same.0) c.1),
)

pub none-IsApart : (xs : List Node) → IsApart none xs
none-IsApart [] = tt
none-IsApart (x ∷ xs) = (refl, none-IsApart xs)

pub last_from-apart :
    (e d : Place) (us : List Node) → IsApart d us → (e == d) ≡ false → (last_from e us == d) ≡ false
last_from-apart e d [] apart h = h
last_from-apart e d (u ∷ us) apart h =
    last_from-apart (some u.address) d us apart.1 (apart_sym d (some u.address) apart.0)

module _ (new : Node) (next next' : Next) (i : ℕ) where
  abbrev pub IsWritten : Place → Type 0
  IsWritten place = (q : Place) → next' q i ≡ written new place (λ e. next e i) q

  written-apart :
      (place q : Place)
      → IsWritten place
      → (place == q) ≡ false
      → (some new.address == q) ≡ false
      → next' q i ≡ next q i
  written-apart place q at h h' = at q ∙ rw (h, h') refl

  written-All :
      (place : Place) (ws : List Node)
      → IsWritten place
      → IsApart place ws
      → IsApart (some new.address) ws
      → All (λ (w : Node). next' (some w.address) i ≡ next (some w.address) i) ws
  written-All place [] at h h' = tt
  written-All place (w ∷ ws) at h h' =
      (written-apart place (some w.address) at h.0 h'.0, written-All place ws at h.1 h'.1)

  pub Chain-insert :
      (d : Place) (us ws : List Node)
      → IsWritten (last_from d us)
      → IsApart (some new.address) (us ++ ws)
      → (some new.address == d) ≡ false
      → IsApart d (us ++ ws)
      → IsDistinct (us ++ ws)
      → Chain next i (next d i) (us ++ ws)
      → Chain next' i (next' d i) (us ++ new ∷ ws)
  unfolding IsDistinct
  Chain-insert d [] ws at fresh free apart distinct c =
      let here : next' d i ≡ some new = at d ∙ rw (same_place_refl d) refl in
      let on : next' (some new.address) i ≡ next d i =
        at (some new.address)
        ∙ rw (apart_sym (some new.address) d free, same_place_refl (some new.address)) refl in
      (
        here,
        Chain-kept next next' i ws (next' (some new.address) i) (written-All d ws at apart fresh)
            (subst (λ q. Chain next i q ws) (sym on) c),
      )
  Chain-insert d (u ∷ us) ws at fresh free apart distinct c =
      let (others, _) = All-split (λ x. (d == some x.address) ≡ false) us ws apart.1 in
      let away =
        last_from-apart (some u.address) d us others (apart_sym d (some u.address) apart.0) in
      (
        written-apart (last_from (some u.address) us) d at away free ∙ c.0,
        Chain-insert (some u.address) us ws at fresh.1 fresh.0 distinct.0 distinct.1 c.1,
      )

pub construct-kept :
    (new : Node) (next : Next) (q : Place) (j : ℕ)
    → (some new.address == q) ≡ false
    → construct new next q j ≡ next q j
unfolding construct
construct-kept new next q j apart = rw apart refl

pub everywhere :
    (next next' : Next) (j : ℕ)
    → ((q : Place) → next' q j ≡ next q j)
    → (xs : List Node) → All (λ (x : Node). next' (some x.address) j ≡ next (some x.address) j) xs
everywhere next next' j same [] = tt
everywhere next next' j same (x ∷ xs) = (same (some x.address), everywhere next next' j same xs)

pub construct-All :
    (new : Node) (next : Next) (j : ℕ) (xs : List Node)
    → IsApart (some new.address) xs
    → All (λ (x : Node). construct new next (some x.address) j ≡ next (some x.address) j) xs
construct-All new next j [] apart = tt
construct-All new next j (x ∷ xs) apart =
    (construct-kept new next (some x.address) j apart.0, construct-All new next j xs apart.1)
