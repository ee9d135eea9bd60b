-- ===== src/Queues/SkipList/Link.antt =====
-- The exchanges of `LockFreePriorityQueue::enqueue` put the new node into the levels it has.
use axon_queue.Prelude.{
  ℕ, zero, suc, ◌+◌, ◌≤◌, ◌<◌, ◌≡◌, refl, ap, ◌∙◌, sym, subst, true, false, Option, none, some,
  arith, ◌==◌, nat_eq, ◌&&◌, if◌then◌else◌, inl, inr, Bool-cases,
}
use axon_queue.Queues.SkipList.{
  Node, Place, place_eq, Next, set_next, link, link_level, link_levels,
}

pub same_place_refl : (q : Place) → (q == q) ≡ true
same_place_refl none = refl
same_place_refl (some a) = ground (arith, nat_eq.agrees a a)

pub apart_sym : (p q : Place) → (p == q) ≡ false → (q == p) ≡ false
apart_sym none none h = h
apart_sym none (some b) h = refl
apart_sym (some a) none h = refl
apart_sym (some a) (some b) h = ground (arith, h)

-- One level after the new node was put behind a place.
abbrev pub Level : Type 0
Level = Place → Option Node

abbrev pub written : Node → Place → Level → Level
written new place level q =
    if place == q then some new else if some new.address == q then level place else level q

set_next-kept :
    (p : Place) (i : ℕ) (v : Option Node) (next : Next)
    → next p i ≡ v
    → (q : Place) (j : ℕ) → set_next p i v next q j ≡ next q j
unfolding set_next
set_next-kept p i v next e q j = elim (Bool-cases (p == q)) [
  | inl same ↦ elim (Bool-cases (i == j)) [
    | inl level ↦
        rw (same, level)
          (sym e
            ∙ (ap (λ d. next d i) ((place_eq.agrees p q).0 same)
                ∙ ap (next q) ((nat_eq.agrees i j).0 level)))
    | inr other ↦ rw (same, other) refl
  ]
  | inr other ↦ rw other refl
]

pub set_next-here :
    (p : Place) (i : ℕ) (v : Option Node) (next : Next) → set_next p i v next p i ≡ v
unfolding set_next
set_next-here p i v next =
    let here : (i == i) ≡ true = ground arith in rw (same_place_refl p, here) refl

pub set_next-apart :
    (p : Place) (i : ℕ) (v : Option Node) (next : Next) (q : Place) (j : ℕ)
    → (p == q) ≡ false
    → set_next p i v next q j ≡ next q j
unfolding set_next
set_next-apart p i v next q j apart = rw apart refl

pub set_next-level :
    (p : Place) (i : ℕ) (v : Option Node) (next : Next) (q : Place) (j : ℕ)
    → (i == j) ≡ false
    → set_next p i v next q j ≡ next q j
unfolding set_next
set_next-level p i v next q j other = elim (Bool-cases (p == q)) [
  | inl same ↦ rw (same, other) refl
  | inr apart ↦ rw apart refl
]

set_next-at :
    (p : Place) (i : ℕ) (v : Option Node) (next : Next) (q : Place)
    → set_next p i v next q i ≡ (if p == q then v else next q i)
unfolding set_next
set_next-at p i v next q =
    let here : (i == i) ≡ true = ground arith in
    elim (Bool-cases (p == q)) [ inl same ↦ rw (same, here) refl | inr apart ↦ rw apart refl ]

set_next-cong :
    (p : Place) (i : ℕ) (v : Option Node) (next next' : Next) (q : Place) (j : ℕ)
    → next' q j ≡ next q j
    → set_next p i v next' q j ≡ set_next p i v next q j
unfolding set_next
set_next-cong p i v next next' q j e = ap (λ w. if p == q && i == j then v else w) e

-- What the new node points to before an exchange is what the exchange expects.
ready_lem :
    (new : Node) (i : ℕ) (place : Place) (next : Next)
    → (some new.address == place) ≡ false
    → set_next (some new.address) i (next place i) next (some new.address) i
      ≡ set_next (some new.address) i (next place i) next place i
ready_lem new i place next apart =
    set_next-here (some new.address) i (next place i) next
    ∙ sym (set_next-apart (some new.address) i (next place i) next place i apart)

-- However often the exchange fails, it ends as one that succeeds at once.
link_lem :
    (fails : ℕ) (new : Node) (i : ℕ) (place : Place) (next : Next)
    → (some new.address == place) ≡ false
    → next (some new.address) i ≡ next place i
    → (q : Place) (j : ℕ) → link fails new i place next q j ≡ set_next place i (some new) next q j
unfolding link
link_lem zero new i place next apart same q j = refl
link_lem (suc fails) new i place next apart same q j =
    let v = next place i in
    let ready = set_next (some new.address) i v next in
    link_lem fails new i place ready apart (ready_lem new i place next apart) q j
    ∙ set_next-cong place i (some new) next ready q j
        (set_next-kept (some new.address) i v next same q j)

link_level-other :
    (fails : ℕ) (new : Node) (i : ℕ) (place : Place) (next : Next)
    → (some new.address == place) ≡ false
    → (q : Place) (j : ℕ) → (i == j) ≡ false
    → link_level fails new i place next q j ≡ next q j
unfolding link_level
link_level-other fails new i place next apart q j other =
    let v = next place i in
    let ready = set_next (some new.address) i v next in
    link_lem fails new i place ready apart (ready_lem new i place next apart) q j
    ∙ (set_next-level place i (some new) ready q j other
        ∙ set_next-level (some new.address) i v next q j other)

link_level-here :
    (fails : ℕ) (new : Node) (i : ℕ) (place : Place) (next : Next)
    → (some new.address == place) ≡ false
    → (q : Place) → link_level fails new i place next q i ≡ written new place (λ d. next d i) q
unfolding link_level
link_level-here fails new i place next apart q =
    let ready = set_next (some new.address) i (next place i) next in
    link_lem fails new i place ready apart (ready_lem new i place next apart) q i
    ∙ (set_next-at place i (some new) ready q
        ∙ ap (λ w. if place == q then some new else w)
            (set_next-at (some new.address) i (next place i) next q))

written-cong :
    (new : Node) (place : Place) (level level' : Level)
    → ((q : Place) → level' q ≡ level q)
    → (q : Place) → written new place level' q ≡ written new place level q
written-cong new place level level' e q = rw (e place, e q) refl

module _ (fails : ℕ → ℕ) (new : Node) (update : ℕ → Place) where
  abbrev pub IsSafe : (rounds i : ℕ) → Type 0
  IsSafe n i = (j : ℕ) → i ≤ j → j < i + n → (some new.address == update j) ≡ false

  -- The levels outside of the rounds stay.
  pub link_levels-outside :
      (n i : ℕ) (next : Next)
      → IsSafe n i
      → (q : Place) (j : ℕ) → ((k : ℕ) → i ≤ k → k < i + n → (k == j) ≡ false)
      → link_levels fails new update n i next q j ≡ next q j
  unfolding link_levels
  link_levels-outside zero i next safe q j out = refl
  link_levels-outside (suc n) i next safe q j out =
      link_levels-outside n (suc i) (link_level (fails i) new i (update i) next)
        (λ k l h. safe k (omega (arith, l)) (omega (arith, h))) q j
        (λ k l h. out k (omega (arith, l)) (omega (arith, h)))
      ∙ link_level-other (fails i) new i (update i) next (safe i (omega arith) (omega arith)) q j
          (out i (omega arith) (omega arith))

  -- Each level of the rounds gets the new node behind its place.
  pub link_levels-within :
      (n i : ℕ) (next : Next)
      → IsSafe n i
      → (q : Place) (j : ℕ) → i ≤ j
      → j < i + n
      → link_levels fails new update n i next q j ≡ written new (update j) (λ d. next d j) q
  unfolding link_levels
  link_levels-within zero i next safe q j l h = absurd (omega (arith, l, h))
  link_levels-within (suc n) i next safe q j l h =
      let first = safe i (omega arith) (omega arith) in
      let rest : IsSafe n (suc i) = λ k l h. safe k (omega (arith, l)) (omega (arith, h)) in
      let next' = link_level (fails i) new i (update i) next in
      elim (Bool-cases (i == j)) [
        | inl same ↦
            let e : i ≡ j = (nat_eq.agrees i j).0 same in
            link_levels-outside n (suc i) next' rest q j (λ k l h. ground (arith, e, l))
            ∙ subst (λ k. next' q k ≡ written new (update k) (λ d. next d k) q) e
                (link_level-here (fails i) new i (update i) next first q)
        | inr other ↦
            link_levels-within n (suc i) next' rest q j (ground (arith, other, l))
              (omega (arith, h))
            ∙ written-cong new (update j) (λ d. next d j) (λ d. next' d j)
                (λ d. link_level-other (fails i) new i (update i) next first d j other) q
      ]
