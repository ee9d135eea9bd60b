-- ===== src/Queues/SkipList/Towers.antt =====
-- The lists that the levels of a skip list hold, and the place of a new node in them.
use axon_queue.Prelude.{
  ℕ, suc, ◌≤◌, ◌≡◌, refl, ap, true, false, some, List, [], ◌∷◌, ◌++◌, map, arith, ◌==◌, nat_eq,
  if◌then◌else◌, ltb, inl, inr, Bool-cases, All, length,
}
use axon_queue.Queues.Family.{insert_by}
use axon_queue.Queues.SkipList.{Node, Place, place_eq}

-- The nodes that a level links.
unfoldable pub tower : ℕ → List Node → List Node
tower i [] = []
tower i (x ∷ xs) = let rest = tower i xs in if ltb i x.level then x ∷ rest else rest

-- The nodes of a higher priority, which a new node goes behind, and those after them.
unfoldable pub before : ℕ → List Node → List Node
before p [] = []
before p (x ∷ xs) = let rest = before p xs in if ltb p x.priority then x ∷ rest else []

unfoldable pub behind : ℕ → List Node → List Node
behind p [] = []
behind p (x ∷ xs) = let rest = behind p xs in if ltb p x.priority then rest else x ∷ xs

abbrev pub place : Node → List Node → List Node
place new xs = before new.priority xs ++ new ∷ behind new.priority xs

abbrev pub entry : Node → ℕ × ℕ
entry x = (x.priority, x.value)

-- Placing a node is the insertion of the queue of priorities.
pub place-insert_by :
    (new : Node) (xs : List Node)
    → map entry (place new xs) ≡ insert_by new.priority new.value (map entry xs)
unfolding before behind insert_by
place-insert_by new [] = refl
place-insert_by new (x ∷ xs) = elim (Bool-cases (ltb new.priority x.priority)) [
  | inl higher ↦ rw higher (ap (λ ys. entry x ∷ ys) (place-insert_by new xs))
  | inr other ↦ rw other refl
]

pub before-append-behind : (p : ℕ) (xs : List Node) → before p xs ++ behind p xs ≡ xs
unfolding before behind
before-append-behind p [] = refl
before-append-behind p (x ∷ xs) = elim (Bool-cases (ltb p x.priority)) [
  | inl higher ↦ rw higher (ap (λ ys. x ∷ ys) (before-append-behind p xs))
  | inr other ↦ rw other refl
]

pub tower-append : (i : ℕ) (xs ys : List Node) → tower i (xs ++ ys) ≡ tower i xs ++ tower i ys
unfolding tower
tower-append i [] ys = refl
tower-append i (x ∷ xs) ys = elim (Bool-cases (ltb i x.level)) [
  | inl linked ↦ rw linked (ap (λ zs. x ∷ zs) (tower-append i xs ys))
  | inr other ↦ rw other (tower-append i xs ys)
]

pub All-tower {κ} : (P : Node → Type κ) (i : ℕ) (xs : List Node) → All P xs → All P (tower i xs)
unfolding tower
All-tower P i [] h = tt
All-tower P i (x ∷ xs) h = elim (Bool-cases (ltb i x.level)) [
  | inl linked ↦ rw linked (h.0, All-tower P i xs h.1)
  | inr other ↦ rw other (All-tower P i xs h.1)
]

pub length-tower : (i : ℕ) (xs : List Node) → length (tower i xs) ≤ length xs
unfolding tower
length-tower i [] = omega arith
length-tower i (x ∷ xs) = elim (Bool-cases (ltb i x.level)) [
  | inl linked ↦ rw linked (omega (arith, length-tower i xs))
  | inr other ↦ rw other (omega (arith, length-tower i xs))
]

-- Every node has at least one level and no more than there are.
abbrev pub HasLevel : Node → Type 0
HasLevel x = (ltb 0 x.level ≡ true) × (x.level ≤ 16)

pub tower-zero : (xs : List Node) → All HasLevel xs → tower 0 xs ≡ xs
unfolding tower
tower-zero [] h = refl
tower-zero (x ∷ xs) h = rw h.0.0 (ap (λ ys. x ∷ ys) (tower-zero xs h.1))

pub tower-top : (xs : List Node) → All HasLevel xs → tower 16 xs ≡ []
unfolding tower
tower-top [] h = refl
tower-top (x ∷ xs) h =
    let out : ltb 16 x.level ≡ false = ground (arith, h.0.1) in rw out (tower-top xs h.1)

-- Priorities descend.
unfoldable pub IsSorted : List Node → Type 0
IsSorted [] = Unit
IsSorted (x ∷ xs) = All (λ (y : Node). y.priority ≤ x.priority) xs × IsSorted xs

abbrev pub IsHigher : ℕ → Node → Type 0
IsHigher p x = ltb p x.priority ≡ true

abbrev pub IsOther : ℕ → Node → Type 0
IsOther p x = ltb p x.priority ≡ false

pub All-before : (p : ℕ) (xs : List Node) → All (IsHigher p) (before p xs)
unfolding before
All-before p [] = tt
All-before p (x ∷ xs) = elim (Bool-cases (ltb p x.priority)) [
  | inl higher ↦ rw higher (higher, All-before p xs)
  | inr other ↦ rw other tt
]

lower :
    (p : ℕ) (x : Node) (xs : List Node)
    → ltb p x.priority ≡ false
    → All (λ (y : Node). y.priority ≤ x.priority) xs
    → All (IsOther p) xs
lower p x [] o h = tt
lower p x (y ∷ ys) o h = (ground (arith, o, h.0), lower p x ys o h.1)

pub All-behind : (p : ℕ) (xs : List Node) → IsSorted xs → All (IsOther p) (behind p xs)
unfolding behind IsSorted
All-behind p [] s = tt
All-behind p (x ∷ xs) s = elim (Bool-cases (ltb p x.priority)) [
  | inl higher ↦ rw higher (All-behind p xs s.1)
  | inr other ↦ rw other (other, lower p x xs other s.0)
]

pub All-place {κ} :
    (P : Node → Type κ) (new : Node) (xs : List Node) → P new → All P xs → All P (place new xs)
unfolding before behind
All-place P new [] n h = (n, tt)
All-place P new (x ∷ xs) n h = elim (Bool-cases (ltb new.priority x.priority)) [
  | inl higher ↦ rw higher (h.0, All-place P new xs n h.1)
  | inr other ↦ rw other (n, h)
]

at_most :
    (p q : ℕ) (xs : List Node)
    → p ≤ q
    → All (λ (y : Node). y.priority ≤ p) xs
    → All (λ (y : Node). y.priority ≤ q) xs
at_most p q [] l h = tt
at_most p q (y ∷ ys) l h = (omega (arith, l, h.0), at_most p q ys l h.1)

pub place-IsSorted : (new : Node) (xs : List Node) → IsSorted xs → IsSorted (place new xs)
unfolding before behind IsSorted
place-IsSorted new [] s = (tt, tt)
place-IsSorted new (x ∷ xs) s = elim (Bool-cases (ltb new.priority x.priority)) [
  | inl higher ↦
      let below : new.priority ≤ x.priority = ground (arith, higher) in
      rw higher
        (All-place (λ y. y.priority ≤ x.priority) new xs below s.0, place-IsSorted new xs s.1)
  | inr other ↦
      let below : x.priority ≤ new.priority = ground (arith, other) in
      rw other ((below, at_most x.priority new.priority xs below s.0), s)
]

-- No node of the list is at the place.
abbrev pub IsApart : Place → List Node → Type 0
IsApart d xs = All (λ (x : Node). (d == some x.address) ≡ false) xs

unfoldable pub IsDistinct : List Node → Type 0
IsDistinct [] = Unit
IsDistinct (x ∷ xs) = IsApart (some x.address) xs × IsDistinct xs

pub place-IsDistinct :
    (new : Node) (xs : List Node)
    → IsApart (some new.address) xs
    → IsDistinct xs
    → IsDistinct (place new xs)
unfolding before behind IsDistinct
place-IsDistinct new [] a d = (tt, tt)
place-IsDistinct new (x ∷ xs) a d = elim (Bool-cases (ltb new.priority x.priority)) [
  | inl higher ↦
      let here : (some x.address == some new.address) ≡ false = ground (arith, a.0) in
      rw higher (
        All-place (λ y. (some x.address == some y.address) ≡ false) new xs here d.0,
        place-IsDistinct new xs a.1 d.1,
      )
  | inr other ↦ rw other (a, d)
]

pub IsDistinct-tower : (i : ℕ) (xs : List Node) → IsDistinct xs → IsDistinct (tower i xs)
unfolding tower IsDistinct
IsDistinct-tower i [] d = tt
IsDistinct-tower i (x ∷ xs) d = elim (Bool-cases (ltb i x.level)) [
  | inl linked ↦ rw linked (
    All-tower (λ y. (some x.address == some y.address) ≡ false) i xs d.0,
    IsDistinct-tower i xs d.1,
  )
  | inr other ↦ rw other (IsDistinct-tower i xs d.1)
]

-- The last place of a chain that starts behind `d`.
abbrev pub last_from : Place → List Node → Place
last_from d [] = d
last_from d (x ∷ xs) = last_from (some x.address) xs

abbrev Climb : Place → List Node → List Node → Type 0
Climb d zs ys =
    (us : List Node) × (vs : List Node) × (zs ≡ us ++ vs) × (last_from d us ≡ last_from d ys)

-- A node that only the lower level links.
Climb-linked : (x : Node) (d : Place) (zs ys : List Node) → Climb d zs ys → Climb d (x ∷ zs) ys
Climb-linked x d zs ys ([], vs, e, l) = ([], x ∷ vs, ap (λ zs. x ∷ zs) e, l)
Climb-linked x d zs ys (u ∷ us, vs, e, l) = (x ∷ u ∷ us, vs, ap (λ zs. x ∷ zs) e, l)

-- A level goes on from where the level above it ends.
pub climb :
    (i : ℕ) (d : Place) (xs : List Node)
    → (us : List Node) × (vs : List Node) × (tower i xs ≡ us ++ vs)
      × (last_from d us ≡ last_from d (tower (suc i) xs))
unfolding tower
climb i d [] = ([], [], refl, refl)
climb i d (x ∷ xs) = elim (Bool-cases (ltb (suc i) x.level)) [
  | inl above ↦
      let linked : ltb i x.level ≡ true = ground (arith, above) in
      let (us, vs, e, l) = climb i (some x.address) xs in
      rw (above, linked) (x ∷ us, vs, ap (λ ys. x ∷ ys) e, l)
  | inr below ↦ elim (Bool-cases (ltb i x.level)) [
    | inl linked ↦
        rw (below, linked) (Climb-linked x d (tower i xs) (tower (suc i) xs) (climb i d xs))
    | inr other ↦ rw (below, other) (climb i d xs)
  ]
]
