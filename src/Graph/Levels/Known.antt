-- ===== src/Graph/Levels/Known.antt =====
-- The map of levels in `calculateTaskLevels`: what it holds, and storing one more level.
use axon_queue.Prelude.{
  ℕ, suc, ◌≡◌, refl, sym, ap, subst, ◌∙◌, true, some, List, [], ◌∷◌, arith, nat_eq, ◌==◌, All, inl,
  inr, Option-cases, Bool-cases, is_some,
}
use axon_queue.Prelude.Dict.{find, put, find_or, find-put, find_or-some}
use axon_queue.Task.{TaskId}
use axon_queue.Graph.{Graph, targets}
use axon_queue.Graph.Levels.{Levels, max}

-- One more than the highest level among the ids, and no less than `best`.
abbrev pub above : List TaskId → Levels → ℕ → ℕ
above [] l best = best
above (d ∷ ds) l best = above ds l (max best (suc (find_or 0 d l)))

abbrev pub AreKnown : List TaskId → Levels → Type 0
AreKnown ds l = All (λ d. is_some (find d l) ≡ true) ds

-- What is known of `l` stays known.
abbrev pub Extends : Levels → Levels → Type 0
Extends l l' = (u : TaskId) (n : ℕ) → find u l ≡ some n → find u l' ≡ some n

known-some : (d : TaskId) (l : Levels) → is_some (find d l) ≡ true → (n : ℕ) × (find d l ≡ some n)
known-some d l h = elim (Option-cases (find d l)) [ inl e ↦ ground arith | inr (n, e) ↦ (n, e) ]

AreKnown-Extends :
    (ds : List TaskId) (l l' : Levels) → Extends l l' → AreKnown ds l → AreKnown ds l'
AreKnown-Extends [] l l' x h = tt
AreKnown-Extends (d ∷ ds) l l' x h =
    let (n, e) = known-some d l h.0 in (ap is_some (x d n e), AreKnown-Extends ds l l' x h.1)

above-Extends :
    (ds : List TaskId) (l l' : Levels) (best : ℕ)
    → Extends l l'
    → AreKnown ds l
    → above ds l' best ≡ above ds l best
above-Extends [] l l' best x h = refl
above-Extends (d ∷ ds) l l' best x h =
    let (n, e) = known-some d l h.0 in
    let same : find_or 0 d l' ≡ find_or 0 d l =
      find_or-some 0 d n l' (x d n e) ∙ sym (find_or-some 0 d n l e) in
    ap (λ k. above ds l' (max best (suc k))) same
    ∙ above-Extends ds l l' (max best (suc (find_or 0 d l))) x h.1

module _ (g : Graph) where
  -- The level of an id: 0 without dependencies, else one more than the highest of theirs.
  abbrev pub IsLevel : Levels → TaskId → ℕ → Type 0
  IsLevel l u n = AreKnown (targets u g) l × (n ≡ above (targets u g) l 0)

  abbrev pub AreLevels : Levels → Type 0
  AreLevels l = (u : TaskId) (n : ℕ) → find u l ≡ some n → IsLevel l u n

  IsLevel-Extends :
      (l l' : Levels) (u : TaskId) (n : ℕ) → Extends l l' → IsLevel l u n → IsLevel l' u n
  IsLevel-Extends l l' u n x h = (
    AreKnown-Extends (targets u g) l l' x h.0,
    h.1 ∙ sym (above-Extends (targets u g) l l' 0 x h.0),
  )

  -- Storing the level of an id, which may be there already.
  pub put-Extends :
      (id : TaskId) (n : ℕ) (l : Levels) → AreLevels l → IsLevel l id n → Extends l (put id n l)
  put-Extends id n l a h u k e = elim (Bool-cases (id == u)) [
    | inl same ↦
        let equal : n ≡ k =
          h.1
          ∙ (ap (λ i. above (targets i g) l 0) ((nat_eq.agrees id u).0 same) ∙ sym (a u k e).1) in
        find-put id u n l ∙ rw same (ap some equal)
    | inr other ↦ find-put id u n l ∙ rw other e
  ]

  pub put-AreLevels :
      (id : TaskId) (n : ℕ) (l : Levels) → AreLevels l → IsLevel l id n → AreLevels (put id n l)
  put-AreLevels id n l a h u k e = elim (Bool-cases (id == u)) [
    | inl same ↦
        let equal : n ≡ k = ground (arith, find-put id u n l, e, same) in
        let there = IsLevel-Extends l (put id n l) id n (put-Extends id n l a h) h in
        subst (λ i. IsLevel (put id n l) i k) ((nat_eq.agrees id u).0 same)
          (subst (IsLevel (put id n l) id) equal there)
    | inr other ↦
        let before : find u l ≡ some k = ground (arith, find-put id u n l, e, other) in
        IsLevel-Extends l (put id n l) u k (put-Extends id n l a h) (a u k before)
  ]
