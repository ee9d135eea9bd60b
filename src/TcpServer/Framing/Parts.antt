-- ===== src/TcpServer/Framing/Parts.antt =====
-- Taking a text apart, when only its beginning is there.
use axon_queue.Prelude.{
  ℕ, zero, suc, ◌≤◌, ◌≡◌, refl, ap, sym, ◌∙◌, true, false, Option, none, some, [], ◌∷◌, ◌++◌,
  nat_eq, arith, ◌==◌, if◌then◌else◌, length, inl, inr, Bool-cases, Option-cases,
}
use axon_queue.TcpServer.Framing.{Bytes, starts_with, take, drop, split_after}

pub take-append : (n : ℕ) (s t : Bytes) → n ≤ length s → take n (s ++ t) ≡ take n s
take-append zero s t h = refl
take-append (suc n) [] t h = absurd (omega (arith, h))
take-append (suc n) (c ∷ s) t h = ap (λ r. c ∷ r) (take-append n s t (omega (arith, h)))

pub drop-append : (n : ℕ) (s t : Bytes) → n ≤ length s → drop n (s ++ t) ≡ drop n s ++ t
drop-append zero s t h = refl
drop-append (suc n) [] t h = absurd (omega (arith, h))
drop-append (suc n) (c ∷ s) t h = drop-append n s t (omega (arith, h))

pub take-length : (s t : Bytes) → take (length s) (s ++ t) ≡ s
take-length [] t = refl
take-length (c ∷ s) t = ap (λ r. c ∷ r) (take-length s t)

pub drop-length : (s t : Bytes) → drop (length s) (s ++ t) ≡ t
drop-length [] t = refl
drop-length (c ∷ s) t = drop-length s t

starts_with-length : (p s : Bytes) → starts_with p s ≡ true → length p ≤ length s
starts_with-length [] s h = omega arith
starts_with-length (c ∷ p) [] h = absurd (ground (arith, h))
starts_with-length (c ∷ p) (d ∷ s) h = ground (arith, h, starts_with-length p s)

starts_with-append :
    (p s t : Bytes) → length p ≤ length s → starts_with p (s ++ t) ≡ starts_with p s
starts_with-append [] s t h = refl
starts_with-append (c ∷ p) [] t h = absurd (omega (arith, h))
starts_with-append (c ∷ p) (d ∷ s) t h =
    ap (λ b. if c == d then b else false) (starts_with-append p s t (omega (arith, h)))

abbrev extended : Bytes → Option (Bytes × Bytes) → Option (Bytes × Bytes)
extended t none = none
extended t (some (front, back)) = some (front, back ++ t)

-- What is found, is found in the same place when more follows.
pub split_after-append :
    (p s t front back : Bytes)
    → split_after p s ≡ some (front, back)
    → (split_after p (s ++ t) ≡ some (front, back ++ t)) × (length p ≤ length s)
unfolding split_after
split_after-append p [] t front back e = absurd (ground (arith, e))
split_after-append p (c ∷ s) t front back e = elim (Bool-cases (starts_with p (c ∷ s))) [
  | inl here ↦
      let fits = starts_with-length p (c ∷ s) here in
      let n = length p in
      let found : split_after p (c ∷ s) ≡ some (take n (c ∷ s), drop n (c ∷ s)) = rw here refl in
      (
        rw
            (
              starts_with-append p (c ∷ s) t fits ∙ here,
              take-append n (c ∷ s) t fits,
              drop-append n (c ∷ s) t fits,
            )
            (ap (extended t) (sym found ∙ e)),
        fits,
      )
  | inr later ↦ elim (Option-cases (split_after p s)) [
    | inl missing ↦
        let nothing : split_after p (c ∷ s) ≡ none = rw (later, missing) refl in
        absurd (ground (arith, sym nothing ∙ e))
    | inr ((front', back'), found) ↦
        let (again, fits) = split_after-append p s t front' back' found in
        let short : length p ≤ length (c ∷ s) = omega (arith, fits) in
        let whole : split_after p (c ∷ s) ≡ some (c ∷ front', back') = rw (later, found) refl in
        (
          rw (starts_with-append p (c ∷ s) t short ∙ later, again)
              (ap (extended t) (sym whole ∙ e)),
          short,
        )
  ]
]

length-take : (n : ℕ) (s : Bytes) → length (take n s) ≤ length s
length-take zero s = omega arith
length-take (suc n) [] = omega arith
length-take (suc n) (c ∷ s) = omega (arith, length-take n s)

abbrev front_length : Option (Bytes × Bytes) → ℕ
front_length none = 0
front_length (some r) = length r.0

pub split_after-length :
    (p s front back : Bytes) → split_after p s ≡ some (front, back) → length front ≤ length s
unfolding split_after
split_after-length p [] front back e = absurd (ground (arith, e))
split_after-length p (c ∷ s) front back e = elim (Bool-cases (starts_with p (c ∷ s))) [
  | inl here ↦
      let n = length p in
      let found : split_after p (c ∷ s) ≡ some (take n (c ∷ s), drop n (c ∷ s)) = rw here refl in
      omega (arith, ap front_length (sym found ∙ e), length-take n (c ∷ s))
  | inr later ↦ elim (Option-cases (split_after p s)) [
    | inl missing ↦
        let nothing : split_after p (c ∷ s) ≡ none = rw (later, missing) refl in
        absurd (ground (arith, sym nothing ∙ e))
    | inr ((front', back'), found) ↦
        let whole : split_after p (c ∷ s) ≡ some (c ∷ front', back') = rw (later, found) refl in
        omega (arith, ap front_length (sym whole ∙ e), split_after-length p s front' back' found)
  ]
]
