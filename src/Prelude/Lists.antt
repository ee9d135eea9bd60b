-- ===== src/Prelude/Lists.antt =====
-- Lists measured and indexed by native numbers, under the library's names.
use Prim.Native.Nat.{ℕ, zero, suc, ◌+◌}
use mathlib.Core.Path.{◌≡◌, refl, ap}
use mathlib.Core.List.{List, [], ◌∷◌, ◌++◌, map}
use mathlib.Core.Option.{Option, none, some}
use native.Mathlib.Omega.{arith}
use native.Mathlib.Nat.{ℕ_set}
use mathlib.Core.List.{Perm, Permᴰ, flatten, perm_append_comm, append_assoc}
use mathlib.Core.List.Perm
use mathlib.Core.Logic.{∥∥₁_elim, ∥∥₁_prop}
use mathlib.Core.Path.{◌∙◌, subst}

module _ {ℓ} {A : Type ℓ} where
  abbrev pub length : List A → ℕ
  length [] = 0
  length (x ∷ xs) = suc (length xs)

  abbrev pub get_elem? : List A → ℕ → Option A
  get_elem? [] i = none
  get_elem? (x ∷ xs) zero = some x
  get_elem? (x ∷ xs) (suc i) = get_elem? xs i

  pub length-append : (xs ys : List A) → length (xs ++ ys) ≡ length xs + length ys
  length-append [] ys = omega arith
  length-append (x ∷ xs) ys = omega (arith, length-append xs ys)

  abbrev pub All {κ} : (A → Type κ) → List A → Type κ
  All P [] = Unit
  All P (x ∷ xs) = P x × All P xs

  pub All-append {κ} : (P : A → Type κ) (xs ys : List A) → All P xs → All P ys → All P (xs ++ ys)
  All-append P [] ys hx hy = hy
  All-append P (x ∷ xs) ys hx hy = (hx.0, All-append P xs ys hx.1 hy)

  pub All-split {κ} : (P : A → Type κ) (xs ys : List A) → All P (xs ++ ys) → All P xs × All P ys
  All-split P [] ys h = (tt, h)
  All-split P (x ∷ xs) ys h = let (a, b) = All-split P xs ys h.1 in ((h.0, a), b)

pub length-map {ℓ κ} :
    {A : Type ℓ} {B : Type κ} (f : A → B) (xs : List A) → length (map f xs) ≡ length xs
length-map f [] = refl
length-map f (x ∷ xs) = ap suc (length-map f xs)

Permᴰ-length {ℓ} : {A : Type ℓ} {xs ys : List A} → Permᴰ xs ys → length xs ≡ length ys
Permᴰ-length Permᴰ.nil = refl
Permᴰ-length (Permᴰ.cons e p) = ap suc (Permᴰ-length p)
Permᴰ-length (Permᴰ.swap e f) = refl
Permᴰ-length (Permᴰ.trans p q) = Permᴰ-length p ∙ Permᴰ-length q

pub Perm-length {ℓ} : {A : Type ℓ} (xs ys : List A) → Perm xs ys → length xs ≡ length ys
Perm-length xs ys p = ∥∥₁_elim p (ℕ_set (length xs) (length ys)) Permᴰ-length

module _ {ℓ} {A : Type ℓ} where
  pub perm_swap_prefix : (a b c : List A) → Perm (a ++ (b ++ c)) (b ++ (a ++ c))
  perm_swap_prefix a b c =
      subst (λ xs. Perm xs (b ++ (a ++ c))) (append_assoc a b c)
        (subst (Perm ((a ++ b) ++ c)) (append_assoc b a c)
          (Perm.append_right c (perm_append_comm a b)))

  Permᴰ-flatten : {xs ys : List (List A)} → Permᴰ xs ys → Perm (flatten xs) (flatten ys)
  unfolding flatten
  Permᴰ-flatten Permᴰ.nil = Perm.refl _
  Permᴰ-flatten (Permᴰ.cons {a} {b} {l₁} {l₂} e p) =
      subst (λ x. Perm (a ++ flatten l₁) (x ++ flatten l₂)) e (Perm.append_left a (Permᴰ-flatten p))
  Permᴰ-flatten (Permᴰ.swap {a} {b} {a'} {b'} {l} e f) =
      subst (λ x. Perm (a ++ (b ++ flatten l)) (a' ++ (x ++ flatten l))) e
        (subst (λ x. Perm (a ++ (b ++ flatten l)) (x ++ (a ++ flatten l))) f
          (perm_swap_prefix a b (flatten l)))
  Permᴰ-flatten (Permᴰ.trans p q) = Perm.trans (Permᴰ-flatten p) (Permᴰ-flatten q)

  pub Perm-flatten : (xs ys : List (List A)) → Perm xs ys → Perm (flatten xs) (flatten ys)
  Perm-flatten xs ys p = ∥∥₁_elim p ∥∥₁_prop Permᴰ-flatten
