-- ===== src/Prelude/Decimal.antt =====
-- `std::to_string` of an unsigned number, and `std::stoull` of a text that begins with a digit.
use Prim.Native.Nat.{ℕ, zero, suc, ◌+◌, ◌-◌, ◌*◌, ◌/◌, ◌%◌, ◌≤◌, ◌<◌}
use Prim.Native.Char.{Char, code}
use Prim.Native.String.{String}
use mathlib.Core.Path.{◌≡◌, refl, sym, ap, ◌∙◌}
use mathlib.Core.Logic.{inl, inr}
use native.Mathlib.Omega.{arith}
use axon_queue.Prelude.Tests.{ltb, leb, if◌then◌else◌, Bool-cases}
use mathlib.Core.Bool.{Bool, true, false}

digit : ℕ → Char
digit zero = "0"
digit (suc zero) = "1"
digit (suc (suc zero)) = "2"
digit (suc (suc (suc zero))) = "3"
digit (suc (suc (suc (suc zero)))) = "4"
digit (suc (suc (suc (suc (suc zero))))) = "5"
digit (suc (suc (suc (suc (suc (suc zero)))))) = "6"
digit (suc (suc (suc (suc (suc (suc (suc zero))))))) = "7"
digit (suc (suc (suc (suc (suc (suc (suc (suc zero)))))))) = "8"
digit n = "9"

-- The digits of a number before a text. The fuel is the number, and a division by ten makes it
-- smaller.
print : (fuel n : ℕ) → String → String
unfolding digit
print zero n out = String.◌∷◌ (digit n) out
print (suc fuel) n out =
    let more = print fuel (n / 10) (String.◌∷◌ (digit (n % 10)) out) in
    if ltb n 10 then String.◌∷◌ (digit n) out else more

unfoldable pub to_string : ℕ → String
unfolding print
to_string n = print n n String.[]

abbrev is_digit : Char → Bool
is_digit c = if leb 48 (code c) then leb (code c) 57 else false

-- The number that the leading digits of a text continue.
read_from : String → ℕ → ℕ
read_from String.[] acc = acc
read_from (String.◌∷◌ c s) acc =
    let all = read_from s (acc * 10 + (code c - 48)) in if is_digit c then all else acc

unfoldable pub stoull : String → ℕ
unfolding read_from
stoull s = read_from s 0

code-digit : (d : ℕ) → d < 10 → code (digit d) - 48 ≡ d
unfolding digit
code-digit zero h = refl
code-digit (suc zero) h = refl
code-digit (suc (suc zero)) h = refl
code-digit (suc (suc (suc zero))) h = refl
code-digit (suc (suc (suc (suc zero)))) h = refl
code-digit (suc (suc (suc (suc (suc zero))))) h = refl
code-digit (suc (suc (suc (suc (suc (suc zero)))))) h = refl
code-digit (suc (suc (suc (suc (suc (suc (suc zero))))))) h = refl
code-digit (suc (suc (suc (suc (suc (suc (suc (suc zero)))))))) h = refl
code-digit (suc (suc (suc (suc (suc (suc (suc (suc (suc d))))))))) h = omega (arith, h)

is_digit-digit : (d : ℕ) → d < 10 → is_digit (digit d) ≡ true
unfolding digit
is_digit-digit zero h = refl
is_digit-digit (suc zero) h = refl
is_digit-digit (suc (suc zero)) h = refl
is_digit-digit (suc (suc (suc zero))) h = refl
is_digit-digit (suc (suc (suc (suc zero)))) h = refl
is_digit-digit (suc (suc (suc (suc (suc zero))))) h = refl
is_digit-digit (suc (suc (suc (suc (suc (suc zero)))))) h = refl
is_digit-digit (suc (suc (suc (suc (suc (suc (suc zero))))))) h = refl
is_digit-digit (suc (suc (suc (suc (suc (suc (suc (suc zero)))))))) h = refl
is_digit-digit (suc (suc (suc (suc (suc (suc (suc (suc (suc d))))))))) h = refl

read_from-digit :
    (d : ℕ) (s : String) (acc : ℕ)
    → d < 10
    → read_from (String.◌∷◌ (digit d) s) acc ≡ read_from s (acc * 10 + d)
unfolding read_from
read_from-digit d s acc h =
    rw (is_digit-digit d h) (ap (λ k. read_from s (acc * 10 + k)) (code-digit d h))

read_from-print :
    (fuel n : ℕ) (out : String) → n ≤ fuel → read_from (print fuel n out) 0 ≡ read_from out n
unfolding print
read_from-print zero n out h =
    read_from-digit n out 0 (omega (arith, h)) ∙ ap (read_from out) (omega (arith))
read_from-print (suc fuel) n out h = elim (Bool-cases (ltb n 10)) [
  | inl small ↦
      rw small (read_from-digit n out 0 (ground arith) ∙ ap (read_from out) (omega (arith)))
  | inr large ↦ rw large (
      read_from-print fuel (n / 10) _ (ground arith)
      ∙ (read_from-digit (n % 10) out (n / 10) (omega arith) ∙ ap (read_from out) (omega arith)))
]

-- What `to_string` prints is read back.
pub stoull-to_string : (n : ℕ) → stoull (to_string n) ≡ n
unfolding stoull to_string
stoull-to_string n = read_from-print n n String.[] (omega arith)

pub to_string_injective : (n k : ℕ) → to_string n ≡ to_string k → n ≡ k
to_string_injective n k e = sym (stoull-to_string n) ∙ (ap stoull e ∙ stoull-to_string k)
