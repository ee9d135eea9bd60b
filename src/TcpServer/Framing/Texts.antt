-- ===== src/TcpServer/Framing/Texts.antt =====
-- The header that `writeResponse` sends is read as it was meant.
use mathlib.Core.List.{append_assoc}
use axon_queue.Prelude.{
  ℕ, zero, suc, ◌+◌, ◌-◌, ◌*◌, ◌/◌, ◌%◌, ◌≤◌, ◌<◌, ◌≡◌, refl, ap, sym, ◌∙◌, Bool, true, false, ◌&&◌,
  none, some, [], ◌∷◌, ◌++◌, nat_eq, arith, ◌==◌, if◌then◌else◌, ltb, length, inl, inr, Bool-cases,
  All, All-append, u64_mod,
}
use axon_queue.TcpServer.Framing.{
  Bytes, bytes, crlf, starts_with, drop, split_after, is_digit, is_space, read_digits,
  read_unsigned, read_signed, stoul, content_length, decimal, status_lines, last_lines,
  response_text,
}

-- The text differs from `p` within their common length.
abbrev conflicts : Bytes → Bytes → Bool
conflicts [] s = false
conflicts (c ∷ p) [] = false
conflicts (c ∷ p) (d ∷ s) = if c == d then conflicts p s else true

-- `p` begins nowhere in the text, whatever follows it.
abbrev is_free : Bytes → Bytes → Bool
is_free p [] = true
is_free p (c ∷ s) = conflicts p (c ∷ s) && is_free p s

starts_with-conflict : (p s t : Bytes) → conflicts p s ≡ true → starts_with p (s ++ t) ≡ false
starts_with-conflict [] s t h = absurd (ground (arith, h))
starts_with-conflict (c ∷ p) [] t h = absurd (ground (arith, h))
starts_with-conflict (c ∷ p) (d ∷ s) t h = ground (arith, h, starts_with-conflict p s t)

-- The first occurrence is behind a text that has none.
pub split_after-free :
    (p s t front back : Bytes)
    → is_free p s ≡ true
    → split_after p t ≡ some (front, back)
    → split_after p (s ++ t) ≡ some (s ++ front, back)
unfolding split_after
split_after-free p [] t front back h e = e
split_after-free p (c ∷ s) t front back h e =
    let (here, later) : (conflicts p (c ∷ s) ≡ true) × (is_free p s ≡ true) = ground (arith, h) in
    rw (starts_with-conflict p (c ∷ s) t here, split_after-free p s t front back later e) refl

abbrev AreDigits : Bytes → Type 0
AreDigits s = All (λ c. is_digit c ≡ true) s

decimal-AreDigits : (fuel n : ℕ) → n ≤ fuel → AreDigits (decimal fuel n)
unfolding decimal
decimal-AreDigits zero n h = (ground (arith, h), tt)
decimal-AreDigits (suc fuel) n h = elim (Bool-cases (ltb n 10)) [
  | inl small ↦ rw small (ground (arith, small), tt)
  | inr large ↦ rw large (
      All-append (λ c. is_digit c ≡ true) (decimal fuel (n / 10)) ((48 + n % 10) ∷ [])
        (decimal-AreDigits fuel (n / 10) (ground (arith, h, large))) (ground arith, tt))
]

-- The digits of a number are read back, up to a byte that is no digit.
read_digits-decimal :
    (fuel n : ℕ) (s : Bytes) → n ≤ fuel → read_digits (decimal fuel n ++ s) 0 ≡ read_digits s n
unfolding decimal read_digits
read_digits-decimal zero n s h =
    let digit : is_digit (48 + n) ≡ true = ground (arith, h) in
    rw digit (ap (read_digits s) (omega arith))
read_digits-decimal (suc fuel) n s h = elim (Bool-cases (ltb n 10)) [
  | inl small ↦
      let digit : is_digit (48 + n) ≡ true = ground (arith, small) in
      rw (small, digit) (ap (read_digits s) (omega arith))
  | inr large ↦
      let digit : is_digit (48 + n % 10) ≡ true = ground arith in
      rw large (
        ap (λ t. read_digits t 0) (append_assoc (decimal fuel (n / 10)) ((48 + n % 10) ∷ []) s)
        ∙ (read_digits-decimal fuel (n / 10) ((48 + n % 10) ∷ s) (ground (arith, h, large))
            ∙ rw digit (ap (read_digits s) (omega arith))))
]

-- A number has a first digit.
decimal-cons :
    (fuel n : ℕ) → n ≤ fuel → (c : ℕ) × (s : Bytes) × (decimal fuel n ≡ c ∷ s) × (is_digit c ≡ true)
unfolding decimal
decimal-cons zero n h = (48 + n, [], refl, ground (arith, h))
decimal-cons (suc fuel) n h = elim (Bool-cases (ltb n 10)) [
  | inl small ↦ (48 + n, [], rw small refl, ground (arith, small))
  | inr large ↦
      let (c, s, e, digit) = decimal-cons fuel (n / 10) (ground (arith, h, large)) in
      let last = (48 + n % 10) ∷ [] in (c, s ++ last, rw large (ap (λ t. t ++ last) e), digit)
]

read_number :
    (c n : ℕ) (s : Bytes)
    → is_digit c ≡ true
    → read_digits (c ∷ s) 0 ≡ n
    → n < u64_mod
    → stoul (32 ∷ (c ∷ s)) ≡ some n
unfolding stoul read_signed read_unsigned read_digits
read_number c n s digit read l =
    let no_space : is_space c ≡ false = ground (arith, digit) in
    let no_plus : (c == 43) ≡ false = ground (arith, digit) in
    let no_minus : (c == 45) ≡ false = ground (arith, digit) in
    let small : ltb n u64_mod ≡ true = ground (arith, l) in
    let step : read_digits (c ∷ s) 0 ≡ read_digits s (0 * 10 + (c - 48)) = rw digit refl in
    rw (no_space, no_plus, no_minus, digit, sym step ∙ read, small) refl

stoul-decimal : (n : ℕ) (s : Bytes) → n < u64_mod → stoul (32 ∷ (decimal n n ++ (13 ∷ s))) ≡ some n
unfolding read_digits
stoul-decimal n s l =
    let (c, t, e, digit) = decimal-cons n n (omega arith) in
    let read : read_digits ((c ∷ t) ++ (13 ∷ s)) 0 ≡ n =
      ap (λ d. read_digits (d ++ (13 ∷ s)) 0) (sym e)
      ∙ read_digits-decimal n n (13 ∷ s) (omega arith) in
    ap (λ d. stoul (32 ∷ (d ++ (13 ∷ s)))) e ∙ read_number c n (t ++ (13 ∷ s)) digit read l

free_digits : (s : Bytes) → AreDigits s → is_free (crlf ++ crlf) s ≡ true
free_digits [] h = refl
free_digits (c ∷ s) h = ground (arith, h.0, free_digits s h.1)

ends : (s : Bytes) → split_after (crlf ++ crlf) (last_lines ++ s) ≡ some (last_lines, s)
unfolding split_after bytes
ends s = refl

-- The header, from the first byte to the empty line.
abbrev pub header_of : ℕ → Bytes
unfolding bytes
header_of n = status_lines ++ (bytes "Content-Length: " ++ (decimal n n ++ last_lines))

pub header_append : (m : Bytes) → response_text m ≡ header_of (length m) ++ m
unfolding response_text header_of bytes
header_append m =
    let digits = decimal (length m) (length m) in
    ap (λ t. status_lines ++ (bytes "Content-Length: " ++ t))
      (sym (append_assoc digits last_lines m))

pub split_after-header :
    (s : Bytes) → split_after (crlf ++ crlf) (response_text s) ≡ some (header_of (length s), s)
unfolding bytes response_text header_of
split_after-header s =
    let n = length s in
    let digits = decimal n n in
    split_after-free (crlf ++ crlf) (status_lines ++ bytes "Content-Length: ")
      (digits ++ (last_lines ++ s)) (digits ++ last_lines) s refl
      (split_after-free (crlf ++ crlf) digits (last_lines ++ s) last_lines s
        (free_digits digits (decimal-AreDigits n n (omega arith))) (ends s))

named :
    (s : Bytes)
    → split_after (bytes "Content-Length:") (bytes "Content-Length:" ++ s)
      ≡ some (bytes "Content-Length:", s)
unfolding split_after bytes
named s = refl

pub content_length-header : (n : ℕ) → n < u64_mod → content_length (header_of n) ≡ some n
unfolding bytes content_length header_of
content_length-header n l =
    let value = 32 ∷ (decimal n n ++ last_lines) in
    let found =
      split_after-free (bytes "Content-Length:") status_lines (bytes "Content-Length:" ++ value)
        (bytes "Content-Length:") value refl (named value) in
    ap (λ o. elim o [ none ↦ some 0 | some (front, back) ↦ stoul back ]) found
    ∙ stoul-decimal n (drop 1 last_lines) l
