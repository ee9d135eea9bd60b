-- ===== src/Tests/FramingTests.antt =====
-- A socket that hands over one piece at a time, and the messages that a session reads from it.
use mathlib.Core.List.{append_assoc, append-nil, flatten}
use axon_queue.Prelude.{
  ℕ, ◌+◌, ◌-◌, ◌≤◌, ◌≡◌, refl, ap, sym, ◌∙◌, true, Option, none, some, List, [], ◌∷◌, ◌++◌, map,
  nat_eq, arith, ◌==◌, if◌then◌else◌, length, length-append, inl, inr, Bool-cases, Option-cases,
}
use axon_queue.TcpServer.Framing.{
  Bytes, bytes, take, drop, split_after, Asio, read_messages, decimal, response_text,
}
use axon_queue.TcpServer.Framing.Parts.{split_after-append, split_after-length}
use axon_queue.TcpServer.Framing.Messages.{read_messages-response_text}

abbrev front_of : Option (Bytes × Bytes) → Bytes
front_of none = []
front_of (some r) = r.0

unfoldable read_until : Bytes → List Bytes → Bytes → Option (ℕ × Bytes × List Bytes)
read_until p [] buffer = elim (split_after p buffer) [
  | none ↦ none
  | some (front, back) ↦ some (length front, buffer, [])
]
read_until p (piece ∷ pieces) buffer =
    let later = read_until p pieces (buffer ++ piece) in
    elim (split_after p buffer) [
      | none ↦ later
      | some (front, back) ↦ some (length front, buffer, piece ∷ pieces)
    ]

read_until_lem :
    (p : Bytes) (pieces : List Bytes) (buffer front back : Bytes)
    → split_after p (buffer ++ flatten pieces) ≡ some (front, back)
    → (buffer' : Bytes) × (pieces' : List Bytes) × (read_until p pieces buffer
        ≡ some (length front, buffer', pieces'))
      × (buffer' ++ flatten pieces' ≡ buffer ++ flatten pieces)
      × (length front ≤ length buffer')
unfolding read_until flatten
read_until_lem p [] buffer front back e =
    let found : split_after p buffer ≡ some (front, back) =
      ap (split_after p) (sym (append-nil buffer)) ∙ e in
    (buffer, [], rw (found, read_until) refl, refl, split_after-length p buffer front back found)
read_until_lem p (piece ∷ pieces) buffer front back e = elim (Option-cases (split_after p buffer)) [
  | inl missing ↦
      let (buffer', pieces', ran, same, fits) =
        read_until_lem p pieces (buffer ++ piece) front back
          (ap (split_after p) (append_assoc buffer piece (flatten pieces)) ∙ e) in
      (
        buffer',
        pieces',
        rw (missing, read_until) ran,
        same ∙ append_assoc buffer piece (flatten pieces),
        fits,
      )
  | inr ((front', back'), found) ↦
      let all = flatten (piece ∷ pieces) in
      let same = ap front_of (sym (split_after-append p buffer all front' back' found).0 ∙ e) in
      (
        buffer,
        piece ∷ pieces,
        rw (found, read_until) (ap (λ f. some (length f, buffer, piece ∷ pieces)) same),
        refl,
        omega (arith, ap length same, split_after-length p buffer front' back' found),
      )
]

unfoldable read_at_least : ℕ → List Bytes → Bytes → Option (Bytes × List Bytes)
read_at_least count [] buffer = if count == 0 then some (buffer, []) else none
read_at_least count (piece ∷ pieces) buffer =
    let later = read_at_least (count - length piece) pieces (buffer ++ piece) in
    if count == 0 then some (buffer, piece ∷ pieces) else later

read_at_least_lem :
    (count : ℕ) (pieces : List Bytes) (buffer : Bytes)
    → count ≤ length (flatten pieces)
    → (buffer' : Bytes) × (pieces' : List Bytes) × (read_at_least count pieces buffer
        ≡ some (buffer', pieces'))
      × (buffer' ++ flatten pieces' ≡ buffer ++ flatten pieces)
      × (length buffer + count ≤ length buffer')
unfolding read_at_least flatten
read_at_least_lem count [] buffer h =
    let done : (count == 0) ≡ true = ground (arith, h) in
    (buffer, [], rw done refl, refl, omega (arith, h))
read_at_least_lem count (piece ∷ pieces) buffer h = elim (Bool-cases (count == 0)) [
  | inl done ↦ (buffer, piece ∷ pieces, rw done refl, refl, ground (arith, done))
  | inr more ↦
      let (buffer', pieces', ran, left, enough) =
        read_at_least_lem (count - length piece) pieces (buffer ++ piece)
          (omega (arith, h, length-append piece (flatten pieces))) in
      (
        buffer',
        pieces',
        rw more ran,
        left ∙ append_assoc buffer piece (flatten pieces),
        omega (arith, enough, length-append buffer piece),
      )
]

abbrev by_pieces : Asio
by_pieces = record {
  Socket = List Bytes;
  arriving = flatten;
  async_read_until = read_until;
  async_read = read_at_least;
  until_completes = read_until_lem;
  read_completes = read_at_least_lem;
}

abbrev bodies : List Bytes
bodies = (123 ∷ 125 ∷ []) ∷ (49 ∷ []) ∷ []

abbrev sent : Bytes
sent = flatten (map response_text bodies)

-- The first piece ends within the first header, and the second within the second header.
abbrev pieces : List Bytes
pieces = take 20 sent ∷ take 100 (drop 20 sent) ∷ drop 120 sent ∷ []

pieces_lem : [] ++ flatten pieces ≡ flatten (map response_text bodies) ++ []
unfolding response_text decimal bytes flatten
pieces_lem = refl

read_messages-response_text_example :
    (buffer' : Bytes) × (pieces' : List Bytes) × (read_messages by_pieces 2 pieces []
      ≡ some (bodies, buffer', pieces'))
    × (buffer' ++ flatten pieces' ≡ [])
read_messages-response_text_example =
    read_messages-response_text by_pieces bodies pieces [] []
      ((omega arith, omega arith), ((omega arith, omega arith), tt)) pieces_lem
