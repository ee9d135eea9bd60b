-- ===== src/TcpServer/Framing/Messages.antt =====
-- A session reads the messages that `writeResponse` frames, however the socket hands them over.
use mathlib.Core.List.{append_assoc, flatten}
use axon_queue.Prelude.{
  ◌-◌, ◌≤◌, ◌<◌, ◌≡◌, refl, ap, sym, ◌∙◌, true, some, List, [], ◌∷◌, ◌++◌, map, nat_eq, arith, ltb,
  leb, length, length-append, inl, inr, Bool-cases, All, u64_mod,
}
use axon_queue.TcpServer.Framing.{
  Bytes, crlf, take, drop, split_after, Asio, Reading, message, read_body, read_sized, read_header,
  read_messages, content_length, response_text,
}
use axon_queue.TcpServer.Framing.Texts.{
  header_of, header_append, split_after-header, content_length-header,
}
use axon_queue.TcpServer.Framing.Parts.{
  take-append, drop-append, take-length, drop-length, split_after-append,
}

-- The beginning of a text, when at least that much of it is in the buffer.
buffered :
    (m buffer arriving rest : Bytes)
    → length m ≤ length buffer
    → buffer ++ arriving ≡ m ++ rest
    → (take (length m) buffer ≡ m) × (drop (length m) buffer ++ arriving ≡ rest)
buffered m buffer arriving rest fits e = (
  sym (take-append (length m) buffer arriving fits) ∙ (ap (take (length m)) e ∙ take-length m rest),
  sym (drop-append (length m) buffer arriving fits) ∙ (ap (drop (length m)) e ∙ drop-length m rest),
)

-- A body that `Content-Length` can announce: of at least one byte, and fewer than 2^64.
abbrev pub IsSendable : Bytes → Type 0
IsSendable m = (0 < length m) × (length m < u64_mod)

module _ (asio : Asio) where
  open asio use {Socket, arriving}

  -- A reading gives a message and leaves a text unread.
  abbrev Reads : Bytes → Bytes → Reading Socket → Type 0
  Reads body rest reading =
      (buffer : Bytes) × (s : Socket) × (reading ≡ message body buffer s)
      × (buffer ++ arriving s ≡ rest)

  read_body-Reads :
      (m : Bytes) (s : Socket) (buffer rest : Bytes)
      → buffer ++ arriving s ≡ m ++ rest
      → Reads m rest (read_body asio true (length m) s buffer)
  unfolding read_body
  read_body-Reads m s buffer rest e = elim (Bool-cases (leb (length m) (length buffer))) [
    | inl enough ↦
        let (body, left) = buffered m buffer (arriving s) rest (ground (arith, enough)) e in
        (
          drop (length m) buffer,
          s,
          rw enough (ap (λ b. message b (drop (length m) buffer) s) body),
          left,
        )
    | inr short ↦
        let there : length m - length buffer ≤ length (arriving s) =
          omega (arith, ap length e, length-append buffer (arriving s), length-append m rest) in
        let (buffer', s', ran, same, long) =
          asio.read_completes (length m - length buffer) s buffer there in
        let (body, left) =
          buffered m buffer' (arriving s') rest (ground (arith, short, long)) (same ∙ e) in
        (
          drop (length m) buffer',
          s',
          rw (short, ran) (ap (λ b. message b (drop (length m) buffer') s') body),
          left,
        )
  ]

  read_header-Reads :
      (m : Bytes) (s : Socket) (buffer rest : Bytes)
      → IsSendable m
      → buffer ++ arriving s ≡ response_text m ++ rest
      → Reads m rest (read_header asio true s buffer)
  unfolding read_header read_sized
  read_header-Reads m s buffer rest (some_bytes, few) e =
      let header = header_of (length m) in
      let split : split_after (crlf ++ crlf) (buffer ++ arriving s) ≡ some (header, m ++ rest) =
        ap (split_after (crlf ++ crlf)) e
        ∙ (split_after-append (crlf ++ crlf) (response_text m) rest header m
            (split_after-header m)).0 in
      let (buffer', s', ran, same, fits) =
        asio.until_completes (crlf ++ crlf) s buffer header (m ++ rest) split in
      let whole : buffer' ++ arriving s' ≡ header ++ (m ++ rest) =
        same ∙ (e ∙ (ap (λ t. t ++ rest) (header_append m) ∙ append_assoc header m rest)) in
      let (front, left) = buffered header buffer' (arriving s') (m ++ rest) fits whole in
      let announced : ltb 0 (length m) ≡ true = ground (arith, some_bytes) in
      let length_ : content_length (take (length header) buffer') ≡ some (length m) =
        ap content_length front ∙ content_length-header (length m) few in
      rw (ran, length_, announced, read_header)
        (read_body-Reads m s' (drop (length header) buffer') rest left)

  -- Responses that are sent one after the other are read one after the other by a session, each as
  -- it was, in whatever pieces the socket hands them over, if none is empty or has 2^64 bytes. What
  -- follows them is left unread.
  pub read_messages-response_text :
      (ms : List Bytes) (s : Socket) (buffer rest : Bytes)
      → All IsSendable ms
      → buffer ++ arriving s ≡ flatten (map response_text ms) ++ rest
      → (buffer' : Bytes) × (s' : Socket) × (read_messages asio (length ms) s buffer
          ≡ some (ms, buffer', s'))
        × (buffer' ++ arriving s' ≡ rest)
  unfolding read_messages flatten
  read_messages-response_text [] s buffer rest h e = (buffer, s, refl, e)
  read_messages-response_text (m ∷ ms) s buffer rest h e =
      let others = flatten (map response_text ms) in
      let (buffer₁, s₁, ran, left) =
        read_header-Reads m s buffer (others ++ rest) h.0
          (e ∙ append_assoc (response_text m) others rest) in
      let (buffer₂, s₂, ran', left') = read_messages-response_text ms s₁ buffer₁ rest h.1 left in
      (buffer₂, s₂, rw (ran, ran', read_messages) refl, left')
