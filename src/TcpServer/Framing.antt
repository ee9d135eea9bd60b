-- ===== src/TcpServer/Framing.antt =====
-- `readHeader`, `readBody` and the text that `writeResponse` sends, of `TCPServer::Session`, on a
-- socket of boost::asio. A text is the list of its bytes.
pub mod Texts
pub mod Parts
pub mod Messages
use Prim.Native.Char.{code}
use axon_queue.Prelude.{
  ℕ, zero, suc, ◌≤◌, ◌≡◌, ◌+◌, ◌-◌, ◌*◌, ◌/◌, ◌%◌, String, Bool, true, false, ◌&&◌, ◌||◌, Option,
  none, some, List, [], ◌∷◌, ◌++◌, nat_eq, ◌==◌, if◌then◌else◌, ltb, leb, length, u64_mod,
}

abbrev pub Bytes : Type 0
Bytes = List ℕ

unfoldable pub bytes : String → Bytes
bytes String.[] = []
bytes (String.◌∷◌ c s) = code c ∷ bytes s

abbrev pub crlf : Bytes
crlf = 13 ∷ 10 ∷ []

abbrev pub starts_with : Bytes → Bytes → Bool
starts_with [] s = true
starts_with (p ∷ ps) [] = false
starts_with (p ∷ ps) (c ∷ s) = if p == c then starts_with ps s else false

abbrev pub take : ℕ → Bytes → Bytes
take zero s = []
take (suc n) [] = []
take (suc n) (c ∷ s) = c ∷ take n s

abbrev pub drop : ℕ → Bytes → Bytes
drop zero s = s
drop (suc n) [] = []
drop (suc n) (c ∷ s) = drop n s

-- A text up to the end of the first occurrence of another one, which is not empty, and what follows.
unfoldable pub split_after : Bytes → Bytes → Option (Bytes × Bytes)
split_after p [] = none
split_after p (c ∷ s) =
    let later = split_after p s in
    if starts_with p (c ∷ s)
    then some (take (length p) (c ∷ s), drop (length p) (c ∷ s))
    else elim later [ none ↦ none | some (front, back) ↦ some (c ∷ front, back) ]

-- `std::stoul`: spaces, a sign and digits are read; `none` is an exception.
abbrev pub is_digit : ℕ → Bool
is_digit c = leb 48 c && leb c 57

abbrev pub is_space : ℕ → Bool
is_space c = c == 32 || (leb 9 c && leb c 13)

unfoldable pub read_digits : Bytes → ℕ → ℕ
read_digits [] n = n
read_digits (c ∷ s) n = let all = read_digits s (n * 10 + (c - 48)) in if is_digit c then all else n

unfoldable pub read_unsigned : Bytes → Option ℕ
unfolding read_digits
read_unsigned [] = none
read_unsigned (c ∷ s) =
    if is_digit c
    then (if ltb (read_digits (c ∷ s) 0) u64_mod then some (read_digits (c ∷ s) 0) else none)
    else none

abbrev negated : Option ℕ → Option ℕ
negated none = none
negated (some n) = some ((u64_mod - n) % u64_mod)

unfoldable pub read_signed : Bytes → Option ℕ
unfolding read_unsigned
read_signed [] = none
read_signed (c ∷ s) =
    if c == 43
    then read_unsigned s
    else if c == 45
    then negated (read_unsigned s)
    else read_unsigned (c ∷ s)

unfoldable pub stoul : Bytes → Option ℕ
unfolding read_signed
stoul [] = none
stoul (c ∷ s) = let rest = stoul s in if is_space c then rest else read_signed (c ∷ s)

-- `Content-Length:`, and 0 without it.
unfoldable pub content_length : Bytes → Option ℕ
unfolding split_after stoul bytes
content_length header = elim (split_after (bytes "Content-Length:") header) [
  | none ↦ some 0
  | some (front, back) ↦ stoul back
]

-- What the code relies on of boost::asio. `arriving` is what the peer sends before it closes; a read
-- that completes moves bytes from there to the end of the buffer.
pub record Asio : Type 1 where
  pub Socket : Type 0
  pub arriving : Socket → Bytes
  -- `async_read_until`: the length up to the end of the first delimiter, or an error.
  pub async_read_until : Bytes → Socket → Bytes → Option (ℕ × Bytes × Socket)
  -- `async_read` with `transfer_at_least`.
  pub async_read : ℕ → Socket → Bytes → Option (Bytes × Socket)
  pub until_completes :
      (p : Bytes) (s : Socket) (buffer front back : Bytes)
      → split_after p (buffer ++ arriving s) ≡ some (front, back)
      → (buffer' : Bytes) × (s' : Socket) × (async_read_until p s buffer
          ≡ some (length front, buffer', s'))
        × (buffer' ++ arriving s' ≡ buffer ++ arriving s)
        × (length front ≤ length buffer')
  pub read_completes :
      (count : ℕ) (s : Socket) (buffer : Bytes)
      → count ≤ length (arriving s)
      → (buffer' : Bytes) × (s' : Socket) × (async_read count s buffer ≡ some (buffer', s'))
        × (buffer' ++ arriving s' ≡ buffer ++ arriving s)
        × (length buffer + count ≤ length buffer')

-- What the reading of one message comes to: a message, with the buffer and the socket after it, or
-- nothing, because of an error, of a session that is not active, or of an exception.
pub data Reading (Socket : Type 0) : Type 0 where
  message : (body buffer : Bytes) → Socket → Reading Socket
  stopped ignored thrown : Reading Socket

module _ (asio : Asio) where
  open asio use {Socket}

  unfoldable pub read_body : (active : Bool) → ℕ → Socket → Bytes → Reading Socket
  read_body false content_length s buffer = ignored
  read_body true content_length s buffer =
      if leb content_length (length buffer)
      then message (take content_length buffer) (drop content_length buffer) s
      else elim (asio.async_read (content_length - length buffer) s buffer) [
        | none ↦ stopped
        | some (buffer', s') ↦
            message (take content_length buffer') (drop content_length buffer') s'
      ]

  -- The callback of `readHeader`, given the length.
  unfoldable pub read_sized : Option ℕ → Socket → Bytes → Reading Socket
  unfolding read_body bytes
  read_sized none s buffer = thrown
  read_sized (some n) s buffer =
      if ltb 0 n then read_body true n s buffer else message (bytes "{}") buffer s

  unfoldable pub read_header : (active : Bool) → Socket → Bytes → Reading Socket
  unfolding content_length read_sized
  read_header false s buffer = ignored
  read_header true s buffer = elim (asio.async_read_until (crlf ++ crlf) s buffer) [
    | none ↦ stopped
    | some (n, buffer', s') ↦ read_sized (content_length (take n buffer')) s' (drop n buffer')
  ]

  -- A number of messages, one after the other, as the end of each answer calls `readHeader` again.
  -- `none` means that not all of them are there.
  unfoldable pub read_messages : ℕ → Socket → Bytes → Option (List Bytes × Bytes × Socket)
  unfolding read_header
  read_messages zero s buffer = some ([], buffer, s)
  read_messages (suc n) s buffer = elim (read_header true s buffer) [
    | message body buffer' s' ↦ elim (read_messages n s' buffer') [
      | none ↦ none
      | some (bodies, left, unread) ↦ some (body ∷ bodies, left, unread)
    ]
    | _ ↦ none
  ]

-- `std::to_string`; a division by ten makes the number smaller.
unfoldable pub decimal : (fuel n : ℕ) → Bytes
decimal zero n = (48 + n) ∷ []
decimal (suc fuel) n =
    let more = decimal fuel (n / 10) in
    if ltb n 10 then (48 + n) ∷ [] else more ++ (48 + n % 10) ∷ []

abbrev pub status_lines : Bytes
status_lines = bytes "HTTP/1.1 200 OK" ++ crlf ++ bytes "Content-Type: application/json" ++ crlf

abbrev pub last_lines : Bytes
last_lines = crlf ++ bytes "Connection: keep-alive" ++ crlf ++ crlf

-- The text that `writeResponse` sends for a response.
unfoldable pub response_text : Bytes → Bytes
unfolding decimal bytes
response_text response_str =
    let size = length response_str in
    status_lines
    ++ (bytes "Content-Length: " ++ (decimal size size ++ (last_lines ++ response_str)))
