-- ===== src/Wire/Decode.antt =====
-- `message_decode` and `message_decode_UDP` of commons/message_decode.c.
use cs425_mp.Common.{
  ℕ, zero, suc, ◌-◌, ◌≤◌, ◌<◌, ◌≡◌, refl, sym, ◌∙◌, ap, Option, none, some, List, [], ◌∷◌, ◌++◌,
  append-nil, append_assoc, Bytes, ltb, leb, ◌==◌, if◌then◌else◌, arith, length, length-append,
  take, drop, take-append_le, take-append_ge, drop-append_le, drop-append_ge, take-zero, drop-zero,
  suc_is_positive, le→leb, lt→leb_false, dec_le, read16,
}
use cs425_mp.Wire.{Packet}

-- What the peer does, as `read` sees it: bytes arrive (at least one), or the connection fails. After
-- the last event the peer has closed, and `read` returns 0.
pub data Event : Type 0 where
  arrived : ℕ → Bytes → Event
  broken : Event

-- The bytes of the events before a failure.
abbrev pub stream : List Event → Bytes
stream [] = []
stream (arrived b bs ∷ es) = b ∷ bs ++ stream es
stream (broken ∷ es) = []

-- No event is a failure.
abbrev pub IsClean : List Event → Type 0
IsClean [] = Unit
IsClean (arrived b bs ∷ es) = IsClean es
IsClean (broken ∷ es) = ⊥

-- `while (size > 0)` around `read(socket, ptr, size)`: a call returns at most `size` bytes, and
-- leaves the rest for the next one.
pub data Received : Type 0 where
  complete : Bytes → List Event → Received
  at_end : Received
  at_failure : Received

-- What the bytes that a call of `read` did not ask for leave of an event.
abbrev pub leftover : Bytes → List Event → List Event
leftover [] es = es
leftover (b ∷ bs) es = arrived b bs ∷ es

unfoldable pub receive : List Event → ℕ → Bytes → Received
receive [] size got = if size == 0 then complete got [] else at_end
receive (broken ∷ es) size got = if size == 0 then complete got (broken ∷ es) else at_failure
receive (arrived b bs ∷ es) size got =
    let more = receive es (size - length (b ∷ bs)) (got ++ b ∷ bs) in
    if size == 0
    then complete got (arrived b bs ∷ es)
    else if leb (length (b ∷ bs)) size
    then more
    else complete (got ++ take size (b ∷ bs)) (leftover (drop size (b ∷ bs)) es)

-- How `message_decode` ends. `closed` is a `read` of 0 and `failed` a negative one, whose value is
-- returned. `spins`: the second loop tests `rc < 0` only, so that it reads 0 bytes for ever once
-- the peer has closed. `overflow`: the announced length is less than a header, and the packet that
-- is allocated is too short for its own fields.
pub data Decoded : Type 0 where
  decoded : Packet → List Event → Decoded
  closed failed spins overflow : Decoded

-- The packet behind the two bytes of the length: its type, and the payload.
unfoldable pub parse_body : ℕ → Bytes → Option Packet
unfolding read16
parse_body n (hi ∷ lo ∷ payload) =
    some (record { length = n; type = read16 hi lo; payload = payload })
parse_body n _ = none

unfoldable pub decode_body : ℕ → List Event → Decoded
unfolding receive parse_body
decode_body n es = if ltb n 4 then overflow else elim (receive es (n - 2) []) [
  | complete body rest ↦ elim (parse_body n body) [ some p ↦ decoded p rest | none ↦ overflow ]
  | at_end ↦ spins
  | at_failure ↦ failed
]

unfoldable pub decode_length : Bytes → List Event → Decoded
unfolding read16
decode_length (hi ∷ lo ∷ []) es = decode_body (read16 hi lo) es
decode_length _ es = failed

unfoldable pub message_decode : List Event → Decoded
unfolding decode_length
message_decode es = elim (receive es 2 []) [
  | complete header rest ↦ decode_length header rest
  | at_end ↦ closed
  | at_failure ↦ failed
]

unfoldable pub parse_header : Bytes → Option Packet
unfolding read16
parse_header (l1 ∷ l0 ∷ t1 ∷ t0 ∷ payload) =
    some (record { length = read16 l1 l0; type = read16 t1 t0; payload = payload })
parse_header _ = none

-- `message_decode_UDP`: at most 1000 bytes of a datagram. `none` is a datagram with no full header,
-- whose numbers the buffer does not hold.
unfoldable pub message_decode_udp : Bytes → Option Packet
unfolding parse_header
message_decode_udp datagram = parse_header (take 1000 datagram)

stream-leftover : (bs : Bytes) (es : List Event) → stream (leftover bs es) ≡ bs ++ stream es
stream-leftover [] es = refl
stream-leftover (b ∷ bs) es = refl

IsClean-leftover : (bs : Bytes) (es : List Event) → IsClean es → IsClean (leftover bs es)
IsClean-leftover [] es h = h
IsClean-leftover (b ∷ bs) es h = h

-- What a read loop that asks for `size` bytes does with a stream that has them.
pub record Receives (es : List Event) (size : ℕ) (got : Bytes) : Type 0 where
  pub rest : List Event
  pub runs : receive es size got ≡ complete (got ++ take size (stream es)) rest
  pub left : stream rest ≡ drop size (stream es)
  pub clean : IsClean rest

nothing_asked : (es : List Event) (got : Bytes) → IsClean es → Receives es 0 got
unfolding receive
nothing_asked [] got c = record {
  rest = [];
  runs = rw (take-zero {A = ℕ}, append-nil);
  left = rw drop-zero;
  clean = tt;
}
nothing_asked (broken ∷ es) got c = absurd c
nothing_asked (arrived b bs ∷ es) got c = record {
  rest = arrived b bs ∷ es;
  runs = rw (take-zero {A = ℕ}, append-nil);
  left = rw drop-zero;
  clean = c;
}

-- An event that holds no more than what is asked for is consumed whole.
event_whole :
    (b : ℕ) (bs : Bytes) (es : List Event) (n : ℕ) (got : Bytes)
    → length (b ∷ bs) ≤ suc n
    → Receives es (suc n - length (b ∷ bs)) (got ++ b ∷ bs)
    → Receives (arrived b bs ∷ es) (suc n) got
unfolding receive
event_whole b bs es n got h ih = record {
  rest = ih.rest;
  runs =
      rw (suc_is_positive, le→leb _ _ h)
        (ih.runs
          ∙ ap (λ t. complete t ih.rest)
              (append_assoc got (b ∷ bs) _
                ∙ ap (λ t. got ++ t) (sym (take-append_ge (suc n) (b ∷ bs) (stream es) h))));
  left = ih.left ∙ sym (drop-append_ge (suc n) (b ∷ bs) (stream es) h);
  clean = ih.clean;
}

-- Of a longer one the rest is left.
event_part :
    (b : ℕ) (bs : Bytes) (es : List Event) (n : ℕ) (got : Bytes)
    → suc n < length (b ∷ bs)
    → IsClean es
    → Receives (arrived b bs ∷ es) (suc n) got
unfolding receive
event_part b bs es n got h c = record {
  rest = leftover (drop (suc n) (b ∷ bs)) es;
  runs =
      rw (suc_is_positive, lt→leb_false _ _ h)
        (ap (λ t. complete (got ++ t) (leftover (drop (suc n) (b ∷ bs)) es))
          (sym (take-append_le (suc n) (b ∷ bs) (stream es) (omega arith))));
  left =
      stream-leftover (drop (suc n) (b ∷ bs)) es
      ∙ sym (drop-append_le (suc n) (b ∷ bs) (stream es) (omega arith));
  clean = IsClean-leftover (drop (suc n) (b ∷ bs)) es c;
}

-- From a stream without a failure that holds at least `size` bytes, `receive` gets exactly the
-- first `size` of them, however they arrive, and leaves the rest in the stream, which has no failure
-- either.
pub receive-stream :
    (es : List Event) (size : ℕ) (got : Bytes)
    → IsClean es
    → size ≤ length (stream es)
    → Receives es size got
receive-stream es zero got c h = nothing_asked es got c
receive-stream [] (suc n) got c h = absurd (omega arith)
receive-stream (broken ∷ es) (suc n) got c h = absurd c
receive-stream (arrived b bs ∷ es) (suc n) got c h = elim (dec_le (length (b ∷ bs)) (suc n)) [
  | yes le ↦ event_whole b bs es n got le (
      receive-stream es (suc n - length (b ∷ bs)) (got ++ b ∷ bs) c
        (omega (arith, length-append (b ∷ bs) (stream es))))
  | no gt ↦ event_part b bs es n got (omega arith) c
]
