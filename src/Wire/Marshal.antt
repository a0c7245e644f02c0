-- ===== src/Wire/Marshal.antt =====
-- `marshalInfo` and `perform_marshalling` of commons/message_encode.c, on a little-endian host.
use mathlib.Core.List.{reverse, reverse-reverse}
use cs425_mp.Wire.{num_of_payloads}
use cs425_mp.Common.{
  ℕ, ◌+◌, ◌≤◌, ◌<◌, ◌≡◌, ap, ◌∙◌, true, Option, none, some, List, [], ◌∷◌, ◌++◌, ◌||◌, Bytes, ltb,
  ◌==◌, if◌then◌else◌, leb, arith, length, length-append, length-take, length-drop, take, drop,
  take-append, drop-append, take-append-drop, ◌>>=◌, lt→ltb, Bool-cases, inl, inr,
}

-- Offset and size of each field that a message type has in network order. The rows past the four
-- that the source writes are zero. `none` is a row outside the table.
unfoldable pub marshal_info : ℕ → Option (List (ℕ × ℕ))
marshal_info type =
    if type == 0
    then some ((0, 4) ∷ [])
    else if type == 2 || type == 3
    then some ((4, 4) ∷ [])
    else if ltb type 10
    then some []
    else none

-- `htons` or `htonl` of the `size` bytes at `offset`, which reverses them. Any other size is left
-- alone. `none` is an access outside the payload.
unfoldable pub swap_field : ℕ → ℕ → Bytes → Option Bytes
swap_field offset size payload =
    if size == 2 || size == 4
    then (if leb (offset + size) (length payload)
        then some (
            take offset payload
            ++ (reverse (take size (drop offset payload)) ++ drop size (drop offset payload)))
        else none)
    else some payload

-- The `while` loop over a row: it stops at the first size 0.
unfoldable pub marshal_row : List (ℕ × ℕ) → Bytes → Option Bytes
unfolding swap_field
marshal_row [] payload = some payload
marshal_row ((offset, size) ∷ row) payload =
    if size == 0 then some payload else (do p ← swap_field offset size payload; marshal_row row p)

unfoldable pub perform_marshalling : ℕ → Bytes → Option Bytes
unfolding marshal_info marshal_row
perform_marshalling type payload = do row ← marshal_info type; marshal_row row payload

length-reverse_aux :
    (xs ys : Bytes) → length (mathlib.Core.List.reverse_aux xs ys) ≡ length xs + length ys
length-reverse_aux [] ys = omega arith
length-reverse_aux (x ∷ xs) ys = omega (arith, length-reverse_aux xs (x ∷ ys))

pub length-reverse : (xs : Bytes) → length (reverse xs) ≡ length xs
length-reverse xs = omega (arith, length-reverse_aux xs [])

-- The three cuts of a payload around a field, as a swap sees them again.
module _ (offset size : ℕ) (payload : Bytes) (fits : offset + size ≤ length payload) where
  abbrev front : Bytes
  front = take offset payload

  abbrev field : Bytes
  field = take size (drop offset payload)

  abbrev back : Bytes
  back = drop size (drop offset payload)

  length_front : length front ≡ offset
  length_front = omega (arith, length-take offset payload)

  length_field : length field ≡ size
  length_field = omega (arith, length-take size (drop offset payload), length-drop offset payload)

  whole : front ++ (field ++ back) ≡ payload
  whole = rw (take-append-drop size (drop offset payload), take-append-drop offset payload)

  swapped-drop : drop offset (front ++ (reverse field ++ back)) ≡ reverse field ++ back
  swapped-drop = drop-append offset front _ length_front

  length_swapped : length (front ++ (reverse field ++ back)) ≡ length payload
  length_swapped = omega (
    arith,
    length-append front (reverse field ++ back),
    length-append (reverse field) back,
    length-reverse field,
    length-append front (field ++ back),
    length-append field back,
    ap length whole,
  )

  swapped_twice :
      take offset (front ++ (reverse field ++ back))
        ++ (reverse (take size (drop offset (front ++ (reverse field ++ back))))
            ++ drop size (drop offset (front ++ (reverse field ++ back))))
      ≡ payload
  swapped_twice =
      rw
        (
          swapped-drop,
          take-append offset front (reverse field ++ back) length_front,
          take-append size (reverse field) back (length-reverse field ∙ length_field),
          drop-append size (reverse field) back (length-reverse field ∙ length_field),
          reverse-reverse field,
        )
        whole

pub swapped : ℕ → Bytes → Bytes
swapped offset p = take offset p ++ (reverse (take 4 (drop offset p)) ++ drop 4 (drop offset p))

row_of_one :
    (offset : ℕ) (payload : Bytes)
    → offset + 4 ≤ length payload
    → (marshal_row ((offset, 4) ∷ []) payload ≡ some (swapped offset payload))
      × (swapped offset (swapped offset payload) ≡ payload)
      × (length (swapped offset payload) ≡ length payload)
unfolding marshal_row swapped
row_of_one offset payload h =
    (ground arith, swapped_twice offset 4 payload h, length_swapped offset 4 payload h)

-- What a message type asks of the length of its payload.
unfoldable pub marshal_room : ℕ → ℕ
marshal_room type = if type == 0 then 4 else if type == 2 || type == 3 then 8 else 0

-- The payload in network order.
unfoldable pub marshalled : ℕ → Bytes → Bytes
unfolding swapped
marshalled type payload =
    if type == 0
    then swapped 0 payload
    else if type == 2 || type == 3
    then swapped 4 payload
    else payload

pub record Marshals (type : ℕ) (payload : Bytes) : Type 0 where
  pub runs : perform_marshalling type payload ≡ some (marshalled type payload)
  pub back : marshalled type (marshalled type payload) ≡ payload
  pub size : length (marshalled type payload) ≡ length payload

pub marshal_cases :
    (type : ℕ) (payload : Bytes)
    → type < num_of_payloads
    → marshal_room type ≤ length payload
    → Marshals type payload
unfolding perform_marshalling marshal_info marshalled marshal_room
marshal_cases type payload known h =
    let room0 : type ≡ 0 → 4 ≤ length payload = ground arith in
    let room4 : (type == 2 || type == 3) ≡ true → 8 ≤ length payload = ground arith in
    elim (Bool-cases (type == 0)) [
      | inl e ↦
          let (runs, back, size) = row_of_one 0 payload (room0 (ground arith)) in
          record { runs = rw e runs; back = rw e back; size = rw e size }
      | inr e ↦ elim (Bool-cases (type == 2 || type == 3)) [
        | inl f ↦
            let (runs, back, size) = row_of_one 4 payload (room4 f) in
            record { runs = rw (e, f) runs; back = rw (e, f) back; size = rw (e, f) size }
        | inr f ↦ record {
          runs = rw (e, f, lt→ltb type 10 known);
          back = rw (e, f);
          size = rw (e, f);
        }
      ]
    ]
