-- ===== src/Wire/RoundTrip.antt =====
-- What `sendPayload` puts on the wire, `message_decode` and `perform_marshalling` bring back.
use cs425_mp.Common.{
  ℕ, ◌+◌, ◌-◌, ◌≤◌, ◌<◌, ◌≡◌, refl, ◌∙◌, ap, some, List, [], ◌∷◌, ◌++◌, Bytes, arith, length,
  length-append, take, drop, take-all, take-append, drop-append, be16, read16-be16, le→ltb_false,
}
use cs425_mp.Wire.{success, header_size, num_of_payloads}
use cs425_mp.Wire.Marshal.{perform_marshalling, marshal_room, marshalled, marshal_cases}
use cs425_mp.Wire.Send.{max_buffer_size, frame, wrote, returned, send_payload, send_payload-all}
use cs425_mp.Wire.Decode.{
  Event, stream, IsClean, complete, receive, parse_body, decode_length, decode_body, message_decode,
  decoded, receive-stream,
}

-- The frame of a payload that fits is the header and the payload.
frame_parts :
    (type n : ℕ) (payload rest : Bytes)
    → length payload ≡ n
    → frame type n payload ++ rest ≡ be16 (n + header_size) ++ ((be16 type ++ payload) ++ rest)
unfolding frame be16
frame_parts type n payload rest h = rw (take-all n payload (omega arith))

length_be16 : (n : ℕ) → length (be16 n) ≡ 2
unfolding be16
length_be16 n = refl

module _ (type : ℕ) (payload rest : Bytes) (n : ℕ) (small : type < 65536)
    (size : n ≡ length payload + 4) (fits : n < 65536) where
  body_length : length (be16 type ++ payload) ≡ n - 2
  unfolding be16
  body_length = omega arith

  body_parsed :
      parse_body n (be16 type ++ payload)
      ≡ some (record { length = n; type = type; payload = payload })
  unfolding parse_body be16
  body_parsed = rw (read16-be16 type small)

  received_body :
      (es : List Event)
      → IsClean es
      → stream es ≡ (be16 type ++ payload) ++ rest
      → (events : List Event) × (receive es (n - 2) [] ≡ complete (be16 type ++ payload) events)
        × (stream events ≡ rest)
        × IsClean events
  received_body es c e =
      let room : n - 2 ≤ length (stream es) =
        omega (arith, ap length e, length-append (be16 type ++ payload) rest, body_length) in
      let r = receive-stream es (n - 2) [] c room in
      (
        r.rest,
        r.runs
            ∙ ap (λ t. complete t r.rest)
                (ap (take (n - 2)) e ∙ take-append (n - 2) (be16 type ++ payload) rest body_length),
        r.left ∙ ap (drop (n - 2)) e ∙ drop-append (n - 2) (be16 type ++ payload) rest body_length,
        r.clean,
      )

  decode-body :
      (es : List Event)
      → IsClean es
      → stream es ≡ (be16 type ++ payload) ++ rest
      → (events : List Event) × (decode_body n es
          ≡ decoded (record { length = n; type = type; payload = payload }) events)
        × (stream events ≡ rest)
        × IsClean events
  unfolding decode_body
  decode-body es c e =
      let (events, got, left, clean) = received_body es c e in
      (events, rw (decode_body, le→ltb_false n 4 (omega arith), got, body_parsed), left, clean)

  length_read :
      (es later : List Event)
      → receive es 2 [] ≡ complete (be16 n) later
      → message_decode es ≡ decode_body n later
  unfolding message_decode decode_length be16
  length_read es later got = rw (message_decode, got, read16-be16 n fits)

  -- A frame at the head of the stream is decoded, and what follows it is left.
  pub decode-frame :
      (es : List Event)
      → IsClean es
      → stream es ≡ be16 n ++ ((be16 type ++ payload) ++ rest)
      → (events : List Event) × (message_decode es
          ≡ decoded (record { length = n; type = type; payload = payload }) events)
        × (stream events ≡ rest)
        × IsClean events
  decode-frame es c e =
      let r = receive-stream es 2 [] c (
        omega (
          arith,
          ap length e,
          length-append (be16 n) ((be16 type ++ payload) ++ rest),
          length_be16 n,
        )) in
      let got : receive es 2 [] ≡ complete (be16 n) r.rest =
        r.runs
        ∙ ap (λ t. complete (take 2 t) r.rest) e
        ∙ ap (λ t. complete t r.rest) (take-append 2 (be16 n) _ (length_be16 n)) in
      let after : stream r.rest ≡ (be16 type ++ payload) ++ rest =
        r.left ∙ ap (drop 2) e ∙ drop-append 2 (be16 n) _ (length_be16 n) in
      let (events, ran, left, clean) = decode-body r.rest r.clean after in
      (events, length_read es r.rest got ∙ ran, left, clean)

-- What `sendPayload` hands to one `write` that takes it all is, in whatever pieces it arrives and
-- whatever follows it, decoded to a packet of that type whose payload `perform_marshalling` turns
-- back into the sender's, and what follows is left in the stream.
pub decode-send :
    (type : ℕ) (payload rest : Bytes) (es : List Event)
    → type < num_of_payloads
    → marshal_room type ≤ length payload
    → length payload ≤ max_buffer_size
    → IsClean es
    → stream es ≡ frame type (length payload) (marshalled type payload) ++ rest
    → (send_payload (wrote (length payload + header_size) ∷ []) type payload (length payload)
        ≡ some (
          returned success (frame type (length payload) (marshalled type payload)),
          marshalled type payload,
        ))
      × ((events : List Event) × (message_decode es
            ≡ decoded
                (record {
                  length = length payload + header_size;
                  type = type;
                  payload = marshalled type payload;
                })
                events)
          × (stream events ≡ rest))
      × (perform_marshalling type (marshalled type payload) ≡ some payload)
decode-send type payload rest es known room small c e =
    let m = marshal_cases type payload known room in
    let m' = marshal_cases type (marshalled type payload) known (omega (arith, m.size)) in
    let split : stream es
        ≡ be16 (length payload + 4) ++ ((be16 type ++ marshalled type payload) ++ rest) =
      e ∙ frame_parts type (length payload) (marshalled type payload) rest m.size in
    let received =
      decode-frame type (marshalled type payload) rest (length payload + 4) (omega arith)
        (omega (arith, m.size)) (omega arith) es c split in
    (
      send_payload-all type payload (marshalled type payload) m.runs m.size small,
      (received.0, received.1, received.2),
      m'.runs ∙ ap some m.back,
    )
