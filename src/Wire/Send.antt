-- ===== src/Wire/Send.antt =====
-- `sendPayload` and `sendPayloadUDP` of commons/message_encode.c.
use cs425_mp.Common.{
  ℕ, ◌+◌, ◌-◌, ◌*◌, ◌≤◌, ◌<◌, ◌≡◌, refl, ap, Option, none, some, List, [], ◌∷◌, ◌++◌, Bytes, ltb,
  leb, if◌then◌else◌, arith, length, length-take, take, drop, take-all, be16, ◌>>=◌, le→leb,
  le→ltb_false,
}
use cs425_mp.Wire.{ReturnCode, success, socket_write_failure, header_size}
use cs425_mp.Wire.Marshal.{perform_marshalling}

abbrev pub max_buffer_size : ℕ
max_buffer_size = 60000

-- The length that is sent: anything above `MAX_BUFFER_SIZE` is truncated.
unfoldable pub clip : ℕ → ℕ
clip length = if ltb max_buffer_size length then max_buffer_size else length

-- `buf`: the header in network order, and `length` bytes of the payload.
unfoldable pub frame : ℕ → ℕ → Bytes → Bytes
unfolding be16
frame type n payload = be16 (n + header_size) ++ (be16 type ++ take n payload)

-- What a call of `write` does: it takes some bytes, or fails.
pub data WriteResult : Type 0 where
  wrote : ℕ → WriteResult
  write_error : WriteResult

-- How the `write` loop ends: with a return code and the bytes on the wire, with a read outside
-- `buf`, or still inside a `write` that does not return.
pub data Sent : Type 0 where
  returned : ReturnCode → Bytes → Sent
  overrun : Sent
  waiting : Bytes → Sent

-- `while (bytesSent < total) rc = write(socket, buf + bytesSent, total - bytesSent)`, where `buf`
-- points to 4-byte headers: the pointer moves `4 * bytesSent` bytes. A call takes at most what it
-- is offered.
unfoldable pub write_loop : List WriteResult → Bytes → ℕ → Bytes → Sent
write_loop [] buf sent wire = if ltb sent (length buf) then waiting wire else returned success wire
write_loop (write_error ∷ rest) buf sent wire =
    if ltb sent (length buf) then returned socket_write_failure wire else returned success wire
write_loop (wrote k ∷ rest) buf sent wire =
    let next = write_loop rest buf (sent + k) (wire ++ take k (drop (4 * sent) buf)) in
    if ltb sent (length buf)
    then (if leb (4 * sent + k) (length buf) then next else overrun)
    else returned success wire

-- `sendPayload`: the outcome, and the caller's payload, which is marshalled in place. `none` is an
-- access outside the payload.
unfoldable pub send_payload : List WriteResult → ℕ → Bytes → ℕ → Option (Sent × Bytes)
unfolding clip
send_payload outcomes type payload n = do
  payload' ← perform_marshalling type payload
  if leb (clip n) (length payload')
      then some (write_loop outcomes (frame type (clip n) payload') 0 [], payload')
      else none

-- `sendPayloadUDP`: one datagram with the whole frame; a failed `sendto` is not reported.
unfoldable pub send_payload_udp : ℕ → Bytes → ℕ → Option (ReturnCode × Bytes × Bytes)
unfolding clip
send_payload_udp type payload n = do
  payload' ← perform_marshalling type payload
  if leb (clip n) (length payload')
      then some (success, frame type (clip n) payload', payload')
      else none

pub length-frame :
    (type n : ℕ) (payload : Bytes)
    → n ≤ length payload
    → length (frame type n payload) ≡ n + header_size
unfolding frame
length-frame type n payload h = omega (arith, length-take n payload)

drop_none : (buf : Bytes) → drop (4 * 0) buf ≡ buf
unfolding drop
drop_none buf = refl

write_loop-done :
    (rest : List WriteResult) (buf wire : Bytes) (sent : ℕ)
    → length buf ≤ sent
    → write_loop rest buf sent wire ≡ returned success wire
unfolding write_loop
write_loop-done [] buf wire sent h = ground arith
write_loop-done (write_error ∷ rest) buf wire sent h = ground arith
write_loop-done (wrote k ∷ rest) buf wire sent h = ground arith

-- A `write` that takes all puts the frame on the wire.
pub write_loop-all :
    (rest : List WriteResult) (buf : Bytes)
    → 0 < length buf
    → write_loop (wrote (length buf) ∷ rest) buf 0 [] ≡ returned success buf
unfolding write_loop
write_loop-all rest buf h = ground (
  arith,
  write_loop-done rest buf (take (length buf) (drop (4 * 0) buf)) (0 + length buf) (omega arith),
  take-all (length buf) buf (omega arith),
  drop_none buf,
)

-- A first `write` that takes some but not all of the frame, and a second that takes the rest: the
-- second one is given bytes outside the buffer.
pub write_loop-short :
    (k : ℕ) (rest : List WriteResult) (buf : Bytes)
    → 0 < k
    → k < length buf
    → write_loop (wrote k ∷ wrote (length buf - k) ∷ rest) buf 0 [] ≡ overrun
unfolding write_loop
write_loop-short k rest buf p h = ground arith

-- A payload that one `write` takes goes out whole, and the caller's copy is left marshalled.
pub send_payload-all :
    (type : ℕ) (payload p : Bytes)
    → perform_marshalling type payload ≡ some p
    → length p ≡ length payload
    → length payload ≤ max_buffer_size
    → send_payload (wrote (length payload + header_size) ∷ []) type payload (length payload)
      ≡ some (returned success (frame type (length payload) p), p)
unfolding send_payload
send_payload-all type payload p runs same small =
    let size : length (frame type (length payload) p) ≡ length payload + header_size =
      length-frame type (length payload) p (omega arith) in
    rw
      (
        runs,
        le→ltb_false max_buffer_size (length payload) small,
        same,
        le→leb (length payload) (length payload) (omega arith),
        ← size,
      )
      (ap (λ s. some (s, p))
        (write_loop-all [] (frame type (length payload) p) (omega (arith, size))))
