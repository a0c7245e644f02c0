-- ===== src/Examples/Messages.antt =====
-- A heartbeat on its way.
use cs425_mp.Common.{◌+◌, ◌≡◌, refl, some, List, [], ◌∷◌, ◌++◌, Bytes, arith, ◌≤◌, take, drop}
use cs425_mp.Wire.{success, header_size}
use cs425_mp.Wire.Marshal.{perform_marshalling, marshalled, marshal_room}
use cs425_mp.Wire.Send.{frame, wrote, returned, send_payload, write_loop, overrun, write_loop-short}
use cs425_mp.Wire.Decode.{Event, arrived, stream, message_decode, decoded, Receives, receive-stream}
use cs425_mp.Wire.RoundTrip.{decode-send}

-- The four bytes of a timestamp, as the little-endian host has them.
abbrev heartbeat : Bytes
heartbeat = 1 ∷ 2 ∷ 3 ∷ 4 ∷ []

-- It arrives in two pieces.
abbrev arrivals : List Event
arrivals = arrived 0 (8 ∷ 0 ∷ []) ∷ arrived 0 (4 ∷ 3 ∷ 2 ∷ 1 ∷ []) ∷ []

stream-arrivals : stream arrivals ≡ frame 0 4 (marshalled 0 heartbeat) ++ []
unfolding frame take marshalled drop
stream-arrivals = refl

heartbeat_room : marshal_room 0 ≤ 4
unfolding marshal_room
heartbeat_room = omega arith

decode-send_example :
    (send_payload (wrote (4 + header_size) ∷ []) 0 heartbeat 4
      ≡ some (returned success (frame 0 4 (marshalled 0 heartbeat)), marshalled 0 heartbeat))
    × ((events : List Event) × (message_decode arrivals
          ≡ decoded
              (record { length = 4 + header_size; type = 0; payload = marshalled 0 heartbeat })
              events)
        × (stream events ≡ []))
    × (perform_marshalling 0 (marshalled 0 heartbeat) ≡ some heartbeat)
decode-send_example =
    decode-send 0 heartbeat [] arrivals (omega arith) heartbeat_room (omega arith) tt
      stream-arrivals

receive-stream_example : Receives arrivals 5 []
receive-stream_example = receive-stream arrivals 5 [] tt (omega arith)

write_loop-short_example :
    write_loop (wrote 2 ∷ wrote 6 ∷ []) (0 ∷ 8 ∷ 0 ∷ 0 ∷ heartbeat) 0 [] ≡ overrun
write_loop-short_example =
    write_loop-short 2 [] (0 ∷ 8 ∷ 0 ∷ 0 ∷ heartbeat) (omega arith) (omega arith)
