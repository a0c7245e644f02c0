-- ===== src/Transfer/Termination.antt =====
-- `sendFile` ends on every file, whatever `sendPayload` returns.
use cs425_mp.Common.{
  ℕ, zero, suc, ◌+◌, ◌≤◌, ◌<◌, ◌≡◌, refl, false, Option, none, some, List, [], ◌∷◌, Bytes, ◌==◌,
  Bool-cases, inl, inr, arith, length, length-take, length-drop, take, drop,
}
use cs425_mp.Wire.{ReturnCode, success, file_not_found, is_success}
use cs425_mp.Transfer.{Message, max_file_chunk_size}
use cs425_mp.Transfer.Send.{send_loop, sent_then, send_file}
use cs425_mp.Transfer.RoundTrip.{chunk_positive}

-- Every message carries at least one byte, and no more than a chunk.
abbrev pub AreChunks : ℕ → List Message → Type 0
AreChunks size [] = Unit
AreChunks size (m ∷ ms) = (0 < length m.piece) × (length m.piece ≤ size) × AreChunks size ms

-- A run that returns, with such messages.
abbrev Returns : ℕ → Option (ReturnCode × List Message) → Type 0
Returns size o = (rc : ReturnCode) × (ms : List Message) × (o ≡ some (rc, ms)) × AreChunks size ms

Returns-sent_then :
    (size : ℕ) (m : Message) (o : Option (ReturnCode × List Message))
    → 0 < length m.piece
    → length m.piece ≤ size
    → Returns size o
    → Returns size (sent_then m o)
Returns-sent_then size m o positive small (rc, ms, e, ok) =
    (rc, m ∷ ms, rw e refl, (positive, small, ok))

send_loop-Returns :
    (size : ℕ) (reply : ℕ → ReturnCode) (name : Bytes) (fuel seq carried : ℕ) (rest : Bytes)
    → 0 < size
    → length rest < fuel
    → Returns size (send_loop size reply name fuel seq carried rest)
unfolding send_loop
send_loop-Returns size reply name zero seq carried rest positive enough = absurd (omega arith)
send_loop-Returns size reply name (suc fuel) seq carried rest positive enough =
    let short_piece : length (take size rest) ≤ size = omega (arith, length-take size rest) in
    let positive_piece : (length (take size rest) == 0) ≡ false → 0 < length (take size rest) =
      λ e. ground (arith, e) in
    let nonempty : (length (take size rest) == 0) ≡ false → 0 < length rest =
      λ e. omega (arith, positive_piece e, length-take size rest) in
    elim (Bool-cases (length (take size rest) == 0)) [
      | inl empty ↦ rw empty (file_not_found, [], refl, tt)
      | inr more ↦ elim (Bool-cases (is_success (reply seq))) [
        | inr failed ↦
            rw (more, failed) (reply seq, _ ∷ [], refl, (positive_piece more, short_piece, tt))
        | inl sent ↦ elim (Bool-cases (length (take size rest) == size)) [
          | inr last ↦
              rw (more, sent, last) (success, _ ∷ [], refl, (positive_piece more, short_piece, tt))
          | inl full ↦
              rw (more, sent, full)
                (Returns-sent_then size _ _ (positive_piece more) short_piece (
                  send_loop-Returns size reply name fuel (seq + 1) 0 (drop size rest) positive
                    (omega (arith, length-drop size rest, nonempty more))))
        ]
      ]
    ]

-- On every file, and whatever `sendPayload` returns for each message, `sendFile` returns, and every
-- message that it sends carries at least one byte of the file and at most `MAX_FILE_CHUNK_SIZE`.
pub send_file-AreChunks :
    (reply : ℕ → ReturnCode) (file : Option Bytes) (dest : Bytes)
    → (rc : ReturnCode) × (ms : List Message) × (send_file reply file dest ≡ some (rc, ms))
      × AreChunks max_file_chunk_size ms
unfolding send_file
send_file-AreChunks reply none dest = (file_not_found, [], refl, tt)
send_file-AreChunks reply (some contents) dest =
    send_loop-Returns max_file_chunk_size reply dest (suc (length contents)) 0 1 contents
      chunk_positive (omega arith)
