-- ===== src/Transfer/Send.antt =====
-- `sendFile` of commons/send_file.c.
use cs425_mp.Common.{
  ℕ, zero, suc, ◌+◌, Option, none, some, List, [], ◌∷◌, Bytes, ltb, ◌==◌, if◌then◌else◌, length,
  take, drop,
}
use cs425_mp.Wire.{ReturnCode, success, file_not_found, is_success, set_flag}
use cs425_mp.Transfer.{Message, ftp_request, ftp_start, ftp_stop, max_file_chunk_size}

-- The flags of message `seq`: START on the first, STOP on a piece shorter than a chunk.
unfoldable pub message_status : ℕ → ℕ → ℕ → ℕ → ℕ
unfolding set_flag
message_status size seq carried n =
    let started = if seq == 0 then set_flag carried ftp_start else carried in
    if ltb n size then set_flag started ftp_stop else started

-- One message sent, and what the rest of the loop does.
abbrev pub sent_then :
    Message → Option (ReturnCode × List Message) → Option (ReturnCode × List Message)
sent_then m none = none
sent_then m (some (rc, ms)) = some (rc, m ∷ ms)

-- The `do … while` loop. `reply seq` is what `sendPayload` returns for message `seq`; the file has
-- `rest` left to read. `none` is fuel run out.
unfoldable pub send_loop :
    ℕ → (ℕ → ReturnCode) → Bytes → ℕ → ℕ → ℕ → Bytes → Option (ReturnCode × List Message)
unfolding message_status
send_loop size reply name zero seq carried rest = none
send_loop size reply name (suc fuel) seq carried rest =
    let piece = take size rest in
    let m : Message = record {
      status = message_status size seq carried (length piece);
      name = name;
      piece = piece;
    } in
    let more = sent_then m (send_loop size reply name fuel (seq + 1) 0 (drop size rest)) in
    if length piece == 0
    then some (file_not_found, [])
    else if is_success (reply seq)
    then (if length piece == size then more else some (success, m ∷ []))
    else some (reply seq, m ∷ [])

-- `sendFile`: the return code and the messages that were handed to `sendPayload`. A file that cannot
-- be opened gives a negative descriptor, which passes the test `fp == 0` and fails at the first
-- `read`. The file is read under `fileName` and sent under `destFileName`.
unfoldable pub send_file :
    (ℕ → ReturnCode) → Option Bytes → Bytes → Option (ReturnCode × List Message)
unfolding send_loop
send_file reply none dest = some (file_not_found, [])
send_file reply (some contents) dest =
    send_loop max_file_chunk_size reply dest (suc (length contents)) 0 ftp_request contents
