-- ===== src/Transfer/WholeChunks.antt =====
-- A file of whole chunks, the empty one among them, is never finished.
use cs425_mp.Common.{
  ℕ, zero, suc, ◌+◌, ◌%◌, ◌<◌, ◌≡◌, sym, ap, ◌∙◌, false, some, List, [], ◌∷◌, Bytes, arith, length,
  length-take, length-drop, take, drop, ==_false, ==_true, le→ltb_false, dec_lt,
}
use native.Mathlib.Nat.{mod-eq_of_lt}
use cs425_mp.Wire.{ReturnCode, success, file_not_found, has_flag}
use cs425_mp.Transfer.{Message, ftp_stop, max_file_chunk_size}
use cs425_mp.Transfer.Send.{message_status, send_loop, send_file}
use cs425_mp.Transfer.RoundTrip.{status_read, mod-drop, chunk_positive}

-- No message says that it is the last.
abbrev pub NoStop : List Message → Type 0
NoStop [] = Unit
NoStop (m ∷ ms) = (has_flag m.status ftp_stop ≡ false) × NoStop ms

below_zero : (n size : ℕ) → n < size → n % size ≡ 0 → n ≡ 0
below_zero n size h e = sym (mod-eq_of_lt h) ∙ e

module _ (size : ℕ) (reply : ℕ → ReturnCode) (name : Bytes) (positive : 0 < size)
    (accepted : (i : ℕ) → reply i ≡ success) where
  unfinished :
      (fuel seq carried : ℕ) (rest : Bytes)
      → length rest % size ≡ 0
      → length rest < fuel
      → carried < 2
      → (messages : List Message) × (send_loop size reply name fuel seq carried rest
          ≡ some (file_not_found, messages))
        × NoStop messages
  unfolding send_loop
  unfinished zero seq carried rest r f c = absurd (omega arith)
  unfinished (suc fuel) seq carried rest r f c = elim (dec_lt (length rest) size) [
    | yes h ↦
        let empty : length (take size rest) ≡ 0 =
          omega (arith, length-take size rest, below_zero (length rest) size h r) in
        ([], rw (==_true (length (take size rest)) 0 empty), tt)
    | no h ↦
        let full : length (take size rest) ≡ size = omega (arith, length-take size rest) in
        let (messages, sent, stops) =
          unfinished fuel (seq + 1) 0 (drop size rest)
            (ap (λ k. k % size) (length-drop size rest)
              ∙ (mod-drop (length rest) size positive (omega arith) ∙ r))
            (omega (arith, length-drop size rest)) (omega arith) in
        let m : Message = record {
          status = message_status size seq carried (length (take size rest));
          name = name;
          piece = take size rest;
        } in
        (
          m ∷ messages,
          rw (
            accepted seq,
            ==_false (length (take size rest)) 0 (omega arith),
            ==_true (length (take size rest)) size full,
            sent,
          ),
          (
            (status_read size seq carried (length (take size rest)) c).1
                ∙ le→ltb_false (length (take size rest)) size (omega arith),
            stops,
          ),
        )
  ]

-- A file whose length is a multiple of the chunk size, every `sendPayload` successful: `sendFile`
-- returns RC_FILE_NOT_FOUND, and none of its messages has the flag by which the receiver knows the
-- last one.
pub send_file-whole_chunks :
    (reply : ℕ → ReturnCode) (contents name : Bytes)
    → ((i : ℕ) → reply i ≡ success)
    → length contents % max_file_chunk_size ≡ 0
    → (messages : List Message) × (send_file reply (some contents) name
        ≡ some (file_not_found, messages))
      × NoStop messages
unfolding send_file
send_file-whole_chunks reply contents name accepted h =
    unfinished max_file_chunk_size reply name chunk_positive accepted (suc (length contents)) 0 1
      contents h (omega arith) (omega arith)
