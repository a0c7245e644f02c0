-- ===== src/Transfer/RoundTrip.antt =====
-- A file that `sendFile` cuts up arrives whole.
use native.Mathlib.Nat.{zero-mod}
use cs425_mp.Common.{
  ℕ, zero, suc, ◌+◌, ◌-◌, ◌%◌, ◌≤◌, ◌<◌, ◌≡◌, sym, ap, ◌∙◌, ◌≢◌, Bool, true, false, some, List, [],
  ◌∷◌, ◌++◌, map, append_assoc, Bytes, bytes_eq, bytes_eq_refl, ltb, ◌==◌, arith, length,
  length-append, length-take, length-drop, length-pad, take, drop, take-append, drop-append,
  take-append-drop, take-all, cstr-pad_append, append-nil, refl, pad, if◌then◌else◌, drop-all, cstr,
  IsText, read16-be16, le→leb, le→ltb_false, lt→ltb, ==_false, ==_true, dec_lt,
}
use cs425_mp.Wire.{ReturnCode, success, has_flag}
use cs425_mp.Transfer.{
  Message, packet_of, ftp_start, ftp_stop, file_path_length, max_file_chunk_size,
}
use cs425_mp.Transfer.Send.{message_status, send_loop, send_file}
use cs425_mp.Transfer.FileNames.{IsFileName, IsHere, IsShell, file_name-IsText, file_name-positive}
use cs425_mp.Transfer.Receive.{
  Shell, Files, write_file, remove_command, chmod_command, open_transfer, finish_transfer,
  place_piece, bytes_to_write, receive_piece, receive_all,
}

-- A message whose name is a text that fits, with a piece that fits a packet.
pub record Fits (m : Message) : Type 0 where
  pub text : IsText m.name
  pub room : length m.name < file_path_length
  pub small : length m.piece + 208 < 65536
  pub status : m.status < 65536

module _ (m : Message) (f : Fits m) where
  abbrev body : Bytes
  body = pad file_path_length m.name ++ m.piece

  name_part : take file_path_length body ≡ pad file_path_length m.name
  name_part =
      take-append file_path_length (pad file_path_length m.name) m.piece (length-pad _ m.name)

  piece_part : drop file_path_length body ≡ m.piece
  piece_part =
      drop-append file_path_length (pad file_path_length m.name) m.piece (length-pad _ m.name)

  count_part : bytes_to_write (suc (suc (suc (suc (length body)))) + 4) ≡ length m.piece
  unfolding bytes_to_write
  count_part = omega (
    arith,
    f.small,
    length-append (pad file_path_length m.name) m.piece,
    length-pad file_path_length m.name,
  )

  name_read : cstr body ≡ m.name
  name_read = cstr-pad_append file_path_length m.name m.piece f.text f.room

  name_ends : ltb (length m.name) (length body) ≡ true
  name_ends = lt→ltb (length m.name) (length body) (
      omega (
        arith,
        f.room,
        length-append (pad file_path_length m.name) m.piece,
        length-pad file_path_length m.name,
      ))

  -- What the receiver does with a message: nothing of it is lost on the way.
  pub receive-packet_of :
      (shell : Shell) (files : Files)
      → receive_piece shell (packet_of m) files ≡ place_piece shell m.status m.name m.piece files
  unfolding receive_piece packet_of
  receive-packet_of shell files =
      rw
        (
          receive_piece,
          name_read,
          name_ends,
          piece_part,
          read16-be16 m.status f.status,
          count_part,
          le→leb (length m.piece) (length m.piece) (omega arith),
          take-all (length m.piece) m.piece (omega arith),
        )
        refl

-- The flags that `sendFile` computes, as the receiver reads them.
pub status_read :
    (size seq carried n : ℕ)
    → carried < 2
    → (has_flag (message_status size seq carried n) ftp_start ≡ (seq == 0))
      × (has_flag (message_status size seq carried n) ftp_stop ≡ ltb n size)
      × (message_status size seq carried n < 65536)
unfolding message_status has_flag
status_read size seq carried n h = (ground arith, ground arith, ground arith)

write_file_self : (files : Files) (name c : Bytes) → write_file files name c name ≡ some c
unfolding write_file
write_file_self files name c = rw bytes_eq_refl

-- What is left of a file that still has a whole chunk has the same remainder.
pub mod-drop : (n size : ℕ) → 0 < size → size ≤ n → (n - size) % size ≡ n % size
mod-drop n size p h = grind arith

nonempty : (n size : ℕ) → n % size ≢ 0 → 0 < n
nonempty zero size h = absurd (h (zero-mod size))
nonempty (suc n) size h = omega arith

-- The loop from message `seq` sends `rest` so that the receiver, who holds `got` of the file
-- already, ends with all of it, and with the flag of the last message. `base` is what the other files
-- are like.
pub record Delivers (shell : Shell) (size : ℕ) (reply : ℕ → ReturnCode) (name : Bytes)
    (fuel seq carried : ℕ) (rest : Bytes) (files base : Files) (got : Bytes) : Type 0 where
  pub messages : List Message
  pub after : Files
  pub sent : send_loop size reply name fuel seq carried rest ≡ some (success, messages)
  pub taken :
      (done : Bool) → receive_all shell (map packet_of messages) files done ≡ some (after, true)
  pub holds : after name ≡ some (got ++ rest)
  pub others : (j : Bytes) → IsHere j → bytes_eq j name ≡ false → after j ≡ base j

-- The receiver finds `got`, and nothing behind it, when message `seq` arrives.
abbrev pub Ready : Shell → ℕ → Bytes → Files → Files → Bytes → Type 0
Ready shell seq name files base got =
    (status : ℕ)
    → has_flag status ftp_start ≡ (seq == 0)
    → open_transfer shell status files name ≡ some (base, got, [])

pub chunk_positive : 0 < max_file_chunk_size
unfolding max_file_chunk_size
chunk_positive = omega arith

chunk_small : max_file_chunk_size + 208 < 65536
unfolding max_file_chunk_size
chunk_small = omega arith

Ready-after :
    (shell : Shell) (seq : ℕ) (name : Bytes) (files : Files) (got : Bytes)
    → Ready shell (seq + 1) name (write_file files name got) (write_file files name got) got
unfolding open_transfer
Ready-after shell seq name files got status e =
    rw (open_transfer, e ∙ ==_false (seq + 1) 0 (omega arith), write_file_self files name got) refl

Ready-first :
    (shell : Shell) (name : Bytes) (files : Files)
    → IsShell shell
    → IsFileName name
    → length name < 190
    → Ready shell 0 name files (shell (remove_command name) files) []
unfolding open_transfer
Ready-first shell name files documented ok room status e =
    rw
      (
        open_transfer,
        e,
        lt→ltb (length (remove_command name)) 200 (omega arith),
        documented.removes files name ok,
        ==_false (length name) 0 (λ z. omega (arith, file_name-positive name ok)),
      )
      refl

module _ (shell : Shell) (size : ℕ) (reply : ℕ → ReturnCode) (name : Bytes) (positive : 0 < size)
    (small : size + 208 < 65536) (documented : IsShell shell) (ok : IsFileName name)
    (room : length name < 190) (accepted : (i : ℕ) → reply i ≡ success) where
  abbrev message : (seq carried : ℕ) (rest : Bytes) → Message
  message seq carried rest = record {
    status = message_status size seq carried (length (take size rest));
    name = name;
    piece = take size rest;
  }

  message-Fits : (seq carried : ℕ) (rest : Bytes) → carried < 2 → Fits (message seq carried rest)
  message-Fits seq carried rest h = record {
    text = file_name-IsText name ok;
    room = omega arith;
    small = omega (arith, length-take size rest);
    status = (status_read size seq carried (length (take size rest)) h).2;
  }

  -- The file once a message is written.
  abbrev grown : Bytes → Bytes → Files → Files
  grown got rest base = write_file base name (got ++ take size rest)

  -- One message at the receiver.
  message_received :
      (seq carried : ℕ) (rest : Bytes) (files base : Files) (got : Bytes)
      → carried < 2
      → Ready shell seq name files base got
      → receive_piece shell (packet_of (message seq carried rest)) files ≡ (
          if ltb (length (take size rest)) size
          then some (shell (chmod_command name) (grown got rest base), true)
          else some (grown got rest base, false))
  unfolding finish_transfer place_piece
  message_received seq carried rest files base got h ready =
      let read = status_read size seq carried (length (take size rest)) h in
      let piece = take size rest in
      let whole : (piece ++ drop (length piece) []) ≡ piece =
        ap (λ t. piece ++ t) (drop-all (length piece) [] (omega arith)) ∙ append-nil piece in
      receive-packet_of (message seq carried rest) (message-Fits seq carried rest h) shell files
      ∙ rw
          (
            ready (message_status size seq carried (length piece)) read.0,
            whole,
            finish_transfer,
            read.1,
            lt→ltb (length (chmod_command name)) 200 (omega arith),
          )
          refl

  -- The last message.
  deliver_last :
      (fuel seq carried : ℕ) (rest : Bytes) (files base : Files) (got : Bytes)
      → 0 < length rest
      → length rest < size
      → carried < 2
      → Ready shell seq name files base got
      → Delivers shell size reply name (suc fuel) seq carried rest files base got
  unfolding send_loop receive_all write_file
  deliver_last fuel seq carried rest files base got p h c ready = record {
    messages = message seq carried rest ∷ [];
    after = shell (chmod_command name) (grown got rest base);
    sent = rw (
      accepted seq,
      ==_false (length (take size rest)) 0 (omega (arith, length-take size rest)),
      ==_false (length (take size rest)) size (omega (arith, length-take size rest)),
    );
    taken = λ done.
        rw (message_received seq carried rest files base got c ready)
          (rw (lt→ltb (length (take size rest)) size (omega (arith, length-take size rest))));
    holds =
        documented.modes (grown got rest base) name name ok
        ∙ write_file_self base name (got ++ take size rest)
        ∙ ap (λ t. some (got ++ t)) (take-all size rest (omega arith));
    others = λ j here ne. documented.modes (grown got rest base) name j ok ∙ rw ne;
  }

  deliver_more :
      (fuel seq carried : ℕ) (rest : Bytes) (files base : Files) (got : Bytes)
      → size ≤ length rest
      → carried < 2
      → Ready shell seq name files base got
      → Delivers shell size reply name fuel
          (seq + 1)
          0
          (drop size rest)
          (grown got rest base)
          (grown got rest base)
          (got ++ take size rest)
      → Delivers shell size reply name (suc fuel) seq carried rest files base got
  unfolding send_loop receive_all write_file
  deliver_more fuel seq carried rest files base got h c ready d = record {
    messages = message seq carried rest ∷ d.messages;
    after = d.after;
    sent = rw (
      accepted seq,
      ==_false (length (take size rest)) 0 (omega (arith, length-take size rest)),
      ==_true (length (take size rest)) size (omega (arith, length-take size rest)),
      d.sent,
    );
    taken = λ done. rw (message_received seq carried rest files base got c ready) (
        rw (le→ltb_false (length (take size rest)) size (omega (arith, length-take size rest)))
          (d.taken false));
    holds =
        d.holds
        ∙ ap some (
            append_assoc got (take size rest) (drop size rest)
            ∙ ap (λ t. got ++ t) (take-append-drop size rest));
    others = λ j here ne. d.others j here ne ∙ rw ne;
  }

  -- The whole loop, for any fuel above the length.
  deliver :
      (fuel seq carried : ℕ) (rest : Bytes) (files base : Files) (got : Bytes)
      → length rest % size ≢ 0
      → length rest < fuel
      → carried < 2
      → Ready shell seq name files base got
      → Delivers shell size reply name fuel seq carried rest files base got
  deliver zero seq carried rest files base got r f c ready = absurd (omega arith)
  deliver (suc fuel) seq carried rest files base got r f c ready =
      elim (dec_lt (length rest) size) [
        | yes h ↦
            deliver_last fuel seq carried rest files base got (nonempty (length rest) size r) h c
              ready
        | no h ↦ deliver_more fuel seq carried rest files base got (omega arith) c ready (
            deliver fuel (seq + 1) 0 (drop size rest) (grown got rest base) (grown got rest base)
              (got ++ take size rest)
              (λ e. r (
                sym (mod-drop (length rest) size positive (omega arith))
                ∙ (ap (λ k. k % size) (sym (length-drop size rest)) ∙ e)))
              (omega (arith, length-drop size rest)) (omega arith)
              (Ready-after shell seq name base (got ++ take size rest)))
      ]

-- A file whose length is no multiple of the chunk size, sent with every `sendPayload` successful under a
-- name of at most 189 letters, digits, `.`, `_` and `-`, the first of which is neither `.` nor `-`; a
-- shell at the receiver whose `rm` and `chmod` do to such a name what they are documented to do:
-- `sendFile` returns RC_SUCCESS, and the receiver, whatever files it had, ends with exactly the contents
-- under that name, every other file of its directory untouched, and the last message is the one that it
-- takes for the last.
pub receive-send_file :
    (shell : Shell) (reply : ℕ → ReturnCode) (contents name : Bytes) (files : Files)
    → IsShell shell
    → IsFileName name
    → length name < 190
    → ((i : ℕ) → reply i ≡ success)
    → length contents % max_file_chunk_size ≢ 0
    → (messages : List Message) × (send_file reply (some contents) name ≡ some (success, messages))
      × ((after : Files) × (receive_all shell (map packet_of messages) files false
            ≡ some (after, true))
          × (after name ≡ some contents)
          × ((j : Bytes) → IsHere j → bytes_eq j name ≡ false → after j ≡ files j))
unfolding send_file
receive-send_file shell reply contents name files documented ok room accepted h =
    let d =
      deliver shell max_file_chunk_size reply name chunk_positive chunk_small documented ok room
        accepted (suc (length contents)) 0 1 contents files (shell (remove_command name) files) [] h
        (omega arith) (omega arith) (Ready-first shell name files documented ok room) in
    (
      d.messages,
      d.sent,
      (
        d.after,
        d.taken false,
        d.holds,
        λ j here ne. d.others j here ne ∙ documented.keeps files name j ok here ne,
      ),
    )
