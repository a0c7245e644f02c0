-- ===== src/Examples/Files.antt =====
-- Files on their way.
use cs425_mp.Common.{
  ℕ, ◌%◌, ◌≡◌, refl, ap, ◌≢◌, true, false, none, some, List, [], ◌∷◌, map, Bytes, bytes_eq, length,
  replicate, length-replicate, arith, codes, bytes_eq_refl, if◌then◌else◌, false,
}
use cs425_mp.Wire.{ReturnCode, success, file_not_found}
use cs425_mp.Transfer.{Message, packet_of, max_file_chunk_size}
use cs425_mp.Transfer.Send.{send_file}
use cs425_mp.Admission.{strip}
use cs425_mp.Transfer.FileNames.{IsFileName, IsHere, IsShell}
use cs425_mp.Transfer.Receive.{Shell, Files, receive_all}
use cs425_mp.Transfer.RoundTrip.{receive-send_file}
use cs425_mp.Transfer.WholeChunks.{NoStop, send_file-whole_chunks}

abbrev accepting : ℕ → ReturnCode
accepting i = success

abbrev hello : Bytes
hello = 104 ∷ 105 ∷ 10 ∷ []

abbrev hello_name : Bytes
hello_name = 97 ∷ 46 ∷ 116 ∷ []

hello_length : length hello % max_file_chunk_size ≢ 0
unfolding max_file_chunk_size
hello_length e = absurd (omega arith)

hello_name-IsFileName : IsFileName hello_name
hello_name-IsFileName = (λ e. omega arith, λ e. omega arith, (refl, (refl, (refl, tt))))

-- The receiver has a longer file of that name.
abbrev old_files : Files
old_files name = if bytes_eq name hello_name then some (codes "an old file") else none

-- A shell that knows `rm -rf` of one name only.
abbrev removing : Shell
removing command files j = elim (strip (codes "rm -rf ") command) [
  | none ↦ files j
  | some name ↦ if bytes_eq j name then none else files j
]

removing-IsShell : IsShell removing
unfolding strip
removing-IsShell = record {
  removes = λ files name ok. rw (bytes_eq_refl name) refl;
  keeps = λ files name j ok here ne. rw (ne) refl;
  modes = λ files name j ok. refl;
}

receive-send_file_example :
    (messages : List Message) × (send_file accepting (some hello) hello_name
      ≡ some (success, messages))
    × ((after : Files) × (receive_all removing (map packet_of messages) old_files false
          ≡ some (after, true))
        × (after hello_name ≡ some hello)
        × ((j : Bytes) → IsHere j → bytes_eq j hello_name ≡ false → after j ≡ old_files j))
receive-send_file_example =
    receive-send_file removing accepting hello hello_name old_files removing-IsShell
      hello_name-IsFileName (omega arith) (λ i. refl) hello_length

abbrev full_chunk : Bytes
full_chunk = replicate 59600 65

full_chunk_length : length full_chunk % max_file_chunk_size ≡ 0
unfolding max_file_chunk_size
full_chunk_length = ap (λ n. n % 59600) (length-replicate 59600 65)

send_file-whole_chunks_example :
    (messages : List Message) × (send_file accepting (some full_chunk) hello_name
      ≡ some (file_not_found, messages))
    × NoStop messages
send_file-whole_chunks_example =
    send_file-whole_chunks accepting full_chunk hello_name (λ i. refl) full_chunk_length
