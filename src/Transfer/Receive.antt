-- ===== src/Transfer/Receive.antt =====
-- The MSG_FILE_TRANSFER branch of `processPacket` (commons/packet_process.c).
use cs425_mp.Common.{
  ℕ, ◌+◌, ◌-◌, ◌%◌, Bool, true, false, ◌&&◌, ◌==◌, ltb, codes, Option, none, some, List, [], ◌∷◌,
  ◌++◌, Bytes, bytes_eq, leb, if◌then◌else◌, length, take, drop, cstr, read16, ◌>>=◌,
}
use cs425_mp.Wire.{Packet, has_flag}
use cs425_mp.Transfer.{ftp_start, ftp_stop, file_path_length, transfer_header}

-- The files of the working directory, by name.
abbrev pub Files : Type 0
Files = Bytes → Option Bytes

unfoldable pub write_file : Files → Bytes → Bytes → Files
write_file files name contents other = if bytes_eq other name then some contents else files other

-- `system`, which hands its text to a shell.
abbrev pub Shell : Type 0
Shell = Bytes → Files → Files

-- `sprintf(command, …)` into 200 bytes, and `system(command)`. A longer text is written outside.
unfoldable pub run_command : Shell → Bytes → Files → Option Files
run_command shell command files =
    if ltb (length command) 200 then some (shell command files) else none

abbrev pub remove_command : Bytes → Bytes
remove_command name = codes "rm -rf " ++ name

abbrev pub chmod_command : Bytes → Bytes
chmod_command name = codes "chmod 777 " ++ name

-- The files once one is open, and its contents before and behind the place that is written to. START
-- has the shell remove an old file and creates one, or, where there still is one, opens it at its
-- first byte and keeps what it holds. Without START the file must exist, and is written to at its end.
-- What cannot be opened makes `while (wfp < 0) open(…)` go on for ever: `none`.
unfoldable pub open_transfer : Shell → ℕ → Files → Bytes → Option (Files × Bytes × Bytes)
unfolding run_command
open_transfer shell status files name =
    if has_flag status ftp_start
    then (do
      files1 ← run_command shell (remove_command name) files
      elim (files1 name) [
        | none ↦ if length name == 0 then none else some (files1, [], [])
        | some old ↦ some (files1, [], old)
      ])
    else elim (files name) [ none ↦ none | some old ↦ some (files, old, []) ]

-- STOP has the shell change the mode of the file; the flag says that `*return_data` is set to RC_SUCCESS
-- and the socket is closed.
unfoldable pub finish_transfer : Shell → ℕ → Bytes → Files → Option (Files × Bool)
unfolding run_command
finish_transfer shell status name files =
    if has_flag status ftp_stop
    then (do files1 ← run_command shell (chmod_command name) files; some (files1, true))
    else some (files, false)

-- `bytesToWrite`, a 16-bit difference of the packet's length and the headers.
unfoldable pub bytes_to_write : ℕ → ℕ
bytes_to_write n = (n + 65536 - (transfer_header + 4)) % 65536

-- A piece is written where the file is open.
unfoldable pub place_piece : Shell → ℕ → Bytes → Bytes → Files → Option (Files × Bool)
unfolding open_transfer finish_transfer
place_piece shell status name piece files = do
  (files1, before, behind) ← open_transfer shell status files name
  finish_transfer shell status name
      (write_file files1 name (before ++ (piece ++ drop (length piece) behind)))

-- The files after the message, and whether it was the last. `none` is a file that is never opened, or a
-- read or a write outside the packet or the command.
unfoldable pub receive_piece : Shell → Packet → Files → Option (Files × Bool)
unfolding drop
receive_piece shell packet files = elim (drop 2 packet.payload) [
  | [] ↦ none
  | hi ∷ tail ↦ elim tail [
    | [] ↦ none
    | lo ∷ body ↦
        let status = read16 hi lo in
        let name = cstr body in
        let contents = drop file_path_length body in
        let count = bytes_to_write packet.length in
        if ltb (length name) (length body) && leb count (length contents)
        then place_piece shell status name (take count contents) files
        else none
  ]
]

-- The messages of one connection in turn; the flag is that of the last message.
unfoldable pub receive_all : Shell → List Packet → Files → Bool → Option (Files × Bool)
receive_all shell [] files done = some (files, done)
receive_all shell (p ∷ ps) files done = do
  (files', done') ← receive_piece shell p files
  receive_all shell ps files' done'
