-- ===== src/Dgrep.antt =====
-- dgrep_client/dgrep_client.c: a grep that runs on several machines. The client fills its command into a
-- script, sends that and has it executed.
pub mod Script
pub mod Retries
use cs425_mp.Common.{
  ℕ, zero, suc, ◌+◌, ◌-◌, Bool, true, false, ◌&&◌, ◌||◌, not, Option, none, some, List, [], ◌∷◌,
  ◌++◌, Bytes, codes, bytes_eq, cstr, ◌==◌, ltb, leb, if◌then◌else◌, ◌>>=◌, length,
}
use cs425_mp.Wire.{
  ReturnCode, is_success, success, failure, file_not_found, socket_write_failure, set_flag,
}
use cs425_mp.Transfer.{Message, ftp_request, ftp_start, ftp_stop}
use cs425_mp.Admission.{fgets}
use cs425_mp.Dfs.Persist.{decimal}

-- `main`: the arguments, each with a space behind it, behind `grep -n `; none when they are too long.
unfoldable pub add_arguments : Bytes → List Bytes → Option Bytes
add_arguments command [] = some command
add_arguments command (a ∷ as') =
    if ltb 900 (length command + length a)
    then none
    else add_arguments (command ++ (a ++ 32 ∷ [])) as'

-- What the thread of machine `i` has executed: the name of its output, and the command.
unfoldable pub thread_command : ℕ → Bytes → Bytes
thread_command i command =
    codes "##command_output_"
    ++ (decimal i
        ++ (codes ".txt\n"
            ++ (command
                ++ (codes " machine."
                    ++ (decimal i
                        ++ (codes ".log &> command_output_" ++ (decimal i ++ codes ".txt")))))))

unfoldable pub thread_commands : ℕ → ℕ → Bytes → List Bytes
thread_commands zero i command = []
thread_commands (suc n) i command = thread_command i command ∷ thread_commands n (i + 1) command

abbrev pub no_of_connections : ℕ
no_of_connections = 4

-- The commands that `main` gives its threads.
unfoldable pub commands : List Bytes → Option (List Bytes)
commands arguments = do
  command ← add_arguments (codes "grep -n ") arguments
  some (thread_commands no_of_connections 1 command)

-- Whether `fgets` with room for `n` bytes runs into the end of the file.
unfoldable pub hit_eof : ℕ → Bytes → Bool
hit_eof zero text = false
hit_eof (suc n) [] = true
hit_eof (suc n) (b ∷ text) = let rest = hit_eof n text in if b == 10 then false else rest

-- The line of the template that stands for the command.
abbrev pub marker : Bytes
marker = codes "##REPLACE USER COMMAND\n"

-- Room for a payload in the 1024 bytes of `ftpBuf`.
abbrev pub payload_room : ℕ
payload_room = 820

abbrev pub script_name : Bytes
script_name = codes "grep_script"

-- The variables of the loop of `sendScriptFile`: the texts in `msgBuf` and `fileBuf`, `seqNo` and the
-- flags.
pub record Pending : Type 0 where
  pub message : Bytes
  pub file_buf : Bytes
  pub seq : ℕ
  pub status : ℕ

-- A round: a write outside `ftpBuf`, a message that could not be sent, or what goes on.
pub data Step : Type 0 where
  fault : Step
  stopped : ReturnCode → Message → Step
  going : List Message → Pending → Step

unfoldable pub script_message : ℕ → Pending → Message
script_message flags p = record { status = flags; name = script_name; piece = p.file_buf }

unfoldable pub started_flags : Pending → ℕ
started_flags p = if p.seq == 0 then set_flag p.status ftp_start else p.status

-- `message` is put behind what `fileBuf` holds, which is sent before if both are too long together.
unfoldable pub take_line : (ℕ → ReturnCode) → Bytes → Pending → Step
take_line reply message p =
    let m = script_message (started_flags p) p in
    let next =
      going (m ∷ [])
        (record { message = message; file_buf = message; seq = p.seq + 1; status = 0 }) in
    if ltb 1000 (length message + length p.file_buf)
    then if ltb payload_room (length p.file_buf)
      then fault
      else if is_success (reply p.seq)
      then next
      else stopped (reply p.seq) m
    else going [] (record p { message = message; file_buf = p.file_buf ++ message })

-- The message behind the loop.
unfoldable pub last_message : (ℕ → ReturnCode) → Pending → Option (ReturnCode × List Message)
last_message reply p =
    if ltb payload_room (length p.file_buf)
    then none
    else some (reply p.seq, script_message (set_flag (started_flags p) ftp_stop) p ∷ [])

abbrev pub sent_before :
    List Message → Option (ReturnCode × List Message) → Option (ReturnCode × List Message)
sent_before ms none = none
sent_before ms (some (rc, later)) = some (rc, ms ++ later)

-- What `msgBuf` holds after `fgets`, and after the comparison with the marker; at the end of the file
-- it holds what it held before.
unfoldable pub next_message : Bytes → Bytes → Bytes → Bytes
next_message command held line =
    let read = if length line == 0 then held else cstr line in
    if bytes_eq read marker then command else read

-- The loop of `sendScriptFile`, over what is left of the template. Each round but the last one takes a
-- byte.
unfoldable pub send_script_loop :
    ℕ → (ℕ → ReturnCode) → Bytes → Pending → Bytes → Option (ReturnCode × List Message)
send_script_loop zero reply command p text = none
send_script_loop (suc fuel) reply command p text =
    elim (take_line reply (next_message command p.message (fgets 999 text).0) p) [
      | fault ↦ none
      | stopped rc m ↦ some (rc, m ∷ [])
      | going sent p' ↦
          let later = send_script_loop fuel reply command p' (fgets 999 text).1 in
          sent_before sent (if hit_eof 999 text then last_message reply p' else later)
    ]

-- `sendScriptFile`: the return code, and the messages that were handed to `sendPayload`, which returns
-- `reply seq` for each. `none` is a write outside `ftpBuf`.
unfoldable pub send_script_file :
    (ℕ → ReturnCode) → Option Bytes → Bytes → Option (ReturnCode × List Message)
send_script_file reply none command = some (file_not_found, [])
send_script_file reply (some template) command =
    send_script_loop (suc (length template)) reply command
      (record { message = []; file_buf = []; seq = 0; status = ftp_request }) template

abbrev pub is_write_failure : ReturnCode → Bool
is_write_failure socket_write_failure = true
is_write_failure _ = false

-- The `do … while` loops of `doDGrep`, from attempt `k` on with `n` more allowed: the last result, and
-- the number of attempts.
unfoldable pub retry : ℕ → ℕ → (ℕ → ReturnCode) → ReturnCode × ℕ
retry zero k reply = (reply k, k + 1)
retry (suc n) k reply =
    let later = retry n (k + 1) reply in
    if is_success (reply k) || is_write_failure (reply k) then (reply k, k + 1) else later

-- What `doDGrep` meets: whether there is a socket and a connection, and what each attempt to send the
-- script, and to have it executed, returns.
pub record Attempts : Type 0 where
  pub has_socket : Bool
  pub connected : Bool
  pub script : ℕ → ReturnCode
  pub execute : ℕ → ReturnCode

-- The bits of `statusFlag`.
abbrev pub status_success : ℕ
status_success = 0x01

abbrev pub status_failure : ℕ
status_failure = 0x02

abbrev pub socket_creation_failure : ℕ
socket_creation_failure = 0x04

abbrev pub socket_connect_failure : ℕ
socket_connect_failure = 0x08

abbrev pub file_transfer_failure : ℕ
file_transfer_failure = 0x10

abbrev pub file_execution_failure : ℕ
file_execution_failure = 0x20

abbrev pub write_failure_flag : ℕ
write_failure_flag = 0x80

-- `doDGrep`: the status flags. The second `if (rc == …)` compares the return code with a status flag,
-- which it never is.
unfoldable pub do_dgrep : Attempts → ℕ
do_dgrep a =
    if not a.has_socket
    then status_failure + socket_creation_failure
    else if not a.connected
    then status_failure + socket_connect_failure
    else let (sent, _) = retry 5 0 a.script in
      if is_success sent
      then (let (executed, _) = retry 5 0 a.execute in
          if is_success executed then status_success else status_failure + file_execution_failure)
      else if is_write_failure sent
      then status_failure + file_transfer_failure + write_failure_flag
      else status_failure + file_transfer_failure
