-- ===== src/Wire.antt =====
-- commons/message_type.h: message types, return codes, flag bits and the frame of a message.
pub mod Marshal
pub mod Send
pub mod Decode
pub mod RoundTrip
use cs425_mp.Common.{ℕ, ◌+◌, ◌-◌, ◌/◌, ◌%◌, ◌≡◌, Bool, true, not, Bytes, ◌==◌, if◌then◌else◌, arith}

-- `returnCode`.
pub data ReturnCode : Type 0 where
  failure success file_not_found socket_write_failure socket_connect_failed : ReturnCode
  socket_creation_failed socket_read_failure input_file_not_found invalid_input : ReturnCode
  file_info_send_failure file_replica_placement_failure no_response_received : ReturnCode

-- `rc == RC_SUCCESS`
abbrev pub is_success : ReturnCode → Bool
is_success success = true
is_success _ = Bool.false

-- `messageType`, the numbers that travel in a header.
abbrev pub msg_heartbeat : ℕ
msg_heartbeat = 0

abbrev pub msg_add_delete_node : ℕ
msg_add_delete_node = 1

abbrev pub msg_topology_request : ℕ
msg_topology_request = 2

abbrev pub msg_file_operation_request : ℕ
msg_file_operation_request = 3

abbrev pub msg_file_info : ℕ
msg_file_info = 4

abbrev pub msg_file_request : ℕ
msg_file_request = 5

abbrev pub msg_chunk_operation : ℕ
msg_chunk_operation = 7

abbrev pub msg_file_transfer : ℕ
msg_file_transfer = 8

abbrev pub num_of_payloads : ℕ
num_of_payloads = 10

-- `flags & mask` for a mask of one bit.
unfoldable pub has_flag : ℕ → ℕ → Bool
has_flag flags mask = flags / mask % 2 == 1

-- `flags |= mask` for a mask of one bit.
unfoldable pub set_flag : ℕ → ℕ → ℕ
unfolding has_flag
set_flag flags mask = if has_flag flags mask then flags else flags + mask

-- `flags &= ~mask` for a mask of one bit.
unfoldable pub clear_flag : ℕ → ℕ → ℕ
unfolding has_flag
clear_flag flags mask = if has_flag flags mask then flags - mask else flags

-- `payloadBuf` after `message_decode`: the header's two numbers in host order, and the payload.
pub record Packet : Type 0 where
  pub length : ℕ
  pub type : ℕ
  pub payload : Bytes

-- `sizeof(payloadBuf)`
abbrev pub header_size : ℕ
header_size = 4
