-- ===== src/Transfer.antt =====
-- commons/send_file.c and the MSG_FILE_TRANSFER branch of commons/packet_process.c: a file is cut
-- into messages, and the receiver appends their payloads to a file of the given name.
pub mod Send
pub mod Receive
pub mod FileNames
pub mod RoundTrip
pub mod WholeChunks
pub mod Termination
use cs425_mp.Common.{ℕ, ◌+◌, ◌++◌, ◌∷◌, Bytes, be16, pad, length}
use cs425_mp.Wire.{Packet, msg_file_transfer, header_size}

abbrev pub file_path_length : ℕ
file_path_length = 200

abbrev pub ftp_request : ℕ
ftp_request = 0x01

abbrev pub ftp_start : ℕ
ftp_start = 0x04

abbrev pub ftp_stop : ℕ
ftp_stop = 0x08

-- `MAX_FILE_CHUNK_SIZE`
unfoldable pub max_file_chunk_size : ℕ
max_file_chunk_size = 59600

-- `sizeof(fileTransferPayload)`: transferId, statusFlag and fileName.
abbrev pub transfer_header : ℕ
transfer_header = 204

-- What one call of `sendPayload` is given: the status flags, the file name and a piece of the file.
pub record Message : Type 0 where
  pub status : ℕ
  pub name : Bytes
  pub piece : Bytes

-- `fileTransferPayload` in memory, with `statusFlag` already in network order.
unfoldable pub transfer_bytes : Message → Bytes
unfolding be16
transfer_bytes m = 0 ∷ 0 ∷ be16 m.status ++ (pad file_path_length m.name ++ m.piece)

-- The packet that `message_decode` makes of it (`Wire.RoundTrip`).
unfoldable pub packet_of : Message → Packet
unfolding transfer_bytes
packet_of m = record {
  length = length (transfer_bytes m) + header_size;
  type = msg_file_transfer;
  payload = transfer_bytes m;
}
