-- ===== src/Dfs.antt =====
-- dfs/ and commons/dfs_payload_process.c: what the leader does with requests about files, and what a
-- node does with a chunk's.
pub mod Persist
pub mod Requests
pub mod Chunks
pub mod Answers
pub mod Restore
pub mod Settle
pub mod Client
use cs425_mp.Common.{ℕ, List, Bytes, Option}
use cs425_mp.Ring.{Ptr, Topology}
use cs425_mp.Metadata.{Store}

-- The flags of `fileInfoPayload`.
abbrev pub file_info_update : ℕ
file_info_update = 0x01

abbrev pub file_info_response : ℕ
file_info_response = 0x02

abbrev pub file_already_present : ℕ
file_already_present = 0x04

abbrev pub file_not_found_flag : ℕ
file_not_found_flag = 0x08

abbrev pub file_name_available : ℕ
file_name_available = 0x10

abbrev pub file_chunks_placed_successfully : ℕ
file_chunks_placed_successfully = 0x20

-- The flags of `fileOperationRequestPayload`.
abbrev pub put_file_request : ℕ
put_file_request = 0x01

abbrev pub get_file_request : ℕ
get_file_request = 0x02

abbrev pub del_file_request : ℕ
del_file_request = 0x04

-- The flags of `FileMetadata`.
abbrev pub file_info_finalized : ℕ
file_info_finalized = 0x01

abbrev pub file_info_tentative : ℕ
file_info_tentative = 0x02

-- The flags of `chunkOperationPayload`.
abbrev pub replicate_instruction : ℕ
replicate_instruction = 0x01

abbrev pub replicate_response : ℕ
replicate_response = 0x02

abbrev pub replicate_successful : ℕ
replicate_successful = 0x04

abbrev pub replicate_failure : ℕ
replicate_failure = 0x08

abbrev pub delete_replica : ℕ
delete_replica = 0x10

-- `fileInfoPayload`: `addresses` are, chunk by chunk, those of the replicas.
pub record FileInfo : Type 0 where
  pub flags : ℕ
  pub file_name : Bytes
  pub no_of_splits : ℕ
  pub no_of_replicas : ℕ
  pub addresses : List (List Bytes)

-- `fileOperationRequestPayload`
pub record FileOperation : Type 0 where
  pub flags : ℕ
  pub file_size : ℕ
  pub requester_ip : Bytes
  pub file_name : Bytes

-- `chunkOperationPayload`
pub record ChunkOperation : Type 0 where
  pub chunk_name : Bytes
  pub flags : ℕ
  pub ip : Bytes

-- The process: the metadata, the ring, `myself`, the contents of `metadata_file`, and the nodes that
-- the file was offered to, the latest first.
pub record Leader : Type 0 where
  pub store : Store
  pub topology : Topology
  pub myself : Ptr
  pub metadata_file : Option Bytes
  pub copied_to : List Bytes
