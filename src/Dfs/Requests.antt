-- ===== src/Dfs/Requests.antt =====
-- `populateFileInfoPayload`, `processFileInfoUpdatePayload` and `sendFileDelete` of
-- dfs/dfs_operation.c, and the handlers of commons/dfs_payload_process.c that call them.
use cs425_mp.Common.{
  ℕ, zero, suc, ◌+◌, ◌-◌, ◌*◌, ◌/◌, ◌%◌, ◌&&◌, ◌||◌, not, Option, none, some, List, [], ◌∷◌, Bytes,
  ◌==◌, leb, if◌then◌else◌, ◌>>=◌, cstr, take,
}
use cs425_mp.Wire.{has_flag}
use cs425_mp.Ring.{null}
use cs425_mp.Metadata.{
  ChunkInfo, FileMetadata, Store, get_file_metadata, write_file_metadata, get_ips_for_file,
  max_replicas,
}
use cs425_mp.Metadata.Add.{add_file_meta_info}
use cs425_mp.Metadata.Remove.{remove_file_meta_info}
use cs425_mp.Dfs.{
  FileInfo, FileOperation, ChunkOperation, Leader, file_info_update, file_info_response,
  file_already_present, file_not_found_flag, file_name_available, file_chunks_placed_successfully,
  put_file_request, get_file_request, del_file_request, file_info_finalized, file_info_tentative,
  delete_replica,
}
use cs425_mp.Dfs.Persist.{dfs_write_to_file}

abbrev pub chunk_size_in_mb : ℕ
chunk_size_in_mb = 64

-- The loop that fills `ipAddr`: `ipAddr[i]` starts 32 bytes after the one before it, in a buffer that
-- has `room` bytes for them. A write past the buffer, or a chunk that is missing, is a fault.
unfoldable pub fill_addresses : ℕ → ℕ → ℕ → ℕ → List ChunkInfo → Option (List (List Bytes))
fill_addresses zero i replicas room chunks = some []
fill_addresses (suc n) i replicas room [] = none
fill_addresses (suc n) i replicas room (c ∷ cs) =
    let rest = fill_addresses n (i + 1) replicas room cs in
    if (replicas == 0) || leb (i * (16 * max_replicas) + replicas * 16) room
    then (do ips ← rest; some (take replicas c.ips ∷ ips))
    else none

-- The answer that tells of a file. The two counts have eight bits on the wire.
unfoldable pub file_response : ℕ → Bytes → FileMetadata → Option FileInfo
unfolding fill_addresses
file_response flags name f = do
  ips ←
      fill_addresses f.number_of_chunks 0 f.num_replicas (16 * f.num_replicas * f.number_of_chunks)
        f.chunk_info
  some (record {
    flags = flags;
    file_name = cstr name;
    no_of_splits = f.number_of_chunks % 256;
    no_of_replicas = f.num_replicas % 256;
    addresses = ips;
  })

-- The answer without addresses.
unfoldable pub bare_response : ℕ → Bytes → FileInfo
bare_response flags name = record {
  flags = flags;
  file_name = cstr name;
  no_of_splits = 0;
  no_of_replicas = 0;
  addresses = [];
}

-- `ceil((double)fileSize / CHUNK_SIZE_IN_MB)`, and 1 in place of 0.
unfoldable pub chunks_of_size : ℕ → ℕ
chunks_of_size size =
    let n = (size + (chunk_size_in_mb - 1)) / chunk_size_in_mb in if n == 0 then 1 else n

-- The GET branch of `populateFileInfoPayload`.
unfoldable pub answer_get : FileOperation → Leader → Option (FileInfo × Leader)
unfolding file_response bare_response
answer_get request s =
    let missing : FileInfo =
      bare_response (file_info_response + file_not_found_flag) request.file_name in
    elim (get_file_metadata request.file_name s.store) [
      | none ↦ some (missing, s)
      | some f ↦ if has_flag f.flags file_info_tentative then some (missing, s) else (do
        response ← file_response file_info_response request.file_name f
        some (response, s))
    ]

-- The PUT branch: a name that is free is taken, tentatively, for as many chunks as the size needs.
unfoldable pub answer_put : FileOperation → Leader → Option (FileInfo × Leader)
unfolding file_response bare_response chunks_of_size
answer_put request s = elim (get_file_metadata request.file_name s.store) [
  | some f ↦ some (bare_response (file_info_response + file_already_present) request.file_name, s)
  | none ↦ do
    (_, store) ←
        add_file_meta_info request.file_name request.file_size file_info_tentative
          (chunks_of_size request.file_size) request.requester_ip s.topology s.store
    s1 ← dfs_write_to_file (record s { store = store })
    f ← get_file_metadata request.file_name s1.store
    response ← file_response (file_info_response + file_name_available) request.file_name f
    some (response, s1)
]

-- `populateFileInfoPayload`: with neither flag it writes through a null pointer.
unfoldable pub populate_file_info : FileOperation → Leader → Option (FileInfo × Leader)
unfolding answer_get answer_put
populate_file_info request s =
    if has_flag request.flags get_file_request
    then answer_get request s
    else if has_flag request.flags put_file_request
    then answer_put request s
    else none

-- `processFileInfoUpdatePayload`: the file is final, or its entry goes.
unfoldable pub process_file_info_update : FileInfo → Leader → Option Leader
process_file_info_update info s = elim (get_file_metadata info.file_name s.store) [
  | none ↦ some s
  | some f ↦
      if has_flag info.flags file_chunks_placed_successfully
      then dfs_write_to_file (record s {
        store = record s.store {
          files = write_file_metadata (record f { flags = file_info_finalized }) s.store.files;
        };
      })
      else (do
        (_, store) ← remove_file_meta_info info.file_name s.store
        dfs_write_to_file (record s { store = store }))
]

-- `processFileInfoPayload`: the process afterwards, and the information that a client asked for.
-- Only the leader takes updates.
unfoldable pub process_file_info : FileInfo → Leader → Option (Leader × Option FileInfo)
unfolding process_file_info_update
process_file_info info s =
    if has_flag info.flags file_info_update
    then elim s.topology.head [
      | none ↦ some (s, none)
      | some head ↦
          if not (head.node == null) && (not (s.myself == null) && (head.node == s.myself))
          then (do s1 ← process_file_info_update info s; some (s1, none))
          else some (s, none)
    ]
    else if has_flag info.flags file_info_response
    then some (s, some info)
    else some (s, none)

-- `sendFileDelete`, in its batches of five threads: one message for each address that holds a part.
unfoldable pub deletions : Bytes → List Bytes → List (Bytes × ChunkOperation)
deletions name [] = []
deletions name (ip ∷ ips) =
    (ip, record { chunk_name = cstr name; flags = delete_replica; ip = [] }) ∷ deletions name ips

unfoldable pub send_file_delete : Bytes → Store → Option (List (Bytes × ChunkOperation))
unfolding deletions
send_file_delete name s = do ips ← get_ips_for_file name s; some (deletions name ips)

-- What a file operation sends: deletions, or an answer to the client.
pub record Sent : Type 0 where
  pub deleted : List (Bytes × ChunkOperation)
  pub answer : Option FileInfo

-- `processFileOperationRequest`
unfoldable pub process_file_operation : FileOperation → Leader → Option (Leader × Sent)
unfolding populate_file_info send_file_delete
process_file_operation request s =
    if has_flag request.flags del_file_request
    then (do
      out ← send_file_delete request.file_name s.store
      (_, store) ← remove_file_meta_info request.file_name s.store
      s1 ← dfs_write_to_file (record s { store = store })
      some (s1, record { deleted = out; answer = none }))
    else (do
      (info, s1) ← populate_file_info request s
      some (s1, record { deleted = []; answer = some info }))
