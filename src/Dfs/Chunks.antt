-- ===== src/Dfs/Chunks.antt =====
-- `processChunkOperationPayload` of commons/dfs_payload_process.c.
use cs425_mp.Common.{
  ℕ, ◌+◌, ◌-◌, ◌*◌, Bool, false, ◌&&◌, not, Option, none, some, [], ◌∷◌, Bytes, ◌==◌, ltb, leb,
  if◌then◌else◌, ◌>>=◌, cstr, take, drop, length,
}
use cs425_mp.Wire.{ReturnCode, is_success, has_flag, set_flag}
use cs425_mp.Ring.{null}
use cs425_mp.Metadata.Remove.{update_chunk_info}
use cs425_mp.Dfs.{
  ChunkOperation, Leader, replicate_instruction, replicate_response, replicate_successful,
  replicate_failure, delete_replica,
}
use cs425_mp.Dfs.Persist.{dfs_write_to_file}

-- `atoi` of digits.
unfoldable pub atoi : ℕ → Bytes → ℕ
atoi n [] = n
atoi n (b ∷ bs) = let rest = atoi (n * 10 + (b - 48)) bs in if leb 48 b && leb b 57 then rest else n

-- What a chunk operation does besides: it pushes a chunk to an address and answers with the
-- outcome, or runs `rm name????`.
pub data Effect : Type 0 where
  nothing : Effect
  pushed : Bytes → Bytes → ChunkOperation → Effect
  removed : Bytes → Effect

-- The REPLICATE_RESPONSE branch: the last four characters of the chunk's name are its number. A
-- shorter name makes `strlen - 4` wrap: a fault.
unfoldable pub take_response : ChunkOperation → Leader → Option Leader
unfolding atoi update_chunk_info
take_response payload s =
    let name = cstr payload.chunk_name in
    let status = if has_flag payload.flags replicate_successful then 1 else 0 in
    if ltb (length name) 4
    then none
    else dfs_write_to_file (record s {
      store =
          (update_chunk_info (take (length name - 4) name) (atoi 0 (drop (length name - 4) name))
            payload.ip status s.store).1;
    })

-- Whether the ring has a leader other than this process.
unfoldable pub led_by_another : Leader → Bool
led_by_another s = elim s.topology.head [
  | none ↦ false
  | some head ↦ not (head.node == null) && not (head.node == s.myself)
]

-- The answer to an instruction: `garbage` is what `flags` held before, which the source does not
-- initialise, and `code` what the transfer returned.
unfoldable pub replication_answer : ℕ → ReturnCode → ChunkOperation → ChunkOperation
replication_answer garbage code payload = record {
  chunk_name = cstr payload.chunk_name;
  flags =
      set_flag
        (if is_success code then set_flag garbage replicate_successful else replicate_failure)
        replicate_response;
  ip = cstr payload.ip;
}

-- `processChunkOperationPayload`
unfoldable pub process_chunk_operation :
    ℕ → ReturnCode → ChunkOperation → Leader → Option (Leader × Effect)
unfolding take_response led_by_another replication_answer
process_chunk_operation garbage code payload s =
    if has_flag payload.flags replicate_response
    then (if led_by_another s
        then some (s, nothing)
        else (do s1 ← take_response payload s; some (s1, nothing)))
    else if has_flag payload.flags replicate_instruction
    then some (
      s,
      pushed (cstr payload.ip) (cstr payload.chunk_name) (replication_answer garbage code payload),
    )
    else if has_flag payload.flags delete_replica
    then some (s, removed (cstr payload.chunk_name))
    else some (s, nothing)
