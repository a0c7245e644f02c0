-- ===== src/Dfs/Answers.antt =====
-- What the leader tells of a file: `populateFileInfoPayload` of dfs/dfs_operation.c.
use cs425_mp.Common.{
  ℕ, zero, suc, ◌+◌, ◌-◌, ◌*◌, ◌≤◌, ◌%◌, ◌≡◌, refl, true, false, none, some, List, [], ◌∷◌, map,
  cstr, length, take, arith, le→leb, lt→leb_false,
}
use cs425_mp.Wire.{has_flag}
use cs425_mp.Metadata.{ChunkInfo, FileMetadata, get_file_metadata}
use cs425_mp.Dfs.{FileOperation, Leader, file_info_response, get_file_request, file_info_tentative}
use cs425_mp.Dfs.Requests.{fill_addresses, file_response, answer_get, populate_file_info}

fill_addresses-all :
    (i n : ℕ) (cs : List ChunkInfo)
    → i + length cs ≤ n
    → fill_addresses (length cs) i 2 (16 * 2 * n) cs ≡ some (map (λ c. take 2 c.ips) cs)
unfolding fill_addresses
fill_addresses-all i n [] h = refl
fill_addresses-all i n (c ∷ cs) h =
    rw (le→leb (i * 32 + 32) (32 * n) (omega arith), fill_addresses-all (i + 1) n cs (omega arith))

-- With one replica the last chunk's slot ends past the buffer, if there are more chunks than one.
fill_addresses-single :
    (k i n : ℕ) (cs : List ChunkInfo)
    → i + suc k ≡ n
    → 2 ≤ n
    → fill_addresses (suc k) i 1 (16 * 1 * n) cs ≡ none
unfolding fill_addresses
fill_addresses-single k i n [] e h = refl
fill_addresses-single zero i n (c ∷ cs) e h = rw (lt→leb_false (i * 32 + 16) (16 * n) (omega arith))
fill_addresses-single (suc k) i n (c ∷ cs) e h =
    ground (arith, fill_addresses-single k (i + 1) n cs (omega arith) h)

-- A client that asks for a file which is there, not tentative, and has two replicas and as many
-- chunks as it counts, is told of the two addresses of every chunk, in the order of the chunks; the
-- counts in the answer are cut to eight bits. Nothing changes at the leader.
pub populate_file_info-get :
    (request : FileOperation) (s : Leader) (f : FileMetadata)
    → has_flag request.flags get_file_request ≡ true
    → get_file_metadata request.file_name s.store ≡ some f
    → has_flag f.flags file_info_tentative ≡ false
    → f.num_replicas ≡ 2
    → f.number_of_chunks ≡ length f.chunk_info
    → populate_file_info request s
      ≡ some (
        record {
          flags = file_info_response;
          file_name = cstr request.file_name;
          no_of_splits = length f.chunk_info % 256;
          no_of_replicas = 2;
          addresses = map (λ c. take 2 c.ips) f.chunk_info;
        },
        s,
      )
unfolding populate_file_info answer_get file_response
populate_file_info-get request s f get found settled two count = rw (
  get,
  answer_get,
  found,
  settled,
  file_response,
  two,
  count,
  fill_addresses-all 0 (length f.chunk_info) f.chunk_info (omega arith),
)

-- A client that asks for a file with one replica and two chunks or more makes the leader write past
-- the end of the answer's buffer.
pub populate_file_info-overrun :
    (request : FileOperation) (s : Leader) (f : FileMetadata)
    → has_flag request.flags get_file_request ≡ true
    → get_file_metadata request.file_name s.store ≡ some f
    → has_flag f.flags file_info_tentative ≡ false
    → f.num_replicas ≡ 1
    → 2 ≤ f.number_of_chunks
    → populate_file_info request s ≡ none
unfolding populate_file_info answer_get file_response
populate_file_info-overrun request s f get found settled one many =
    let n : ℕ = f.number_of_chunks - 1 in
    let e : f.number_of_chunks ≡ suc n = omega arith in
    rw (
      get,
      answer_get,
      found,
      settled,
      file_response,
      one,
      e,
      fill_addresses-single n 0 (suc n) f.chunk_info (omega arith) (omega arith),
    )
