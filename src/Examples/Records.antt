-- ===== src/Examples/Records.antt =====
-- The leader's record of a file.
use cs425_mp.Common.{
  ℕ, zero, suc, ◌≡◌, refl, true, false, none, some, [], ◌∷◌, map, Bytes, length, cstr, take, codes,
  arith, strcmp_eq, replicate,
}
use cs425_mp.Wire.{success, has_flag}
use cs425_mp.Ring.{Topology, check, load}
use cs425_mp.Metadata.{
  write_file_metadata, ChunkInfo, FileMetadata, FileNodes, Store, get_file_metadata, find_file,
  calloc, strcpy, get_ip_to_file_info, find_entry, write_entry, load_node, find_node,
}
use cs425_mp.Metadata.Add.{
  update_file_list, new_node, add_ip_to_file_info, update_ip_to_file_info, add_replicas, with_chunk,
  add_chunk_info, walk, get_next_ip_rr, another_ip, other_ips, choose_replicas, add_chunks,
  add_file_meta_info,
}
use cs425_mp.Metadata.Placement.{ArePlaced, add_file_meta_info-ArePlaced}
use cs425_mp.Dfs.{FileInfo, FileOperation, Leader, file_info_response, get_file_request}
use cs425_mp.Dfs.Requests.{populate_file_info, process_file_info_update}
use cs425_mp.Dfs.Settle.{process_file_info_update-get}
use cs425_mp.Dfs.Persist.{
  file_at, dfs_write_to_file, metadata_text, send_metadata_to_neighbour, file_lines, chunk_lines,
  replica_lines, line, decimal, digits, entry_lines,
}
use cs425_mp.Dfs.Answers.{populate_file_info-get, populate_file_info-overrun}

-- A ring of two members.
abbrev two : Topology
two = record {
  heap = record {
    live = λ p. true;
    ip = λ p. elim p [
      | zero ↦ []
      | suc q ↦ elim q [ zero ↦ codes "10.0.0.1" | suc r ↦ codes "10.0.0.2" ]
    ];
    timestamp = λ p. 100;
    next = λ p. elim p [ zero ↦ 1 | suc q ↦ elim q [ zero ↦ 2 | suc r ↦ 1 ] ];
    prev = λ p. elim p [ zero ↦ 1 | suc q ↦ elim q [ zero ↦ 2 | suc r ↦ 1 ] ];
  };
  head = some (record { node = 1; num_of_nodes = 2 });
}

abbrev no_nodes : FileNodes
no_nodes = record { live = λ p. false; file_meta = λ p. 0; next = λ p. 0; allocated = 0 }

abbrev empty : Store
empty = record {
  files = [];
  entries = [];
  nodes = no_nodes;
  turn = 0;
  supply = 10 ∷ 11 ∷ 12 ∷ 13 ∷ 14 ∷ 15 ∷ 16 ∷ 17 ∷ 18 ∷ [];
}

abbrev client : Bytes
client = codes "10.0.0.2"

abbrev name : Bytes
name = codes "a.txt"

abbrev chunk : ℕ → ChunkInfo
chunk n = record { chunk_number = n; ips = codes "10.0.0.2" ∷ codes "10.0.0.1" ∷ [] }

abbrev file : ℕ → FileMetadata
file replicas = record {
  address = 10;
  file_name = name;
  size = 100;
  num_replicas = replicas;
  number_of_chunks = 2;
  flags = 1;
  chunk_info = chunk 0 ∷ chunk 1 ∷ [];
}

abbrev leader : ℕ → Leader
leader replicas = record {
  store = record empty { files = file replicas ∷ [] };
  topology = two;
  myself = 1;
  metadata_file = none;
  copied_to = [];
}

abbrev get : FileOperation
get = record { flags = get_file_request; file_size = 0; requester_ip = client; file_name = name }

get-flag : has_flag get.flags get_file_request ≡ true
unfolding has_flag
get-flag = refl

leader-file : (r : ℕ) → get_file_metadata get.file_name (leader r).store ≡ some (file r)
unfolding get_file_metadata find_file strcmp_eq cstr
leader-file r = refl

settled : has_flag 1 2 ≡ false
unfolding has_flag
settled = refl

populate_file_info-get_example :
    populate_file_info get (leader 2)
    ≡ some (
      record {
        flags = file_info_response;
        file_name = cstr name;
        no_of_splits = 2;
        no_of_replicas = 2;
        addresses = map (λ c. take 2 c.ips) (file 2).chunk_info;
      },
      leader 2,
    )
populate_file_info-get_example =
    populate_file_info-get get (leader 2) (file 2) get-flag (leader-file 2) settled refl refl

populate_file_info-overrun_example : populate_file_info get (leader 1) ≡ none
populate_file_info-overrun_example =
    populate_file_info-overrun get (leader 1) (file 1) get-flag (leader-file 1) settled refl
      (omega arith)

abbrev stored : Store
stored = elim (add_file_meta_info name 100 2 2 client two empty) [ none ↦ empty | some r ↦ r.1 ]

empty-free : get_file_metadata name empty ≡ none
unfolding get_file_metadata find_file
empty-free = refl

stored-runs : add_file_meta_info name 100 2 2 client two empty ≡ some (success, stored)
unfolding add_file_meta_info add_chunks choose_replicas other_ips another_ip get_next_ip_rr walk
    add_chunk_info with_chunk add_replicas update_ip_to_file_info add_ip_to_file_info
    update_file_list new_node get_file_metadata find_file calloc strcpy get_ip_to_file_info
    find_entry write_entry load_node find_node check load strcmp_eq cstr take replicate
stored-runs = refl

add_file_meta_info-ArePlaced_example :
    (f : FileMetadata) × (get_file_metadata name stored ≡ some f)
    × (stored.files ≡ f ∷ [])
    × ((f.size ≡ 100) × (f.flags ≡ 2) × (f.number_of_chunks ≡ 2) × (f.num_replicas ≡ 2))
    × (length f.chunk_info ≡ 2)
    × ArePlaced client 0 f.chunk_info
add_file_meta_info-ArePlaced_example =
    add_file_meta_info-ArePlaced name client 100 2 2 two 1 1 empty stored refl empty-free
      stored-runs

-- The file before its chunks are placed, and the report that they are.
abbrev tentative : FileMetadata
tentative = record (file 2) { flags = 2 }

abbrev waiting : Leader
waiting = record (leader 2) { store = record empty { files = tentative ∷ [] } }

abbrev placed : FileInfo
placed = record {
  flags = 33;
  file_name = name;
  no_of_splits = 2;
  no_of_replicas = 2;
  addresses = [];
}

abbrev settled_leader : Leader
settled_leader = elim (process_file_info_update placed waiting) [ none ↦ waiting | some s ↦ s ]

placed-flag : has_flag placed.flags 32 ≡ true
unfolding has_flag
placed-flag = refl

tentative-file :
    (get_file_metadata name waiting.store ≡ some tentative)
    × (file_at 10 (tentative ∷ []) ≡ some tentative)
unfolding get_file_metadata find_file strcmp_eq cstr file_at
tentative-file = (refl, refl)

settled-runs : process_file_info_update placed waiting ≡ some settled_leader
unfolding process_file_info_update get_file_metadata find_file strcmp_eq cstr has_flag
    write_file_metadata dfs_write_to_file metadata_text send_metadata_to_neighbour file_lines
    chunk_lines replica_lines line decimal digits entry_lines check load
settled-runs = refl

process_file_info_update-get_example :
    populate_file_info get settled_leader
    ≡ some (
      record {
        flags = file_info_response;
        file_name = cstr name;
        no_of_splits = 2;
        no_of_replicas = 2;
        addresses = map (λ c. take 2 c.ips) (file 2).chunk_info;
      },
      settled_leader,
    )
process_file_info_update-get_example =
    process_file_info_update-get placed get waiting settled_leader tentative tentative-file.0
      tentative-file.1 refl refl placed-flag settled-runs get-flag refl
