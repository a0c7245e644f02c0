-- ===== src/Metadata/Add.antt =====
-- What commons/file_metadata.c adds: files with their chunks, and entries of addresses.
use cs425_mp.Common.{
  ℕ, zero, suc, ◌+◌, ◌%◌, ◌^◌, true, Option, none, some, List, [], ◌∷◌, Bytes, ◌==◌, ltb,
  if◌then◌else◌, ◌>>=◌, cstr, strcmp_eq, take, replicate, ◌++◌,
}
use cs425_mp.Wire.{ReturnCode, is_success, success, failure}
use cs425_mp.Ring.{Ptr, null, Heap, Topology, update, load}
use cs425_mp.Metadata.{
  max_replicas, name_max, ChunkInfo, FileMetadata, FileNodes, IpToFileInfo, Store, calloc, strcpy,
  get_file_metadata, write_file_metadata, get_ip_to_file_info, write_entry, find_node,
}

-- `addIPtoFileInfo`. A null address is a fault at `strcpy`.
unfoldable pub add_ip_to_file_info : Bytes → Store → Option (ReturnCode × Store)
unfolding get_ip_to_file_info calloc strcpy
add_ip_to_file_info ip s = elim (get_ip_to_file_info ip s) [
  | some e ↦ some (failure, s)
  | none ↦
      let (p, s1) = calloc s in
      if p == null then none else (do
        text ← strcpy 16 ip
        let fresh : IpToFileInfo = record { ip = text; number_of_files = 0; metadata = null }
        some (success, record s1 { entries = fresh ∷ s1.entries }))
]

-- A new node in front of a file list.
unfoldable pub new_node : FileNodes → Ptr → Ptr → Ptr → FileNodes
new_node h p file next = record {
  live = update h.live p true;
  file_meta = update h.file_meta p file;
  next = update h.next p next;
  allocated = h.allocated + 1;
}

-- `updateFileList`
unfoldable pub update_file_list : Option IpToFileInfo → Ptr → Store → Option (ReturnCode × Store)
unfolding calloc new_node write_entry
update_file_list none file s = some (failure, s)
update_file_list (some e) file s = do
  (_, node) ← find_node s.nodes.allocated s.nodes file null e.metadata
  let (p, s1) = calloc s
  if node == null
      then (if p == null
          then none
          else some (
            success,
            record s1 {
              nodes = new_node s1.nodes p file e.metadata;
              entries =
                  write_entry
                    (record e { metadata = p; number_of_files = (e.number_of_files + 1) % 2 ^ 32 })
                    s1.entries;
            },
          ))
      else some (success, s)

-- `updateIPtoFileInfo`
unfoldable pub update_ip_to_file_info : Bytes → Ptr → Store → Option (ReturnCode × Store)
unfolding get_ip_to_file_info add_ip_to_file_info update_file_list
update_ip_to_file_info ip file s = elim (get_ip_to_file_info ip s) [
  | some e ↦ update_file_list (some e) file s
  | none ↦ do
    (_, s1) ← add_ip_to_file_info ip s
    update_file_list (get_ip_to_file_info ip s1) file s1
]

-- The `for` loop of `addChunkInfo` over the replicas.
unfoldable pub add_replicas : List Bytes → Ptr → Store → Option (List Bytes × Store)
unfolding update_ip_to_file_info strcpy
add_replicas [] file s = some ([], s)
add_replicas (ip ∷ ips) file s = do
  text ← strcpy 16 ip
  (_, s1) ← update_ip_to_file_info text file s
  (texts, s2) ← add_replicas ips file s1
  some (text ∷ texts, s2)

-- The file's record with the given chunk in front.
unfoldable pub with_chunk : ChunkInfo → Ptr → List FileMetadata → List FileMetadata
with_chunk c file [] = []
with_chunk c file (f ∷ fs) =
    let rest = with_chunk c file fs in
    if f.address == file then record f { chunk_info = c ∷ f.chunk_info } ∷ fs else f ∷ rest

-- `addChunkInfo`: `replica_ips` are the first `numReplicas` of the array; the others stay empty.
unfoldable pub add_chunk_info : ℕ → List Bytes → Ptr → Store → Option (ReturnCode × Store)
unfolding calloc add_replicas with_chunk
add_chunk_info number replica_ips file s =
    let (p, s1) = calloc s in
    if p == null then some (failure, s1) else (do
      (ips, s2) ← add_replicas replica_ips file s1
      let chunk : ChunkInfo = record {
        chunk_number = number;
        ips = take max_replicas (ips ++ replicate max_replicas []);
      }
      some (success, record s2 { files = with_chunk chunk file s2.files }))

-- `while (j--) myNodePtr = myNodePtr->next;`
unfoldable pub walk : ℕ → Heap → Ptr → Option Ptr
walk zero h p = some p
walk (suc n) h p = do q ← load h h.next p; walk n h q

-- `getNextIP_RR`: the address as many nodes after the leader as there were calls before.
unfoldable pub get_next_ip_rr : Topology → Store → Option (Bytes × Store)
get_next_ip_rr t s = elim t.head [
  | none ↦ none
  | some head ↦ do
    p ← walk s.turn t.heap head.node
    ip ← load t.heap t.heap.ip p
    some (cstr ip, record s { turn = (s.turn + 1) % 2 ^ 64 })
]

-- The body of the replica loop for one replica after the first.
unfoldable pub another_ip : Bytes → Topology → Store → Option (Bytes × Store)
another_ip client t s = do
  (ip, s1) ← get_next_ip_rr t s
  if strcmp_eq ip client then get_next_ip_rr t s1 else some (ip, s1)

unfoldable pub other_ips : ℕ → Bytes → Topology → Store → Option (List Bytes × Store)
other_ips zero client t s = some ([], s)
other_ips (suc n) client t s = do
  (ip, s1) ← another_ip client t s
  (ips, s2) ← other_ips n client t s1
  some (ip ∷ ips, s2)

-- The replicas of a chunk: the client itself, then the next ones in turn.
unfoldable pub choose_replicas : ℕ → Bytes → Topology → Store → Option (List Bytes × Store)
choose_replicas zero client t s = some ([], s)
choose_replicas (suc n) client t s = do
  text ← strcpy 16 client
  (ips, s1) ← other_ips n client t s
  some (text ∷ ips, s1)

-- The loop over the chunks, from the highest number, which stops where one fails.
unfoldable pub add_chunks : ℕ → ℕ → Bytes → Ptr → Topology → Store → Option (ReturnCode × Store)
add_chunks zero replicas client file t s = some (success, s)
add_chunks (suc n) replicas client file t s = do
  (ips, s1) ← choose_replicas replicas client t s
  (code, s2) ← add_chunk_info n ips file s1
  let rest = add_chunks n replicas client file t s2
  if is_success code then rest else some (failure, s2)

-- `addFileMetaInfo`
unfoldable pub add_file_meta_info :
    Bytes → ℕ → ℕ → ℕ → Bytes → Topology → Store → Option (ReturnCode × Store)
unfolding get_file_metadata calloc strcpy
add_file_meta_info name size flags chunks client t s = elim (get_file_metadata name s) [
  | some f ↦ some (failure, s)
  | none ↦
      let (p, s1) = calloc s in
      if p == null then some (failure, s1) else elim t.head [
        | none ↦ none
        | some head ↦ do
          text ← strcpy name_max name
          let replicas =
              if ltb head.num_of_nodes max_replicas then head.num_of_nodes else max_replicas
          let f : FileMetadata = record {
            address = p;
            file_name = text;
            size = size;
            num_replicas = replicas;
            number_of_chunks = chunks;
            flags = flags;
            chunk_info = [];
          }
          add_chunks chunks replicas client p t (record s1 { files = f ∷ s1.files })
      ]
]

-- `updateFileMetaInfo`
unfoldable pub update_file_meta_info :
    Bytes → ℕ → ℕ → ℕ → Bytes → Topology → Store → Option (ReturnCode × Store)
unfolding get_file_metadata
update_file_meta_info name size flags chunks client t s = elim (get_file_metadata name s) [
  | some f ↦ some (
    success,
    record s {
      files =
          write_file_metadata (record f { size = size; flags = flags; number_of_chunks = chunks })
            s.files;
    },
  )
  | none ↦ add_file_meta_info name size flags chunks client t s
]
