-- ===== src/Dfs/Persist.antt =====
-- dfs/dfs_write_to_file.c: the metadata as text.
use cs425_mp.Common.{
  ℕ, zero, suc, ◌+◌, ◌/◌, ◌%◌, Option, none, some, List, [], ◌∷◌, ◌++◌, Bytes, codes, ◌==◌, ltb,
  if◌then◌else◌, ◌>>=◌, cstr,
}
use cs425_mp.Ring.{Ptr, null, load}
use cs425_mp.Metadata.{ChunkInfo, FileMetadata, FileNodes, IpToFileInfo, Store, load_node}
use cs425_mp.Dfs.{Leader}

-- The digits of a number below `10 ^ fuel`, in front of `rest`.
unfoldable pub digits : ℕ → ℕ → Bytes → Bytes
digits zero n rest = rest
digits (suc fuel) n rest =
    let more = digits fuel (n / 10) ((48 + n % 10) ∷ rest) in
    if ltb n 10 then (48 + n) ∷ rest else more

-- `%u` of a 32-bit number, which has ten digits at most.
unfoldable pub decimal : ℕ → Bytes
unfolding digits
decimal n = digits 10 n []

-- `fprintf(fPtr, "KEY:%u\n", n)` and `fprintf(fPtr, "KEY:%s\n", text)`
unfoldable pub line : Bytes → Bytes → Bytes
line key value = key ++ 58 ∷ value ++ 10 ∷ []

-- `IP0:…`, `IP1:…`, for as many addresses as the file has replicas.
unfoldable pub replica_lines : ℕ → ℕ → List Bytes → Option Bytes
unfolding line decimal
replica_lines zero i ips = some []
replica_lines (suc n) i [] = none
replica_lines (suc n) i (ip ∷ ips) = do
  rest ← replica_lines n (i + 1) ips
  some (line (codes "IP" ++ decimal i) (cstr ip) ++ rest)

unfoldable pub chunk_lines : ℕ → List ChunkInfo → Option Bytes
unfolding replica_lines
chunk_lines replicas [] = some []
chunk_lines replicas (c ∷ cs) = do
  ips ← replica_lines replicas 0 c.ips
  rest ← chunk_lines replicas cs
  some (line (codes "CHUNKNUM") (decimal c.chunk_number) ++ (ips ++ rest))

unfoldable pub file_lines : List FileMetadata → Option Bytes
unfolding chunk_lines
file_lines [] = some []
file_lines (f ∷ fs) = do
  chunks ← chunk_lines f.num_replicas f.chunk_info
  rest ← file_lines fs
  some (
      line (codes "FILENAME") (cstr f.file_name)
      ++ (line (codes "SIZE") (decimal f.size)
          ++ (line (codes "FLAGS") (decimal f.flags)
              ++ (line (codes "NCHUNKS") (decimal f.number_of_chunks)
                  ++ (line (codes "NREPLICAS") (decimal f.num_replicas) ++ (chunks ++ rest))))))

-- The file that an address points to; a freed one is a fault.
unfoldable pub file_at : Ptr → List FileMetadata → Option FileMetadata
file_at p [] = none
file_at p (f ∷ fs) = let rest = file_at p fs in if f.address == p then some f else rest

-- The names of an address's files: as many as it counts, up to the end of the list or a node whose
-- file was taken away.
unfoldable pub name_lines : ℕ → FileNodes → List FileMetadata → Ptr → Option Bytes
unfolding line file_at
name_lines zero h files p = some []
name_lines (suc n) h files p =
    let rest = (do q ← load_node h h.next p; name_lines n h files q) in
    if p == null then some [] else (do
      f ← load_node h h.file_meta p
      if f == null then some [] else (do
        file ← file_at f files
        names ← rest
        some (line (codes "FNAME") (cstr file.file_name) ++ names)))

unfoldable pub entry_lines : FileNodes → List FileMetadata → List IpToFileInfo → Option Bytes
unfolding name_lines
entry_lines h files [] = some []
entry_lines h files (e ∷ es) = do
  names ← name_lines e.number_of_files h files e.metadata
  rest ← entry_lines h files es
  some (
      line (codes "IP") (cstr e.ip)
      ++ (line (codes "NFILES") (decimal e.number_of_files) ++ (names ++ rest)))

-- What is written to `metadata_file`.
unfoldable pub metadata_text : Store → Option Bytes
unfolding file_lines entry_lines
metadata_text s = do
  files ← file_lines s.files
  entries ← entry_lines s.nodes s.files s.entries
  some (files ++ (elim s.entries [ [] ↦ [] | _ ∷ _ ↦ codes "SKIP:NEXT\n" ] ++ entries))

-- `sendMetadataToNeighbour`: the node that the file is offered to, the next one in the ring.
unfoldable pub send_metadata_to_neighbour : Leader → Option Leader
send_metadata_to_neighbour s = elim s.topology.head [
  | none ↦ some s
  | some head ↦ if head.node == null then some s else (do
    let h = s.topology.heap
    next ← load h h.next s.myself
    ip ← load h h.ip next
    some (record s { copied_to = cstr ip ∷ s.copied_to }))
]

-- `dfs_write_to_file`, on a disk that takes the file.
unfoldable pub dfs_write_to_file : Leader → Option Leader
unfolding metadata_text send_metadata_to_neighbour
dfs_write_to_file s = do
  text ← metadata_text s.store
  send_metadata_to_neighbour (record s { metadata_file = some text })
