-- ===== src/Metadata/Remove.antt =====
-- What commons/file_metadata.c removes and replaces.
use cs425_mp.Common.{
  ℕ, zero, suc, ◌+◌, ◌-◌, ◌%◌, ◌^◌, false, Option, none, some, List, [], ◌∷◌, Bytes, ◌==◌,
  if◌then◌else◌, ◌>>=◌, cstr, codes, strcmp_eq,
}
use cs425_mp.Wire.{ReturnCode, success, failure, file_not_found}
use cs425_mp.Ring.{Ptr, null, update}
use cs425_mp.Metadata.{
  ChunkInfo, FileMetadata, FileNodes, IpToFileInfo, Store, get_file_metadata, write_file_metadata,
  get_ip_to_file_info, write_entry, load_node, find_node,
}

-- `removeFileMetaEntry`: a first node is taken off the list, a later one is freed too.
unfoldable pub remove_file_meta_entry : Bytes → Ptr → Store → Option (ReturnCode × Store)
unfolding get_ip_to_file_info write_entry
remove_file_meta_entry ip file s = elim (get_ip_to_file_info ip s) [
  | none ↦ some (failure, s)
  | some e ↦ do
    (prev, node) ← find_node s.nodes.allocated s.nodes file null e.metadata
    if node == null then some (success, s) else (do
      next ← load_node s.nodes s.nodes.next node
      let fewer : IpToFileInfo = record e {
        number_of_files = (e.number_of_files + (2 ^ 32 - 1)) % 2 ^ 32;
      }
      if prev == null
          then some (
            success,
            record s { entries = write_entry (record fewer { metadata = next }) s.entries },
          )
          else some (
            success,
            record s {
              entries = write_entry fewer s.entries;
              nodes = record s.nodes {
                next = update s.nodes.next prev next;
                file_meta = update s.nodes.file_meta node null;
                live = update s.nodes.live node false;
              };
            },
          ))
]

-- The inner loop of `removeFileMetaInfo` on one address's list, from `p`, with the
-- `prevFileListPtr` that the lists before have left: the nodes, the entry and `prevFileListPtr`
-- afterwards.
unfoldable pub remove_from_entry :
    ℕ → Ptr → Ptr → Ptr → IpToFileInfo → FileNodes → Option (Ptr × IpToFileInfo × FileNodes)
remove_from_entry zero file prev p e h = if p == null then some (prev, e, h) else none
remove_from_entry (suc fuel) file prev p e h =
    let rest = (do q ← load_node h h.next p; remove_from_entry fuel file p q e h) in
    let fewer : IpToFileInfo = record e {
      number_of_files = (e.number_of_files + (2 ^ 32 - 1)) % 2 ^ 32;
    } in
    if p == null then some (prev, e, h) else (do
      f ← load_node h h.file_meta p
      next ← load_node h h.next p
      if f == file
          then (if prev == null
              then some (
                prev,
                record fewer { metadata = null },
                record h { file_meta = update h.file_meta p null; live = update h.live p false },
              )
              else (do
                _ ← load_node h h.next prev
                some (
                  prev,
                  fewer,
                  record h { next = update h.next prev next; live = update h.live p false },
                )))
          else rest)

-- The loop over the addresses.
unfoldable pub remove_from_entries :
    Ptr → Ptr → List IpToFileInfo → FileNodes → Option (List IpToFileInfo × FileNodes)
remove_from_entries file prev [] h = some ([], h)
remove_from_entries file prev (e ∷ es) h = do
  (prev1, e1, h1) ← remove_from_entry h.allocated file prev e.metadata e h
  (es1, h2) ← remove_from_entries file prev1 es h1
  some (e1 ∷ es1, h2)

-- The file's record taken out of the list.
unfoldable pub unlink_file : Ptr → List FileMetadata → List FileMetadata
unlink_file file [] = []
unlink_file file (f ∷ fs) =
    let rest = unlink_file file fs in if f.address == file then fs else f ∷ rest

-- `deleteFileMetaInfo`, whose chunks go with the record; a first record that is still in the list
-- takes the list with it.
unfoldable pub delete_file_meta_info : Ptr → List FileMetadata → List FileMetadata
delete_file_meta_info file [] = []
delete_file_meta_info file (f ∷ fs) = if f.address == file then [] else f ∷ fs

-- `removeFileMetaInfo`. Where the file is there the source returns no value: `none` in its place.
unfoldable pub remove_file_meta_info : Bytes → Store → Option (Option ReturnCode × Store)
unfolding get_file_metadata remove_from_entries unlink_file delete_file_meta_info
remove_file_meta_info name s = elim (get_file_metadata name s) [
  | none ↦ some (some failure, s)
  | some f ↦ do
    (entries, h) ← remove_from_entries f.address null s.entries s.nodes
    some (
      none,
      record s {
        files = delete_file_meta_info f.address (unlink_file f.address s.files);
        entries = entries;
        nodes = h;
      },
    )
]

-- The first replica that is vacant, `0.0.0.0`, takes the address; none if there is none.
unfoldable pub fill_replica : Bytes → List Bytes → Option (List Bytes)
fill_replica ip [] = none
fill_replica ip (a ∷ as') =
    let rest = fill_replica ip as' in
    if strcmp_eq a (codes "0.0.0.0") then some (cstr ip ∷ as') else (do bs ← rest; some (a ∷ bs))

-- The loop of `update_chunk_info` over the chunks.
unfoldable pub fill_chunk : ℕ → Bytes → List ChunkInfo → Option (List ChunkInfo)
unfolding fill_replica
fill_chunk number ip [] = none
fill_chunk number ip (c ∷ cs) =
    let rest = (do ds ← fill_chunk number ip cs; some (c ∷ ds)) in
    if c.chunk_number == number
    then elim (fill_replica ip c.ips) [
      | some ips ↦ some (record c { ips = ips } ∷ cs)
      | none ↦ rest
    ]
    else rest

-- `update_chunk_info`, which does not look at its `status`.
unfoldable pub update_chunk_info : Bytes → ℕ → Bytes → ℕ → Store → ReturnCode × Store
unfolding get_file_metadata fill_chunk write_file_metadata
update_chunk_info name number ip status s = elim (get_file_metadata name s) [
  | none ↦ (file_not_found, s)
  | some f ↦ elim (fill_chunk number ip f.chunk_info) [
    | none ↦ (failure, s)
    | some chunks ↦ (
      success,
      record s { files = write_file_metadata (record f { chunk_info = chunks }) s.files },
    )
  ]
]
