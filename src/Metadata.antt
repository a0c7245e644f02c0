-- ===== src/Metadata.antt =====
-- commons/file_metadata.c: the leader's record of the files, of their chunks' replicas, and of the
-- files that each address holds. Texts stand for the buffers that hold them.
pub mod Add
pub mod Remove
pub mod Placement
pub mod RoundRobin
use cs425_mp.Common.{
  ℕ, zero, suc, ◌+◌, ◌-◌, ◌%◌, ◌^◌, Bool, true, false, ◌&&◌, not, Option, none, some, List, [], ◌∷◌,
  Bytes, ◌==◌, ltb, leb, if◌then◌else◌, ◌>>=◌, cstr, codes, strcmp_eq, length, take, replicate,
  ◌++◌,
}
use cs425_mp.Wire.{ReturnCode, success, failure, file_not_found}
use cs425_mp.Ring.{Ptr, null, Heap, Topology, update, load}

abbrev pub name_max : ℕ
name_max = 255

-- `MAXREPLICAS` and `NUM_OF_REPLICAS`
abbrev pub max_replicas : ℕ
max_replicas = 2

-- `ChunkInfo`: the number and the replicas' addresses, of which there are always `MAXREPLICAS`.
pub record ChunkInfo : Type 0 where
  pub chunk_number : ℕ
  pub ips : List Bytes

-- `FileMetadata`, its own address with it; the chunks are the linked list's, the last added first.
pub record FileMetadata : Type 0 where
  pub address : Ptr
  pub file_name : Bytes
  pub size : ℕ
  pub num_replicas : ℕ
  pub number_of_chunks : ℕ
  pub flags : ℕ
  pub chunk_info : List ChunkInfo

-- `FileList` nodes, field by field, and how many there ever were: a walk of more steps than that
-- goes round in a circle.
pub record FileNodes : Type 0 where
  pub live : Ptr → Bool
  pub file_meta : Ptr → Ptr
  pub next : Ptr → Ptr
  pub allocated : ℕ

-- `IPtoFileInfo`: an address, its count and the first node of its file list.
pub record IpToFileInfo : Type 0 where
  pub ip : Bytes
  pub number_of_files : ℕ
  pub metadata : Ptr

-- The globals, `getNextIP_RR`'s static counter, and the addresses that `calloc` returns in turn,
-- null once they run out.
pub record Store : Type 0 where
  pub files : List FileMetadata
  pub entries : List IpToFileInfo
  pub nodes : FileNodes
  pub turn : ℕ
  pub supply : List Ptr

-- `calloc`
unfoldable pub calloc : Store → Ptr × Store
calloc s = elim s.supply [ [] ↦ (null, s) | p ∷ ps ↦ (p, record s { supply = ps }) ]

-- `strcpy` into `n` bytes; a text that does not fit is a fault.
unfoldable pub strcpy : ℕ → Bytes → Option Bytes
strcpy n text = if ltb (length (cstr text)) n then some (cstr text) else none

unfoldable pub find_file : Bytes → List FileMetadata → Option FileMetadata
find_file name [] = none
find_file name (f ∷ fs) =
    let rest = find_file name fs in if strcmp_eq f.file_name name then some f else rest

-- `getFileMetadataPtr`
unfoldable pub get_file_metadata : Bytes → Store → Option FileMetadata
unfolding find_file
get_file_metadata name s = find_file name s.files

-- A write through the pointer to a file of the list.
unfoldable pub write_file_metadata : FileMetadata → List FileMetadata → List FileMetadata
write_file_metadata f [] = []
write_file_metadata f (g ∷ gs) =
    let rest = write_file_metadata f gs in if g.address == f.address then f ∷ gs else g ∷ rest

unfoldable pub find_entry : Bytes → List IpToFileInfo → Option IpToFileInfo
find_entry ip [] = none
find_entry ip (e ∷ es) = let rest = find_entry ip es in if strcmp_eq e.ip ip then some e else rest

-- `getIPtoFileInfo`
unfoldable pub get_ip_to_file_info : Bytes → Store → Option IpToFileInfo
unfolding find_entry
get_ip_to_file_info ip s = find_entry ip s.entries

-- A write through the pointer to the first entry of an address.
unfoldable pub write_entry : IpToFileInfo → List IpToFileInfo → List IpToFileInfo
write_entry e [] = []
write_entry e (d ∷ ds) =
    let rest = write_entry e ds in if strcmp_eq d.ip e.ip then e ∷ ds else d ∷ rest

-- A read of a `FileList` node.
unfoldable pub load_node : FileNodes → (Ptr → Ptr) → Ptr → Option Ptr
load_node h field p = if not (p == null) && h.live p then some (field p) else none

-- The `while` loop over a file list: the node of the file and the one before it, null where there
-- is none.
unfoldable pub find_node : ℕ → FileNodes → Ptr → Ptr → Ptr → Option (Ptr × Ptr)
find_node zero h file prev p = if p == null then some (prev, null) else none
find_node (suc fuel) h file prev p =
    let rest = (do q ← load_node h h.next p; find_node fuel h file p q) in
    if p == null
    then some (prev, null)
    else (do f ← load_node h h.file_meta p; if f == file then some (prev, p) else rest)

-- The loop of `getIPsForFile`.
unfoldable pub ips_holding : Ptr → FileNodes → List IpToFileInfo → Option (List Bytes)
ips_holding file h [] = some []
ips_holding file h (e ∷ es) = do
  (_, node) ← find_node h.allocated h file null e.metadata
  ips ← ips_holding file h es
  some (if node == null then ips else e.ip ∷ ips)

-- `getIPsForFile`: the addresses whose lists hold the file.
unfoldable pub get_ips_for_file : Bytes → Store → Option (List Bytes)
unfolding get_file_metadata ips_holding
get_ips_for_file name s = elim (get_file_metadata name s) [
  | none ↦ some []
  | some f ↦ ips_holding f.address s.nodes s.entries
]
