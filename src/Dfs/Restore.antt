-- ===== src/Dfs/Restore.antt =====
-- dfs/dfs_read_from_file.c: a new leader reads the metadata, line by line; and make_master of
-- dfs/dfs_operation.c.
pub mod All
pub mod Entries
pub mod Files
pub mod Kinds
pub mod Lines
pub mod Numbers
pub mod RoundTrip
pub mod Steps
use cs425_mp.Common.{
  ℕ, zero, suc, ◌+◌, ◌-◌, ◌*◌, ◌%◌, ◌^◌, min, Bool, true, false, not, ◌&&◌, Option, none, some,
  List, [], ◌∷◌, ◌++◌, Bytes, codes, ◌==◌, ltb, leb, if◌then◌else◌, ◌>>=◌, cstr, length,
}
use cs425_mp.Wire.{ReturnCode, success, file_not_found}
use cs425_mp.Ring.{Ptr, null}
use cs425_mp.Metadata.{
  ChunkInfo, FileMetadata, IpToFileInfo, Store, calloc, find_file, strcpy, max_replicas,
}
use cs425_mp.Metadata.Add.{new_node}
use cs425_mp.Admission.{fgets, skip_space, word, strip}
use cs425_mp.Dfs.{Leader}
use cs425_mp.Dfs.Chunks.{atoi}
use cs425_mp.Dfs.Persist.{dfs_write_to_file}

abbrev pub is_prefix : Bytes → Bytes → Bool
is_prefix [] text = true
is_prefix (k ∷ ks) [] = false
is_prefix (k ∷ ks) (b ∷ bs) = if k == b then is_prefix ks bs else false

-- `strstr(text, key) != NULL`
unfoldable pub contains : Bytes → Bytes → Bool
contains key [] = is_prefix key []
contains key (b ∷ bs) =
    let later = contains key bs in if is_prefix key (b ∷ bs) then true else later

-- `%s` of `sscanf`
unfoldable pub scan_word : Bytes → Option Bytes
scan_word text = let w = word (skip_space text) in if length w == 0 then none else some w

abbrev pub is_digit : ℕ → Bool
is_digit b = leb 48 b && leb b 57

unfoldable pub after_digits : Bytes → Bytes
after_digits [] = []
after_digits (b ∷ bs) = let rest = after_digits bs in if is_digit b then rest else b ∷ bs

-- The digits of `%u`, up to the greatest `unsigned long`, and what is behind them.
unfoldable pub magnitude : Bytes → Option (ℕ × Bytes)
magnitude [] = none
magnitude (b ∷ bs) =
    if is_digit b
    then some (min (atoi 0 (b ∷ bs)) 18446744073709551615, after_digits (b ∷ bs))
    else none

-- `%u` of `sscanf`: a sign may come first, and the lower 32 bits are stored.
unfoldable pub scan_unsigned : Bytes → Option (ℕ × Bytes)
scan_unsigned text = elim (skip_space text) [
  | [] ↦ none
  | b ∷ bs ↦
      if b == 45
      then (do (n, rest) ← magnitude bs; some ((4294967296 - n % 4294967296) % 4294967296, rest))
      else (do
        (n, rest) ← (if b == 43 then magnitude bs else magnitude (b ∷ bs))
        some (n % 4294967296, rest))
]

-- `sscanf(line, "KEY:%s", …)` and `sscanf(line, "KEY:%u", …)`
unfoldable pub scan_string : Bytes → Bytes → Option Bytes
unfolding strip scan_word
scan_string key line = do text ← strip key line; scan_word text

unfoldable pub scan_number : Bytes → Bytes → Option ℕ
unfolding strip scan_unsigned
scan_number key line = do text ← strip key line; (n, _) ← scan_unsigned text; some n

abbrev pub text_or_empty : Option Bytes → Bytes
text_or_empty none = []
text_or_empty (some w) = w

-- What a line is taken for, by the words in it.
pub data Kind : Type 0 where
  file_name size flags n_chunks n_replicas chunk_num replica skip new_ip n_files fname : Kind
  other : Kind

unfoldable pub kind : Bytes → Kind
kind line =
    if contains (codes "FILENAME") line
    then file_name
    else if contains (codes "SIZE") line
    then size
    else if contains (codes "FLAGS") line
    then flags
    else if contains (codes "NCHUNKS") line
    then n_chunks
    else if contains (codes "NREPLICAS") line
    then n_replicas
    else if contains (codes "CHUNKNUM") line
    then chunk_num
    else if contains (codes "IP") line && not (contains (codes "IP:") line)
    then replica
    else if contains (codes "SKIP:NEXT") line
    then skip
    else if contains (codes "IP") line && contains (codes "IP:") line
    then new_ip
    else if contains (codes "NFILES") line
    then n_files
    else if contains (codes "FNAME") line
    then fname
    else other

-- The variables of the loop. `fileMetaPtr` is always the first file, `ipToFilePtr` the first entry, if
-- one was made, and `chunkInfo` the last chunk of the file at `chunk`.
pub record Reading : Type 0 where
  pub store : Store
  pub chunk : Option Ptr
  pub has_entry : Bool
  pub i : ℕ
  pub temp_ip : Option Bytes
  pub fname : Option Bytes

-- A write through `fileMetaPtr`; a null one is a fault.
unfoldable pub set_file : (FileMetadata → FileMetadata) → Reading → Option Reading
set_file f r = elim r.store.files [
  | [] ↦ none
  | g ∷ gs ↦ some (record r { store = record r.store { files = f g ∷ gs } })
]

-- A write through `ipToFilePtr`, which is not set before there is an entry.
unfoldable pub set_entry : (IpToFileInfo → IpToFileInfo) → Reading → Option Reading
set_entry f r = elim r.store.entries [
  | [] ↦ none
  | e ∷ es ↦
      if r.has_entry
      then some (record r { store = record r.store { entries = f e ∷ es } })
      else none
]

-- `sscanf(line, "KEY:%u", …)`, and a write if there is a number.
unfoldable pub read_number :
    Bytes → Bytes → (ℕ → Reading → Option Reading) → Reading → Option Reading
unfolding scan_number
read_number key line write r = elim (scan_number key line) [ none ↦ some r | some n ↦ write n r ]

-- A line `FILENAME:…`: a new first file, whose name is written if there is a word.
unfoldable pub read_file_name : Bytes → Reading → Option Reading
unfolding calloc scan_string
read_file_name line r =
    let (p, s) = calloc r.store in
    let fresh : FileMetadata = record {
      address = p;
      file_name = text_or_empty (scan_string (codes "FILENAME:") line);
      size = 0;
      num_replicas = 0;
      number_of_chunks = 0;
      flags = 0;
      chunk_info = [];
    } in
    if p == null then none else some (record r { store = record s { files = fresh ∷ s.files } })

-- A line `CHUNKNUM:…`: a new chunk behind the others of the first file.
unfoldable pub read_chunk_number : Bytes → Reading → Option Reading
unfolding scan_number
read_chunk_number line r =
    let number : ℕ = elim (scan_number (codes "CHUNKNUM:") line) [ none ↦ 0 | some n ↦ n ] in
    let chunk : ChunkInfo = record { chunk_number = number; ips = [] ∷ [] ∷ [] } in
    elim r.store.files [
      | [] ↦ none
      | g ∷ gs ↦ some (record r {
        store = record r.store {
          files = record g { chunk_info = g.chunk_info ++ chunk ∷ [] } ∷ gs;
        };
        chunk = some g.address;
      })
    ]

-- `strcpy(chunkInfo->IP[i], …)`; only two replicas have room.
unfoldable pub set_replica : ℕ → Bytes → List Bytes → Option (List Bytes)
set_replica i ip [] = none
set_replica zero ip (old ∷ ips) = some (ip ∷ ips)
set_replica (suc i) ip (old ∷ ips) = do rest ← set_replica i ip ips; some (old ∷ rest)

unfoldable pub set_last_replica : ℕ → Bytes → List ChunkInfo → Option (List ChunkInfo)
unfolding set_replica
set_last_replica i ip [] = none
set_last_replica i ip (c ∷ []) = do ips ← set_replica i ip c.ips; some (record c { ips = ips } ∷ [])
set_last_replica i ip (c ∷ d ∷ cs) = do rest ← set_last_replica i ip (d ∷ cs); some (c ∷ rest)

unfoldable pub write_replica : Ptr → ℕ → Bytes → List FileMetadata → Option (List FileMetadata)
unfolding set_last_replica
write_replica p i ip [] = none
write_replica p i ip (f ∷ fs) =
    let later = (do rest ← write_replica p i ip fs; some (f ∷ rest)) in
    if f.address == p
    then (do
      chunks ← set_last_replica i ip f.chunk_info
      some (record f { chunk_info = chunks } ∷ fs))
    else later

-- `sscanf(line, "IP%u:%s", &i, tempIP)`: as much as matches is written. A word that has no room in
-- `tempIP` is a fault.
unfoldable pub scan_replica : Bytes → Reading → Option Reading
unfolding strip scan_unsigned scan_word
scan_replica line r = elim (strip (codes "IP") line) [
  | none ↦ some r
  | some text ↦ elim (scan_unsigned text) [
    | none ↦ some r
    | some (n, rest) ↦ elim (strip (codes ":") rest) [
      | none ↦ some (record r { i = n })
      | some more ↦ elim (scan_word more) [
        | none ↦ some (record r { i = n })
        | some w ↦ if ltb (length w) 16 then some (record r { i = n; temp_ip = some w }) else none
      ]
    ]
  ]
]

-- A line `IP0:…`. What was never set may not be read.
unfoldable pub read_replica : Bytes → Reading → Option Reading
unfolding scan_replica write_replica
read_replica line r = do
  r1 ← scan_replica line r
  ip ← r1.temp_ip
  p ← r1.chunk
  files ← write_replica p r1.i ip r1.store.files
  some (record r1 { store = record r1.store { files = files } })

-- A line `IP:…`: a new first entry.
unfoldable pub read_ip : Bytes → Reading → Option Reading
unfolding scan_string
read_ip line r =
    let ip = text_or_empty (scan_string (codes "IP:") line) in
    let fresh : IpToFileInfo = record { ip = ip; number_of_files = 0; metadata = null } in
    if ltb (length ip) 16
    then some (record r {
      store = record r.store { entries = fresh ∷ r.store.entries };
      has_entry = true;
    })
    else none

-- A line `FNAME:…`: a new node in front of the entry's list, for the first file of that name, or for
-- none.
unfoldable pub read_fname : Bytes → Reading → Option Reading
unfolding scan_string calloc set_entry find_file
read_fname line r =
    let (p, s) = calloc r.store in
    let known : Option Bytes = elim (scan_string (codes "FNAME:") line) [
      | none ↦ r.fname
      | some w ↦ some w
    ] in
    if p == null then none else (do
      name ← known
      let file : Ptr = elim (find_file name s.files) [ none ↦ null | some f ↦ f.address ]
      let list : Ptr = elim s.entries [ [] ↦ null | e ∷ _ ↦ e.metadata ]
      set_entry (λ e. record e { metadata = p })
          (record r {
            store = record s { nodes = new_node s.nodes p file list };
            fname = some name;
          }))

-- The body of the loop.
unfoldable pub read_line : Bytes → Reading → Option Reading
unfolding kind read_file_name read_number set_file read_chunk_number read_replica read_ip set_entry
    read_fname
read_line line r = elim (kind line) [
  | file_name ↦ read_file_name line r
  | size ↦ read_number (codes "SIZE:") line (λ n. set_file (λ f. record f { size = n })) r
  | flags ↦ read_number (codes "FLAGS:") line (λ n. set_file (λ f. record f { flags = n })) r
  | n_chunks ↦
      read_number (codes "NCHUNKS:") line (λ n. set_file (λ f. record f { number_of_chunks = n })) r
  | n_replicas ↦
      read_number (codes "NREPLICAS:") line (λ n. set_file (λ f. record f { num_replicas = n })) r
  | chunk_num ↦ read_chunk_number line r
  | replica ↦ read_replica line r
  | skip ↦ some r
  | new_ip ↦ read_ip line r
  | n_files ↦
      read_number (codes "NFILES:") line (λ n. set_entry (λ e. record e { number_of_files = n })) r
  | Kind.fname ↦ read_fname line r
  | other ↦ some r
]

-- `while (fgets(line, 128, fPtr) != NULL)`, over what is left of the text. A round takes a byte.
unfoldable pub read_lines : ℕ → Bytes → Reading → Option Reading
unfolding read_line fgets
read_lines zero text r = if length text == 0 then some r else none
read_lines (suc fuel) text r =
    let (line, rest) = fgets 127 text in
    if length line == 0 then some r else (do r1 ← read_line (cstr line) r; read_lines fuel rest r1)

-- `dfs_read_from_file`
unfoldable pub dfs_read_from_file : Option Bytes → Store → Option (ReturnCode × Store)
unfolding read_lines
dfs_read_from_file none s = some (file_not_found, s)
dfs_read_from_file (some text) s = do
  r ←
      read_lines (length text) text
        (record { store = s; chunk = none; has_entry = false; i = 0; temp_ip = none; fname = none })
  some (success, r.store)

-- `dfs_replicate_files_of_crashed_node`, which returns before it does anything.
abbrev pub dfs_replicate_files_of_crashed_node : Bytes → Leader → ReturnCode × Leader
dfs_replicate_files_of_crashed_node ip s = (success, s)

-- `make_master`
unfoldable pub make_master : Bytes → Leader → Option (ReturnCode × Leader)
unfolding dfs_read_from_file dfs_write_to_file
make_master prev_master_ip s = elim s.metadata_file [
  | none ↦ some (file_not_found, s)
  | some text ↦ do
    (_, store) ← dfs_read_from_file (some text) s.store
    s1 ← dfs_write_to_file (record s { store = store })
    some (dfs_replicate_files_of_crashed_node prev_master_ip s1)
]
