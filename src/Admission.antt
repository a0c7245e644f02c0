-- ===== src/Admission.antt =====
-- admission_contact/admission_contact.c: the node that lets others in, and its copy of the membership
-- in IPs.txt, which it reads after a crash.
pub mod Compact
pub mod Saved
pub mod Serve
use cs425_mp.Common.{
  ℕ, zero, suc, ◌+◌, ◌%◌, Bool, true, false, ◌&&◌, ◌||◌, not, Option, none, some, List, [], ◌∷◌,
  ◌++◌, Bytes, codes, ◌==◌, ltb, leb, if◌then◌else◌, ◌>>=◌, cstr, length, take, drop, be32,
}
use cs425_mp.Wire.{ReturnCode, success, failure}
use cs425_mp.Ring.{Ptr, Topology}
use cs425_mp.Membership.{
  Process, AddDelete, TopologyRequest, Admission, process_add_delete, process_topology_request,
  populate_address_lists,
}

-- `MAX_NUM_IPS`
abbrev pub max_num_ips : ℕ
max_num_ips = 10

-- `fgets` with room for `n` bytes before the NUL: a line and what is left; an empty one at the end.
unfoldable pub fgets : ℕ → Bytes → Bytes × Bytes
fgets zero text = ([], text)
fgets (suc n) [] = ([], [])
fgets (suc n) (b ∷ text) =
    let (line, rest) = fgets n text in if b == 10 then (b ∷ [], text) else (b ∷ line, rest)

abbrev pub is_space : ℕ → Bool
is_space b = (b == 32) || (leb 9 b && leb b 13)

unfoldable pub skip_space : Bytes → Bytes
skip_space [] = []
skip_space (b ∷ bs) = let rest = skip_space bs in if is_space b then rest else b ∷ bs

unfoldable pub word : Bytes → Bytes
word [] = []
word (b ∷ bs) = let rest = word bs in if is_space b then [] else b ∷ rest

-- What is behind the prefix, if it is there.
unfoldable pub strip : Bytes → Bytes → Option Bytes
strip [] text = some text
strip (p ∷ ps) [] = none
strip (p ∷ ps) (b ∷ bs) = let rest = strip ps bs in if p == b then rest else none

-- `sscanf(line, "IP: %s", …)`: the word, or nothing is written.
unfoldable pub scan_ip : Bytes → Option Bytes
unfolding strip skip_space word
scan_ip line = elim (strip (codes "IP:") line) [
  | none ↦ none
  | some rest ↦ let w = word (skip_space rest) in if length w == 0 then none else some w
]

-- The loop of `parseIPsFile` from row `i` on, over the text that is left: the rows. A row that
-- nothing is written to stays as it was, `stale`. An eleventh row, or a word that its 16 bytes do
-- not hold with the NUL, is written outside: a fault. Each round takes a byte, so that as many
-- rounds as there are bytes are enough.
unfoldable pub parse_lines : ℕ → ℕ → (ℕ → Bytes) → Bytes → Option (List Bytes)
unfolding fgets scan_ip
parse_lines zero i stale text = if length text == 0 then some [] else none
parse_lines (suc fuel) i stale text =
    let (line, rest) = fgets 49 text in
    let later = parse_lines fuel (i + 1) stale rest in
    if length line == 0 then some [] else elim (scan_ip (cstr line)) [
      | none ↦ do rows ← later; some (stale i ∷ rows)
      | some w ↦ do
        rows ← later
        if ltb i max_num_ips && ltb (length w) 16 then some (w ∷ rows) else none
    ]

-- `parseIPsFile`: a file that is not there is read all the same, a fault.
unfoldable pub parse_ips_file : (ℕ → Bytes) → Option Bytes → Option (List Bytes)
unfolding parse_lines
parse_ips_file stale none = none
parse_ips_file stale (some text) = parse_lines (length text) 0 stale text

-- The loop of `writeIPsToFile`: the text that it writes of `n` rows of 16 bytes.
unfoldable pub write_rows : ℕ → Bytes → Bytes
write_rows zero ip_list = []
write_rows (suc n) ip_list = codes "IP: " ++ (cstr ip_list ++ 10 ∷ write_rows n (drop 16 ip_list))

-- `writeIPsToFile`, whose `numIPs` has 16 bits.
unfoldable pub write_ips_to_file : ℕ → Bytes → Bytes
write_ips_to_file num_ips ip_list = write_rows (num_ips % 65536) ip_list

-- `memcpy(buf + to, buf + from, 16)`. The first one has regions that overlap; they are copied as
-- `memmove` would.
unfoldable pub copy16 : ℕ → ℕ → Bytes → Bytes
copy16 to from buf = take to buf ++ take 16 (drop from buf) ++ drop (to + 16) buf

-- The loop that moves the addresses together, from behind the timestamps.
unfoldable pub compact : ℕ → ℕ → ℕ → Bytes → Bytes
compact zero to from buf = buf
compact (suc n) to from buf = compact n (to + 16) (from + 20) (copy16 to from buf)

-- The list as `populate_ipAddrList` lays it out: `htonl` of a timestamp and 16 bytes of address.
unfoldable pub id_list : List (ℕ × Bytes) → Bytes
id_list [] = []
id_list (e ∷ es) = be32 e.0 ++ (e.1 ++ id_list es)

-- What is done after each request: all members are written to the file.
unfoldable pub save_members : Topology → Option Bytes
unfolding write_ips_to_file compact id_list
save_members t = do
  lists ← populate_address_lists t
  let n = length lists.ids
  some (write_ips_to_file n (compact n 0 4 (id_list lists.ids)))

-- One round of `main`, with a node that asks for the topology, or one whose message is not decoded:
-- the admission, and the file.
unfoldable pub serve :
    Ptr → Option TopologyRequest → Topology → Option (Option Admission × Topology × Bytes)
unfolding save_members
serve fresh none t = do file ← save_members t; some (none, t, file)
serve fresh (some request) t = do
  admission ← process_topology_request fresh request t
  file ← save_members admission.topology
  some (some admission, admission.topology, file)

-- The first address that connects.
unfoldable pub first_connected : (Bytes → Bool) → List Bytes → Option Bytes
first_connected connects [] = none
first_connected connects (ip ∷ ips) =
    let rest = first_connected connects ips in if connects ip then some ip else rest

-- `getTopologyFromSomeNode`, after a crash: `answer` is what a node replies, a list of members or
-- something that is not decoded; `none` in place of the file is that it stays as it is.
unfoldable pub get_topology_from_some_node :
    (ℕ → Bytes)
    → (Bytes → Bool)
    → (Bytes → Option AddDelete)
    → List Ptr
    → Option Bytes
    → Process
    → Option (ReturnCode × Process × Option Bytes)
unfolding parse_ips_file first_connected save_members
get_topology_from_some_node stale connects answer fresh file s = do
  rows ← parse_ips_file stale file
  elim (first_connected connects rows) [
    | none ↦ some (failure, s, none)
    | some ip ↦ do
      s1 ← elim (answer ip) [
        | none ↦ some s
        | some payload ↦ do (s', sent) ← process_add_delete fresh payload s; some s'
      ]
      file1 ← save_members s1.topology
      some (success, s1, some file1)
  ]
