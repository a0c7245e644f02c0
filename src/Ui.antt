-- ===== src/Ui.antt =====
-- ui/ui.c: the menu, and the commands about files.
pub mod Words
pub mod Scanned
pub mod Commands
use cs425_mp.Common.{
  ℕ, zero, suc, ◌+◌, ◌-◌, ◌*◌, Bool, true, false, not, ◌&&◌, ◌||◌, Option, none, some, List, [],
  ◌∷◌, Bytes, codes, ◌==◌, ltb, if◌then◌else◌, ◌>>=◌, get_elem?, bytes_eq, length,
}
use cs425_mp.Wire.{ReturnCode}
use cs425_mp.Ring.{Ptr, Heap, Topology, load, update}
use cs425_mp.Membership.{AddDelete}
use cs425_mp.Detector.{State, Node, Contact, Cancels, node_init, node_exit}

-- `char args[3][255]`, one row behind the other: the byte at each place below 765.
abbrev pub Args : Type 0
Args = ℕ → ℕ

-- A write outside the array is a fault.
unfoldable pub store : ℕ → ℕ → Args → Option Args
store pos v args = if ltb pos 765 then some (update args pos v) else none

-- A text in the array, read to its NUL, or to the end of the array.
unfoldable pub text_at : ℕ → Args → ℕ → Bytes
text_at zero args pos = []
text_at (suc n) args pos =
    let rest = text_at n args (pos + 1) in if args pos == 0 then [] else args pos ∷ rest

-- `args[k]`
unfoldable pub arg : Args → ℕ → Bytes
arg args k = text_at (765 - 255 * k) args (255 * k)

-- The variables of the loop of `parse_command`.
pub record Scan : Type 0 where
  pub args : Args
  pub index : ℕ
  pub i : ℕ
  pub string_index : ℕ
  pub length : ℕ
  pub valid : Bool

-- `while (command[index++] == ' '); index--;`
unfoldable pub skip_spaces : ℕ → Bytes → ℕ → Option ℕ
skip_spaces zero command index = none
skip_spaces (suc fuel) command index = do
  c ← get_elem? command index
  let rest = skip_spaces fuel command (index + 1)
  if c == 32 then rest else some index

-- What is done at a space: the argument ends, and the next one begins.
unfoldable pub next_argument : Bytes → Scan → Option Scan
next_argument command s = do
  args ← store (255 * s.i + s.length) 0 s.args
  index ← skip_spaces (suc (length command)) command s.index
  some (record s { args = args; index = index; i = s.i + 1; string_index = 0; length = 0 })

-- The loop of `parse_command`, for the rounds of its fuel. `command` is all of the caller's buffer:
-- nothing keeps the loop from running past the NUL. `none` is a read or a write outside an array.
unfoldable pub scan_command : ℕ → Bytes → Scan → Option Scan
scan_command zero command s = none
scan_command (suc fuel) command s = do
  c ← get_elem? command s.index
  let round = (do
    s1 ← (if c == 32 then next_argument command s else some s)
    b ← get_elem? command s1.index
    args ← store (255 * s1.i + s1.string_index) b s1.args
    let s2 = record s1 {
      args = args;
      index = s1.index + 1;
      string_index = s1.string_index + 1;
      length = s1.length + 1;
    }
    let rest = scan_command fuel command s2
    if ltb 2 s2.i || ((s2.i == 0) && ltb 3 s2.length)
        then some (record s2 { valid = false })
        else rest)
  if c == 0 then some s else round

-- What a command comes to: a call of `dfs_file_transfer`, `dfs_file_receive` or `dfs_delete_file`, or
-- a complaint.
pub data Command : Type 0 where
  put : Bytes → Bytes → Command
  get : Bytes → Bytes → Command
  delete : Bytes → Command
  no_source : Command
  invalid : Command

-- The `if`s behind the loop.
unfoldable pub choose : (Bytes → Bool) → Bytes → Bytes → Bytes → Command
choose exists verb a b =
    if bytes_eq verb (codes "put")
    then if exists a then put a b else no_source
    else if bytes_eq verb (codes "get")
    then get b a
    else if bytes_eq verb (codes "del")
    then delete a
    else invalid

-- `parse_command`, with what `args` held before, and the files that can be opened.
unfoldable pub parse_command : (Bytes → Bool) → Args → Bytes → Option Command
parse_command exists stale command = do
  s ←
      scan_command (suc (length command)) command
        (record { args = stale; index = 0; i = 0; string_index = 0; length = 0; valid = true })
  let is_del = bytes_eq (arg s.args 1) (codes "del")
  if not s.valid || ((is_del && ltb s.i 1) || (is_del && ltb s.i 2)) then some invalid else (do
    args ← store (255 * s.i + s.length) 0 s.args
    some (choose exists (arg args 0) (arg args 1) (arg args 2)))

-- `display_membership_list`: the address, the timestamp and whether it leads, for each member. A null
-- topology is a fault.
unfoldable pub list_members : ℕ → Heap → Ptr → Ptr → Option (List (Bytes × ℕ × Bool))
list_members zero h first p = some []
list_members (suc n) h first p = do
  ip ← load h h.ip p
  timestamp ← load h h.timestamp p
  q ← load h h.next p
  rest ← list_members n h first q
  some ((ip, timestamp, p == first) ∷ rest)

unfoldable pub display_membership_list : Topology → Option (List (Bytes × ℕ × Bool))
unfolding list_members
display_membership_list t = elim t.head [
  | none ↦ none
  | some head ↦ list_members head.num_of_nodes t.heap head.node head.node
]

-- What one entry of the menu does besides changing the node.
pub data Shown : Type 0 where
  joining : ReturnCode → Shown
  leaving : ReturnCode → List (Bytes × AddDelete) → Shown
  refused : Shown
  members : List (Bytes × ℕ × Bool) → Shown
  command : Command → Shown
  try_again : Shown
  quit : List (Bytes × AddDelete) → Shown

pub data Handler : Type 0 where
  call_node_init call_node_exit : Handler

-- What the menu meets: what `case1function` held, the contact, the cancelled threads, the address of the admission contact, the
-- files, and the buffer of the command.
pub record Session : Type 0 where
  pub held : Option Handler
  pub contact : Contact
  pub cancels : Cancels
  pub contact_ip : Bytes
  pub exists : Bytes → Bool
  pub stale : Args
  pub typed : Bytes

-- What `case1function` points to before choice 1: it is set in two of the states, and otherwise holds
-- what it held.
unfoldable pub set_case1function : State → Option Handler → Option Handler
set_case1function State.init held = some call_node_init
set_case1function State.topology_formed held = some call_node_exit
set_case1function State.join_request_sent held = held
set_case1function State.topology_formed_neighbours_updated held = held

-- Choice 1. A call through a pointer that was never set is a fault.
unfoldable pub change_membership : Session → Node → Option (Node × Shown)
unfolding set_case1function
change_membership e n = elim (set_case1function n.state e.held) [
  | some call_node_init ↦ do (code, n') ← node_init e.contact n; some (n', joining code)
  | some call_node_exit ↦ do
    (code, n', sent) ← node_exit e.contact_ip e.cancels n
    some (n', leaving code sent)
  | none ↦ none
]

-- Choice 2
unfoldable pub show_members : Node → Option (Node × Shown)
unfolding display_membership_list
show_members n = elim n.state [
  | State.init ↦ some (n, refused)
  | _ ↦ do list ← display_membership_list n.process.topology; some (n, members list)
]

-- Choice 4
unfoldable pub leave_and_quit : Session → Node → Option (Node × Shown)
leave_and_quit e n = elim n.state [
  | State.topology_formed ↦ do
    (code, n', sent) ← node_exit e.contact_ip e.cancels n
    some (n', quit sent)
  | _ ↦ some (n, quit [])
]

-- One choice in the menu of `main`.
unfoldable pub menu : ℕ → Session → Node → Option (Node × Shown)
unfolding change_membership show_members leave_and_quit parse_command
menu choice e n =
    if choice == b'1'
    then change_membership e n
    else if choice == b'2'
    then show_members n
    else if choice == b'3'
    then (do c ← parse_command e.exists e.stale e.typed; some (n, command c))
    else if choice == b'4'
    then leave_and_quit e n
    else some (n, try_again)
