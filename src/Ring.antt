-- ===== src/Ring.antt =====
-- commons/list.c: the circular doubly linked list of the members, over an explicit heap.
pub mod Links
pub mod Walk
pub mod Add
pub mod Unlink
pub mod Remove
pub mod Fields
pub mod Addresses
pub mod Refine
use cs425_mp.Common.{
  ℕ, zero, suc, ◌+◌, ◌-◌, ◌*◌, Bool, true, false, Option, none, some, List, [], ◌∷◌, Bytes, ◌==◌,
  if◌then◌else◌, set, take, drop, get_or, strncmp_eq, strcmp_eq, memcmp_eq, ◌>>=◌, ◌>>◌,
}

abbrev pub Ptr : Type 0
Ptr = ℕ

abbrev pub null : Ptr
null = 0

-- `struct Node`, field by field: what each address holds. `live` tells the nodes that are allocated.
pub record Heap : Type 0 where
  pub live : Ptr → Bool
  pub ip : Ptr → Bytes
  pub timestamp : Ptr → ℕ
  pub next : Ptr → Ptr
  pub prev : Ptr → Ptr

-- `struct Head_Node`
pub record Head : Type 0 where
  pub node : Ptr
  pub num_of_nodes : ℕ

-- The heap and `server_topology`, a pointer that is null or holds the only reference to its head.
pub record Topology : Type 0 where
  pub heap : Heap
  pub head : Option Head

-- The function that is `v` at `p`.
abbrev pub update {ℓ} : {A : Type ℓ} → (Ptr → A) → Ptr → A → Ptr → A
update f p v a = if a == p then v else f a

-- A read or write through `p` faults unless `p` is a live node.
unfoldable pub check : Heap → Ptr → Option (Unit {0})
check h p = if p == null then none else if h.live p then some tt else none

unfoldable pub load {ℓ} : {A : Type ℓ} → Heap → (Ptr → A) → Ptr → Option A
unfolding check
load h field p = check h p >> some (field p)

unfoldable pub set_next : Heap → Ptr → Ptr → Option Heap
unfolding check
set_next h p q = check h p >> some (record h { next = update h.next p q })

unfoldable pub set_prev : Heap → Ptr → Ptr → Option Heap
unfolding check
set_prev h p q = check h p >> some (record h { prev = update h.prev p q })

unfoldable pub free : Heap → Ptr → Option Heap
unfolding check
free h p = check h p >> some (record h { live = update h.live p false })

abbrev pub id_ip : Bytes → Bytes
id_ip id = drop 4 id

-- `ntohl` of the first four bytes of an ID.
unfoldable pub id_timestamp : Bytes → ℕ
id_timestamp id =
    get_or id 0 0 * 16777216 + get_or id 1 0 * 65536 + get_or id 2 0 * 256 + get_or id 3 0

-- The last byte of the address is overwritten by a NUL.
unfoldable pub node_ip : Bytes → Bytes
node_ip id = set (take 16 (id_ip id)) 15 0

-- `init_node` at the address that `calloc` returned; a null address writes nothing.
unfoldable pub init_node : Heap → Ptr → Bytes → Heap
init_node h p id = if p == null then h else record h {
  live = update h.live p true;
  ip = update h.ip p (node_ip id);
  timestamp = update h.timestamp p (id_timestamp id);
  next = update h.next p p;
  prev = update h.prev p p;
}

-- `for (i = 0; i < num_of_nodes; i++) if (!strncmp(…)) …`: the node with the address, if any.
unfoldable pub find_ip : ℕ → Heap → Ptr → Bytes → Option (Option Ptr)
find_ip zero h p ip = some none
find_ip (suc n) h p ip = do
  node_ip ← load h h.ip p
  let rest = (do q ← load h h.next p; find_ip n h q ip)
  if strncmp_eq 16 node_ip ip then some (some p) else rest

-- The four writes that put a node before the first one, which is behind the last one.
unfoldable pub insert_last : Heap → Ptr → Ptr → Option Heap
insert_last h first new = do
  h1 ← set_next h new first
  last ← load h1 h1.prev first
  h2 ← set_prev h1 new last
  before ← load h2 h2.prev first
  h3 ← set_next h2 before new
  set_prev h3 first new

-- `add_to_list`: `new` is the address that `calloc` returns for the node, which is not given back
-- where the address is already in the list. It returns 0 always. `none` is a fault.
unfoldable pub add_to_list : Ptr → Bytes → Topology → Option Topology
add_to_list new id t = elim t.head [
  | none ↦ some (record {
    heap = init_node t.heap new id;
    head = some (record { node = new; num_of_nodes = 1 });
  })
  | some head ↦ do
    let h = init_node t.heap new id
    found ← find_ip head.num_of_nodes h head.node (id_ip id)
    elim found [
      | some p ↦ some (record {
        heap = record h { timestamp = update h.timestamp p (id_timestamp id) };
        head = some head;
      })
      | none ↦ do
        h' ← insert_last h head.node new
        some (record {
          heap = h';
          head = some (record head { num_of_nodes = head.num_of_nodes + 1 });
        })
    ]
]

-- The `do … while` search of `remove_from_list`, for the rounds of its fuel: the node whose 16
-- bytes match, or none when it is back at the first node.
unfoldable pub find_exact : ℕ → Heap → Ptr → Ptr → Bytes → Option (Option Ptr)
find_exact zero h first p ip = none
find_exact (suc fuel) h first p ip = do
  node_ip ← load h h.ip p
  q ← load h h.next p
  let rest = find_exact fuel h first q ip
  if memcmp_eq 16 node_ip ip then some (some p) else if q == first then some none else rest

-- `next_node->prev = prev_node; prev_node->next = next_node;`
unfoldable pub unlink : Heap → Ptr → Option Heap
unlink h p = do
  next_node ← load h h.next p
  prev_node ← load h h.prev p
  h1 ← set_prev h next_node prev_node
  set_next h1 prev_node next_node

-- The rest of `remove_from_list`, once the node is found: the head moves on if its address reads
-- like that of the node, and the last node takes the head with it.
unfoldable pub remove_node : Heap → Head → Ptr → Option Topology
remove_node h head p = do
  h1 ← unlink h p
  head_ip ← load h1 h1.ip head.node
  ip ← load h1 h1.ip p
  first ← load h1 h1.next head.node
  h2 ← free h1 p
  let node = if strcmp_eq head_ip ip then first else head.node
  let count = head.num_of_nodes - 1
  some (record {
    heap = h2;
    head = if count == 0 then none else some (record { node = node; num_of_nodes = count });
  })

-- `remove_from_list`: 0 (`true`) when the node was there, and 1 when nothing was done.
unfoldable pub remove_from_list : Bytes → Topology → Option (Bool × Topology)
remove_from_list id t = elim t.head [
  | none ↦ some (false, t)
  | some head ↦ if head.node == null then some (false, t) else (do
    found ← find_exact head.num_of_nodes t.heap head.node head.node (id_ip id)
    elim found [
      | none ↦ some (false, t)
      | some p ↦ do t' ← remove_node t.heap head p; some (true, t')
    ])
]

unfoldable pub free_nodes : ℕ → Heap → Ptr → Option Heap
free_nodes zero h p = some h
free_nodes (suc n) h p =
    if p == null then some h else (do q ← load h h.next p; h' ← free h p; free_nodes n h' q)

-- `delete_all_nodes`: every node is freed, and the head is forgotten.
unfoldable pub delete_all_nodes : Topology → Option Topology
delete_all_nodes t = elim t.head [
  | none ↦ some t
  | some head ↦ do
    h ← free_nodes head.num_of_nodes t.heap head.node
    some (record { heap = h; head = none })
]
