-- ===== src/Detector.antt =====
-- failure_detector/: how a node joins (get_topology.c, node_init), leaves (node_exit), sends and awaits
-- heartbeats (heartbeat_send.c, heartbeat_receive.c), and the states of ui/ui.h that it is in.
pub mod Joining
pub mod Around
pub mod Timeout
pub mod Stale
pub mod States
use cs425_mp.Common.{
  ℕ, zero, suc, ◌+◌, ◌-◌, Bool, true, false, not, ◌&&◌, ◌||◌, Option, none, some, List, [], ◌∷◌,
  ◌++◌, Bytes, ◌==◌, ltb, if◌then◌else◌, ◌>>=◌, cstr, strcmp_eq, take, be32,
}
use cs425_mp.Wire.{ReturnCode, success, failure, is_success}
use cs425_mp.Ring.{Ptr, null, Heap, Topology, load, remove_from_list}
use cs425_mp.Membership.{
  Process, AddDelete, watch, process_heartbeat, process_add_delete, delete_notification,
  leave_notification, node_failure,
}

-- The `do … while` search of `get_topology` for the node whose address reads like `my_ip`, for the
-- rounds of its fuel.
unfoldable pub find_myself : ℕ → Heap → Ptr → Ptr → Bytes → Option (Option Ptr)
find_myself zero h first p my_ip = none
find_myself (suc fuel) h first p my_ip = do
  ip ← load h h.ip p
  q ← load h h.next p
  let rest = find_myself fuel h first q my_ip
  if strcmp_eq ip my_ip then some (some p) else if q == first then some none else rest

-- What a run of `get_topology` meets: whether the admission contact is connected, its answer (none:
-- not decoded), the addresses that `calloc` returns, and `myIP`.
pub record Contact : Type 0 where
  pub connected : Bool
  pub answer : Option AddDelete
  pub fresh : List Ptr
  pub my_ip : Bytes

-- What `get_topology` does: `reads_metadata` when the node leads, and then `dfs_read_from_file` is
-- called.
pub record Joined : Type 0 where
  pub code : ReturnCode
  pub process : Process
  pub reads_metadata : Bool

-- The part from the search on. A null topology is a fault.
unfoldable pub take_place : Bytes → Process → Option Joined
unfolding find_myself watch
take_place my_ip s = elim s.topology.head [
  | none ↦ none
  | some head ↦ do
    let h = s.topology.heap
    found ← find_myself head.num_of_nodes h head.node head.node my_ip
    elim found [
      | none ↦ some (record { code = failure; process = s; reads_metadata = false })
      | some p ↦ do
        prev ← load h h.prev p
        ip ← load h h.ip prev
        some (record {
          code = success;
          process = watch ip (record s { myself = p });
          reads_metadata = head.node == p;
        })
    ]
]

-- `get_topology`. The result of `message_decode` is not looked at: without an answer the packet is a
-- pointer that was never set, a fault.
unfoldable pub get_topology : Contact → Process → Option Joined
unfolding take_place
get_topology c s =
    if c.connected
    then elim c.answer [
      | none ↦ none
      | some payload ↦ do (s1, sent) ← process_add_delete c.fresh payload s; take_place c.my_ip s1
    ]
    else some (record { code = failure; process = s; reads_metadata = false })

-- `state_machine`
pub data State : Type 0 where
  init join_request_sent topology_formed topology_formed_neighbours_updated : State

abbrev pub is_init : State → Bool
is_init State.init = true
is_init _ = false

-- How many of the threads run that are created with `heartbeat_send`, `heartbeat_receive`,
-- `topology_update` and `dfs_listener`.
pub record Threads : Type 0 where
  pub sending : ℕ
  pub receiving : ℕ
  pub listening : ℕ
  pub dfs_listening : ℕ

-- The globals of the node.
pub record Node : Type 0 where
  pub process : Process
  pub state : State
  pub threads : Threads

unfoldable pub start_threads : Threads → Threads
start_threads t = record {
  sending = t.sending + 1;
  receiving = t.receiving + 1;
  listening = t.listening + 1;
  dfs_listening = t.dfs_listening + 1;
}

-- `node_init`: the topology is forgotten without being freed.
unfoldable pub node_init : Contact → Node → Option (ReturnCode × Node)
unfolding start_threads
node_init c n = do
  let forgot = record n.process.topology { head = none }
  joined ← get_topology c (record n.process { topology = forgot; myself = null })
  let s = joined.process
  let here = record n { process = s; threads = start_threads n.threads }
  let after = (do
    next ← load s.topology.heap s.topology.heap.next s.myself
    _ ← load s.topology.heap s.topology.heap.next next
    some (
        if is_init n.state
        then (success, record here { state = State.topology_formed })
        else (failure, here)))
  if is_success joined.code then after else some (failure, record n { process = s })

-- The ID of a node: `htonl` of its timestamp, and its address.
unfoldable pub node_id : Heap → Ptr → Option Bytes
node_id h p = do
  timestamp ← load h h.timestamp p
  ip ← load h h.ip p
  some (be32 timestamp ++ take 16 ip)

-- What a call of `pthread_cancel` does: it fails; or it returns 0, and the thread is cancelled, or had
-- ended before.
pub data Cancel : Type 0 where
  refused cancelled ended_before : Cancel

abbrev pub returns_zero : Cancel → Bool
returns_zero refused = false
returns_zero _ = true

-- How many threads are left of some that run.
abbrev pub left_of : Cancel → ℕ → ℕ
left_of cancelled n = n - 1
left_of _ n = n

-- The calls of `pthread_cancel` for the threads that were created last.
pub record Cancels : Type 0 where
  pub receiving : Cancel
  pub sending : Cancel
  pub listening : Cancel

-- `node_exit`, and the messages that it sends. In the state INIT it says so, and goes on.
unfoldable pub node_exit :
    Bytes → Cancels → Node → Option (ReturnCode × Node × List (Bytes × AddDelete))
unfolding node_id
node_exit contact_ip cancels n =
    let s = n.process in
    let t = n.threads in
    let t1 = record t { receiving = left_of cancels.receiving t.receiving } in
    let t2 = record t1 { sending = left_of cancels.sending t.sending } in
    let t3 = record t2 { listening = left_of cancels.listening t.listening } in
    if returns_zero cancels.receiving
    then (do
      id ← node_id s.topology.heap s.myself
      sent ← delete_notification leave_notification id 4 contact_ip s
      some (
          if returns_zero cancels.sending
          then if returns_zero cancels.listening
            then (success, record n { state = State.init; threads = t3 }, sent)
            else (failure, record n { threads = t2 }, sent)
          else (failure, record n { threads = t1 }, sent)))
    else some (failure, n, [])

-- The part of `heartbeat_receive` before its loop: a socket that cannot be bound sets the state to INIT,
-- and the thread goes on.
unfoldable pub start_receiving : Bool → Node → Node
start_receiving bound n = if bound then n else record n { state = State.init }

-- What a listener meets: a socket, `bind`, `listen`, and `accept` of one connection.
pub record Listening : Type 0 where
  pub has_socket : Bool
  pub bound : Bool
  pub listens : Bool
  pub accepted : Bool

abbrev pub goes_on : Listening → Bool
goes_on l = l.has_socket && (l.bound && (l.listens && l.accepted))

-- `topology_update` up to a connection, and `dfs_listener`: where something fails, the thread ends.
unfoldable pub listen_for_updates : Listening → Node → Node
listen_for_updates l n =
    if goes_on l
    then n
    else record n { threads = record n.threads { listening = n.threads.listening - 1 } }

unfoldable pub listen_for_files : Listening → Node → Node
listen_for_files l n =
    if goes_on l
    then n
    else record n { threads = record n.threads { dfs_listening = n.threads.dfs_listening - 1 } }

-- What a round of `heartbeat_receive` does that has missed its heartbeats: the notifications, whose
-- files `make_master` takes over if the leader failed, and the process.
pub record Round : Type 0 where
  pub sent : List (Bytes × AddDelete)
  pub made_master : Option Bytes
  pub process : Process

-- What `poll` returned: the time is over; there is a datagram, with the address that a heartbeat in it
-- names (none: it is not decoded, or no heartbeat); or neither.
pub data Polled : Type 0 where
  timed_out : Polled
  readable : Option Bytes → Polled
  interrupted : Polled

unfoldable pub receive_heartbeat : ℕ → Polled → Process → Process
receive_heartbeat now timed_out s = s
receive_heartbeat now (readable none) s = s
receive_heartbeat now (readable (some ip)) s = process_heartbeat ip now s
receive_heartbeat now interrupted s = s

-- `heartbeatNotReceived` of one round, after the datagram. Times count seconds; a difference below 0 is
-- not above 2.
unfoldable pub heartbeat_missed : ℕ → Polled → Process → Bool
heartbeat_missed now timed_out s = true
heartbeat_missed now (readable _) s =
    not (s.saved0.latest_time_stamp == 0) && ltb 2 (now - s.saved0.latest_time_stamp)
heartbeat_missed now interrupted s = false

-- `server_topology && server_topology->node == p`
unfoldable pub leads : Ptr → Topology → Bool
leads p t = elim t.head [ none ↦ false | some head ↦ head.node == p ]

-- The branch `if (heartbeatNotReceived)`. `myself == server_topology` compares a node with the head,
-- and is false.
unfoldable pub declare_failed : Bytes → Process → Option Round
unfolding node_id leads
declare_failed contact_ip s = do
  let h = s.topology.heap
  prev ← load h h.prev s.myself
  id ← node_id h prev
  sent ← delete_notification node_failure id 4 contact_ip s
  ip ← load h h.ip prev
  let leader_failed = leads prev s.topology
  (_, t) ← remove_from_list id s.topology
  prev' ← load t.heap t.heap.prev s.myself
  ip' ← load t.heap t.heap.ip prev'
  some (record {
    sent = sent;
    made_master = if leader_failed then some ip else none;
    process = watch ip' (record s { topology = t });
  })

-- One round of the loop of `heartbeat_receive`.
unfoldable pub heartbeat_round : Bytes → ℕ → Polled → Process → Option Round
unfolding receive_heartbeat heartbeat_missed declare_failed
heartbeat_round contact_ip now polled s =
    let s1 = receive_heartbeat now polled s in
    if heartbeat_missed now polled s1
    then declare_failed contact_ip s1
    else some (record { sent = []; made_master = none; process = s1 })

-- Whether the array is still empty: `sendToIP[0] == NULL`.
unfoldable pub is_unset : Bytes → Bool
is_unset [] = true
is_unset (b ∷ bs) = b == 0

-- The address that `heartbeat_send` sends its next heartbeat to, where the last one went to
-- `send_to_ip`.
unfoldable pub send_heartbeat_to : Bytes → Process → Option Bytes
unfolding is_unset
send_heartbeat_to send_to_ip s = do
  let h = s.topology.heap
  next ← load h h.next s.myself
  ip ← load h h.ip next
  some (if is_unset send_to_ip || not (strcmp_eq send_to_ip ip) then cstr ip else send_to_ip)
