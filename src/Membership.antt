-- ===== src/Membership.antt =====
-- commons/fdetect_payload_process.c and `sendDeleteNotification` of failure_detector/: what a
-- process does with membership messages.
pub mod Targets
pub mod Join
pub mod Notice
pub mod Listing
pub mod Complete
use cs425_mp.Common.{
  ℕ, zero, suc, ◌+◌, ◌-◌, Bool, true, false, not, ◌&&◌, ◌||◌, Option, none, some, List, [], ◌∷◌,
  ◌++◌, Bytes, ◌==◌, ltb, if◌then◌else◌, ◌>>=◌, cstr, strcmp_eq, length, ◌%◌, be32, take,
}
use cs425_mp.Wire.{has_flag, msg_heartbeat}
use cs425_mp.Ring.{
  Ptr, null, Heap, Head, Topology, load, id_ip, add_to_list, remove_from_list, delete_all_nodes,
}

abbrev pub add_payload : ℕ
add_payload = 0x01

abbrev pub delete_payload : ℕ
delete_payload = 0x02

abbrev pub leave_notification : ℕ
leave_notification = 0x04

abbrev pub node_failure : ℕ
node_failure = 0x08

abbrev pub delta_payload : ℕ
delta_payload = 0x10

abbrev pub complete_payload : ℕ
complete_payload = 0x20

-- `ADD_NODE_REQUEST`
abbrev pub add_node_request : ℕ
add_node_request = 0x01

-- `neighbourHeartbeat`
pub record Heartbeat : Type 0 where
  pub ip_addr : Bytes
  pub latest_time_stamp : ℕ

-- The globals that these functions share: `server_topology` and its nodes, `myself` (null before the
-- process has joined), and the two entries of `savedHeartbeat`.
pub record Process : Type 0 where
  pub topology : Topology
  pub myself : Ptr
  pub saved0 : Heartbeat
  pub saved1 : Heartbeat

-- `addDeleteNodePayload`
pub record AddDelete : Type 0 where
  pub flags : ℕ
  pub ttl : ℕ
  pub ids : List Bytes

-- `topologyRequestPayload`: the flags, and the ID that the handler makes of the timestamp and the
-- address.
pub record TopologyRequest : Type 0 where
  pub flags : ℕ
  pub id : Bytes

-- `populate_ipAddrList`'s results: the members with their timestamps, and the addresses that a
-- new member is announced to.
pub record AddressLists : Type 0 where
  pub ids : List (ℕ × Bytes)
  pub nodes_to_send_to : List Bytes

-- `processHeartbeatPayload`: the entries with the sender's address take the time `now`.
unfoldable pub touch : Bytes → ℕ → Heartbeat → Heartbeat
touch ip now b = if strcmp_eq b.ip_addr ip then record b { latest_time_stamp = now } else b

unfoldable pub process_heartbeat : Bytes → ℕ → Process → Process
unfolding touch
process_heartbeat ip now s = record s {
  saved0 = touch ip now s.saved0;
  saved1 = touch ip now s.saved1;
}

-- `strcpy(savedHeartbeat[0].ipAddr, ip)`
unfoldable pub watch : Bytes → Process → Process
watch ip s = record s { saved0 = record s.saved0 { ip_addr = cstr ip } }

-- The `for` loop's additions; `fresh` are the addresses that `calloc` returns in turn, null once
-- they run out.
unfoldable pub add_nodes : List Ptr → List Bytes → Process → Option Process
unfolding watch
add_nodes fresh [] s = some s
add_nodes [] (id ∷ ids) s = do
  t ← add_to_list null id s.topology
  add_nodes [] ids (watch (id_ip id) (record s { topology = t }))
add_nodes (p ∷ fresh) (id ∷ ids) s = do
  t ← add_to_list p id s.topology
  add_nodes fresh ids (watch (id_ip id) (record s { topology = t }))

-- The `for` loop: a deletion takes the first ID and breaks; without either flag nothing happens.
-- The leader's call of `dfs_replicate_files_of_crashed_node` returns at once.
unfoldable pub change_nodes : List Ptr → AddDelete → Process → Option Process
unfolding add_nodes
change_nodes fresh payload s =
    if has_flag payload.flags delete_payload
    then elim payload.ids [
      | [] ↦ some s
      | id ∷ _ ↦ do (_, t) ← remove_from_list id s.topology; some (record s { topology = t })
    ]
    else if has_flag payload.flags add_payload
    then add_nodes fresh payload.ids s
    else some s

-- After the loop a process that has joined watches its predecessor and finds its successor's
-- address, through `myself`.
unfoldable pub refresh : Process → Option (Process × Option Bytes)
unfolding watch
refresh s = if s.myself == null then some (s, none) else (do
  let h = s.topology.heap
  next ← load h h.next s.myself
  ip ← load h h.ip next
  prev ← load h h.prev s.myself
  prev_ip ← load h h.ip prev
  some (watch prev_ip s, some ip))

-- The payload that is passed on, with one round less, to whom, and as a message of which type: the
-- type is not set, and 0 is MSG_HEARTBEAT. A null topology is a fault, and so is an address that was
-- never set.
unfoldable pub forward :
    AddDelete → Topology → Option Bytes → Option (Option (Bytes × ℕ × AddDelete))
forward payload t ip =
    if ltb 0 payload.ttl
    then elim t.head [
      | none ↦ none
      | some head ↦
          if ltb 0 head.num_of_nodes
          then elim ip [
            | none ↦ none
            | some to ↦ some (some (to, msg_heartbeat, record payload { ttl = payload.ttl - 1 }))
          ]
          else some none
    ]
    else some none

-- `processNodeAddDeletePayload`: the process afterwards, and what it sends on. `none` is a fault.
unfoldable pub process_add_delete :
    List Ptr → AddDelete → Process → Option (Process × Option (Bytes × ℕ × AddDelete))
process_add_delete fresh payload s = do
  t ←
      (if has_flag payload.flags add_payload && has_flag payload.flags complete_payload
        then delete_all_nodes s.topology
        else some s.topology)
  s1 ← change_nodes fresh payload (record s { topology = t })
  (s2, ip) ← refresh s1
  out ← forward payload s2.topology ip
  some (s2, out)

-- The loop of `populate_ipAddrList`: all members, and of their addresses those whose node is
-- neither `last` nor, among more than two, the one before it.
unfoldable pub populate_loop : ℕ → Heap → Ptr → ℕ → Ptr → Ptr → Option AddressLists
populate_loop zero h tmp count before last = some (record { ids = []; nodes_to_send_to = [] })
populate_loop (suc n) h tmp count before last = do
  timestamp ← load h h.timestamp tmp
  ip ← load h h.ip tmp
  next ← load h h.next tmp
  rest ← populate_loop n h next count before last
  some (record {
    ids = (timestamp, ip) ∷ rest.ids;
    nodes_to_send_to =
        if ltb 1 count && ((count == 2) || not (tmp == before)) && not (tmp == last)
        then ip ∷ rest.nodes_to_send_to
        else rest.nodes_to_send_to;
  })

-- `populate_ipAddrList`: among more than two members the one before the last comes first.
unfoldable pub populate_address_lists : Topology → Option AddressLists
populate_address_lists t = elim t.head [
  | none ↦ some (record { ids = []; nodes_to_send_to = [] })
  | some head ↦ if head.node == null then some (record { ids = []; nodes_to_send_to = [] }) else (do
    let h = t.heap
    let several = ltb 1 head.num_of_nodes
    last ← (if several then load h h.prev head.node else some null)
    before ← (if several then load h h.prev last else some null)
    ip ← (if ltb 2 head.num_of_nodes then load h h.ip before else some [])
    lists ← populate_loop head.num_of_nodes h head.node head.num_of_nodes before last
    some (
        if ltb 2 head.num_of_nodes
        then record lists { nodes_to_send_to = ip ∷ lists.nodes_to_send_to }
        else lists))
]

-- What `processTopologyRequest` does: the topology, the members that it answers with (none: no
-- answer), and the announcements of the new member, one for each address.
pub record Admission : Type 0 where
  pub topology : Topology
  pub response : List (ℕ × Bytes)
  pub announced : List (Bytes × AddDelete)

-- `sendAddNodePayload`, in its batches of five threads: one message for each address,
-- of type MSG_ADD_DELETE_NODE.
unfoldable pub announcements : List Bytes → AddDelete → List (Bytes × AddDelete)
announcements [] payload = []
announcements (ip ∷ ips) payload = (ip, payload) ∷ announcements ips payload

unfoldable pub process_topology_request : Ptr → TopologyRequest → Topology → Option Admission
unfolding announcements
process_topology_request fresh request t = do
  let wants = has_flag request.flags add_node_request
  t' ← (if wants then add_to_list fresh request.id t else some t)
  lists ← populate_address_lists t'
  some (record {
    topology = t';
    response = lists.ids;
    announced =
        if wants
        then announcements lists.nodes_to_send_to
            (record { flags = add_payload + delta_payload; ttl = 0; ids = request.id ∷ [] })
        else [];
  })

-- An entry of the list that `populate_ipAddrList` makes: `htonl` of the timestamp, and the address.
unfoldable pub id_bytes : ℕ × Bytes → Bytes
id_bytes e = be32 e.0 ++ e.1

unfoldable pub all_id_bytes : List (ℕ × Bytes) → List Bytes
unfolding id_bytes
all_id_bytes [] = []
all_id_bytes (e ∷ es) = id_bytes e ∷ all_id_bytes es

-- The payload of `sendTopologyResponse`; its `numOfNodes` has eight bits, and the receiver takes no
-- more IDs than that.
unfoldable pub topology_response : List (ℕ × Bytes) → AddDelete
unfolding all_id_bytes
topology_response ids = record {
  flags = add_payload + complete_payload;
  ttl = 0;
  ids = take (length ids % 256) (all_id_bytes ids);
}

-- The payload of `sendTopologyJoinRequest` at the time `now`.
unfoldable pub topology_join_request : ℕ → Bytes → TopologyRequest
unfolding id_bytes
topology_join_request now my_ip = record {
  flags = add_node_request;
  id = id_bytes (now, take 16 my_ip);
}

-- The loop of `sendDeleteNotification`: `n` addresses, backwards from `p`.
unfoldable pub backwards : ℕ → Heap → Ptr → Option (List Bytes)
backwards zero h p = some []
backwards (suc n) h p = do
  ip ← load h h.ip p
  q ← load h h.prev p
  ips ← backwards n h q
  some (ip ∷ ips)

-- `sendDeleteNotification`: the admission contact's message, then one to each address of the list.
-- `reason` is NODE_FAILURE or LEAVE_NOTIFICATION; a failed node is `myself->prev`, which is skipped.
unfoldable pub delete_notification :
    ℕ → Bytes → ℕ → Bytes → Process → Option (List (Bytes × AddDelete))
unfolding backwards announcements
delete_notification reason id ttl admission_contact_ip s =
    let flags = delete_payload + delta_payload + reason in
    let contact : Bytes × AddDelete =
      (admission_contact_ip, record { flags = flags; ttl = 0; ids = id ∷ [] }) in
    elim s.topology.head [
      | none ↦ some (contact ∷ [])
      | some head ↦
          if ltb 2 head.num_of_nodes
          then (do
            let h = s.topology.heap
            prev ← load h h.prev s.myself
            start ← (if reason == node_failure then load h h.prev prev else some prev)
            ips ← backwards (head.num_of_nodes - 2) h start
            some (contact ∷ announcements ips (record { flags = flags; ttl = ttl; ids = id ∷ [] })))
          else some (contact ∷ [])
    ]
