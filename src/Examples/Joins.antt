-- ===== src/Examples/Joins.antt =====
-- A node joins by way of the admission contact, and misses heartbeats.
use cs425_mp.Common.{
  ◌%◌, ◌≡◌, refl, sym, ◌∙◌, ◌⊎◌, inl, inr, true, false, none, some, List, [], ◌∷◌, Bytes, ◌==◌,
  if◌then◌else◌, arith, codes, pad, length, leb, cstr, strcmp_eq, drop, take,
}
use cs425_mp.Wire.{has_flag, success}
use cs425_mp.Ring.{Ptr, Heap, Topology, check, add_to_list, load, init_node, node_ip}
use cs425_mp.Ring.Links.{mem}
use cs425_mp.Ring.Walk.{Members}
use cs425_mp.Ring.Remove.{DistinctIps}
use cs425_mp.Ring.Addresses.{IsAddress}
use cs425_mp.Ring.Refine.{Entry, enroll, HasAddresses, Represents}
use cs425_mp.Ring.Refine.Histories.{joins, replay}
use cs425_mp.Membership.{
  Process, Admission, watch, topology_response, topology_join_request, announcements,
  process_add_delete,
}
use cs425_mp.Admission.{serve, save_members, parse_ips_file, max_num_ips}
use cs425_mp.Admission.Saved.{saved_text, AreWords}
use cs425_mp.Admission.Serve.{names, parse_ips_file-save_members}
use cs425_mp.Detector.{
  Contact, Joined, Node, State, Round, get_topology, node_init, heartbeat_round, heartbeat_missed,
  receive_heartbeat, readable, declare_failed, start_receiving,
}
use cs425_mp.Detector.Joining.{Placed, get_topology-serve}
use cs425_mp.Detector.Timeout.{failure_notice, id_of_member, others, declare_failed-Members}
use cs425_mp.Detector.Stale.{heartbeat_round_again, round-missed}
use cs425_mp.Detector.States.{Run, started, joined, bind_lost, HasThreads, Run-HasThreads}
use cs425_mp.Examples.Histories.{nothing, nothing-Represents, one, one-Represents}

abbrev address : Bytes
address = pad 16 (codes "10.1")

address-IsAddress : IsAddress address
address-IsAddress = (
  codes "10.1",
  (omega arith, (omega arith, (omega arith, (omega arith, tt)))),
  omega arith,
  refl,
)

abbrev nowhere : Process
nowhere = record {
  topology = nothing;
  myself = 0;
  saved0 = record { ip_addr = []; latest_time_stamp = 0 };
  saved1 = record { ip_addr = []; latest_time_stamp = 0 };
}

get_topology-serve_example :
    (admission : Admission) × (t' : Topology) × (serve 5
        (some (topology_join_request 263 address))
        nothing
      ≡ some (some admission, t', saved_text (names (enroll address 263 []))))
    × Represents t' (enroll address 263 [])
    × (j : Joined) × (get_topology
          (record {
            connected = true;
            answer = some (topology_response admission.response);
            fresh = 9 ∷ [];
            my_ip = address;
          })
          nowhere
        ≡ some j)
    × Placed address (enroll address 263 []) j
get_topology-serve_example =
    get_topology-serve nothing [] 5 263 address (9 ∷ []) nowhere nothing-Represents tt
      address-IsAddress (omega arith) (λ e. omega arith) refl (omega arith) nothing-Represents refl
      (λ e. omega arith, refl, refl, tt) (omega arith)

abbrev its_entries : List Entry
its_entries = replay (joins (0 ∷ 0 ∷ 1 ∷ 7 ∷ address) ∷ []) []

its_names : AreWords (names its_entries)
unfolding cstr pad drop
its_names = (
  (omega arith, refl, (omega arith, refl, (omega arith, refl, (omega arith, refl, tt)))),
  omega arith,
  omega arith,
  tt,
)

parse_ips_file-save_members_example :
    (file : Bytes) × (save_members one ≡ some file)
    × (parse_ips_file (λ i. []) (some file) ≡ (
        if leb (length its_entries % 65536) max_num_ips
        then some (take (length its_entries % 65536) (names its_entries))
        else none))
parse_ips_file-save_members_example =
    parse_ips_file-save_members one its_entries (λ i. []) one-Represents its_names

-- Two members, at the addresses 1 and 2.
abbrev other_address : Bytes
other_address = pad 16 (codes "10.2")

other-IsAddress : IsAddress other_address
other-IsAddress = (
  codes "10.2",
  (omega arith, (omega arith, (omega arith, (omega arith, tt)))),
  omega arith,
  refl,
)

abbrev pair_heap : Heap
pair_heap = record {
  live = λ p. mem p (1 ∷ 2 ∷ []);
  ip = λ p. if p == 1 then address else other_address;
  timestamp = λ p. 100;
  next = λ p. if p == 1 then 2 else 1;
  prev = λ p. if p == 1 then 2 else 1;
}

abbrev pair : Process
pair = record nowhere {
  topology = record { heap = pair_heap; head = some (record { node = 1; num_of_nodes = 2 }) };
  myself = 2;
  saved0 = record { ip_addr = address; latest_time_stamp = 100 };
}

either : (a : Ptr) → mem a (1 ∷ 2 ∷ []) ≡ true → (a ≡ 1) ⊎ (a ≡ 2)
either a i = ground arith

pair-alive : (a : Ptr) → mem a (1 ∷ 2 ∷ []) ≡ true → check pair_heap a ≡ some tt
unfolding check
pair-alive a i = elim (either a i) [ inl e ↦ rw e refl | inr e ↦ rw e refl ]

pair-Members : Members pair.topology (1 ∷ 2 ∷ [])
pair-Members = (
  refl,
  record {
    links = (record { next = refl; prev = refl }, record { next = refl; prev = refl });
    distinct = (refl, (refl, tt));
    alive = pair-alive;
  },
)

pair-HasAddresses : HasAddresses pair_heap (1 ∷ 2 ∷ [])
pair-HasAddresses a i = elim (either a i) [
  | inl e ↦ rw e address-IsAddress
  | inr e ↦ rw e other-IsAddress
]

pair-DistinctIps : DistinctIps pair_heap (1 ∷ 2 ∷ [])
unfolding strcmp_eq cstr pad
pair-DistinctIps a b i j e = elim (either a i) [
  | inl x ↦ elim (either b j) [
    | inl y ↦ x ∙ sym y
    | inr y ↦ absurd (ground (arith, rw (x, y) at e))
  ]
  | inr x ↦ elim (either b j) [
    | inl y ↦ absurd (ground (arith, rw (x, y) at e))
    | inr y ↦ x ∙ sym y
  ]
]

declare_failed-Members_example :
    (t : Topology) × (declare_failed (codes "192.168.1.1") pair
      ≡ some (record {
        sent =
            (codes "192.168.1.1", failure_notice (id_of_member pair_heap 1) 0)
            ∷ announcements
                (others pair_heap 2 (1 ∷ 2 ∷ []))
                (failure_notice (id_of_member pair_heap 1) 4);
        made_master = some address;
        process = watch (t.heap.ip (t.heap.prev 2)) (record pair { topology = t });
      }))
    × Members t (2 ∷ [])
declare_failed-Members_example =
    declare_failed-Members pair 1 (2 ∷ []) pair-Members refl (codes "192.168.1.1") pair-HasAddresses
      pair-DistinctIps (λ e. omega arith)

-- It is 250 now, and the last heartbeat came at 100.
too_old : heartbeat_missed 250 (readable none) (receive_heartbeat 250 (readable none) pair) ≡ true
unfolding heartbeat_missed receive_heartbeat
too_old = refl

pair_round : (r : Round) × (heartbeat_round (codes "192.168.1.1") 250 (readable none) pair ≡ some r)
unfolding receive_heartbeat
pair_round =
    let (t, runs, _) =
      declare_failed-Members pair 1 (2 ∷ []) pair-Members refl (codes "192.168.1.1")
        pair-HasAddresses pair-DistinctIps (λ e. omega arith) in
    (_, round-missed (codes "192.168.1.1") 250 (readable none) pair too_old ∙ runs)

heartbeat_round_again_example :
    heartbeat_round (codes "192.168.1.1") 251 (readable none) pair_round.0.process
    ≡ declare_failed
        (codes "192.168.1.1")
        (receive_heartbeat 251 (readable none) pair_round.0.process)
heartbeat_round_again_example =
    heartbeat_round_again (codes "192.168.1.1") 250 251 none none pair pair_round.0 too_old
      pair_round.1 (omega arith) (λ ip e. ground arith)

-- A node that has just been started, and its first contact.
abbrev idle : Node
idle = record {
  process = nowhere;
  state = State.init;
  threads = record { sending = 0; receiving = 0; listening = 0; dfs_listening = 0 };
}

abbrev first_contact : Contact
first_contact = record {
  connected = true;
  answer = some (record { flags = 33; ttl = 0; ids = (0 ∷ 0 ∷ 1 ∷ 7 ∷ address) ∷ [] });
  fresh = 9 ∷ [];
  my_ip = address;
}

abbrev new_member : Node
new_member = elim (node_init first_contact idle) [ none ↦ idle | some r ↦ r.1 ]

new_member-joins : node_init first_contact idle ≡ some (success, new_member)
unfolding node_init get_topology process_add_delete has_flag cs425_mp.Ring.delete_all_nodes
    cs425_mp.Membership.change_nodes add_to_list cs425_mp.Membership.refresh
    cs425_mp.Membership.forward load init_node strcmp_eq cstr node_ip take drop pad
new_member-joins = refl

-- It joins, and cannot bind its socket for heartbeats.
first_run : Run [] idle 1 1 (start_receiving false new_member)
first_run = bind_lost (joined first_contact started refl new_member-joins)

idle-HasThreads : HasThreads 0 0 idle
idle-HasThreads = record {
  sending = (omega arith, omega arith);
  receiving = (omega arith, omega arith);
  listening = (omega arith, omega arith);
  dfs_listening = (omega arith, omega arith);
}

Run-HasThreads_example : HasThreads 1 1 (start_receiving false new_member)
Run-HasThreads_example = Run-HasThreads idle-HasThreads first_run
