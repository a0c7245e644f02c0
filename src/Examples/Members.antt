-- ===== src/Examples/Members.antt =====
-- A ring of three members, at the addresses 1, 2 and 3.
use cs425_mp.Common.{
  memcmp_eq, none, false, strncmp_eq, take, drop, ◌+◌, map, ◌≡◌, refl, ◌∙◌, sym, ◌⊎◌, inl, inr,
  true, some, [], ◌∷◌, Bytes, ◌==◌, if◌then◌else◌, arith, strcmp_eq, codes, cstr,
}
use cs425_mp.Ring.{Ptr, Heap, Topology, check, add_to_list, remove_from_list, id_ip}
use cs425_mp.Ring.Links.{mem}
use cs425_mp.Ring.Walk.{Members, search_ip, search_exact}
use cs425_mp.Ring.Add.{joined, add_to_list-Members}
use cs425_mp.Ring.Remove.{DistinctIps, parted, is_found, remove_from_list-Members}
use cs425_mp.Wire.{has_flag}
use cs425_mp.Metadata.{Store}
use cs425_mp.Metadata.Add.{get_next_ip_rr, another_ip}
use cs425_mp.Metadata.RoundRobin.{get_next_ip_rr-Members, another_ip-Members}
use cs425_mp.Membership.Notice.{process_add_delete-Members}
use cs425_mp.Membership.Join.{process_topology_request-Members}
use cs425_mp.Membership.{
  Process, AddDelete, watch, process_add_delete, TopologyRequest, Admission, add_node_request,
  add_payload, delta_payload, announcements, process_topology_request, populate_address_lists,
}
use cs425_mp.Membership.Targets.{told, populate-Members}

abbrev heap : Heap
heap = record {
  live = λ p. mem p (1 ∷ 2 ∷ 3 ∷ []);
  ip = λ p.
      if p == 1 then codes "10.0.0.1" else if p == 2 then codes "10.0.0.2" else codes "10.0.0.3";
  timestamp = λ p. 100;
  next = λ p. if p == 1 then 2 else if p == 2 then 3 else 1;
  prev = λ p. if p == 1 then 3 else if p == 2 then 1 else 2;
}

abbrev three : Topology
three = record { heap = heap; head = some (record { node = 1; num_of_nodes = 3 }) }

which : (a : Ptr) → mem a (1 ∷ 2 ∷ 3 ∷ []) ≡ true → (a ≡ 1) ⊎ ((a ≡ 2) ⊎ (a ≡ 3))
which a i = ground arith

heap-alive : (a : Ptr) → mem a (1 ∷ 2 ∷ 3 ∷ []) ≡ true → check heap a ≡ some tt
unfolding check
heap-alive a i = elim (which a i) [
  | inl e ↦ rw e refl
  | inr o ↦ elim o [ inl e ↦ rw e refl | inr e ↦ rw e refl ]
]

three-Members : Members three (1 ∷ 2 ∷ 3 ∷ [])
three-Members = (
  refl,
  record {
    links = (
      record { next = refl; prev = refl },
      (record { next = refl; prev = refl }, record { next = refl; prev = refl }),
    );
    distinct = (refl, (refl, (refl, tt)));
    alive = heap-alive;
  },
)

three-DistinctIps : DistinctIps heap (1 ∷ 2 ∷ 3 ∷ [])
unfolding strcmp_eq cstr
three-DistinctIps a b i j e = elim (which a i) [
  | inl x ↦ elim (which b j) [
    | inl y ↦ x ∙ sym y
    | inr o ↦ elim o [
      | inl y ↦ absurd (ground (arith, rw (x, y) at e))
      | inr y ↦ absurd (ground (arith, rw (x, y) at e))
    ]
  ]
  | inr o ↦ elim o [
    | inl x ↦ elim (which b j) [
      | inl y ↦ absurd (ground (arith, rw (x, y) at e))
      | inr q ↦ elim q [ inl y ↦ x ∙ sym y | inr y ↦ absurd (ground (arith, rw (x, y) at e)) ]
    ]
    | inr x ↦ elim (which b j) [
      | inl y ↦ absurd (ground (arith, rw (x, y) at e))
      | inr q ↦ elim q [ inl y ↦ absurd (ground (arith, rw (x, y) at e)) | inr y ↦ x ∙ sym y ]
    ]
  ]
]

-- The ID of a member that is not there yet, and that of the second one.
abbrev fourth_id : Bytes
fourth_id = 0 ∷ 0 ∷ 0 ∷ 200 ∷ codes "10.0.0.4"

abbrev second_id : Bytes
second_id = 0 ∷ 0 ∷ 0 ∷ 100 ∷ codes "10.0.0.2"

add_to_list-Members_example :
    (t' : Topology) × (add_to_list 4 fourth_id three ≡ some t')
    × Members t' (joined (search_ip heap (1 ∷ 2 ∷ 3 ∷ []) (id_ip fourth_id)) (1 ∷ 2 ∷ 3 ∷ []) 4)
add_to_list-Members_example =
    add_to_list-Members three (1 ∷ 2 ∷ 3 ∷ []) 4 fourth_id three-Members (λ e. omega arith) refl

remove_from_list-Members_example :
    (t' : Topology) × (remove_from_list second_id three
      ≡ some (is_found (search_exact heap (1 ∷ 2 ∷ 3 ∷ []) (id_ip second_id)), t'))
    × Members t' (parted (search_exact heap (1 ∷ 2 ∷ 3 ∷ []) (id_ip second_id)) (1 ∷ 2 ∷ 3 ∷ []))
remove_from_list-Members_example =
    remove_from_list-Members three (1 ∷ 2 ∷ 3 ∷ []) second_id three-Members three-DistinctIps

populate-Members_example :
    populate_address_lists three
    ≡ some (record {
      ids = told heap (1 ∷ 2 ∷ 3 ∷ []);
      nodes_to_send_to = codes "10.0.0.2" ∷ codes "10.0.0.1" ∷ [];
    })
populate-Members_example = populate-Members three 1 [] 2 3 three-Members

abbrev join_request : TopologyRequest
join_request = record { flags = 1; id = fourth_id }

join_wants : has_flag join_request.flags add_node_request ≡ true
unfolding has_flag
join_wants = refl

search_ip-three : search_ip heap (1 ∷ 2 ∷ 3 ∷ []) (id_ip fourth_id) ≡ none
unfolding strncmp_eq cstr take drop
search_ip-three = refl

process_topology_request-Members_example :
    (r : Admission) × (process_topology_request 4 join_request three ≡ some r)
    × Members r.topology (1 ∷ 2 ∷ 3 ∷ 4 ∷ [])
    × (r.response ≡ told r.topology.heap (1 ∷ 2 ∷ 3 ∷ 4 ∷ []))
    × (r.announced
        ≡ announcements
            (map (λ a. r.topology.heap.ip a) (3 ∷ 1 ∷ 2 ∷ []))
            (record { flags = add_payload + delta_payload; ttl = 0; ids = fourth_id ∷ [] }))
process_topology_request-Members_example =
    process_topology_request-Members three 1 (2 ∷ []) 3 4 join_request three-Members
      (λ e. omega arith) refl join_wants search_ip-three

-- A store whose counter has gone round once, and a bit.
abbrev counting : Store
counting = record {
  files = [];
  entries = [];
  nodes = record { live = λ p. false; file_meta = λ p. 0; next = λ p. 0; allocated = 0 };
  turn = 4;
  supply = [];
}

get_next_ip_rr-Members_example :
    get_next_ip_rr three counting ≡ some (cstr (codes "10.0.0.2"), record counting { turn = 5 })
get_next_ip_rr-Members_example = get_next_ip_rr-Members three 1 (2 ∷ 3 ∷ []) counting three-Members

another_ip-Members_example :
    (a : Ptr) × (s' : Store) × (another_ip (codes "10.0.0.2") three counting
      ≡ some (cstr (heap.ip a), s'))
    × (mem a (1 ∷ 2 ∷ 3 ∷ []) ≡ true)
    × (strcmp_eq (heap.ip a) (codes "10.0.0.2") ≡ false)
another_ip-Members_example =
    another_ip-Members three 1 2 (3 ∷ []) (codes "10.0.0.2") counting three-Members
      three-DistinctIps (omega arith)

abbrev member : Process
member = record {
  topology = three;
  myself = 1;
  saved0 = record { ip_addr = codes "10.0.0.3"; latest_time_stamp = 0 };
  saved1 = record { ip_addr = []; latest_time_stamp = 0 };
}

-- The second member has failed; the notice has two rounds left.
abbrev notice : AddDelete
notice = record { flags = 26; ttl = 2; ids = second_id ∷ [] }

notice-flags : (has_flag 26 2 ≡ true) × (has_flag 26 1 ≡ false)
unfolding has_flag
notice-flags = (refl, refl)

member-stays :
    mem 1 (parted (search_exact heap (1 ∷ 2 ∷ 3 ∷ []) (id_ip second_id)) (1 ∷ 2 ∷ 3 ∷ [])) ≡ true
unfolding memcmp_eq take drop
member-stays = refl

process_add_delete-Members_example :
    (t : Topology) × (process_add_delete [] notice member
      ≡ some (
        watch (t.heap.ip (t.heap.prev 1)) (record member { topology = t }),
        some (t.heap.ip (t.heap.next 1), 0, record notice { ttl = 1 }),
      ))
    × Members t (parted (search_exact heap (1 ∷ 2 ∷ 3 ∷ []) (id_ip second_id)) (1 ∷ 2 ∷ 3 ∷ []))
process_add_delete-Members_example =
    process_add_delete-Members [] notice second_id [] member (1 ∷ 2 ∷ 3 ∷ []) three-Members
      three-DistinctIps refl notice-flags.0 notice-flags.1 member-stays
