-- ===== src/Membership/Join.antt =====
-- A new member is let in: `processTopologyRequest` from end to end.
use mathlib.Core.List.{List}
use cs425_mp.Common.{
  ◌+◌, ◌≡◌, refl, ◌∙◌, ap, subst, ◌≢◌, true, false, none, some, [], ◌∷◌, ◌++◌, map, append_assoc,
}
use cs425_mp.Wire.{has_flag}
use cs425_mp.Ring.{Ptr, null, Topology, id_ip}
use cs425_mp.Ring.Walk.{Members, search_ip}
use cs425_mp.Ring.Add.{joined, add_to_list-Members}
use cs425_mp.Membership.{
  TopologyRequest, Admission, add_node_request, add_payload, delta_payload, announcements,
  process_topology_request,
}
use cs425_mp.Membership.Targets.{told, populate-Members}

-- A node that asks to join a ring of two members or more, in which no member has its address, becomes
-- the last member of a well-formed ring; it is told of all members, itself included, in the order of
-- the ring, and each of the others is sent one announcement of it, with its ID and the flags
-- ADD_PAYLOAD and DELTA_PAYLOAD, to be passed on no further.
pub process_topology_request-Members :
    (t : Topology) (p : Ptr) (zs : List Ptr) (b new : Ptr) (request : TopologyRequest)
    → Members t (p ∷ (zs ++ b ∷ []))
    → new ≢ null
    → t.heap.live new ≡ false
    → has_flag request.flags add_node_request ≡ true
    → search_ip t.heap (p ∷ (zs ++ b ∷ [])) (id_ip request.id) ≡ none
    → (r : Admission) × (process_topology_request new request t ≡ some r)
      × Members r.topology (p ∷ (zs ++ b ∷ new ∷ []))
      × (r.response ≡ told r.topology.heap (p ∷ (zs ++ b ∷ new ∷ [])))
      × (r.announced
          ≡ announcements
              (r.topology.heap.ip b ∷ map (λ a. r.topology.heap.ip a) (p ∷ zs))
              (record { flags = add_payload + delta_payload; ttl = 0; ids = request.id ∷ [] }))
unfolding process_topology_request
process_topology_request-Members t p zs b new request m ne unused wants fresh =
    let (t', runs, grown) = add_to_list-Members t (p ∷ (zs ++ b ∷ [])) new request.id m ne unused in
    let order : joined (search_ip t.heap (p ∷ (zs ++ b ∷ [])) (id_ip request.id))
          (p ∷ (zs ++ b ∷ [])) new
        ≡ p ∷ (zs ++ b ∷ new ∷ []) =
      ap (λ o. joined o (p ∷ (zs ++ b ∷ [])) new) fresh
      ∙ ap (λ xs. p ∷ xs) (append_assoc zs (b ∷ []) (new ∷ [])) in
    let m' : Members t' (p ∷ (zs ++ b ∷ new ∷ [])) = subst (Members t') order grown in
    (
      record {
        topology = t';
        response = told t'.heap (p ∷ (zs ++ b ∷ new ∷ []));
        announced =
            announcements (t'.heap.ip b ∷ map (λ a. t'.heap.ip a) (p ∷ zs))
              (record { flags = add_payload + delta_payload; ttl = 0; ids = request.id ∷ [] });
      },
      rw (wants, runs, populate-Members t' p zs b new m') refl,
      m',
      refl,
      refl,
    )
