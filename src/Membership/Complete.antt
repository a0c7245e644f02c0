-- ===== src/Membership/Complete.antt =====
-- A complete list of members, as a node gets it that asks for the topology.
use cs425_mp.Common.{
  ◌≡◌, ◌≢◌, ◌≤◌, refl, ◌∙◌, ap, Bool, true, false, none, some, List, [], ◌∷◌, Bytes, arith, length,
}
use cs425_mp.Wire.{has_flag}
use cs425_mp.Ring.{Ptr, null, id_ip, id_timestamp}
use cs425_mp.Ring.Links.{mem, ne_of_mem}
use cs425_mp.Ring.Addresses.{IsAddress}
use cs425_mp.Ring.Refine.{Entry, enroll, Represents}
use cs425_mp.Ring.Refine.Operations.{add_to_list-live}
use cs425_mp.Ring.Refine.Histories.{delete_all_nodes-Members, reset-Represents}
use cs425_mp.Membership.{
  Process, AddDelete, add_payload, delete_payload, complete_payload, watch, add_nodes, change_nodes,
  refresh, forward, process_add_delete,
}

-- All the IDs, one after the other.
abbrev pub enroll_ids : List Bytes → List Entry → List Entry
enroll_ids [] es = es
enroll_ids (id ∷ ids) es = enroll_ids ids (enroll (id_ip id) (id_timestamp id) es)

abbrev pub HoldAddresses : List Bytes → Type 0
HoldAddresses [] = Unit
HoldAddresses (id ∷ ids) = IsAddress (id_ip id) × HoldAddresses ids

-- Addresses that `calloc` may return one after the other.
abbrev pub AreFresh : (Ptr → Bool) → List Ptr → Type 0
AreFresh live [] = Unit
AreFresh live (p ∷ ps) = (p ≢ null) × (live p ≡ false) × (mem p ps ≡ false) × AreFresh live ps

AreFresh-less :
    (f g : Ptr → Bool) (ps : List Ptr)
    → ((a : Ptr) → mem a ps ≡ true → f a ≡ false → g a ≡ false)
    → AreFresh f ps
    → AreFresh g ps
AreFresh-less f g [] less a = tt
AreFresh-less f g (p ∷ ps) less a =
    (a.0, less p (ground arith) a.1, a.2, AreFresh-less f g ps (λ q i. less q (ground arith)) a.3)

-- The process has learnt of all the IDs, and is where it was.
pub add_nodes-Represents :
    (fresh : List Ptr) (ids : List Bytes) (s : Process) (es : List Entry)
    → Represents s.topology es
    → HoldAddresses ids
    → AreFresh s.topology.heap.live fresh
    → length ids ≤ length fresh
    → (s' : Process) × (add_nodes fresh ids s ≡ some s')
      × Represents s'.topology (enroll_ids ids es)
      × (s'.myself ≡ s.myself)
unfolding add_nodes watch
add_nodes-Represents fresh [] s es r ha f enough = (s, refl, r, refl)
add_nodes-Represents [] (id ∷ ids) s es r ha f enough = absurd (omega arith)
add_nodes-Represents (p ∷ fresh) (id ∷ ids) s es r ha f enough =
    let (t, runs, r', live) = add_to_list-live s.topology es p id r ha.0 f.0 f.1 in
    let still =
      AreFresh-less s.topology.heap.live t.heap.live fresh
        (λ a i dead. ap (λ g. g a) live ∙ rw (ne_of_mem a p fresh i f.2) dead) f.3 in
    let (s', later, done, same) =
      add_nodes-Represents fresh ids (watch (id_ip id) (record s { topology = t })) _ r' ha.1 still
        (omega arith) in
    (s', rw (runs, later) refl, done, same)

-- A process that has not joined and gets a complete list, to be passed on to nobody, runs without a
-- fault: it forgets what it knew, and its topology stands for the list.
pub process_add_delete_complete :
    (fresh : List Ptr) (payload : AddDelete) (s : Process) (es : List Entry)
    → Represents s.topology es
    → s.myself ≡ null
    → HoldAddresses payload.ids
    → AreFresh s.topology.heap.live fresh
    → length payload.ids ≤ length fresh
    → has_flag payload.flags add_payload ≡ true
    → has_flag payload.flags complete_payload ≡ true
    → has_flag payload.flags delete_payload ≡ false
    → payload.ttl ≡ 0
    → (s' : Process) × (process_add_delete fresh payload s ≡ some (s', none))
      × Represents s'.topology (enroll_ids payload.ids [])
      × (s'.myself ≡ null)
unfolding process_add_delete change_nodes refresh forward
process_add_delete_complete fresh payload s es r alone ha f enough adds complete kept last =
    let (t, cleared, gone, live) = delete_all_nodes-Members s.topology r.nodes r.members in
    let still =
      AreFresh-less s.topology.heap.live t.heap.live fresh
        (λ a i dead. live a ∙ ground (arith, dead)) f in
    let (s', runs, r', same) =
      add_nodes-Represents fresh payload.ids (record s { topology = t }) []
        (reset-Represents t gone) ha still enough in
    (s', rw (adds, complete, cleared, kept, runs, same, alone, last) refl, r', same ∙ alone)
