-- ===== src/Examples/Histories.antt =====
-- A list that a node joins, twice, and leaves.
use cs425_mp.Common.{
  ◌≡◌, refl, true, false, not, ◌&&◌, none, some, List, [], ◌∷◌, Bytes, arith, codes, pad, drop,
  take, strncmp_eq, memcmp_eq, strcmp_eq, cstr,
}
use cs425_mp.Ring.{
  Ptr, Topology, check, load, free, init_node, node_ip, id_ip, id_timestamp, find_ip, add_to_list,
  find_exact, unlink, remove_node, remove_from_list, delete_all_nodes, set_next, set_prev,
}
use cs425_mp.Ring.Links.{mem}
use cs425_mp.Ring.Addresses.{IsAddress}
use cs425_mp.Ring.Refine.{enroll, withdraw, is_enrolled, Represents}
use cs425_mp.Ring.Refine.Operations.{add_to_list-Represents, remove_from_list-Represents}
use cs425_mp.Ring.Refine.Histories.{
  Event, joins, leaves, replay, History, done, joining, leaving, delete_all_nodes-Members,
  History-Represents,
}

abbrev pub nothing : Topology
nothing = record {
  heap = record {
    live = λ p. false;
    ip = λ p. [];
    timestamp = λ p. 0;
    next = λ p. 0;
    prev = λ p. 0;
  };
  head = none;
}

pub nothing-Represents : Represents nothing []
nothing-Represents = record {
  nodes = [];
  members = refl;
  addresses = λ a i. ground arith;
  apart = λ a b i. ground arith;
  listed = refl;
}

abbrev id_of : Bytes → Bytes
id_of text = 0 ∷ 0 ∷ 1 ∷ 7 ∷ pad 16 text

id-IsAddress : IsAddress (id_ip (id_of (codes "10.1")))
unfolding drop
id-IsAddress = (
  codes "10.1",
  (omega arith, (omega arith, (omega arith, (omega arith, tt)))),
  omega arith,
  refl,
)

abbrev pub one : Topology
one = elim (add_to_list 5 (id_of (codes "10.1")) nothing) [ none ↦ nothing | some t ↦ t ]

one-runs : add_to_list 5 (id_of (codes "10.1")) nothing ≡ some one
unfolding add_to_list
one-runs = refl

add_to_list-Represents_example :
    (t' : Topology) × (add_to_list 5 (id_of (codes "10.1")) nothing ≡ some t')
    × Represents t' (enroll (id_ip (id_of (codes "10.1"))) (id_timestamp (id_of (codes "10.1"))) [])
add_to_list-Represents_example =
    add_to_list-Represents nothing [] 5 (id_of (codes "10.1")) nothing-Represents id-IsAddress
      (λ e. omega arith) refl

pub one-Represents : Represents one (replay (joins (id_of (codes "10.1")) ∷ []) [])
one-Represents =
    History-Represents nothing one _ [] nothing-Represents
      (joining 5 (id_of (codes "10.1")) id-IsAddress (λ e. omega arith) refl one-runs (done one))

remove_from_list-Represents_example :
    (t' : Topology) × (remove_from_list (id_of (codes "10.1")) one
      ≡ some (
        is_enrolled (id_ip (id_of (codes "10.1"))) (replay (joins (id_of (codes "10.1")) ∷ []) []),
        t',
      ))
    × Represents t'
        (withdraw (id_ip (id_of (codes "10.1"))) (replay (joins (id_of (codes "10.1")) ∷ []) []))
remove_from_list-Represents_example =
    remove_from_list-Represents one (replay (joins (id_of (codes "10.1")) ∷ []) [])
      (id_of (codes "10.1")) one-Represents id-IsAddress

delete_all_nodes-Members_example :
    (t' : Topology) × (delete_all_nodes one ≡ some t')
    × (t'.head ≡ none)
    × ((a : Ptr) → t'.heap.live a ≡ (not (mem a one-Represents.nodes) && one.heap.live a))
delete_all_nodes-Members_example =
    delete_all_nodes-Members one one-Represents.nodes one-Represents.members

-- The address joins again, and leaves.
abbrev later_id : Bytes
later_id = 0 ∷ 0 ∷ 2 ∷ 9 ∷ pad 16 (codes "10.1")

abbrev renewed : Topology
renewed = elim (add_to_list 6 later_id one) [ none ↦ nothing | some t ↦ t ]

renewed-runs : add_to_list 6 later_id one ≡ some renewed
unfolding add_to_list init_node node_ip id_timestamp find_ip strncmp_eq cstr take drop load check
    pad
renewed-runs = refl

abbrev left : Topology
left = elim (remove_from_list later_id renewed) [ none ↦ nothing | some r ↦ r.1 ]

left-runs : remove_from_list later_id renewed ≡ some (true, left)
unfolding remove_from_list find_exact remove_node unlink set_next set_prev free add_to_list
    init_node node_ip id_timestamp find_ip strncmp_eq strcmp_eq memcmp_eq cstr take drop load check
    pad
left-runs = refl

later-IsAddress : IsAddress (id_ip later_id)
unfolding drop
later-IsAddress = (
  codes "10.1",
  (omega arith, (omega arith, (omega arith, (omega arith, tt)))),
  omega arith,
  refl,
)

unused : one.heap.live 6 ≡ false
unfolding add_to_list init_node
unused = refl

abbrev story : List Event
story = joins (id_of (codes "10.1")) ∷ joins later_id ∷ leaves later_id ∷ []

told_story : History nothing story left
told_story =
    joining 5 (id_of (codes "10.1")) id-IsAddress (λ e. omega arith) refl one-runs
      (joining 6 later_id later-IsAddress (λ e. omega arith) unused renewed-runs
        (leaving later_id true later-IsAddress left-runs (done left)))

History-Represents_example : Represents left (replay story [])
History-Represents_example = History-Represents nothing left story [] nothing-Represents told_story
