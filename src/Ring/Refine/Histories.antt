-- ===== src/Ring/Refine/Histories.antt =====
-- The list over a whole history of joins, deletions and resets.
use cs425_mp.Common.{
  suc, ◌≡◌, refl, ◌∙◌, ap, subst, ◌≢◌, Bool, false, not, ◌&&◌, Option, none, some, List, [], ◌∷◌,
  Bytes, arith, length,
}
use cs425_mp.Ring.{
  Ptr, null, Heap, Topology, update, check, load, free, id_ip, id_timestamp, add_to_list,
  remove_from_list, free_nodes, delete_all_nodes,
}
use cs425_mp.Ring.Links.{mem, ne_of_mem, Distinct, Chain, Chain-frame}
use cs425_mp.Ring.Walk.{Members, Alive}
use cs425_mp.Ring.Add.{IsLive, IsLive_of_check}
use cs425_mp.Ring.Addresses.{IsAddress}
use cs425_mp.Ring.Refine.{Entry, enroll, withdraw, Represents}
use cs425_mp.Ring.Refine.Operations.{add_to_list-Represents, remove_from_list-Represents}

abbrev freed : Heap → Ptr → Heap
freed h p = record h { live = update h.live p false }

free-runs : (h : Heap) (p : Ptr) → IsLive h p → free h p ≡ some (freed h p)
unfolding free check
free-runs h p l = rw (l.ne_null, l.live)

load-runs : (h : Heap) (p : Ptr) → IsLive h p → load h h.next p ≡ some (h.next p)
unfolding load check
load-runs h p l = rw (l.ne_null, l.live)

freed-Alive :
    (h : Heap) (p : Ptr) (ps : List Ptr) → Alive h ps → mem p ps ≡ false → Alive (freed h p) ps
unfolding check
freed-Alive h p ps alive out a i = rw (ne_of_mem a p ps i out) (alive a i)

free_nodes-Chain :
    (h : Heap) (p : Ptr) (ps : List Ptr) (q : Ptr)
    → Chain h p ps q
    → Distinct (p ∷ ps)
    → Alive h (p ∷ ps)
    → (h' : Heap) × (free_nodes (suc (length ps)) h p ≡ some h')
      × ((a : Ptr) → h'.live a ≡ (not (mem a (p ∷ ps)) && h.live a))
unfolding free_nodes
free_nodes-Chain h p [] q c d alive =
    let l = IsLive_of_check h p (alive p (ground arith)) in
    (freed h p, rw (l.ne_null, load-runs h p l, free-runs h p l) refl, λ a. ground arith)
free_nodes-Chain h p (x ∷ xs) q c d alive =
    let l = IsLive_of_check h p (alive p (ground arith)) in
    let (h', runs, gone) =
      free_nodes-Chain (freed h p) x xs q
        (Chain-frame h (freed h p) x xs q c.1 (λ a i. refl) (λ a i. refl)) d.1
        (freed-Alive h p (x ∷ xs) (λ a i. alive a (ground arith)) d.0) in
    (
      h',
      rw (l.ne_null, load-runs h p l, free-runs h p l, c.0.next, runs) refl,
      λ a. gone a ∙ ground arith,
    )

-- From a well-formed ring, `delete_all_nodes` runs without a fault to an empty topology, and frees the
-- members and nothing else.
pub delete_all_nodes-Members :
    (t : Topology) (ps : List Ptr)
    → Members t ps
    → (t' : Topology) × (delete_all_nodes t ≡ some t')
      × (t'.head ≡ none)
      × ((a : Ptr) → t'.heap.live a ≡ (not (mem a ps) && t.heap.live a))
unfolding delete_all_nodes
delete_all_nodes-Members t [] e = (t, rw e refl, e, λ a. refl)
delete_all_nodes-Members t (p ∷ ps) (e, r) =
    let (h', runs, gone) = free_nodes-Chain t.heap p ps p r.links r.distinct r.alive in
    (record { heap = h'; head = none }, rw (e, runs) refl, refl, gone)

-- What happens to a list: an ID joins, an ID is deleted, all is reset.
pub data Event : Type 0 where
  joins : Bytes → Event
  leaves : Bytes → Event
  resets : Event

-- What a history makes of the entries.
abbrev pub replay : List Event → List Entry → List Entry
replay [] es = es
replay (joins id ∷ events) es = replay events (enroll (id_ip id) (id_timestamp id) es)
replay (leaves id ∷ events) es = replay events (withdraw (id_ip id) es)
replay (resets ∷ events) es = replay events []

-- The runs of the operations along a history, where `calloc` finds a fresh node each time.
pub data History : Topology → List Event → Topology → Type 0 where
  done : (t : Topology) → History t [] t
  joining :
      {t t1 u : Topology} {events : List Event} (new : Ptr) (id : Bytes)
      → IsAddress (id_ip id)
      → new ≢ null
      → t.heap.live new ≡ false
      → add_to_list new id t ≡ some t1
      → History t1 events u
      → History t (joins id ∷ events) u
  leaving :
      {t t1 u : Topology} {events : List Event} (id : Bytes) (found : Bool)
      → IsAddress (id_ip id)
      → remove_from_list id t ≡ some (found, t1)
      → History t1 events u
      → History t (leaves id ∷ events) u
  resetting :
      {t t1 u : Topology} {events : List Event}
      → delete_all_nodes t ≡ some t1
      → History t1 events u
      → History t (resets ∷ events) u

same_topology : (a b : Topology) (o : Option Topology) → o ≡ some a → o ≡ some b → a ≡ b
same_topology a b o e f = ground arith

same_outcome :
    (a b : Bool × Topology) (o : Option (Bool × Topology)) → o ≡ some a → o ≡ some b → a.1 ≡ b.1
same_outcome (a, x) (b, y) o e f = ground arith

pub reset-Represents : (t : Topology) → t.head ≡ none → Represents t []
reset-Represents t e = record {
  nodes = [];
  members = e;
  addresses = λ a i. ground arith;
  apart = λ a b i. ground arith;
  listed = refl;
}

-- After any history from a topology that stands for the entries `es`, the topology stands for what the
-- history makes of `es`.
pub History-Represents :
    (t u : Topology) (events : List Event) (es : List Entry)
    → Represents t es
    → History t events u
    → Represents u (replay events es)
History-Represents t u _ es r (done _) = r
History-Represents t u _ es r (joining {t1 = t1} {events = events} new id ia n unused runs rest) =
    let (t', runs', r') = add_to_list-Represents t es new id r ia n unused in
    History-Represents t1 u events _
      (subst (λ x. Represents x (enroll (id_ip id) (id_timestamp id) es))
        (same_topology t' t1 _ runs' runs) r')
      rest
History-Represents t u _ es r (leaving {t1 = t1} {events = events} id found ia runs rest) =
    let (t', runs', r') = remove_from_list-Represents t es id r ia in
    History-Represents t1 u events _
      (subst (λ x. Represents x (withdraw (id_ip id) es)) (same_outcome _ (found, t1) _ runs' runs)
        r')
      rest
History-Represents t u _ es r (resetting {t1 = t1} {events = events} runs rest) =
    let (t', runs', gone, _) = delete_all_nodes-Members t r.nodes r.members in
    History-Represents t1 u events []
      (reset-Represents t1 (ap (λ x. x.head) (same_topology t1 t' _ runs runs') ∙ gone)) rest
