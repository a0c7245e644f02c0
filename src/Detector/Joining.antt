-- ===== src/Detector/Joining.antt =====
-- A node joins the group: from its request at the admission contact to its place in its own copy of the
-- ring.
use cs425_mp.Common.{
  ℕ, suc, ◌<◌, ◌≤◌, ◌≡◌, ◌≢◌, refl, sym, ◌∙◌, ap, ap₂, subst, true, false, Option, none, some, List,
  [], ◌∷◌, ◌++◌, Bytes, ◌==◌, ==_true, ==_false, arith, Bool-cases, inl, inr, append_assoc,
  bytes_eq, bytes_eq→eq, strcmp_eq, if◌then◌else◌, length, take, take-all, drop, be32, cstr, ◌%◌,
}
use cs425_mp.Wire.{has_flag, success}
use cs425_mp.Ring.{Ptr, null, Heap, Topology, id_ip, id_timestamp}
use cs425_mp.Ring.Links.{mem, Chain}
use cs425_mp.Ring.Walk.{Members, Alive, load-live}
use cs425_mp.Ring.Remove.{DistinctIps}
use cs425_mp.Ring.Addresses.{IsAddress, strcmp-IsAddress}
use cs425_mp.Ring.Refine.{Entry, enroll, is_enrolled, entries, HasAddresses, Represents}
use cs425_mp.Ring.Refine.Apart.{NewTo, NewTo-Represents, enroll-unknown, is_enrolled-enroll}
use cs425_mp.Membership.{
  Process, AddDelete, Admission, add_payload, delete_payload, complete_payload, add_node_request,
  id_bytes, all_id_bytes, topology_response, topology_join_request, watch,
}
use cs425_mp.Membership.Complete.{enroll_ids, HoldAddresses, AreFresh, process_add_delete_complete}
use cs425_mp.Membership.Listing.{prev-member}
use cs425_mp.Admission.{serve}
use cs425_mp.Admission.Serve.{names, listing, serve-Represents}
use cs425_mp.Admission.Saved.{length-IsAddress, saved_text}
use cs425_mp.Detector.{Joined, find_myself, take_place, get_topology}

-- The first node whose address reads like the text.
abbrev search_text : Heap → List Ptr → Bytes → Option Ptr
search_text h [] ip = none
search_text h (p ∷ ps) ip = if strcmp_eq (h.ip p) ip then some p else search_text h ps ip

find_myself-Chain :
    (h : Heap) (ip : Bytes) (start p : Ptr) (ps : List Ptr)
    → Chain h p ps start
    → mem start ps ≡ false
    → Alive h (p ∷ ps)
    → find_myself (suc (length ps)) h start p ip ≡ some (search_text h (p ∷ ps) ip)
unfolding find_myself
find_myself-Chain h ip start p [] c out l =
    let e = l p (ground arith) in
    rw (load-live h h.ip p e, load-live h h.next p e, ==_true (h.next p) start c.next)
      (ground arith)
find_myself-Chain h ip start p (x ∷ xs) c out l =
    let e = l p (ground arith) in
    rw
      (
        load-live h h.ip p e,
        load-live h h.next p e,
        c.0.next,
        find_myself-Chain h ip start x xs c.1 (ground arith) (λ a i. l a (ground arith)),
        ==_false x start (ground arith),
      )
      (ground arith)

-- An enrolled address is found, at a member that has it.
search_text-enrolled :
    (h : Heap) (ip : Bytes) (ps : List Ptr)
    → IsAddress ip
    → HasAddresses h ps
    → is_enrolled ip (entries h ps) ≡ true
    → (p : Ptr) × (search_text h ps ip ≡ some p) × (mem p ps ≡ true) × (h.ip p ≡ ip)
search_text-enrolled h ip [] ia ha e = absurd (ground arith)
search_text-enrolled h ip (p ∷ ps) ia ha e = elim (Bool-cases (bytes_eq (h.ip p) ip)) [
  | inl hit ↦ (
    p,
    rw (strcmp-IsAddress (h.ip p) ip (ha p (ground arith)) ia ∙ hit) refl,
    ground arith,
    bytes_eq→eq (h.ip p) ip hit,
  )
  | inr miss ↦
      let (q, found, i, same) =
        search_text-enrolled h ip ps ia (λ a j. ha a (ground arith)) (rw miss at e) in
      (
        q,
        rw (strcmp-IsAddress (h.ip p) ip (ha p (ground arith)) ia ∙ miss) found,
        ground arith,
        same,
      )
]

-- Timestamps of 32 bits.
abbrev pub AreStamps : List Entry → Type 0
AreStamps [] = Unit
AreStamps (e ∷ es) = (e.1 < 4294967296) × AreStamps es

AreStamps-enroll :
    (ip : Bytes) (stamp : ℕ) (es : List Entry)
    → stamp < 4294967296
    → AreStamps es
    → AreStamps (enroll ip stamp es)
AreStamps-enroll ip stamp [] h a = (h, tt)
AreStamps-enroll ip stamp (e ∷ es) h a = elim (Bool-cases (bytes_eq e.0 ip)) [
  | inl hit ↦ rw hit (h, a.1)
  | inr miss ↦ rw miss (a.0, AreStamps-enroll ip stamp es h a.1)
]

id_timestamp-id_bytes :
    (stamp : ℕ) (ip : Bytes) → stamp < 4294967296 → id_timestamp (id_bytes (stamp, ip)) ≡ stamp
unfolding id_timestamp id_bytes be32
id_timestamp-id_bytes stamp ip h = omega arith

id_ip-id_bytes : (stamp : ℕ) (ip : Bytes) → id_ip (id_bytes (stamp, ip)) ≡ ip
unfolding id_bytes be32 drop
id_ip-id_bytes stamp ip = refl

-- The list of IDs, enrolled one by one, is the list of the entries again.
enroll_ids-listing :
    (acc es : List Entry)
    → NewTo acc es
    → AreStamps es
    → enroll_ids (all_id_bytes (listing es)) acc ≡ acc ++ es
unfolding all_id_bytes
enroll_ids-listing acc [] n a = sym (mathlib.Core.List.append-nil acc)
enroll_ids-listing acc (e ∷ es) n a =
    ap₂ (λ ip stamp. enroll_ids (all_id_bytes (listing es)) (enroll ip stamp acc))
      (id_ip-id_bytes e.1 e.0) (id_timestamp-id_bytes e.1 e.0 a.0)
    ∙ ap (enroll_ids (all_id_bytes (listing es))) (enroll-unknown e.0 e.1 acc n.0)
    ∙ enroll_ids-listing (acc ++ e ∷ []) es n.1 a.1
    ∙ append_assoc acc (e ∷ []) es

HoldAddresses-listing :
    (h : Heap) (ps : List Ptr)
    → HasAddresses h ps
    → HoldAddresses (all_id_bytes (listing (entries h ps)))
unfolding all_id_bytes
HoldAddresses-listing h [] ha = tt
HoldAddresses-listing h (p ∷ ps) ha = (
  subst IsAddress (sym (id_ip-id_bytes (h.timestamp p) (h.ip p))) (ha p (ground arith)),
  HoldAddresses-listing h ps (λ a i. ha a (ground arith)),
)

length-listing : (es : List Entry) → length (listing es) ≡ length es
length-listing [] = refl
length-listing (e ∷ es) = ap suc (length-listing es)

length-all_id_bytes : (es : List (ℕ × Bytes)) → length (all_id_bytes es) ≡ length es
unfolding all_id_bytes
length-all_id_bytes [] = refl
length-all_id_bytes (e ∷ es) = ap suc (length-all_id_bytes es)

-- In fewer than 256 members nothing is cut off.
response-ids :
    (es : List Entry)
    → length es < 256
    → (topology_response (listing es)).ids ≡ all_id_bytes (listing es)
unfolding topology_response
response-ids es h =
    take-all (length (listing es) % 256) (all_id_bytes (listing es))
      (omega (arith, length-listing es, length-all_id_bytes (listing es)))

-- A node has its place in a ring that stands for `es`: `myself` is the member with its address, and it
-- watches its predecessor.
pub record Placed (ip : Bytes) (es : List Entry) (j : Joined) : Type 0 where
  pub code : j.code ≡ success
  pub represents : Represents j.process.topology es
  pub myself : mem j.process.myself represents.nodes ≡ true
  pub address : j.process.topology.heap.ip j.process.myself ≡ ip
  pub watched :
      j.process.saved0.ip_addr
      ≡ cstr (j.process.topology.heap.ip (j.process.topology.heap.prev j.process.myself))

module _ (ip : Bytes) (ia : IsAddress ip) (s : Process) where
  take_place-Members :
      (ps : List Ptr) (m : Members s.topology ps)
      → HasAddresses s.topology.heap ps
      → DistinctIps s.topology.heap ps
      → is_enrolled ip (entries s.topology.heap ps) ≡ true
      → (j : Joined) × (take_place ip s ≡ some j) × Placed ip (entries s.topology.heap ps) j
  unfolding take_place watch
  take_place-Members [] m ha apart known = absurd (ground arith)
  take_place-Members (p ∷ ps) m ha apart known =
      let h : Heap = s.topology.heap in
      let (q, found, i, same) = search_text-enrolled h ip (p ∷ ps) ia ha known in
      let runs = find_myself-Chain h ip p p ps m.1.links m.1.distinct.0 m.1.alive in
      let prev = prev-member s.topology p ps m q i in
      (
        record {
          code = success;
          process = watch (h.ip (h.prev q)) (record s { myself = q });
          reads_metadata = p == q;
        },
        rw
            (
              m.0,
              runs,
              found,
              load-live h h.prev q (m.1.alive q i),
              load-live h h.ip (h.prev q) prev,
            )
            refl,
        record {
          code = refl;
          represents = record {
            nodes = p ∷ ps;
            members = m;
            addresses = ha;
            apart = apart;
            listed = refl;
          };
          myself = i;
          address = same;
          watched = refl;
        },
      )

  take_place-Represents :
      (es : List Entry)
      → Represents s.topology es
      → is_enrolled ip es ≡ true
      → (j : Joined) × (take_place ip s ≡ some j) × Placed ip es j
  take_place-Represents es r known =
      subst (λ x. (j : Joined) × (take_place ip s ≡ some j) × Placed ip x j) r.listed
        (take_place-Members r.nodes r.members r.addresses r.apart
          (subst (λ x. is_enrolled ip x ≡ true) (sym r.listed) known))

join_request-enroll :
    (now : ℕ) (ip : Bytes) (es : List Entry)
    → IsAddress ip
    → now < 4294967296
    → enroll
        (id_ip (topology_join_request now ip).id)
        (id_timestamp (topology_join_request now ip).id)
        es
      ≡ enroll ip now es
unfolding topology_join_request
join_request-enroll now ip es ia h =
    let whole : take 16 ip ≡ ip = take-all 16 ip (omega (arith, length-IsAddress ip ia)) in
    ap₂ (λ a b. enroll a b es) (id_ip-id_bytes now (take 16 ip) ∙ whole)
      (id_timestamp-id_bytes now (take 16 ip) h)

join_request-IsAddress :
    (now : ℕ) (ip : Bytes) → IsAddress ip → IsAddress (id_ip (topology_join_request now ip).id)
unfolding topology_join_request
join_request-IsAddress now ip ia =
    subst IsAddress
      (sym
        (id_ip-id_bytes now (take 16 ip) ∙ take-all 16 ip (omega (arith, length-IsAddress ip ia))))
      ia

join_request-flag :
    (now : ℕ) (ip : Bytes) → has_flag (topology_join_request now ip).flags add_node_request ≡ true
unfolding topology_join_request has_flag
join_request-flag now ip = refl

response-flags :
    (ids : List (ℕ × Bytes))
    → (has_flag (topology_response ids).flags add_payload ≡ true)
      × (has_flag (topology_response ids).flags complete_payload ≡ true)
      × (has_flag (topology_response ids).flags delete_payload ≡ false)
      × ((topology_response ids).ttl ≡ 0)
unfolding topology_response has_flag
response-flags ids = (refl, refl, refl, refl)

serve-join :
    (t : Topology) (es : List Entry) (new : Ptr) (now : ℕ) (ip : Bytes)
    → Represents t es
    → IsAddress ip
    → now < 4294967296
    → new ≢ null
    → t.heap.live new ≡ false
    → length (enroll ip now es) < 65536
    → (admission : Admission) × (t' : Topology) × (serve new (some (topology_join_request now ip)) t
        ≡ some (some admission, t', saved_text (names (enroll ip now es))))
      × Represents t' (enroll ip now es)
      × (admission.response ≡ listing (enroll ip now es))
serve-join t es new now ip r ia h n unused few =
    subst
      (λ x.
        (admission : Admission) × (t' : Topology) × (serve new (some (topology_join_request now ip))
            t
          ≡ some (some admission, t', saved_text (names x)))
        × Represents t' x
        × (admission.response ≡ listing x))
      (join_request-enroll now ip es ia h)
      (serve-Represents t es new (topology_join_request now ip) r (join_request-IsAddress now ip ia)
        n unused (join_request-flag now ip)
        (subst (λ x. length x < 65536) (sym (join_request-enroll now ip es ia h)) few))

-- What a node makes of the answer that lists the entries `es` of a ring.
get_topology-listing :
    (t : Topology) (es : List Entry) (ip : Bytes) (fresh : List Ptr) (s : Process)
    → Represents t es
    → AreStamps es
    → IsAddress ip
    → is_enrolled ip es ≡ true
    → length es < 256
    → Represents s.topology []
    → s.myself ≡ null
    → AreFresh s.topology.heap.live fresh
    → length es ≤ length fresh
    → (j : Joined) × (get_topology
          (record {
            connected = true;
            answer = some (topology_response (listing es));
            fresh = fresh;
            my_ip = ip;
          })
          s
        ≡ some j)
      × Placed ip es j
unfolding get_topology
get_topology-listing t es ip fresh s r stamps ia known few r0 alone f enough =
    let payload : AddDelete = topology_response (listing es) in
    let ids = response-ids es few in
    let flags = response-flags (listing es) in
    let held : HoldAddresses payload.ids =
      subst HoldAddresses (sym (ap (λ x. all_id_bytes (listing x)) (sym r.listed)) ∙ sym ids)
        (HoldAddresses-listing t.heap r.nodes r.addresses) in
    let short : length payload.ids ≤ length fresh =
      omega (arith, ap length ids, length-all_id_bytes (listing es), length-listing es) in
    let (s', runs, r', still) =
      process_add_delete_complete fresh payload s [] r0 alone held f short flags.0 flags.1 flags.2
        flags.3 in
    let whole : enroll_ids payload.ids [] ≡ es =
      ap (λ x. enroll_ids x []) ids ∙ enroll_ids-listing [] es (NewTo-Represents t es r) stamps in
    let (j, placed, p) =
      take_place-Represents ip ia s' es (subst (Represents s'.topology) whole r') known in
    (j, rw runs placed, p)

-- A node that asks the admission contact to be let in, with an address that is a text of fifteen bytes
-- at most, and gets the answer: the contact runs without a fault, its ring stands for what it stood for
-- with the node enrolled, and the addresses of all are saved; and the node, starting from an empty
-- topology, runs without a fault to a ring that stands for the same entries, in which `myself` is the
-- member with its address, and the predecessor is watched. There are fewer than 256 members, with
-- timestamps of 32 bits, and memory for their nodes.
pub get_topology-serve :
    (t : Topology) (es : List Entry) (new : Ptr) (now : ℕ) (ip : Bytes) (fresh : List Ptr)
    (s : Process)
    → Represents t es
    → AreStamps es
    → IsAddress ip
    → now < 4294967296
    → new ≢ null
    → t.heap.live new ≡ false
    → length (enroll ip now es) < 256
    → Represents s.topology []
    → s.myself ≡ null
    → AreFresh s.topology.heap.live fresh
    → length (enroll ip now es) ≤ length fresh
    → (admission : Admission) × (t' : Topology) × (serve new (some (topology_join_request now ip)) t
        ≡ some (some admission, t', saved_text (names (enroll ip now es))))
      × Represents t' (enroll ip now es)
      × (j : Joined) × (get_topology
            (record {
              connected = true;
              answer = some (topology_response admission.response);
              fresh = fresh;
              my_ip = ip;
            })
            s
          ≡ some j)
      × Placed ip (enroll ip now es) j
get_topology-serve t es new now ip fresh s r stamps ia h n unused few r0 alone f enough =
    let (admission, t', served, r', answered) =
      serve-join t es new now ip r ia h n unused (omega arith) in
    let (j, runs, placed) =
      get_topology-listing t' (enroll ip now es) ip fresh s r' (AreStamps-enroll ip now es h stamps)
        ia (is_enrolled-enroll ip now es) few r0 alone f enough in
    (admission, t', served, r', j, rw answered runs, placed)
