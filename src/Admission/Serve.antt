-- ===== src/Admission/Serve.antt =====
-- What the admission contact remembers.
use cs425_mp.Common.{
  ℕ, suc, ◌+◌, ◌%◌, ◌≡◌, ◌<◌, ap₂, take, take-all, length-take, ◌≢◌, refl, ◌∙◌, ap, true, false,
  none, some, List, [], ◌∷◌, Bytes, leb, if◌then◌else◌, arith, length, cstr,
}
use cs425_mp.Wire.{has_flag}
use cs425_mp.Ring.{Ptr, null, Heap, Topology, id_ip, id_timestamp, add_to_list}
use cs425_mp.Ring.Walk.{Members}
use cs425_mp.Ring.Addresses.{IsAddress}
use cs425_mp.Ring.Refine.{Entry, enroll, entries, HasAddresses, Represents}
use cs425_mp.Ring.Refine.Operations.{add_to_list-Represents}
use cs425_mp.Membership.{
  AddressLists, announcements, add_payload, delta_payload, TopologyRequest, Admission,
  add_node_request, populate_address_lists, process_topology_request,
}
use cs425_mp.Membership.Targets.{told}
use cs425_mp.Membership.Listing.{populate-told}
use cs425_mp.Admission.{
  max_num_ips, write_rows, write_ips_to_file, save_members, serve, parse_ips_file,
}
use cs425_mp.Admission.Compact.{AreRows, compact-id_list}
use cs425_mp.Admission.Saved.{
  saved_text, AreWords, HaveAddresses, texts, length-IsAddress, write_rows-rows, take-AreWords,
  parse_ips_file-saved_text,
}

-- The texts of the addresses.
abbrev pub names : List Entry → List Bytes
names [] = []
names (e ∷ es) = cstr e.0 ∷ names es

texts-told : (h : Heap) (ps : List Ptr) → texts (told h ps) ≡ names (entries h ps)
texts-told h [] = refl
texts-told h (p ∷ ps) = ap (λ x. cstr (h.ip p) ∷ x) (texts-told h ps)

told-HaveAddresses : (h : Heap) (ps : List Ptr) → HasAddresses h ps → HaveAddresses (told h ps)
told-HaveAddresses h [] ha = tt
told-HaveAddresses h (p ∷ ps) ha =
    (ha p (ground arith), told-HaveAddresses h ps (λ a i. ha a (ground arith)))

AreRows-HaveAddresses : (es : List (ℕ × Bytes)) → HaveAddresses es → AreRows es
AreRows-HaveAddresses [] h = tt
AreRows-HaveAddresses (e ∷ es) h = (length-IsAddress e.1 h.0, AreRows-HaveAddresses es h.1)

nobody :
    (t : Topology)
    → t.head ≡ none
    → populate_address_lists t ≡ some (record { ids = []; nodes_to_send_to = [] })
unfolding populate_address_lists
nobody t e = rw e refl

populate-Represents :
    (t : Topology) (es : List Entry) (r : Represents t es)
    → (lists : AddressLists) × (populate_address_lists t ≡ some lists)
      × (lists.ids ≡ told t.heap r.nodes)
populate-Represents t es r = go r.nodes r.members
  where
    go :
        (ps : List Ptr)
        → Members t ps
        → (lists : AddressLists) × (populate_address_lists t ≡ some lists)
          × (lists.ids ≡ told t.heap ps)
    go [] m = (record { ids = []; nodes_to_send_to = [] }, nobody t m, refl)
    go (p ∷ ps) m = populate-told t p ps m

length-told : (h : Heap) (ps : List Ptr) → length (told h ps) ≡ length (entries h ps)
length-told h [] = refl
length-told h (p ∷ ps) = ap suc (length-told h ps)

-- What is saved of the members, which `es` describes, in their order: all of them, but for a count that
-- is cut to 16 bits.
pub save_members-Represents :
    (t : Topology) (es : List Entry)
    → Represents t es
    → save_members t ≡ some (saved_text (take (length es % 65536) (names es)))
unfolding save_members write_ips_to_file
save_members-Represents t es r =
    let (lists, runs, listed) = populate-Represents t es r in
    let ha = told-HaveAddresses t.heap r.nodes r.addresses in
    let (rest, flat) = compact-id_list (told t.heap r.nodes) (AreRows-HaveAddresses _ ha) in
    let count : length (told t.heap r.nodes) ≡ length es =
      length-told t.heap r.nodes ∙ ap length r.listed in
    rw (runs, listed)
      (ap some (
        ap (write_rows (length (told t.heap r.nodes) % 65536)) flat
        ∙ write_rows-rows (length (told t.heap r.nodes) % 65536) (told t.heap r.nodes) rest
            (omega arith) ha
        ∙ ap₂ (λ n ts. saved_text (take (n % 65536) ts)) count
            (texts-told t.heap r.nodes ∙ ap names r.listed)))

length-names : (es : List Entry) → length (names es) ≡ length es
length-names [] = refl
length-names (e ∷ es) = ap suc (length-names es)

-- Fewer than 65536 members are saved all.
pub save_members-all :
    (t : Topology) (es : List Entry)
    → Represents t es
    → length es < 65536
    → save_members t ≡ some (saved_text (names es))
save_members-all t es r few =
    save_members-Represents t es r
    ∙ ap (λ ts. some (saved_text ts))
        (take-all (length es % 65536) (names es) (omega (arith, length-names es)))

-- The admission contact saves its members, and after a crash it reads the text of the address of each
-- of them again, in the order of the ring; but where they are more than ten, it overruns `maybeIPs`. The
-- count of the members is cut to 16 bits before. The texts are words without spaces.
pub parse_ips_file-save_members :
    (t : Topology) (es : List Entry) (stale : ℕ → Bytes)
    → Represents t es
    → AreWords (names es)
    → (file : Bytes) × (save_members t ≡ some file)
      × (parse_ips_file stale (some file) ≡ (
          if leb (length es % 65536) max_num_ips
          then some (take (length es % 65536) (names es))
          else none))
parse_ips_file-save_members t es stale r w =
    let kept : List Bytes = take (length es % 65536) (names es) in
    let count : length kept ≡ length es % 65536 =
      length-take (length es % 65536) (names es) ∙ omega (arith, length-names es) in
    (
      saved_text kept,
      save_members-Represents t es r,
      parse_ips_file-saved_text kept stale (take-AreWords (length es % 65536) (names es) w)
          ∙ ap (λ n. if leb n max_num_ips then some kept else none) count,
    )

process_topology_request-runs :
    (fresh : Ptr) (request : TopologyRequest) (t t' : Topology) (lists : AddressLists)
    → has_flag request.flags add_node_request ≡ true
    → add_to_list fresh request.id t ≡ some t'
    → populate_address_lists t' ≡ some lists
    → (admission : Admission) × (process_topology_request fresh request t ≡ some admission)
      × (admission.topology ≡ t')
      × (admission.response ≡ lists.ids)
unfolding process_topology_request
process_topology_request-runs fresh request t t' lists wants runs tells = (
  record {
    topology = t';
    response = lists.ids;
    announced =
        announcements lists.nodes_to_send_to
          (record { flags = add_payload + delta_payload; ttl = 0; ids = request.id ∷ [] });
  },
  rw (wants, runs, tells) refl,
  refl,
  refl,
)

-- The members as `populate_ipAddrList` tells of them.
abbrev pub listing : List Entry → List (ℕ × Bytes)
listing [] = []
listing (e ∷ es) = (e.1, e.0) ∷ listing es

told-listing : (h : Heap) (ps : List Ptr) → told h ps ≡ listing (entries h ps)
told-listing h [] = refl
told-listing h (p ∷ ps) = ap (λ es. (h.timestamp p, h.ip p) ∷ es) (told-listing h ps)

-- Where there are fewer than 65536 members, a node that asks to be let in, with an ID whose address is a text of fifteen bytes at most: it is
-- enrolled and told of all members, and their addresses are saved, in the order of the ring.
pub serve-Represents :
    (t : Topology) (es : List Entry) (fresh : Ptr) (request : TopologyRequest)
    → Represents t es
    → IsAddress (id_ip request.id)
    → fresh ≢ null
    → t.heap.live fresh ≡ false
    → has_flag request.flags add_node_request ≡ true
    → length (enroll (id_ip request.id) (id_timestamp request.id) es) < 65536
    → (admission : Admission) × (t' : Topology) × (serve fresh (some request) t
        ≡ some (
          some admission,
          t',
          saved_text (names (enroll (id_ip request.id) (id_timestamp request.id) es)),
        ))
      × Represents t' (enroll (id_ip request.id) (id_timestamp request.id) es)
      × (admission.response ≡ listing (enroll (id_ip request.id) (id_timestamp request.id) es))
unfolding serve
serve-Represents t es fresh request r ia n unused wants few =
    let (t', runs, r') = add_to_list-Represents t es fresh request.id r ia n unused in
    let (lists, tells, all) = populate-Represents t' _ r' in
    let (admission, admits, e, answered) =
      process_topology_request-runs fresh request t t' lists wants runs tells in
    let saved = ap save_members e ∙ save_members-all t' _ r' few in
    (
      admission,
      t',
      rw (admits, saved, e) refl,
      r',
      answered ∙ all ∙ told-listing t'.heap r'.nodes ∙ ap listing r'.listed,
    )
