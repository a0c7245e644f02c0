-- ===== src/Detector/Timeout.antt =====
-- A member misses the heartbeats of its predecessor.
use cs425_mp.Common.{
  ℕ, suc, ◌+◌, ◌-◌, ◌≡◌, ◌≢◌, refl, sym, ◌∙◌, ap, subst, true, false, none, some, List, [], ◌∷◌,
  ◌++◌, Bytes, ◌==◌, ==_false, lt→ltb, le→ltb_false, arith, Bool-cases, inl, inr, if◌then◌else◌,
  length, take-all, drop, drop-all, be32, bytes_eq_refl, bytes_eq, dec_lt,
}
use cs425_mp.Ring.{Ptr, Heap, Topology, check, id_ip}
use cs425_mp.Ring.Links.{mem, Chain-last, mem-last}
use cs425_mp.Ring.Walk.{Members, Alive, load-live, search_exact}
use cs425_mp.Ring.Unlink.{without}
use cs425_mp.Ring.Remove.{DistinctIps, parted, remove_from_list-Members}
use cs425_mp.Ring.Addresses.{IsAddress, strcmp-IsAddress, memcmp-IsAddress}
use cs425_mp.Ring.Refine.{HasAddresses}
use cs425_mp.Membership.{
  Process, AddDelete, watch, announcements, delete_notification, delete_payload, delta_payload,
  node_failure,
}
use cs425_mp.Membership.Notice.{prev-IsRing}
use cs425_mp.Membership.Listing.{prev-member}
use cs425_mp.Admission.Saved.{length-IsAddress}
use cs425_mp.Detector.{node_id, leads, declare_failed}
use cs425_mp.Detector.Around.{
  around, mem-around, length-around, Chain-around, addresses_back, length-addresses_back,
  backwards-before_last,
}

search_exact_self :
    (h : Heap) (all : List Ptr) (ps : List Ptr) (v : Ptr)
    → HasAddresses h all
    → DistinctIps h all
    → ((a : Ptr) → mem a ps ≡ true → mem a all ≡ true)
    → mem v ps ≡ true
    → search_exact h ps (h.ip v) ≡ some v
search_exact_self h all [] v ha apart w i = absurd (ground arith)
search_exact_self h all (p ∷ ps) v ha apart w i =
    let ip = ha p (w p (ground arith)) in
    let iv = ha v (w v i) in
    elim (Bool-cases (bytes_eq (h.ip p) (h.ip v))) [
      | inl hit ↦
          let e : p ≡ v =
            apart p v (w p (ground arith)) (w v i)
              (strcmp-IsAddress (h.ip p) (h.ip v) ip iv ∙ hit) in
          rw (memcmp-IsAddress (h.ip p) (h.ip v) ip iv ∙ hit) (ap some e)
      | inr miss ↦ elim (Bool-cases (p == v)) [
        | inl e ↦
            let e' : p ≡ v = ground arith in
            absurd (
              clash (sym (ap (λ a. bytes_eq (h.ip a) (h.ip v)) e' ∙ bytes_eq_refl (h.ip v)) ∙ miss))
        | inr e ↦
            rw (memcmp-IsAddress (h.ip p) (h.ip v) ip iv ∙ miss)
              (search_exact_self h all ps v ha apart (λ a j. w a (ground arith)) (ground arith))
      ]
    ]
  where
    clash : true ≡ false → ⊥
    clash e = cc

mem-kept :
    (a v : Ptr) (ps : List Ptr) → (v == a) ≡ false → mem a ps ≡ true → mem a (without v ps) ≡ true
mem-kept a v [] n i = i
mem-kept a v (x ∷ xs) n i = ground (arith, mem-kept a v xs)

-- What the notices say.
abbrev pub failure_notice : Bytes → ℕ → AddDelete
failure_notice id ttl = record {
  flags = delete_payload + delta_payload + node_failure;
  ttl = ttl;
  ids = id ∷ [];
}

abbrev pub id_of_member : Heap → Ptr → Bytes
id_of_member h p = be32 (h.timestamp p) ++ h.ip p

id_ip-id_of_member : (h : Heap) (p : Ptr) → id_ip (id_of_member h p) ≡ h.ip p
unfolding be32 drop
id_ip-id_of_member h p = refl

live-member :
    (t : Topology) (ps : List Ptr) (v : Ptr)
    → Members t ps
    → mem v ps ≡ true
    → check t.heap v ≡ some tt
live-member t [] v m i = absurd (ground arith)
live-member t (p ∷ ps) v m i = m.1.alive v i

live-prev :
    (t : Topology) (ps : List Ptr) (v : Ptr)
    → Members t ps
    → mem v ps ≡ true
    → check t.heap (t.heap.prev v) ≡ some tt
live-prev t [] v m i = absurd (ground arith)
live-prev t (p ∷ ps) v m i = prev-member t p ps m v i

node_id-live :
    (h : Heap) (p : Ptr)
    → check h p ≡ some tt
    → IsAddress (h.ip p)
    → node_id h p ≡ some (id_of_member h p)
unfolding node_id
node_id-live h p live ia =
    rw (load-live h h.timestamp p live, load-live h h.ip p live)
      (ap (λ x. some (be32 (h.timestamp p) ++ x))
        (take-all 16 (h.ip p) (omega (arith, length-IsAddress (h.ip p) ia))))

-- All other members but the predecessor of `v`, the nearest first.
abbrev pub others : Heap → Ptr → List Ptr → List Bytes
others h v ps = drop 1 (addresses_back h (around v ps))

module _ (s : Process) (p : Ptr) (ps : List Ptr) (m : Members s.topology (p ∷ ps))
    (here : mem s.myself (p ∷ ps) ≡ true) where
  -- Whoever fails, all others are told of it.
  delete_notification-Members :
      (contact_ip id : Bytes)
      → s.topology.heap.prev s.myself ≢ s.myself
      → delete_notification node_failure id 4 contact_ip s
        ≡ some (
            (contact_ip, failure_notice id 0)
            ∷ announcements (others s.topology.heap s.myself (p ∷ ps)) (failure_notice id 4))
  unfolding delete_notification announcements
  delete_notification-Members contact_ip id ne =
      let h : Heap = s.topology.heap in
      let qs : List Ptr = around s.myself (p ∷ ps) in
      let size = length-around s.myself (p ∷ ps) here in
      let c = Chain-around h p ps s.myself m.1.links here in
      let alive : Alive h qs = λ a i. m.1.alive a (mem-around a s.myself (p ∷ ps) i) in
      elim (dec_lt 2 (suc (length ps))) [
        | no few ↦
            let none_left : drop 1 (addresses_back h qs) ≡ [] =
              drop-all 1 (addresses_back h qs) (omega (arith, length-addresses_back h qs)) in
            rw (m.0, le→ltb_false 2 (suc (length ps)) (omega arith), none_left) refl
        | yes many ↦
            let last_one : mem (h.prev s.myself) (s.myself ∷ qs) ≡ true =
              subst (λ b. mem b (s.myself ∷ qs) ≡ true) (sym (Chain-last h s.myself qs s.myself c))
                (mem-last s.myself qs) in
            let i : mem (h.prev s.myself) qs ≡ true = ground arith in
            let k : length qs ≡ suc (suc (length ps) - 2) = omega arith in
            let runs =
              backwards-before_last h s.myself s.myself qs (suc (length ps) - 2) c alive k i in
            rw
              (
                m.0,
                lt→ltb 2 (suc (length ps)) many,
                load-live h h.prev s.myself (m.1.alive s.myself here),
                load-live h h.prev (h.prev s.myself) (alive (h.prev s.myself) i),
                runs,
              )
              refl
      ]

  -- A member of a well-formed ring with distinct addresses, that is not alone, declares its predecessor
  -- failed: it runs without a fault to a well-formed ring with the same members but the predecessor, and
  -- watches its predecessor there; the admission contact and each of the other members, the nearest
  -- first, are sent one notice with the predecessor's ID; and exactly if the predecessor led, its files
  -- are taken over.
  pub declare_failed-Members :
      (contact_ip : Bytes)
      → HasAddresses s.topology.heap (p ∷ ps)
      → DistinctIps s.topology.heap (p ∷ ps)
      → s.topology.heap.prev s.myself ≢ s.myself
      → (t : Topology) × (declare_failed contact_ip s
          ≡ some (record {
            sent =
                (
                  contact_ip,
                  failure_notice (id_of_member s.topology.heap (s.topology.heap.prev s.myself)) 0,
                )
                ∷ announcements (others s.topology.heap s.myself (p ∷ ps)) (
                    failure_notice
                      (id_of_member s.topology.heap (s.topology.heap.prev s.myself))
                      4);
            made_master =
                if p == s.topology.heap.prev s.myself
                then some (s.topology.heap.ip (s.topology.heap.prev s.myself))
                else none;
            process = watch (t.heap.ip (t.heap.prev s.myself)) (record s { topology = t });
          }))
        × Members t (without (s.topology.heap.prev s.myself) (p ∷ ps))
  unfolding declare_failed
  declare_failed-Members contact_ip ha apart ne =
      let h : Heap = s.topology.heap in
      let f : Ptr = h.prev s.myself in
      let i : mem f (p ∷ ps) ≡ true = prev-IsRing h p ps s.myself m.1 here in
      let led : leads f s.topology ≡ (p == f) = unfold leads in rw m.0 refl in
      let id = id_of_member h f in
      let (t, runs, m') = remove_from_list-Members s.topology (p ∷ ps) id m apart in
      let found : search_exact h (p ∷ ps) (id_ip id) ≡ some f =
        ap (search_exact h (p ∷ ps)) (id_ip-id_of_member h f)
        ∙ search_exact_self h (p ∷ ps) (p ∷ ps) f ha apart (λ a j. j) i in
      let left : Members t (without f (p ∷ ps)) =
        subst (λ o. Members t (parted o (p ∷ ps))) found m' in
      let stays : mem s.myself (without f (p ∷ ps)) ≡ true =
        mem-kept s.myself f (p ∷ ps) (==_false f s.myself ne) here in
      (
        t,
        rw
            (
              load-live h h.prev s.myself (m.1.alive s.myself here),
              node_id-live h f (m.1.alive f i) (ha f i),
              delete_notification-Members contact_ip id ne,
              load-live h h.ip f (m.1.alive f i),
              led,
              runs,
              load-live t.heap t.heap.prev s.myself
                  (live-member t (without f (p ∷ ps)) s.myself left stays),
              load-live t.heap t.heap.ip (t.heap.prev s.myself)
                  (live-prev t (without f (p ∷ ps)) s.myself left stays),
            )
            refl,
        left,
      )
