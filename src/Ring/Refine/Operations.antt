-- ===== src/Ring/Refine/Operations.antt =====
-- The operations of the list do what is promised of it.
use cs425_mp.Common.{
  ◌≡◌, refl, sym, ◌∙◌, ap, ap₂, subst, Bool, true, false, Option, none, some, List, [], ◌∷◌, ◌++◌,
  Bytes, ◌==◌, ==_refl, ==_false, arith, Bool-cases, inl, inr, cstr, bytes_eq→eq, bytes_eq_refl,
  strcmp_eq, if◌then◌else◌, ◌≢◌,
}
use cs425_mp.Ring.{
  Ptr, null, Topology, update, init_node, id_ip, id_timestamp, add_to_list, remove_from_list,
}
use cs425_mp.Ring.Links.{mem, mem-append, ne_of_mem, Distinct}
use cs425_mp.Ring.Walk.{Members, search_ip, search_exact, find_ip-Chain}
use cs425_mp.Ring.Add.{
  joined, add_to_list-Members, not-mem_of_unused, started-IsRing, search-started,
}
use cs425_mp.Ring.Remove.{DistinctIps, parted, is_found, remove_from_list-Members}
use cs425_mp.Ring.Fields.{Added, add_first-Added, add_later-Added, remove_from_list-SameText}
use cs425_mp.Ring.Addresses.{IsAddress, strcmp-IsAddress, node_ip-IsAddress}
use cs425_mp.Ring.Refine.{
  Entry, enroll, withdraw, is_enrolled, entries, HasAddresses, entries-frame, entries-append,
  enroll-new, search_ip-none, enroll-known, withdraw-parted, Represents,
}

-- All of `add_to_list`: the members, and what their nodes hold.
added :
    (t : Topology) (ps : List Ptr) (new : Ptr) (id : Bytes)
    → Members t ps
    → (ne : (new == null) ≡ false) → t.heap.live new ≡ false
    → (t' : Topology) × (add_to_list new id t ≡ some t')
      × Members t' (joined (search_ip t.heap ps (id_ip id)) ps new)
      × Added (search_ip t.heap ps (id_ip id)) t.heap new id t'.heap
added t [] new id m ne unused =
    let (t', runs, m') = add_to_list-Members t [] new id m (λ e. ground arith) unused in
    (t', runs, m', add_first-Added t t' new id ne m runs)
added t (p ∷ ps) new id m ne unused =
    let (t', runs, m') = add_to_list-Members t (p ∷ ps) new id m (λ e. ground arith) unused in
    let out = not-mem_of_unused t.heap new (p ∷ ps) unused m.1.alive in
    let r = started-IsRing t.heap new id ne p ps m.1 out in
    let found =
      find_ip-Chain (init_node t.heap new id) (id_ip id) p ps p r.links r.alive
      ∙ ap some (search-started t.heap new id ne (p ∷ ps) out) in
    (t', runs, m', add_later-Added t t' new id _ _ ne m.0 found runs)

unlisted :
    (t : Topology) (ps : List Ptr) (new : Ptr)
    → Members t ps
    → t.heap.live new ≡ false
    → mem new ps ≡ false
unlisted t [] new m unused = refl
unlisted t (p ∷ ps) new m unused = not-mem_of_unused t.heap new (p ∷ ps) unused m.1.alive

distinct : (t : Topology) (ps : List Ptr) → Members t ps → Distinct ps
distinct t [] m = tt
distinct t (p ∷ ps) m = m.1.distinct

clash : (b : Bool) → b ≡ true → b ≡ false → ⊥
clash b e f = cc

strcmp_sym : (a b : Bytes) → strcmp_eq a b ≡ true → strcmp_eq b a ≡ true
unfolding strcmp_eq
strcmp_sym a b e = rw (bytes_eq→eq (cstr a) (cstr b) e) (bytes_eq_refl (cstr b))

module _ (t t' : Topology) (ps : List Ptr) (new : Ptr) (id : Bytes) (ia : IsAddress (id_ip id))
    (out : mem new ps ≡ false) (ha : HasAddresses t.heap ps) (apart : DistinctIps t.heap ps) where
  joined-none :
      search_ip t.heap ps (id_ip id) ≡ none
      → Members t' (ps ++ new ∷ [])
      → Added none t.heap new id t'.heap
      → Represents t' (enroll (id_ip id) (id_timestamp id) (entries t.heap ps))
  joined-none s m (e, f, _) =
      let new_ip : t'.heap.ip new ≡ id_ip id =
        ap (λ g. g new) e ∙ rw ==_refl (node_ip-IsAddress id ia) in
      let new_ts : t'.heap.timestamp new ≡ id_timestamp id = ap (λ g. g new) f ∙ rw ==_refl refl in
      let old_ip : (a : Ptr) → mem a ps ≡ true → t'.heap.ip a ≡ t.heap.ip a =
        λ a i. ap (λ g. g a) e ∙ rw (ne_of_mem a new ps i out) refl in
      let old_ts : (a : Ptr) → mem a ps ≡ true → t'.heap.timestamp a ≡ t.heap.timestamp a =
        λ a i. ap (λ g. g a) f ∙ rw (ne_of_mem a new ps i out) refl in
      let which : (a : Ptr) → mem a (ps ++ new ∷ []) ≡ true → mem a ps ≡ false → a ≡ new =
        λ a i o. ground (arith, mem-append a ps (new ∷ [])) in
      let far : (a : Ptr) → mem a ps ≡ true → strcmp_eq (t'.heap.ip a) (t'.heap.ip new) ≡ false =
        λ a i.
          ap₂ strcmp_eq (old_ip a i) new_ip
          ∙ strcmp-IsAddress (t.heap.ip a) (id_ip id) (ha a i) ia
          ∙ search_ip-none t.heap (id_ip id) ia ps a ha s i in
      record {
        nodes = ps ++ new ∷ [];
        members = m;
        addresses = λ a i. elim (Bool-cases (mem a ps)) [
          | inl old ↦ rw (old_ip a old) (ha a old)
          | inr fresh ↦ rw (which a i fresh, new_ip) ia
        ];
        apart = λ a b i j e. elim (Bool-cases (mem a ps)) [
          | inl old_a ↦ elim (Bool-cases (mem b ps)) [
            | inl old_b ↦
                apart a b old_a old_b (sym (ap₂ strcmp_eq (old_ip a old_a) (old_ip b old_b)) ∙ e)
            | inr new_b ↦ absurd (clash _ e (rw (which b j new_b) (far a old_a)))
          ]
          | inr new_a ↦ elim (Bool-cases (mem b ps)) [
            | inl old_b ↦ absurd (clash _ (strcmp_sym _ _ e) (rw (which a i new_a) (far b old_b)))
            | inr new_b ↦ which a i new_a ∙ sym (which b j new_b)
          ]
        ];
        listed =
            entries-append t'.heap ps (new ∷ [])
            ∙ ap₂ (λ xs ys. xs ++ ys)
                (entries-frame t.heap t'.heap ps (λ a i. (old_ip a i, old_ts a i)))
                (ap₂ (λ x y. (x, y) ∷ []) new_ip new_ts)
            ∙ sym (enroll-new t.heap (id_ip id) ia (id_timestamp id) ps ha s);
      }

  joined-some :
      (q : Ptr)
      → search_ip t.heap ps (id_ip id) ≡ some q
      → Distinct ps
      → Members t' ps
      → Added (some q) t.heap new id t'.heap
      → Represents t' (enroll (id_ip id) (id_timestamp id) (entries t.heap ps))
  joined-some q s d m (e, f, _) =
      let old_ip : (a : Ptr) → mem a ps ≡ true → t'.heap.ip a ≡ t.heap.ip a =
        λ a i. ap (λ g. g a) e ∙ rw (ne_of_mem a new ps i out) refl in
      let old_ts : (a : Ptr)
          → mem a ps ≡ true
          → t'.heap.timestamp a ≡ (if a == q then id_timestamp id else t.heap.timestamp a) =
        λ a i. ap (λ g. g a) f ∙ rw (ne_of_mem a new ps i out) refl in
      record {
        nodes = ps;
        members = m;
        addresses = λ a i. rw (old_ip a i) (ha a i);
        apart = λ a b i j e. apart a b i j (sym (ap₂ strcmp_eq (old_ip a i) (old_ip b j)) ∙ e);
        listed =
            enroll-known t.heap (id_ip id) ia t'.heap (id_timestamp id) ps q ha d s old_ip old_ts;
      }

  joined-any :
      (o : Option Ptr)
      → search_ip t.heap ps (id_ip id) ≡ o
      → Distinct ps
      → Members t' (joined o ps new)
      → Added o t.heap new id t'.heap
      → Represents t' (enroll (id_ip id) (id_timestamp id) (entries t.heap ps))
  joined-any none s d m f = joined-none s m f
  joined-any (some q) s d m f = joined-some q s d m f

-- The same, and which nodes are allocated then.
pub add_to_list-live :
    (t : Topology) (es : List Entry) (new : Ptr) (id : Bytes)
    → Represents t es
    → IsAddress (id_ip id)
    → new ≢ null
    → t.heap.live new ≡ false
    → (t' : Topology) × (add_to_list new id t ≡ some t')
      × Represents t' (enroll (id_ip id) (id_timestamp id) es)
      × (t'.heap.live ≡ update t.heap.live new true)
add_to_list-live t es new id r ia n unused =
    let (t', runs, m, f) = added t r.nodes new id r.members (==_false new null n) unused in
    let out = unlisted t r.nodes new r.members unused in
    (
      t',
      runs,
      subst (λ x. Represents t' (enroll (id_ip id) (id_timestamp id) x)) r.listed
          (joined-any t t' r.nodes new id ia out r.addresses r.apart
            (search_ip t.heap r.nodes (id_ip id)) refl (distinct t r.nodes r.members) m f),
      f.2,
    )

-- From a topology that stands for the entries `es`, with an ID whose address is a text of fifteen
-- bytes at most, and a fresh node of `calloc`, `add_to_list` runs without a fault to a topology that
-- stands for `es` with the address enrolled: with the new timestamp where it was, or else last.
pub add_to_list-Represents :
    (t : Topology) (es : List Entry) (new : Ptr) (id : Bytes)
    → Represents t es
    → IsAddress (id_ip id)
    → new ≢ null
    → t.heap.live new ≡ false
    → (t' : Topology) × (add_to_list new id t ≡ some t')
      × Represents t' (enroll (id_ip id) (id_timestamp id) es)
add_to_list-Represents t es new id r ia n unused =
    let (t', runs, r', _) = add_to_list-live t es new id r ia n unused in (t', runs, r')

mem-parted :
    (o : Option Ptr) (ps : List Ptr) (a : Ptr) → mem a (parted o ps) ≡ true → mem a ps ≡ true
mem-parted none ps a i = i
mem-parted (some v) [] a i = i
mem-parted (some v) (p ∷ ps) a i = elim (Bool-cases (p == v)) [
  | inl hit ↦ let j = (rw hit at i) in ground (arith, j)
  | inr miss ↦ let j = (rw miss at i) in ground (arith, j, mem-parted (some v) ps a)
]

-- From a topology that stands for the entries `es`, with an ID whose address is a text of fifteen
-- bytes at most, `remove_from_list` runs without a fault to a topology that stands for `es` without
-- the address, and it tells whether that was there.
pub remove_from_list-Represents :
    (t : Topology) (es : List Entry) (id : Bytes)
    → Represents t es
    → IsAddress (id_ip id)
    → (t' : Topology) × (remove_from_list id t ≡ some (is_enrolled (id_ip id) es, t'))
      × Represents t' (withdraw (id_ip id) es)
remove_from_list-Represents t es id r ia =
    let o = search_exact t.heap r.nodes (id_ip id) in
    let (t', runs, m) = remove_from_list-Members t r.nodes id r.members r.apart in
    let (e, f) = remove_from_list-SameText t t' id (is_found o) runs in
    let (w, x) =
      withdraw-parted t.heap (id_ip id) ia r.nodes o r.addresses (distinct t r.nodes r.members)
        refl in
    let same : (a : Ptr) → t'.heap.ip a ≡ t.heap.ip a = λ a. ap (λ g. g a) e in
    (
      t',
      runs ∙ ap (λ b. some (b, t')) (x ∙ ap (is_enrolled (id_ip id)) r.listed),
      record {
        nodes = parted o r.nodes;
        members = m;
        addresses = λ a i. rw (same a) (r.addresses a (mem-parted o r.nodes a i));
        apart = λ a b i j k.
            r.apart a b (mem-parted o r.nodes a i) (mem-parted o r.nodes b j)
              (sym (ap₂ strcmp_eq (same a) (same b)) ∙ k);
        listed =
            entries-frame t.heap t'.heap (parted o r.nodes) (λ a i. (same a, ap (λ g. g a) f))
            ∙ w
            ∙ ap (withdraw (id_ip id)) r.listed;
      },
    )
