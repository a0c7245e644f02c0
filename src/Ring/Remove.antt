-- ===== src/Ring/Remove.antt =====
-- `remove_from_list` takes one member out, and the leadership passes on when it was the first.
use cs425_mp.Common.{
  suc, ◌-◌, ◌≡◌, refl, sym, ◌∙◌, ap, subst, ◌≢◌, Bool, true, false, Option, none, some, List, [],
  ◌∷◌, ◌==◌, ==_false, Bytes, arith, Bool-cases, inl, inr, length, strcmp_eq, bytes_eq_refl, cstr,
  if◌then◌else◌,
}
use cs425_mp.Ring.{
  Ptr, null, Heap, Topology, update, id_ip, find_exact, remove_node, remove_from_list,
}
use cs425_mp.Ring.Links.{mem, mem-last, ne_of_mem, Chain-last, Chain-first, last}
use cs425_mp.Ring.Walk.{IsRing, Members, search_exact, find_exact-Chain, search_exact-mem}
use cs425_mp.Ring.Add.{IsLive, IsLive_of_check}
use cs425_mp.Ring.Unlink.{
  without, removed, mem-first, prev-mem, next-mem, length-without, remove_node-runs, removed-IsRing,
  removed_first-IsRing,
}

-- No two members have addresses that read alike.
abbrev pub DistinctIps : Heap → List Ptr → Type 0
DistinctIps h ps =
    (a b : Ptr) → mem a ps ≡ true → mem b ps ≡ true → strcmp_eq (h.ip a) (h.ip b) ≡ true → a ≡ b

strcmp_self : (a : Bytes) → strcmp_eq a a ≡ true
unfolding strcmp_eq
strcmp_self a = bytes_eq_refl (cstr a)

module _ (t : Topology) (p : Ptr) (ps : List Ptr)
    (e : t.head ≡ some (record { node = p; num_of_nodes = suc (length ps) }))
    (r : IsRing t.heap p ps) (apart : DistinctIps t.heap (p ∷ ps)) where
  live : (a : Ptr) → mem a (p ∷ ps) ≡ true → IsLive t.heap a
  live a i = IsLive_of_check t.heap a (r.alive a i)

  next_live : (v : Ptr) → mem v (p ∷ ps) ≡ true → IsLive t.heap (t.heap.next v)
  next_live v i = live (t.heap.next v) (elim (Bool-cases (v == p)) [
    | inl hit ↦
        let e' : v ≡ p = ground arith in
        subst (λ a. mem a (p ∷ ps) ≡ true)
          (sym (ap t.heap.next e' ∙ Chain-first t.heap p ps p r.links)) (mem-first p ps)
    | inr miss ↦ next-mem t.heap p ps v p r.links (ground arith)
  ])

  prev_live : (v : Ptr) → mem v (p ∷ ps) ≡ true → IsLive t.heap (t.heap.prev v)
  prev_live v i = live (t.heap.prev v) (elim (Bool-cases (v == p)) [
    | inl hit ↦
        let e' : v ≡ p = ground arith in
        subst (λ a. mem a (p ∷ ps) ≡ true)
          (sym (ap t.heap.prev e' ∙ Chain-last t.heap p ps p r.links)) (mem-last p ps)
    | inr miss ↦ prev-mem t.heap p ps v p r.links (ground arith)
  ])

  ran :
      (v : Ptr)
      → mem v (p ∷ ps) ≡ true
      → remove_node t.heap (record { node = p; num_of_nodes = suc (length ps) }) v
        ≡ some (record {
          heap = removed t.heap v;
          head =
              if suc (length ps) - 1 == 0
              then none
              else some (record {
                node =
                    if strcmp_eq (t.heap.ip p) (t.heap.ip v)
                    then update t.heap.next (t.heap.prev v) (t.heap.next v) p
                    else p;
                num_of_nodes = suc (length ps) - 1;
              });
        })
  ran v i =
      remove_node-runs t.heap (record { node = p; num_of_nodes = suc (length ps) }) v
        (live p (ground arith)) (live v i) (next_live v i) (prev_live v i)

  remove_other :
      (v : Ptr)
      → mem v ps ≡ true
      → (t' : Topology) × (remove_node t.heap
            (record { node = p; num_of_nodes = suc (length ps) })
            v
          ≡ some t')
        × Members t' (p ∷ without v ps)
  remove_other v i =
      let ne : (p == v) ≡ false = ground (arith, ne_of_mem v p ps i r.distinct.0) in
      let unlike : strcmp_eq (t.heap.ip p) (t.heap.ip v) ≡ false =
        ground (arith, apart p v (ground arith) (ground arith)) in
      let more : (suc (length ps) - 1 == 0) ≡ false =
        ==_false (suc (length ps) - 1) 0 (λ z. absurd (omega (arith, length-without v ps i))) in
      (
        record {
          heap = removed t.heap v;
          head = some (record { node = p; num_of_nodes = suc (length ps) - 1 });
        },
        ran v (ground arith) ∙ rw (more, unlike),
        (
          ap (λ n. some (record { node = p; num_of_nodes = n }))
              (omega (arith, length-without v ps i)),
          removed-IsRing t.heap p ps v r i,
        ),
      )

-- The leader leaves.
remove_first :
    (t : Topology) (p : Ptr) (ps : List Ptr)
    → t.head ≡ some (record { node = p; num_of_nodes = suc (length ps) })
    → IsRing t.heap p ps
    → DistinctIps t.heap (p ∷ ps)
    → (t' : Topology) × (remove_node t.heap (record { node = p; num_of_nodes = suc (length ps) }) p
        ≡ some t')
      × Members t' ps
remove_first t p [] e r apart =
    (record { heap = removed t.heap p; head = none }, ran t p [] e r apart p (ground arith), refl)
remove_first t p (x ∷ xs) e r apart =
    let alone : p ≢ last x xs = λ q. ground (arith, mem-last x xs, r.distinct.0) in
    (
      record {
        heap = removed t.heap p;
        head = some (record { node = x; num_of_nodes = suc (suc (length xs)) - 1 });
      },
      ran t p (x ∷ xs) e r apart p (ground arith)
          ∙ rw (
            ==_false (suc (suc (length xs)) - 1) 0 (λ z. absurd (omega arith)),
            strcmp_self,
            ==_false p (t.heap.prev p) (λ q. alone (q ∙ Chain-last t.heap x xs p r.links.1)),
            r.links.0.next,
          ),
      (
        ap (λ n. some (record { node = x; num_of_nodes = n })) (omega arith),
        removed_first-IsRing t.heap p x xs r,
      ),
    )

remove_found :
    (t : Topology) (p : Ptr) (ps : List Ptr) (v : Ptr)
    → t.head ≡ some (record { node = p; num_of_nodes = suc (length ps) })
    → IsRing t.heap p ps
    → DistinctIps t.heap (p ∷ ps)
    → mem v (p ∷ ps) ≡ true
    → (t' : Topology) × (remove_node t.heap (record { node = p; num_of_nodes = suc (length ps) }) v
        ≡ some t')
      × Members t' (without v (p ∷ ps))
remove_found t p ps v e r apart i = elim (Bool-cases (p == v)) [
  | inl hit ↦ let e' : p ≡ v = ground arith in rw (hit, ← e') (remove_first t p ps e r apart)
  | inr miss ↦ rw miss (remove_other t p ps e r apart v (ground arith))
]

-- What `remove_from_list` makes of the members, when its search found `o`.
abbrev pub parted : Option Ptr → List Ptr → List Ptr
parted none ps = ps
parted (some v) ps = without v ps

abbrev pub is_found : Option Ptr → Bool
is_found none = false
is_found (some v) = true

remove_case :
    (t : Topology) (p : Ptr) (ps : List Ptr) (id : Bytes) (o : Option Ptr)
    → Members t (p ∷ ps)
    → DistinctIps t.heap (p ∷ ps)
    → search_exact t.heap (p ∷ ps) (id_ip id) ≡ o
    → (t' : Topology) × (remove_from_list id t ≡ some (is_found o, t'))
      × Members t' (parted o (p ∷ ps))
unfolding remove_from_list
remove_case t p ps id o (e, r) apart s =
    let found = find_exact-Chain t.heap (id_ip id) p p ps r.links r.distinct.0 r.alive in
    let ne = (IsLive_of_check t.heap p (r.alive p (ground arith))).ne_null in
    go o s (found ∙ ap some s) ne
  where
    go :
        (o : Option Ptr)
        → search_exact t.heap (p ∷ ps) (id_ip id) ≡ o
        → find_exact (suc (length ps)) t.heap p p (id_ip id) ≡ some o
        → (p == null) ≡ false
        → (t' : Topology) × (remove_from_list id t ≡ some (is_found o, t'))
          × Members t' (parted o (p ∷ ps))
    go none s found ne = (t, rw (e, ne, found), (e, r))
    go (some v) s found ne =
        let (t', runs, m) =
          remove_found t p ps v e r apart (search_exact-mem t.heap (id_ip id) (p ∷ ps) v s) in
        (t', rw (e, ne, found, runs), m)

-- From a well-formed ring whose addresses are distinct, `remove_from_list` runs without a fault to
-- a well-formed ring: without the first member whose 16 address bytes match, if there is one, and
-- with all of them otherwise; it says which. When the leader goes, the next one leads; when the last
-- member goes, the topology is empty.
pub remove_from_list-Members :
    (t : Topology) (ps : List Ptr) (id : Bytes)
    → Members t ps
    → DistinctIps t.heap ps
    → (t' : Topology) × (remove_from_list id t
        ≡ some (is_found (search_exact t.heap ps (id_ip id)), t'))
      × Members t' (parted (search_exact t.heap ps (id_ip id)) ps)
unfolding remove_from_list
remove_from_list-Members t [] id m apart = (t, rw m, m)
remove_from_list-Members t (p ∷ ps) id m apart =
    remove_case t p ps id (search_exact t.heap (p ∷ ps) (id_ip id)) m apart refl
