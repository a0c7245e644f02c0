-- ===== src/Membership/Listing.antt =====
-- `populate_ipAddrList` in a ring of any size.
use cs425_mp.Common.{
  suc, ◌≡◌, refl, sym, ◌∙◌, ap, subst, true, false, some, List, ◌∷◌, ◌==◌, ltb, arith, Bool-cases,
  inl, inr, length,
}
use cs425_mp.Ring.{Ptr, null, Topology, check}
use cs425_mp.Ring.Links.{mem, mem-last, Chain-last}
use cs425_mp.Ring.Walk.{Members, load-live}
use cs425_mp.Ring.Unlink.{prev-mem}
use cs425_mp.Ring.Add.{IsLive_of_check}
use cs425_mp.Membership.{AddressLists, populate_loop, populate_address_lists}
use cs425_mp.Membership.Targets.{told, picked, populate_loop-Chain}

module _ (t : Topology) (p : Ptr) (ps : List Ptr) (m : Members t (p ∷ ps)) where
  -- The predecessor of a member is a member.
  pub prev-member : (a : Ptr) → mem a (p ∷ ps) ≡ true → check t.heap (t.heap.prev a) ≡ some tt
  prev-member a i = m.1.alive (t.heap.prev a) (elim (Bool-cases (a == p)) [
    | inl hit ↦
        let e : a ≡ p = ground arith in
        subst (λ b. mem b (p ∷ ps) ≡ true)
          (sym (ap t.heap.prev e ∙ Chain-last t.heap p ps p m.1.links)) (mem-last p ps)
    | inr miss ↦ prev-mem t.heap p ps a p m.1.links (ground arith)
  ])

  last-member : mem (t.heap.prev p) (p ∷ ps) ≡ true
  last-member =
      subst (λ b. mem b (p ∷ ps) ≡ true) (sym (Chain-last t.heap p ps p m.1.links)) (mem-last p ps)

  loop :
      (before l : Ptr)
      → (lists : AddressLists) × (populate_loop
            (suc (length ps))
            t.heap
            p
            (suc (length ps))
            before
            l
          ≡ some lists)
        × (lists.ids ≡ told t.heap (p ∷ ps))
  loop before l = (
    record {
      ids = told t.heap (p ∷ ps);
      nodes_to_send_to = picked t.heap (suc (length ps)) before l (p ∷ ps);
    },
    populate_loop-Chain t.heap (suc (length ps)) before l p ps p m.1.links m.1.alive,
    refl,
  )

  -- It tells of all members.
  pub populate-told :
      (lists : AddressLists) × (populate_address_lists t ≡ some lists)
      × (lists.ids ≡ told t.heap (p ∷ ps))
  unfolding populate_address_lists
  populate-told =
      let live_p = m.1.alive p (ground arith) in
      let ne = (IsLive_of_check t.heap p live_p).ne_null in
      let last_runs = load-live t.heap t.heap.prev p live_p in
      let before_runs =
        load-live t.heap t.heap.prev (t.heap.prev p) (prev-member p (ground arith)) in
      let ip_runs =
        load-live t.heap t.heap.ip (t.heap.prev (t.heap.prev p))
          (prev-member (t.heap.prev p) last-member) in
      elim (Bool-cases (ltb 1 (suc (length ps)))) [
        | inr alone ↦
            let no_more : ltb 2 (suc (length ps)) ≡ false = ground (arith, alone) in
            let (lists, runs, e) = loop null null in
            (lists, rw (m.0, ne, alone, no_more, runs) refl, e)
        | inl several ↦
            let (lists, runs, e) = loop (t.heap.prev (t.heap.prev p)) (t.heap.prev p) in
            elim (Bool-cases (ltb 2 (suc (length ps)))) [
              | inr pair ↦
                  (lists, rw (m.0, ne, several, pair, last_runs, before_runs, runs) refl, e)
              | inl many ↦ (
                record lists {
                  nodes_to_send_to =
                      t.heap.ip (t.heap.prev (t.heap.prev p)) ∷ lists.nodes_to_send_to;
                },
                rw (m.0, ne, several, many, last_runs, before_runs, ip_runs, runs) refl,
                e,
              )
            ]
      ]
