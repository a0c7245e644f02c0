-- ===== src/Ring/Add.antt =====
-- `add_to_list` puts a new member last, or renews the timestamp of one that is there.
use cs425_mp.Common.{
  ℕ, suc, ◌+◌, ◌≡◌, refl, sym, ◌∙◌, ap, ◌≢◌, subst, true, false, Option, none, some, List, [], ◌∷◌,
  ◌++◌, ◌==◌, ==_refl, ==_false, Bytes, arith, Bool-cases, inl, inr, length, length-append,
}
use cs425_mp.Ring.{
  Ptr, null, Heap, Topology, update, check, load, set_next, set_prev, init_node, id_ip,
  id_timestamp, insert_last, find_ip, add_to_list,
}
use cs425_mp.Ring.Links.{
  mem, mem-append, mem-last, ne_of_mem, mem-swap, Distinct, Chain-last, Chain-frame, Chain-redirect,
  Chain-join, last,
}
use cs425_mp.Ring.Walk.{IsRing, Members, search_ip, find_ip-Chain, Alive}

-- A node that may be used: not null, and live.
pub record IsLive (h : Heap) (p : Ptr) : Type 0 where
  pub ne_null : (p == null) ≡ false
  pub live : h.live p ≡ true

pub IsLive_of_check : (h : Heap) (p : Ptr) → check h p ≡ some tt → IsLive h p
unfolding check
IsLive_of_check h p e = ground arith

pub check_of_IsLive : (h : Heap) (p : Ptr) → IsLive h p → check h p ≡ some tt
unfolding check
check_of_IsLive h p e = rw (e.ne_null, e.live)

-- The heap after the writes of `insert_last`.
abbrev inserted : Heap → Ptr → Ptr → Heap
inserted h p new = record h {
  next = update (update h.next new p) (h.prev p) new;
  prev = update (update h.prev new (h.prev p)) p new;
}

insert_last-runs :
    (h : Heap) (p new : Ptr)
    → IsLive h p
    → IsLive h new
    → IsLive h (h.prev p)
    → (p == new) ≡ false
    → insert_last h p new ≡ some (inserted h p new)
unfolding insert_last load set_next set_prev check
insert_last-runs h p new lp ln lq ne = ground arith

Distinct-snoc : (xs : List Ptr) (n : Ptr) → Distinct xs → mem n xs ≡ false → Distinct (xs ++ n ∷ [])
Distinct-snoc [] n d o = (refl, tt)
Distinct-snoc (x ∷ xs) n d o =
    (ground (arith, mem-append x xs (n ∷ []), d.0), Distinct-snoc xs n d.1 (ground arith))

-- The new node in its place closes the ring again.
inserted-IsRing :
    (h : Heap) (p new : Ptr) (ps : List Ptr)
    → IsRing h p ps
    → mem new (p ∷ ps) ≡ false
    → check h new ≡ some tt
    → IsRing (inserted h p new) p (ps ++ new ∷ [])
inserted-IsRing h p new ps r out ok =
    let before : h.prev p ≡ last p ps = Chain-last h p ps p r.links in
    record {
      links =
          Chain-join (inserted h p new) p ps new [] p
            (Chain-redirect h (inserted h p new) p ps p new r.links r.distinct
              (λ a i ne. ground (arith, before)) (λ a i. ground (arith, r.distinct.0))
              (ground (arith, before)) (ground (arith, before)))
            (record { next = ground (arith, before, mem-last p ps); prev = ground arith });
      distinct = Distinct-snoc (p ∷ ps) new r.distinct out;
      alive = λ a i. elim (Bool-cases (mem a (p ∷ ps))) [
        | inl old ↦ (unfold check in r.alive a old)
        | inr fresh ↦
            let e : a ≡ new = ground (arith, mem-append a (p ∷ ps) (new ∷ [])) in
            (unfold check in rw e ok)
      ];
    }

-- A node that is not allocated is no member.
pub not-mem_of_unused :
    (h : Heap) (new : Ptr) (ps : List Ptr) → h.live new ≡ false → Alive h ps → mem new ps ≡ false
not-mem_of_unused h new ps unused alive = elim (Bool-cases (mem new ps)) [
  | inl i ↦ absurd (clash (IsLive_of_check h new (alive new i)))
  | inr o ↦ o
]
  where
    clash : IsLive h new → ⊥
    clash l = ground (arith, l.live)

module _ (h : Heap) (new : Ptr) (id : Bytes) (ne : (new == null) ≡ false) where
  abbrev started : Heap
  started = init_node h new id

  started-live : check started new ≡ some tt
  unfolding init_node check
  started-live = ground arith

  pub started-IsRing :
      (p : Ptr) (ps : List Ptr) → IsRing h p ps → mem new (p ∷ ps) ≡ false → IsRing started p ps
  unfolding init_node check
  started-IsRing p ps r out = record {
    links =
        Chain-frame h started p ps p r.links (λ a i. rw (ne, ne_of_mem a new (p ∷ ps) i out))
          (λ a i. rw (ne, ne_of_mem a new (p ∷ ps) (sym (mem-swap a p ps) ∙ i) out));
    distinct = r.distinct;
    alive = λ a i. rw (ne, ne_of_mem a new (p ∷ ps) i out) (r.alive a i);
  }

  pub search-started :
      (ps : List Ptr)
      → mem new ps ≡ false
      → search_ip started ps (id_ip id) ≡ search_ip h ps (id_ip id)
  unfolding init_node
  search-started [] out = refl
  search-started (p ∷ ps) out =
      rw (search-started ps (ground arith)) (rw (ne, ne_of_mem p new (p ∷ ps) (ground arith) out))

-- A ring does not depend on timestamps.
IsRing-retime :
    (h : Heap) (p : Ptr) (ps : List Ptr) (stamps : Ptr → ℕ)
    → IsRing h p ps
    → IsRing (record h { timestamp = stamps }) p ps
unfolding check
IsRing-retime h p ps stamps r = record {
  links =
      Chain-frame h (record h { timestamp = stamps }) p ps p r.links (λ a i. refl) (λ a i. refl);
  distinct = r.distinct;
  alive = r.alive;
}

-- The members after `add_to_list` of a node that would stand at `new`, when the search found `o`.
abbrev pub joined : Option Ptr → List Ptr → Ptr → List Ptr
joined none ps new = ps ++ new ∷ []
joined (some p) ps new = ps

module _ (t : Topology) (new : Ptr) (id : Bytes) (ne : (new == null) ≡ false)
    (unused : t.heap.live new ≡ false) where
  first_member :
      t.head ≡ none → (t' : Topology) × (add_to_list new id t ≡ some t') × Members t' (new ∷ [])
  unfolding add_to_list init_node check
  first_member e = (
    record {
      heap = started t.heap new id ne;
      head = some (record { node = new; num_of_nodes = 1 });
    },
    rw e,
    (
      refl,
      record {
        links = record { next = rw (ne, ==_refl); prev = rw (ne, ==_refl) };
        distinct = (refl, tt);
        alive = λ a i. let e : a ≡ new = ground arith in rw (e, ne, ==_refl);
      },
    ),
  )

  module _ (p : Ptr) (ps : List Ptr)
      (e : t.head ≡ some (record { node = p; num_of_nodes = suc (length ps) }))
      (r : IsRing t.heap p ps) where
    out : mem new (p ∷ ps) ≡ false
    out = not-mem_of_unused t.heap new (p ∷ ps) unused r.alive

    ring : IsRing (started t.heap new id ne) p ps
    ring = started-IsRing t.heap new id ne p ps r out

    inserts :
        insert_last (started t.heap new id ne) p new
        ≡ some (inserted (started t.heap new id ne) p new)
    inserts =
        let g = started t.heap new id ne in
        insert_last-runs g p new (IsLive_of_check g p (ring.alive p (ground arith)))
          (IsLive_of_check g new (started-live t.heap new id ne))
          (IsLive_of_check g (g.prev p) (
            ring.alive (g.prev p) (
              subst (λ a. mem a (p ∷ ps) ≡ true) (sym (Chain-last g p ps p ring.links))
                (mem-last p ps))))
          (ne_of_mem p new (p ∷ ps) (ground arith) out)

    later_member :
        (o : Option Ptr)
        → find_ip (suc (length ps)) (started t.heap new id ne) p (id_ip id) ≡ some o
        → (t' : Topology) × (add_to_list new id t ≡ some t') × Members t' (joined o (p ∷ ps) new)
    unfolding add_to_list
    later_member none found = (
      record {
        heap = inserted (started t.heap new id ne) p new;
        head = some (record { node = p; num_of_nodes = suc (length ps) + 1 });
      },
      rw (e, found, inserts),
      (
        ap (λ n. some (record { node = p; num_of_nodes = n }))
            (omega (arith, length-append ps (new ∷ []))),
        inserted-IsRing (started t.heap new id ne) p new ps ring out
            (started-live t.heap new id ne),
      ),
    )
    later_member (some q) found = (
      record {
        heap = record (started t.heap new id ne) {
          timestamp = update (started t.heap new id ne).timestamp q (id_timestamp id);
        };
        head = some (record { node = p; num_of_nodes = suc (length ps) });
      },
      rw (e, found),
      (refl, IsRing-retime (started t.heap new id ne) p ps _ ring),
    )

-- From a well-formed ring, and a fresh node of `calloc`, `add_to_list` runs without a fault to a
-- well-formed ring, in which the new node is the last member if no member had the address, and
-- whose members and leader are the same otherwise.
pub add_to_list-Members :
    (t : Topology) (ps : List Ptr) (new : Ptr) (id : Bytes)
    → Members t ps
    → new ≢ null
    → t.heap.live new ≡ false
    → (t' : Topology) × (add_to_list new id t ≡ some t')
      × Members t' (joined (search_ip t.heap ps (id_ip id)) ps new)
add_to_list-Members t [] new id m n unused = first_member t new id (==_false new null n) unused m
add_to_list-Members t (p ∷ ps) new id m n unused =
    let ne = ==_false new null n in
    let r' = ring t new id ne unused p ps m.0 m.1 in
    later_member t new id ne unused p ps m.0 m.1 (search_ip t.heap (p ∷ ps) (id_ip id)) (
      find_ip-Chain (started t.heap new id ne) (id_ip id) p ps p r'.links r'.alive
      ∙ ap some (search-started t.heap new id ne (p ∷ ps) (out t new id ne unused p ps m.0 m.1)))
