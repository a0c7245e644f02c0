-- ===== src/Membership/Targets.antt =====
-- Whom a new member is announced to.
use mathlib.Core.List.{List}
use cs425_mp.Common.{
  ℕ, suc, ◌+◌, ◌≡◌, refl, ◌∙◌, ap, true, false, not, ◌&&◌, ◌||◌, some, [], ◌∷◌, ◌++◌, map, Bytes,
  ◌==◌, ==_false, ltb, arith, length, length-append, if◌then◌else◌, lt→ltb,
}
use cs425_mp.Ring.{Ptr, Heap, Topology, check}
use cs425_mp.Ring.Links.{mem, mem-append, Distinct, Chain, Chain-last, Chain-split, last}
use cs425_mp.Ring.Walk.{Members, Alive, load-live}
use cs425_mp.Ring.Add.{IsLive_of_check}
use cs425_mp.Membership.{populate_loop, populate_address_lists}

-- The members as they are told: timestamp and address.
abbrev pub told : Heap → List Ptr → List (ℕ × Bytes)
told h ps = map (λ p. (h.timestamp p, h.ip p)) ps

-- The addresses that the loop picks.
abbrev pub picked : Heap → ℕ → Ptr → Ptr → List Ptr → List Bytes
picked h count before last [] = []
picked h count before last (p ∷ ps) =
    if ltb 1 count && ((count == 2) || not (p == before)) && not (p == last)
    then h.ip p ∷ picked h count before last ps
    else picked h count before last ps

pub populate_loop-Chain :
    (h : Heap) (count : ℕ) (before l p : Ptr) (ps : List Ptr) (q : Ptr)
    → Chain h p ps q
    → Alive h (p ∷ ps)
    → populate_loop (suc (length ps)) h p count before l
      ≡ some (record { ids = told h (p ∷ ps); nodes_to_send_to = picked h count before l (p ∷ ps) })
unfolding populate_loop
populate_loop-Chain h count before l p [] q c alive =
    let e : check h p ≡ some tt = alive p (ground arith) in
    rw (load-live h h.timestamp p e, load-live h h.ip p e, load-live h h.next p e)
populate_loop-Chain h count before l p (x ∷ xs) q c alive =
    let e : check h p ≡ some tt = alive p (ground arith) in
    rw (
      load-live h h.timestamp p e,
      load-live h h.ip p e,
      load-live h h.next p e,
      c.0.next,
      populate_loop-Chain h count before l x xs q c.1 (λ a i. alive a (ground arith)),
    )

-- Among more than two the loop picks all but the last two.
picked-many :
    (h : Heap) (count : ℕ) (before l : Ptr) (ys : List Ptr)
    → (ltb 1 count ≡ true) × ((count == 2) ≡ false)
    → mem before ys ≡ false
    → mem l ys ≡ false
    → picked h count before l (ys ++ before ∷ l ∷ []) ≡ map (λ p. h.ip p) ys
picked-many h count before l [] c b e = ground (arith, c.0, c.1)
picked-many h count before l (y ∷ ys) c b e =
    let b' : (y == before) ≡ false = ground arith in
    let e' : (y == l) ≡ false = ground arith in
    rw (c.0, c.1, b', e')
      (ap (λ t. h.ip y ∷ t) (picked-many h count before l ys c (ground arith) (ground arith)))

-- Of two members it picks the first.
picked-two : (h : Heap) (p l : Ptr) → (p == l) ≡ false → picked h 2 p l (p ∷ l ∷ []) ≡ h.ip p ∷ []
picked-two h p l ne = ground (arith, ne)

Distinct-apart :
    (ys : List Ptr) (b l : Ptr)
    → Distinct (ys ++ b ∷ l ∷ [])
    → (mem b ys ≡ false) × (mem l ys ≡ false) × ((b == l) ≡ false)
Distinct-apart [] b l d = (refl, refl, ground (arith, d.0))
Distinct-apart (y ∷ ys) b l d =
    let (hb, hl, ne) = Distinct-apart ys b l d.1 in
    (
      ground (arith, mem-append y ys (b ∷ l ∷ []), d.0),
      ground (arith, mem-append y ys (b ∷ l ∷ []), d.0),
      ne,
    )

last-snoc : (p : Ptr) (ys : List Ptr) (b l : Ptr) → last p (ys ++ b ∷ l ∷ []) ≡ l
last-snoc p [] b l = refl
last-snoc p (y ∷ ys) b l = last-snoc y ys b l

length_many : (zs : List Ptr) (b l : Ptr) → length (zs ++ b ∷ l ∷ []) ≡ length zs + 2
length_many zs b l = omega (arith, length-append zs (b ∷ l ∷ []))

module _ (t : Topology) (p : Ptr) (zs : List Ptr) (b l : Ptr)
    (m : Members t (p ∷ (zs ++ b ∷ l ∷ []))) where
  abbrev rest : List Ptr
  rest = zs ++ b ∷ l ∷ []

  last_is : t.heap.prev p ≡ l
  last_is = Chain-last t.heap p rest p m.1.links ∙ last-snoc p zs b l

  before_is : t.heap.prev l ≡ b
  before_is = (Chain-split t.heap p zs b (l ∷ []) p m.1.links).1.0.prev

  alive-l : check t.heap l ≡ some tt
  alive-l = m.1.alive l (ground (arith, mem-append l zs (b ∷ l ∷ [])))

  alive-b : check t.heap b ≡ some tt
  alive-b = m.1.alive b (ground (arith, mem-append b zs (b ∷ l ∷ [])))

  alive-p : check t.heap p ≡ some tt
  alive-p = m.1.alive p (ground arith)

  -- With more than two members, `populate_ipAddrList` tells of all of them in the order of the ring,
  -- and a new member is announced to each of the others once: the members but the last, the one
  -- before the last of them first.
  pub populate-Members :
      populate_address_lists t
      ≡ some (record {
        ids = told t.heap (p ∷ (zs ++ b ∷ l ∷ []));
        nodes_to_send_to = t.heap.ip b ∷ map (λ a. t.heap.ip a) (p ∷ zs);
      })
  unfolding populate_address_lists
  populate-Members =
      let apart = Distinct-apart (p ∷ zs) b l m.1.distinct in
      let many : ltb 2 (suc (length rest)) ≡ true =
        lt→ltb _ _ (omega (arith, length_many zs b l)) in
      let several : ltb 1 (suc (length rest)) ≡ true =
        lt→ltb _ _ (omega (arith, length_many zs b l)) in
      let not_two : (suc (length rest) == 2) ≡ false =
        ==_false _ _ (λ e. omega (arith, length_many zs b l)) in
      rw
        (
          m.0,
          (IsLive_of_check t.heap p alive-p).ne_null,
          several,
          load-live t.heap t.heap.prev p alive-p,
          last_is,
          load-live t.heap t.heap.prev l alive-l,
          before_is,
          many,
          load-live t.heap t.heap.ip b alive-b,
          populate_loop-Chain t.heap (suc (length rest)) b l p rest p m.1.links m.1.alive,
        )
        (ap
          (λ a. some (record { ids = told t.heap (p ∷ rest); nodes_to_send_to = t.heap.ip b ∷ a }))
          (picked-many t.heap (suc (length rest)) b l (p ∷ zs) (several, not_two) apart.0 apart.1))
