-- ===== src/Ring/Unlink.antt =====
-- What the two writes of `remove_from_list` make of a ring.
use cs425_mp.Common.{
  suc, ◌-◌, ◌≡◌, refl, sym, ◌∙◌, ap, subst, true, false, none, some, List, [], ◌∷◌, ◌==◌, ==_refl,
  ==_false, ==_true, arith, Bool-cases, inl, inr, length, strcmp_eq, if◌then◌else◌,
}
use cs425_mp.Ring.{
  Ptr, Heap, Head, update, check, load, set_next, set_prev, free, unlink, remove_node,
}
use cs425_mp.Ring.Links.{
  mem, mem-append, ne_of_mem, Distinct, Chain, Chain-last, Chain-first, Chain-frame, Chain-redirect,
  last, first,
}
use cs425_mp.Ring.Walk.{IsRing}
use cs425_mp.Ring.Add.{IsLive}

-- The list without its first `v`.
abbrev pub without : Ptr → List Ptr → List Ptr
without v [] = []
without v (x ∷ xs) = if x == v then xs else x ∷ without v xs

-- The heap after `unlink` and `free`.
abbrev pub removed : Heap → Ptr → Heap
removed h v = record h {
  live = update h.live v false;
  next = update h.next (h.prev v) (h.next v);
  prev = update h.prev (h.next v) (h.prev v);
}

pub mem-first : (p : Ptr) (xs : List Ptr) → mem (first xs p) (p ∷ xs) ≡ true
mem-first p [] = ground arith
mem-first p (x ∷ xs) = ground arith

-- The neighbours of a member are members or the ends of the chain.
pub prev-mem :
    (h : Heap) (p : Ptr) (xs : List Ptr) (v q : Ptr)
    → Chain h p xs q
    → mem v xs ≡ true
    → mem (h.prev v) (p ∷ xs) ≡ true
prev-mem h p [] v q c i = cc
prev-mem h p (x ∷ xs) v q c i = elim (Bool-cases (v == x)) [
  | inl hit ↦ let e : v ≡ x = ground arith in rw (e, c.0.prev, ==_refl)
  | inr miss ↦ ground (arith, prev-mem h x xs v q c.1)
]

pub next-mem :
    (h : Heap) (p : Ptr) (xs : List Ptr) (v q : Ptr)
    → Chain h p xs q
    → mem v xs ≡ true
    → mem (h.next v) (q ∷ xs) ≡ true
next-mem h p [] v q c i = cc
next-mem h p (x ∷ xs) v q c i = elim (Bool-cases (v == x)) [
  | inl hit ↦
      let e : v ≡ x = ground arith in
      subst (λ a. mem a (q ∷ x ∷ xs) ≡ true) (sym (ap h.next e ∙ Chain-first h x xs q c.1))
        (first-mem xs)
  | inr miss ↦ ground (arith, next-mem h x xs v q c.1)
]
  where
    first-mem : (xs : List Ptr) → mem (first xs q) (q ∷ x ∷ xs) ≡ true
    first-mem [] = ground arith
    first-mem (y ∷ ys) = ground arith

-- In the middle: the neighbours of `v` are linked to one another.
Chain-without :
    (h g : Heap) (p : Ptr) (xs : List Ptr) (v q : Ptr)
    → Chain h p xs q
    → Distinct (p ∷ xs)
    → mem q xs ≡ false
    → mem v xs ≡ true
    → ((a : Ptr) → (a == h.prev v) ≡ false → g.next a ≡ h.next a)
    → ((a : Ptr) → (a == h.next v) ≡ false → g.prev a ≡ h.prev a)
    → g.next (h.prev v) ≡ h.next v
    → g.prev (h.next v) ≡ h.prev v
    → Chain g p (without v xs) q
Chain-without h g p [] v q c d o i n w e f = ground arith
Chain-without h g p (x ∷ []) v q c d o i n w e f =
    let ex : x ≡ v = ground arith in
    rw (==_true x v ex) (record {
      next = ap g.next (sym (ap h.prev (sym ex) ∙ c.0.prev)) ∙ e ∙ ap h.next (sym ex) ∙ c.1.next;
      prev = ap g.prev (sym (ap h.next (sym ex) ∙ c.1.next)) ∙ f ∙ ap h.prev (sym ex) ∙ c.0.prev;
    })
Chain-without h g p (x ∷ y ∷ ys) v q c d o i n w e f = elim (Bool-cases (x == v)) [
  | inl hit ↦ rw hit (
      let ex : x ≡ v = ground arith in
      let back : h.prev v ≡ p = ap h.prev (sym ex) ∙ c.0.prev in
      let on : h.next v ≡ y = ap h.next (sym ex) ∙ c.1.0.next in
      (
        record { next = ap g.next (sym back) ∙ e ∙ on; prev = ap g.prev (sym on) ∙ f ∙ back },
        Chain-frame h g y ys q c.1.1
            (λ a j. n a (rw back (ne_of_mem a p (y ∷ ys) j (ground (arith, d.0)))))
            (λ a j.
              w a (rw on (ground (arith, mem-append a ys (q ∷ []), d.1.1.0, ne_of_mem a y ys)))),
      ))
  | inr miss ↦ rw miss (
    record {
      next =
          n p (
            ground (
              arith,
              ne_of_mem (h.prev v) p (x ∷ y ∷ ys) (prev-mem h x (y ∷ ys) v q c.1 (ground arith))
                  d.0,
            ))
          ∙ c.0.next;
      prev =
          w x (
            ground (
              arith,
              ne_of_mem (h.next v) x (q ∷ y ∷ ys) (next-mem h x (y ∷ ys) v q c.1 (ground arith))
                  (ground (arith, d.1.0)),
            ))
          ∙ c.0.prev;
    },
    Chain-without h g x (y ∷ ys) v q c.1 d.1 (ground arith) (ground arith) n w e f,
  )
]

mem-without : (a v : Ptr) (xs : List Ptr) → mem a xs ≡ false → mem a (without v xs) ≡ false
mem-without a v [] o = o
mem-without a v (x ∷ xs) o = ground (arith, mem-without a v xs)

mem_of_without : (a v : Ptr) (xs : List Ptr) → mem a (without v xs) ≡ true → mem a xs ≡ true
mem_of_without a v [] i = i
mem_of_without a v (x ∷ xs) i = ground (arith, mem_of_without a v xs)

Distinct-without : (v : Ptr) (xs : List Ptr) → Distinct xs → Distinct (without v xs)
Distinct-without v [] d = d
Distinct-without v (x ∷ xs) d = elim (Bool-cases (x == v)) [
  | inl hit ↦ rw hit d.1
  | inr miss ↦ rw miss (mem-without x v xs d.0, Distinct-without v xs d.1)
]

not-mem-without : (v : Ptr) (xs : List Ptr) → Distinct xs → mem v (without v xs) ≡ false
not-mem-without v [] d = refl
not-mem-without v (x ∷ xs) d = elim (Bool-cases (x == v)) [
  | inl hit ↦ let e : x ≡ v = ground arith in rw (hit, ← e) d.0
  | inr miss ↦ rw miss (ground (arith, not-mem-without v xs d.1))
]

pub length-without :
    (v : Ptr) (xs : List Ptr) → mem v xs ≡ true → suc (length (without v xs)) ≡ length xs
length-without v [] i = cc
length-without v (x ∷ xs) i = elim (Bool-cases (x == v)) [
  | inl hit ↦ rw hit
  | inr miss ↦ rw miss (ap suc (length-without v xs (ground arith)))
]

-- What `remove_node` computes at a live node with live neighbours.
pub remove_node-runs :
    (h : Heap) (head : Head) (v : Ptr)
    → IsLive h head.node
    → IsLive h v
    → IsLive h (h.next v)
    → IsLive h (h.prev v)
    → remove_node h head v
      ≡ some (record {
        heap = removed h v;
        head =
            if head.num_of_nodes - 1 == 0
            then none
            else some (record {
              node =
                  if strcmp_eq (h.ip head.node) (h.ip v)
                  then update h.next (h.prev v) (h.next v) head.node
                  else head.node;
              num_of_nodes = head.num_of_nodes - 1;
            });
      })
unfolding remove_node unlink load set_next set_prev free check
remove_node-runs h head v lp lv ln lq = ground arith

-- What is left of a ring when a member that is not the first goes.
pub removed-IsRing :
    (h : Heap) (p : Ptr) (ps : List Ptr) (v : Ptr)
    → IsRing h p ps
    → mem v ps ≡ true
    → IsRing (removed h v) p (without v ps)
unfolding check
removed-IsRing h p ps v r i = record {
  links =
      Chain-without h (removed h v) p ps v p r.links r.distinct r.distinct.0 i (λ a ne. rw ne)
        (λ a ne. rw ne) (rw ==_refl) (rw ==_refl);
  distinct = (mem-without p v ps r.distinct.0, Distinct-without v ps r.distinct.1);
  alive = λ a j.
      rw
        (ne_of_mem a v (p ∷ without v ps) j
          (ground (arith, not-mem-without v ps r.distinct.1, ne_of_mem v p ps i r.distinct.0)))
        (r.alive a (ground (arith, mem_of_without a v ps)));
}

-- And when the first one goes: the second one leads.
pub removed_first-IsRing :
    (h : Heap) (p x : Ptr) (xs : List Ptr) → IsRing h p (x ∷ xs) → IsRing (removed h p) x xs
unfolding check
removed_first-IsRing h p x xs r =
    let back : h.prev p ≡ last x xs = Chain-last h x xs p r.links.1 in
    let on : h.next p ≡ x = r.links.0.next in
    record {
      links =
          Chain-redirect h (removed h p) x xs p x r.links.1 r.distinct.1
            (λ a i ne. rw (==_false a (h.prev p) (λ e. ne (e ∙ back))))
            (λ a i. rw (==_false a (h.next p) (λ e. ground (arith, on, r.distinct.1.0))))
            (rw (==_true (last x xs) (h.prev p) (sym back)) on)
            (rw (==_true x (h.next p) (sym on)) back);
      distinct = r.distinct.1;
      alive = λ a i. rw (ne_of_mem a p (x ∷ xs) i r.distinct.0) (r.alive a (ground arith));
    }
