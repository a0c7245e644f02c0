-- ===== src/Ring/Fields.antt =====
-- What the operations of the list leave in the nodes besides the links.
use cs425_mp.Common.{
  ℕ, ◌≡◌, refl, ◌∙◌, ap, Bool, true, false, Option, none, some, ◌==◌, Bytes, arith, Bool-cases, inl,
  inr, >>=-elim, subst,
}
use cs425_mp.Ring.{
  Ptr, null, Heap, Head, Topology, update, check, load, set_next, set_prev, free, init_node,
  node_ip, id_ip, id_timestamp, insert_last, find_ip, add_to_list, find_exact, unlink, remove_node,
  remove_from_list,
}

-- The addresses and the timestamps are the same.
abbrev pub SameText : Heap → Heap → Type 0
SameText h h' = (h'.ip ≡ h.ip) × (h'.timestamp ≡ h.timestamp)

texts_kept : (h g k : Heap) → SameText h g → SameText g k → SameText h k
texts_kept h g k a b = (b.0 ∙ a.0, b.1 ∙ a.1)

set_next-SameText : (h : Heap) (p q : Ptr) (h' : Heap) → set_next h p q ≡ some h' → SameText h h'
unfolding set_next check
set_next-SameText h p q h' e = ground arith

set_prev-SameText : (h : Heap) (p q : Ptr) (h' : Heap) → set_prev h p q ≡ some h' → SameText h h'
unfolding set_prev check
set_prev-SameText h p q h' e = ground arith

free-SameText : (h : Heap) (p : Ptr) (h' : Heap) → free h p ≡ some h' → SameText h h'
unfolding free check
free-SameText h p h' e = ground arith

insert_last-SameText :
    (h : Heap) (p new : Ptr) (h' : Heap) → insert_last h p new ≡ some h' → SameText h h'
unfolding insert_last
insert_last-SameText h p new h' e = >>=-elim (set_next h new p) _ e λ h1 e1 k1.
    >>=-elim (load h1 h1.prev p) _ k1 λ last e2 k2. >>=-elim (set_prev h1 new last) _ k2 λ h2 e3 k3.
      >>=-elim (load h2 h2.prev p) _ k3 λ before e4 k4.
        >>=-elim (set_next h2 before new) _ k4 λ h3 e5 k5.
          texts_kept h h1 h' (set_next-SameText h new p h1 e1) (
            texts_kept h1 h2 h' (set_prev-SameText h1 new last h2 e3) (
              texts_kept h2 h3 h' (set_next-SameText h2 before new h3 e5)
                (set_prev-SameText h3 p new h' k5)))

unlink-SameText : (h : Heap) (p : Ptr) (h' : Heap) → unlink h p ≡ some h' → SameText h h'
unfolding unlink
unlink-SameText h p h' e = >>=-elim (load h h.next p) _ e λ next e1 k1.
    >>=-elim (load h h.prev p) _ k1 λ prev e2 k2. >>=-elim (set_prev h next prev) _ k2 λ h1 e3 k3.
      texts_kept h h1 h' (set_prev-SameText h next prev h1 e3)
        (set_next-SameText h1 prev next h' k3)

remove_node-SameText :
    (h : Heap) (head : Head) (p : Ptr) (t' : Topology)
    → remove_node h head p ≡ some t'
    → SameText h t'.heap
unfolding remove_node
remove_node-SameText h head p t' e = >>=-elim (unlink h p) _ e λ h1 e1 k1.
    >>=-elim (load h1 h1.ip head.node) _ k1 λ head_ip e2 k2.
      >>=-elim (load h1 h1.ip p) _ k2 λ ip e3 k3.
        >>=-elim (load h1 h1.next head.node) _ k3 λ first e4 k4.
          >>=-elim (free h1 p) _ k4 λ h2 e5 k5.
            texts_kept h h1 t'.heap (unlink-SameText h p h1 e1)
              (texts_kept h1 h2 t'.heap (free-SameText h1 p h2 e5) (ground (arith, k5)))

set_next-live : (h : Heap) (p q : Ptr) (h' : Heap) → set_next h p q ≡ some h' → h'.live ≡ h.live
unfolding set_next check
set_next-live h p q h' e = ground arith

set_prev-live : (h : Heap) (p q : Ptr) (h' : Heap) → set_prev h p q ≡ some h' → h'.live ≡ h.live
unfolding set_prev check
set_prev-live h p q h' e = ground arith

insert_last-live :
    (h : Heap) (p new : Ptr) (h' : Heap) → insert_last h p new ≡ some h' → h'.live ≡ h.live
unfolding insert_last
insert_last-live h p new h' e = >>=-elim (set_next h new p) _ e λ h1 e1 k1.
    >>=-elim (load h1 h1.prev p) _ k1 λ last e2 k2. >>=-elim (set_prev h1 new last) _ k2 λ h2 e3 k3.
      >>=-elim (load h2 h2.prev p) _ k3 λ before e4 k4.
        >>=-elim (set_next h2 before new) _ k4 λ h3 e5 k5.
          set_prev-live h3 p new h' k5
          ∙ set_next-live h2 before new h3 e5
          ∙ set_prev-live h1 new last h2 e3
          ∙ set_next-live h new p h1 e1

-- The timestamps after `add_to_list`, when the search found `o`.
abbrev pub stamped : Option Ptr → (Ptr → ℕ) → Ptr → ℕ → Ptr → ℕ
stamped none f new ts = update f new ts
stamped (some q) f new ts = update (update f new ts) q ts

-- The new node gets the address, also where it is not put into the ring.
abbrev pub Added : Option Ptr → Heap → Ptr → Bytes → Heap → Type 0
Added o h new id h' =
    (h'.ip ≡ update h.ip new (node_ip id))
    × (h'.timestamp ≡ stamped o h.timestamp new (id_timestamp id))
    × (h'.live ≡ update h.live new true)

init_node-Added :
    (h : Heap) (new : Ptr) (id : Bytes)
    → (new == null) ≡ false
    → Added none h new id (init_node h new id)
unfolding init_node
init_node-Added h new id ne = rw ne (refl, refl, refl)

some_injective : (a b : Topology) → Path (Option Topology) (some a) (some b) → a ≡ b
some_injective a b e = ground arith

pub add_first-Added :
    (t t' : Topology) (new : Ptr) (id : Bytes)
    → (new == null) ≡ false
    → t.head ≡ none
    → add_to_list new id t ≡ some t'
    → Added none t.heap new id t'.heap
unfolding add_to_list
add_first-Added t t' new id ne e runs =
    let runs1 = (rw e at runs) in
    subst (λ u. Added none t.heap new id u.heap) (some_injective _ _ runs1)
      (init_node-Added t.heap new id ne)

pub add_later-Added :
    (t t' : Topology) (new : Ptr) (id : Bytes) (head : Head) (o : Option Ptr)
    → (new == null) ≡ false
    → t.head ≡ some head
    → find_ip head.num_of_nodes (init_node t.heap new id) head.node (id_ip id) ≡ some o
    → add_to_list new id t ≡ some t'
    → Added o t.heap new id t'.heap
unfolding add_to_list
add_later-Added t t' new id head none ne e found runs =
    let runs1 = (rw (e, found) at runs) in
    let (a, b, l) = init_node-Added t.heap new id ne in
    >>=-elim (insert_last (init_node t.heap new id) head.node new) _ runs1 λ h' e1 k1.
      let (c, d) = insert_last-SameText (init_node t.heap new id) head.node new h' e1 in
      subst (λ u. Added none t.heap new id u.heap) (some_injective _ _ k1)
        (c ∙ a, d ∙ b, insert_last-live (init_node t.heap new id) head.node new h' e1 ∙ l)
add_later-Added t t' new id head (some q) ne e found runs =
    let runs1 = (rw (e, found) at runs) in
    let (a, b, l) = init_node-Added t.heap new id ne in
    subst (λ u. Added (some q) t.heap new id u.heap) (some_injective _ _ runs1)
      (a, ap (λ f. update f q (id_timestamp id)) b, l)

pair_injective :
    (a b : Bool × Topology) → Path (Option (Bool × Topology)) (some a) (some b) → a.1 ≡ b.1
pair_injective (a, x) (b, y) e = ground arith

-- An outcome that is the topology itself, whatever is known of its head.
unchanged :
    (t t' : Topology) (b : Bool) (o : Option Head) (c : Bool)
    → Path (Option (Bool × Topology)) (some (c, record t { head = o })) (some (b, t'))
    → SameText t.heap t'.heap
unchanged t t' b o c e =
    subst (λ v. SameText t.heap v.heap) (pair_injective (c, record t { head = o }) (b, t') e)
      (refl, refl)

module _ (t t' : Topology) (id : Bytes) (b : Bool)
    (runs : remove_from_list id t ≡ some (b, t')) where
  remove_head :
      (head : Head) (found : Option Ptr)
      → t.head ≡ some head
      → (head.node == null) ≡ false
      → find_exact head.num_of_nodes t.heap head.node head.node (id_ip id) ≡ some found
      → SameText t.heap t'.heap
  unfolding remove_from_list
  remove_head head none e ne f = unchanged t t' b (some head) false (rw (e, ne, f) at runs)
  remove_head head (some p) e ne f =
      let runs1 = (rw (e, ne, f) at runs) in
      >>=-elim (remove_node t.heap head p) _ runs1 λ u e1 k1.
        subst (λ v. SameText t.heap v.heap) (pair_injective _ _ k1)
          (remove_node-SameText t.heap head p u e1)

  remove_some : (o : Option Head) → t.head ≡ o → SameText t.heap t'.heap
  unfolding remove_from_list
  remove_some none e = unchanged t t' b none false (rw e at runs)
  remove_some (some head) e = elim (Bool-cases (head.node == null)) [
    | inl at_null ↦ unchanged t t' b (some head) false (rw (e, at_null) at runs)
    | inr ne ↦
        let runs1 = (rw (e, ne) at runs) in
        >>=-elim (find_exact head.num_of_nodes t.heap head.node head.node (id_ip id)) _ runs1
          λ found f k1. remove_head head found e ne f
  ]

  pub remove_from_list-SameText : SameText t.heap t'.heap
  remove_from_list-SameText = remove_some t.head refl
