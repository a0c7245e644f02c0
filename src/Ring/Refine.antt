-- ===== src/Ring/Refine.antt =====
-- What the list promises: a sequence of addresses with their timestamps.
pub mod Operations
pub mod Histories
pub mod Apart
use cs425_mp.Common.{
  ℕ, zero, suc, ◌≡◌, refl, sym, ◌∙◌, ap, ap₂, subst, Bool, true, false, Option, none, some, List,
  [], ◌∷◌, ◌++◌, Bytes, ◌==◌, ==_refl, ==_true, ==_false, arith, Bool-cases, inl, inr, length,
  bytes_eq, bytes_eq→eq, bytes_eq_refl, strcmp_eq, strncmp_eq, memcmp_eq, if◌then◌else◌, ◌≢◌, map,
}
use cs425_mp.Ring.{
  Ptr, null, Heap, Head, Topology, update, init_node, node_ip, id_ip, id_timestamp, find_ip,
  add_to_list, remove_from_list,
}
use cs425_mp.Ring.Links.{mem, mem-append, ne_of_mem, Distinct}
use cs425_mp.Ring.Walk.{IsRing, Members, search_ip, search_exact, search_ip-mem, search_exact-mem}
use cs425_mp.Ring.Add.{joined}
use cs425_mp.Ring.Remove.{DistinctIps, parted, is_found}
use cs425_mp.Ring.Unlink.{without}
use cs425_mp.Ring.Fields.{SameText, Added, stamped}
use cs425_mp.Ring.Addresses.{
  IsAddress, strcmp-IsAddress, strncmp-IsAddress, memcmp-IsAddress, node_ip-IsAddress,
}

-- A member as the others know it: its address and its timestamp.
abbrev pub Entry : Type 0
Entry = Bytes × ℕ

-- The specification. A known address gets the new timestamp in its place, another comes last.
abbrev pub enroll : Bytes → ℕ → List Entry → List Entry
enroll ip stamp [] = (ip, stamp) ∷ []
enroll ip stamp (e ∷ es) = if bytes_eq e.0 ip then (e.0, stamp) ∷ es else e ∷ enroll ip stamp es

abbrev pub withdraw : Bytes → List Entry → List Entry
withdraw ip [] = []
withdraw ip (e ∷ es) = if bytes_eq e.0 ip then es else e ∷ withdraw ip es

abbrev pub is_enrolled : Bytes → List Entry → Bool
is_enrolled ip [] = false
is_enrolled ip (e ∷ es) = if bytes_eq e.0 ip then true else is_enrolled ip es

-- The entries of the members.
abbrev pub entries : Heap → List Ptr → List Entry
entries h [] = []
entries h (p ∷ ps) = (h.ip p, h.timestamp p) ∷ entries h ps

abbrev pub HasAddresses : Heap → List Ptr → Type 0
HasAddresses h ps = (a : Ptr) → mem a ps ≡ true → IsAddress (h.ip a)

entries-frame :
    (h g : Heap) (ps : List Ptr)
    → ((a : Ptr) → mem a ps ≡ true → (g.ip a ≡ h.ip a) × (g.timestamp a ≡ h.timestamp a))
    → entries g ps ≡ entries h ps
entries-frame h g [] f = refl
entries-frame h g (p ∷ ps) f =
    let (a, b) = f p (ground arith) in
    ap₂ (λ x xs. x ∷ xs) (ap₂ (λ x y. (x, y)) a b)
      (entries-frame h g ps (λ q i. f q (ground arith)))

entries-append : (h : Heap) (ps qs : List Ptr) → entries h (ps ++ qs) ≡ entries h ps ++ entries h qs
entries-append h [] qs = refl
entries-append h (p ∷ ps) qs = ap (λ es. (h.ip p, h.timestamp p) ∷ es) (entries-append h ps qs)

module _ (h : Heap) (ip : Bytes) (ia : IsAddress ip) where
  enroll-new :
      (stamp : ℕ) (ps : List Ptr)
      → HasAddresses h ps
      → search_ip h ps ip ≡ none
      → enroll ip stamp (entries h ps) ≡ entries h ps ++ (ip, stamp) ∷ []
  enroll-new stamp [] ha s = refl
  enroll-new stamp (p ∷ ps) ha s =
      let e = strncmp-IsAddress (h.ip p) ip (ha p (ground arith)) ia in
      let f : bytes_eq (h.ip p) ip ≡ false = ground (arith, e, s) in
      rw f (
        ap (λ es. (h.ip p, h.timestamp p) ∷ es)
          (enroll-new stamp ps (λ q i. ha q (ground arith)) (ground (arith, e, s))))

  -- A member that the search does not find has another address.
  search_ip-none :
      (ps : List Ptr) (a : Ptr)
      → HasAddresses h ps
      → search_ip h ps ip ≡ none
      → mem a ps ≡ true
      → bytes_eq (h.ip a) ip ≡ false
  search_ip-none [] a ha s i = ground arith
  search_ip-none (p ∷ ps) a ha s i =
      let e = strncmp-IsAddress (h.ip p) ip (ha p (ground arith)) ia in
      elim (Bool-cases (a == p)) [
        | inl hit ↦ let e' : a ≡ p = ground arith in rw e' (ground (arith, e, s))
        | inr miss ↦
            search_ip-none ps a (λ q j. ha q (ground arith)) (ground (arith, e, s)) (ground arith)
      ]

  enroll-known :
      (g : Heap) (stamp : ℕ) (ps : List Ptr) (q : Ptr)
      → HasAddresses h ps
      → Distinct ps
      → search_ip h ps ip ≡ some q
      → ((a : Ptr) → mem a ps ≡ true → g.ip a ≡ h.ip a)
      → ((a : Ptr) → mem a ps ≡ true → g.timestamp a ≡ (if a == q then stamp else h.timestamp a))
      → entries g ps ≡ enroll ip stamp (entries h ps)
  enroll-known g stamp [] q ha d s gi gt = ground arith
  enroll-known g stamp (p ∷ ps) q ha d s gi gt = elim (Bool-cases (strncmp_eq 16 (h.ip p) ip)) [
    | inl hit ↦
        let e : p ≡ q = ground arith in
        let same : bytes_eq (h.ip p) ip ≡ true =
          sym (strncmp-IsAddress (h.ip p) ip (ha p (ground arith)) ia) ∙ hit in
        let at_p : g.timestamp p ≡ stamp = gt p (ground arith) ∙ rw (e, ==_refl) refl in
        rw same (
          ap₂ (λ x xs. x ∷ xs) (ap₂ (λ x y. (x, y)) (gi p (ground arith)) at_p)
            (entries-frame h g ps (λ a i.
              let ne : (a == q) ≡ false = ground (arith, ne_of_mem a p ps i d.0) in
              (gi a (ground arith), gt a (ground arith) ∙ rw ne refl))))
    | inr miss ↦
        let other : bytes_eq (h.ip p) ip ≡ false =
          sym (strncmp-IsAddress (h.ip p) ip (ha p (ground arith)) ia) ∙ miss in
        let (i, _) = search_ip-mem h ip ps q (rw miss at s) in
        let ne : (p == q) ≡ false = ground (arith, ne_of_mem q p ps i d.0) in
        rw other (
          ap₂ (λ x xs. x ∷ xs)
            (ap₂ (λ x y. (x, y)) (gi p (ground arith)) (gt p (ground arith) ∙ rw ne refl))
            (enroll-known g stamp ps q (λ a j. ha a (ground arith)) d.1 (rw miss at s)
              (λ a j. gi a (ground arith)) (λ a j. gt a (ground arith))))
  ]

  withdraw-parted :
      (ps : List Ptr) (o : Option Ptr)
      → HasAddresses h ps
      → Distinct ps
      → search_exact h ps ip ≡ o
      → (entries h (parted o ps) ≡ withdraw ip (entries h ps))
        × (is_found o ≡ is_enrolled ip (entries h ps))
  withdraw-parted [] none ha d s = (refl, refl)
  withdraw-parted [] (some v) ha d s = ground arith
  withdraw-parted (p ∷ ps) none ha d s =
      let same = memcmp-IsAddress (h.ip p) ip (ha p (ground arith)) ia in
      let miss : memcmp_eq 16 (h.ip p) ip ≡ false = ground (arith, s) in
      let other : bytes_eq (h.ip p) ip ≡ false = sym same ∙ miss in
      let (a, b) = withdraw-parted ps none (λ q j. ha q (ground arith)) d.1 (rw miss at s) in
      rw other (ap (λ es. (h.ip p, h.timestamp p) ∷ es) a, b)
  withdraw-parted (p ∷ ps) (some v) ha d s = elim (Bool-cases (memcmp_eq 16 (h.ip p) ip)) [
    | inl hit ↦
        let e : p ≡ v = ground arith in
        let same : bytes_eq (h.ip p) ip ≡ true =
          sym (memcmp-IsAddress (h.ip p) ip (ha p (ground arith)) ia) ∙ hit in
        rw (same, ==_true p v e) (refl, refl)
    | inr miss ↦
        let other : bytes_eq (h.ip p) ip ≡ false =
          sym (memcmp-IsAddress (h.ip p) ip (ha p (ground arith)) ia) ∙ miss in
        let s1 = (rw miss at s) in
        let ne : (p == v) ≡ false =
          ground (arith, ne_of_mem v p ps (search_exact-mem h ip ps v s1) d.0) in
        let (a, b) = withdraw-parted ps (some v) (λ q j. ha q (ground arith)) d.1 s1 in
        rw (other, ne) (ap (λ es. (h.ip p, h.timestamp p) ∷ es) a, b)
  ]

-- The topology stands for these entries: a well-formed ring, of addresses that all differ.
pub record Represents (t : Topology) (es : List Entry) : Type 0 where
  pub nodes : List Ptr
  pub members : Members t nodes
  pub addresses : HasAddresses t.heap nodes
  pub apart : DistinctIps t.heap nodes
  pub listed : entries t.heap nodes ≡ es
