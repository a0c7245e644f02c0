-- ===== src/Ring/Walk.antt =====
-- The ring that the list stands for, and its two searches.
use cs425_mp.Common.{
  suc, ◌≡◌, true, false, Option, none, some, List, [], ◌∷◌, ==_true, ==_false, Bytes, arith,
  Bool-cases, inl, inr, length, strncmp_eq, memcmp_eq, if◌then◌else◌,
}
use cs425_mp.Ring.{Ptr, Heap, Topology, check, load, find_ip, find_exact}
use cs425_mp.Ring.Links.{mem, Distinct, Chain}

-- From `p`, through `ps`, back to `p`: live nodes, each once, linked both ways.
pub record IsRing (h : Heap) (p : Ptr) (ps : List Ptr) : Type 0 where
  pub links : Chain h p ps p
  pub distinct : Distinct (p ∷ ps)
  pub alive : (a : Ptr) → mem a (p ∷ ps) ≡ true → check h a ≡ some tt

-- The members that a topology stands for, in the order of the ring, the leader first.
abbrev pub Members : Topology → List Ptr → Type 0
Members t [] = t.head ≡ none
Members t (p ∷ ps) =
    (t.head ≡ some (record { node = p; num_of_nodes = suc (length ps) })) × IsRing t.heap p ps

-- The first node of the list with the address, by `strncmp` and by `memcmp`.
abbrev pub search_ip : Heap → List Ptr → Bytes → Option Ptr
search_ip h [] ip = none
search_ip h (p ∷ ps) ip = if strncmp_eq 16 (h.ip p) ip then some p else search_ip h ps ip

abbrev pub search_exact : Heap → List Ptr → Bytes → Option Ptr
search_exact h [] ip = none
search_exact h (p ∷ ps) ip = if memcmp_eq 16 (h.ip p) ip then some p else search_exact h ps ip

pub load-live {ℓ} :
    {A : Type ℓ} (h : Heap) (field : Ptr → A) (p : Ptr)
    → check h p ≡ some tt
    → load h field p ≡ some (field p)
unfolding load
load-live h field p e = rw e

abbrev pub Alive : Heap → List Ptr → Type 0
Alive h ps = (a : Ptr) → mem a ps ≡ true → check h a ≡ some tt

module _ (h : Heap) (ip : Bytes) where
  pub find_ip-Chain :
      (p : Ptr) (ps : List Ptr) (q : Ptr)
      → Chain h p ps q
      → Alive h (p ∷ ps)
      → find_ip (suc (length ps)) h p ip ≡ some (search_ip h (p ∷ ps) ip)
  unfolding find_ip
  find_ip-Chain p [] q c l =
      let e : check h p ≡ some tt = l p (ground arith) in
      rw (load-live h h.ip p e, load-live h h.next p e) (ground arith)
  find_ip-Chain p (x ∷ xs) q c l =
      let e : check h p ≡ some tt = l p (ground arith) in
      rw
        (
          load-live h h.ip p e,
          load-live h h.next p e,
          c.0.next,
          find_ip-Chain x xs q c.1 (λ a i. l a (ground arith)),
        )
        (ground arith)

  pub find_exact-Chain :
      (start p : Ptr) (ps : List Ptr)
      → Chain h p ps start
      → mem start ps ≡ false
      → Alive h (p ∷ ps)
      → find_exact (suc (length ps)) h start p ip ≡ some (search_exact h (p ∷ ps) ip)
  unfolding find_exact
  find_exact-Chain start p [] c out l =
      let e : check h p ≡ some tt = l p (ground arith) in
      rw (load-live h h.ip p e, load-live h h.next p e, ==_true (h.next p) start c.next)
        (ground arith)
  find_exact-Chain start p (x ∷ xs) c out l =
      let e : check h p ≡ some tt = l p (ground arith) in
      rw
        (
          load-live h h.ip p e,
          load-live h h.next p e,
          c.0.next,
          find_exact-Chain start x xs c.1 (ground arith) (λ a i. l a (ground arith)),
          ==_false x start (ground arith),
        )
        (ground arith)

  pub search_ip-mem :
      (ps : List Ptr) (q : Ptr)
      → search_ip h ps ip ≡ some q
      → (mem q ps ≡ true) × (strncmp_eq 16 (h.ip q) ip ≡ true)
  search_ip-mem [] q e = ground arith
  search_ip-mem (p ∷ ps) q e = elim (Bool-cases (strncmp_eq 16 (h.ip p) ip)) [
    | inl t ↦ let e' : p ≡ q = ground arith in rw (← e') (ground arith, t)
    | inr f ↦ let (i, m) = search_ip-mem ps q (rw f at e) in (ground arith, m)
  ]

  pub search_exact-mem : (ps : List Ptr) (q : Ptr) → search_exact h ps ip ≡ some q → mem q ps ≡ true
  search_exact-mem [] q e = ground arith
  search_exact-mem (p ∷ ps) q e = ground (arith, search_exact-mem ps q)
