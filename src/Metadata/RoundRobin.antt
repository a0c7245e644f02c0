-- ===== src/Metadata/RoundRobin.antt =====
-- `getNextIP_RR` goes round the ring.
use cs425_mp.Common.{
  ℕ, zero, suc, ◌+◌, ◌-◌, ◌%◌, ◌^◌, ◌≤◌, ◌<◌, ◌≡◌, refl, sym, ◌∙◌, ap, ◌≢◌, true, false, some, List,
  [], ◌∷◌, Bytes, >>=-elim, dec_le, cstr, strcmp_eq, strcmp_eq-cstr, strcmp_eq_trans, length,
  get_or, arith, Bool-cases, inl, inr,
}
use cs425_mp.Ring.{Ptr, Heap, Topology, load}
use cs425_mp.Ring.Links.{mem, Distinct, Chain}
use cs425_mp.Ring.Remove.{DistinctIps}
use cs425_mp.Ring.Walk.{IsRing, Members, Alive, load-live}
use cs425_mp.Metadata.{Store}
use cs425_mp.Metadata.Add.{walk, get_next_ip_rr, another_ip}

walk-add : (a b : ℕ) (h : Heap) (p q : Ptr) → walk a h p ≡ some q → walk (a + b) h p ≡ walk b h q
unfolding walk
walk-add zero b h p q e =
    let same : p ≡ q = ground arith in
    let shift : 0 + b ≡ b = omega arith in ap (λ n. walk n h p) shift ∙ ap (λ a. walk b h a) same
walk-add (suc a) b h p q e = >>=-elim (load h h.next p) _ e λ n e1 k.
    let shift : suc a + b ≡ suc (a + b) = omega arith in
    ap (λ m. walk m h p) shift ∙ (rw e1 (walk-add a b h n q k))

get_or-any : (xs : List Ptr) (i : ℕ) (d e : Ptr) → i < length xs → get_or xs i d ≡ get_or xs i e
get_or-any [] i d e h = absurd (omega arith)
get_or-any (x ∷ xs) zero d e h = refl
get_or-any (x ∷ xs) (suc i) d e h = get_or-any xs i d e (omega arith)

-- From the first node of a chain, fewer steps than there are nodes lead to one of them.
walk-Chain :
    (i : ℕ) (h : Heap) (p : Ptr) (ps : List Ptr) (q : Ptr)
    → Chain h p ps q
    → Alive h (p ∷ ps)
    → i ≤ length ps
    → walk i h p ≡ some (get_or (p ∷ ps) i p)
unfolding walk
walk-Chain zero h p ps q c alive le = refl
walk-Chain (suc i) h p [] q c alive le = absurd (omega arith)
walk-Chain (suc i) h p (x ∷ xs) q c alive le =
    rw
      (
        load-live h h.next p (alive p (ground arith)),
        c.0.next,
        walk-Chain i h x xs q c.1 (λ a m. alive a (ground arith)) (omega arith),
      )
      (ap some (get_or-any (x ∷ xs) i x p (omega arith)))

-- As many steps as there are nodes lead to the end of the chain.
walk-round :
    (h : Heap) (p : Ptr) (ps : List Ptr) (q : Ptr)
    → Chain h p ps q
    → Alive h (p ∷ ps)
    → walk (suc (length ps)) h p ≡ some q
unfolding walk
walk-round h p [] q c alive = rw (load-live h h.next p (alive p (ground arith)), c.next) refl
walk-round h p (x ∷ xs) q c alive =
    rw (load-live h h.next p (alive p (ground arith)), c.0.next)
      (walk-round h x xs q c.1 (λ a m. alive a (ground arith)))

mod_small : (k n : ℕ) → k < n → k % n ≡ k
mod_small k n h = grind arith

mod_round : (k n : ℕ) → 0 < n → n ≤ k → (k - n) % n ≡ k % n
mod_round k n p h = grind arith

-- Any number of steps from the leader, round and round.
walk-IsRing :
    (fuel k : ℕ) (h : Heap) (p : Ptr) (ps : List Ptr)
    → IsRing h p ps
    → k ≤ fuel
    → walk k h p ≡ some (get_or (p ∷ ps) (k % suc (length ps)) p)
walk-IsRing zero k h p ps r le =
    walk-Chain k h p ps p r.links r.alive (omega arith)
    ∙ ap (λ i. some (get_or (p ∷ ps) i p)) (sym (mod_small k (suc (length ps)) (omega arith)))
walk-IsRing (suc fuel) k h p ps r le = elim (dec_le k (length ps)) [
  | yes small ↦
      walk-Chain k h p ps p r.links r.alive small
      ∙ ap (λ i. some (get_or (p ∷ ps) i p)) (sym (mod_small k (suc (length ps)) (omega arith)))
  | no large ↦
      let n : ℕ = suc (length ps) in
      let split : k ≡ n + (k - n) = omega arith in
      ap (λ m. walk m h p) split
      ∙ walk-add n (k - n) h p p (walk-round h p ps p r.links r.alive)
      ∙ walk-IsRing fuel (k - n) h p ps r (omega arith)
      ∙ ap (λ i. some (get_or (p ∷ ps) i p)) (mod_round k n (omega arith) (omega arith))
]

get_or-mem : (xs : List Ptr) (i : ℕ) (d : Ptr) → i < length xs → mem (get_or xs i d) xs ≡ true
get_or-mem [] i d h = absurd (omega arith)
get_or-mem (x ∷ xs) zero d h = ground arith
get_or-mem (x ∷ xs) (suc i) d h = ground (arith, get_or-mem xs i d (omega arith))

mod_bound : (k n : ℕ) → 0 < n → k % n < n
mod_bound k n h = grind arith

-- In a well-formed ring `getNextIP_RR` runs without a fault: as its `turn` counts up, it takes the
-- members one after the other from the leader on, and begins again after the last one.
pub get_next_ip_rr-Members :
    (t : Topology) (p : Ptr) (ps : List Ptr) (s : Store)
    → Members t (p ∷ ps)
    → get_next_ip_rr t s
      ≡ some (
        cstr (t.heap.ip (get_or (p ∷ ps) (s.turn % suc (length ps)) p)),
        record s { turn = (s.turn + 1) % 2 ^ 64 },
      )
unfolding get_next_ip_rr
get_next_ip_rr-Members t p ps s m =
    let a : Ptr = get_or (p ∷ ps) (s.turn % suc (length ps)) p in
    let at : mem a (p ∷ ps) ≡ true =
      get_or-mem (p ∷ ps) (s.turn % suc (length ps)) p
        (mod_bound s.turn (suc (length ps)) (omega arith)) in
    rw
      (
        m.0,
        walk-IsRing s.turn s.turn t.heap p ps m.1 (omega arith),
        load-live t.heap t.heap.ip a (m.1.alive a at),
      )
      refl

get_or-Distinct :
    (xs : List Ptr) (i j : ℕ) (d : Ptr)
    → Distinct xs
    → i < length xs
    → j < length xs
    → i ≢ j
    → get_or xs i d ≢ get_or xs j d
get_or-Distinct [] i j d u h k ne = absurd (omega arith)
get_or-Distinct (x ∷ xs) zero zero d u h k ne = absurd (ne refl)
get_or-Distinct (x ∷ xs) zero (suc j) d u h k ne =
    λ e. ground (arith, get_or-mem xs j d (omega arith), u.0, e)
get_or-Distinct (x ∷ xs) (suc i) zero d u h k ne =
    λ e. ground (arith, get_or-mem xs i d (omega arith), u.0, e)
get_or-Distinct (x ∷ xs) (suc i) (suc j) d u h k ne =
    get_or-Distinct xs i j d u.1 (omega arith) (omega arith) (λ e. ne (ap suc e))

mod_next : (k n : ℕ) → 1 < n → k % n ≢ (k + 1) % n
mod_next k n h e = grind arith

turn_small : (k : ℕ) → k + 1 < 2 ^ 64 → (k + 1) % 2 ^ 64 ≡ k + 1
turn_small k h = mod_small (k + 1) (2 ^ 64) h

-- In a well-formed ring of two members or more with distinct addresses, and before the counter wraps,
-- `addFileMetaInfo` finds another replica without a fault: a member whose address is not the
-- client's.
pub another_ip-Members :
    (t : Topology) (p x : Ptr) (xs : List Ptr) (client : Bytes) (s : Store)
    → Members t (p ∷ x ∷ xs)
    → DistinctIps t.heap (p ∷ x ∷ xs)
    → s.turn + 1 < 2 ^ 64
    → (a : Ptr) × (s' : Store) × (another_ip client t s ≡ some (cstr (t.heap.ip a), s'))
      × (mem a (p ∷ x ∷ xs) ≡ true)
      × (strcmp_eq (t.heap.ip a) client ≡ false)
unfolding another_ip
another_ip-Members t p x xs client s m apart small =
    let n : ℕ = suc (length (x ∷ xs)) in
    let a : Ptr = get_or (p ∷ x ∷ xs) (s.turn % n) p in
    let b : Ptr = get_or (p ∷ x ∷ xs) ((s.turn + 1) % n) p in
    let a_in : mem a (p ∷ x ∷ xs) ≡ true =
      get_or-mem (p ∷ x ∷ xs) (s.turn % n) p (mod_bound s.turn n (omega arith)) in
    let b_in : mem b (p ∷ x ∷ xs) ≡ true =
      get_or-mem (p ∷ x ∷ xs) ((s.turn + 1) % n) p (mod_bound (s.turn + 1) n (omega arith)) in
    let differ : a ≢ b =
      get_or-Distinct (p ∷ x ∷ xs) (s.turn % n) ((s.turn + 1) % n) p m.1.distinct
        (mod_bound s.turn n (omega arith)) (mod_bound (s.turn + 1) n (omega arith))
        (mod_next s.turn n (omega arith)) in
    let s1 : Store = record s { turn = (s.turn + 1) % 2 ^ 64 } in
    let one = get_next_ip_rr-Members t p (x ∷ xs) s m in
    let two : get_next_ip_rr t s1
        ≡ some (cstr (t.heap.ip b), record s1 { turn = (s1.turn + 1) % 2 ^ 64 }) =
      get_next_ip_rr-Members t p (x ∷ xs) s1 m
      ∙ ap
          (λ k. some (
            cstr (t.heap.ip (get_or (p ∷ x ∷ xs) (k % n) p)),
            record s1 { turn = (s1.turn + 1) % 2 ^ 64 },
          ))
          (turn_small s.turn small) in
    elim (Bool-cases (strcmp_eq (t.heap.ip a) client)) [
      | inr other ↦ (a, s1, rw (one, strcmp_eq-cstr, other) refl, a_in, other)
      | inl same ↦ (
        b,
        record s1 { turn = (s1.turn + 1) % 2 ^ 64 },
        rw (one, strcmp_eq-cstr, same) two,
        b_in,
        elim (Bool-cases (strcmp_eq (t.heap.ip b) client)) [
          | inl too ↦ absurd (
              differ
                (apart a b a_in b_in (strcmp_eq_trans (t.heap.ip a) (t.heap.ip b) client same too)))
          | inr other ↦ other
        ],
      )
    ]
