-- ===== src/Ring/Refine/Apart.antt =====
-- The entries of a ring, one after the other: each is new to those before it.
use cs425_mp.Common.{
  ℕ, ◌≡◌, refl, ◌∙◌, ap, subst, true, false, List, [], ◌∷◌, ◌++◌, Bytes, ◌==◌, arith, Bool-cases,
  inl, inr, bytes_eq, bytes_eq_refl,
}
use cs425_mp.Ring.{Ptr, Heap, Topology}
use cs425_mp.Ring.Links.{mem, mem-append, Distinct}
use cs425_mp.Ring.Walk.{Members}
use cs425_mp.Ring.Remove.{DistinctIps}
use cs425_mp.Ring.Addresses.{strcmp-IsAddress}
use cs425_mp.Ring.Refine.{
  Entry, enroll, is_enrolled, entries, HasAddresses, entries-append, Represents,
}

-- No entry has the address of one before it, or of one in `acc`.
abbrev pub NewTo : List Entry → List Entry → Type 0
NewTo acc [] = Unit
NewTo acc (e ∷ es) = (is_enrolled e.0 acc ≡ false) × NewTo (acc ++ e ∷ []) es

pub enroll-unknown :
    (ip : Bytes) (stamp : ℕ) (es : List Entry)
    → is_enrolled ip es ≡ false
    → enroll ip stamp es ≡ es ++ (ip, stamp) ∷ []
enroll-unknown ip stamp [] h = refl
enroll-unknown ip stamp (e ∷ es) h = elim (Bool-cases (bytes_eq e.0 ip)) [
  | inl hit ↦ absurd (ground (arith, hit, h))
  | inr miss ↦ rw miss (ap (λ xs. e ∷ xs) (enroll-unknown ip stamp es (rw miss at h)))
]

pub is_enrolled-enroll :
    (ip : Bytes) (stamp : ℕ) (es : List Entry) → is_enrolled ip (enroll ip stamp es) ≡ true
is_enrolled-enroll ip stamp [] = rw (bytes_eq_refl ip) refl
is_enrolled-enroll ip stamp (e ∷ es) = elim (Bool-cases (bytes_eq e.0 ip)) [
  | inl hit ↦ rw (hit, hit) refl
  | inr miss ↦ rw (miss, miss) (is_enrolled-enroll ip stamp es)
]

module _ (h : Heap) (all : List Ptr) (ha : HasAddresses h all) (apart : DistinctIps h all) where
  unknown :
      (qs : List Ptr) (p : Ptr)
      → ((a : Ptr) → mem a qs ≡ true → mem a all ≡ true)
      → mem p all ≡ true
      → mem p qs ≡ false
      → is_enrolled (h.ip p) (entries h qs) ≡ false
  unknown [] p within i out = refl
  unknown (q ∷ qs) p within i out =
      let here = within q (ground arith) in
      elim (Bool-cases (bytes_eq (h.ip q) (h.ip p))) [
        | inl hit ↦
            let same : q ≡ p =
              apart q p here i (strcmp-IsAddress (h.ip q) (h.ip p) (ha q here) (ha p i) ∙ hit) in
            absurd (ground arith)
        | inr miss ↦ rw miss (unknown qs p (λ a j. within a (ground arith)) i (ground arith))
      ]

  NewTo-entries :
      (qs ps : List Ptr)
      → ((a : Ptr) → mem a qs ≡ true → mem a all ≡ true)
      → ((a : Ptr) → mem a ps ≡ true → mem a all ≡ true)
      → ((a : Ptr) → mem a qs ≡ true → mem a ps ≡ false)
      → Distinct ps
      → NewTo (entries h qs) (entries h ps)
  NewTo-entries qs [] wq wp out d = tt
  NewTo-entries qs (p ∷ ps) wq wp out d = (
    unknown qs p wq (wp p (ground arith))
        (elim (Bool-cases (mem p qs)) [ inl i ↦ absurd (ground (arith, out p i)) | inr o ↦ o ]),
    subst (λ acc. NewTo acc (entries h ps)) (entries-append h qs (p ∷ []))
        (NewTo-entries (qs ++ p ∷ []) ps
          (λ a i. elim (Bool-cases (a == p)) [
            | inl e ↦ let e' : a ≡ p = ground arith in rw e' (wp p (ground arith))
            | inr e ↦ wq a (ground (arith, mem-append a qs (p ∷ [])))
          ])
          (λ a i. wp a (ground arith))
          (λ a i. elim (Bool-cases (a == p)) [
            | inl e ↦ let e' : a ≡ p = ground arith in rw e' d.0
            | inr e ↦ ground (arith, mem-append a qs (p ∷ []), out a)
          ])
          d.1),
  )

Distinct-Members : (t : Topology) (ps : List Ptr) → Members t ps → Distinct ps
Distinct-Members t [] m = tt
Distinct-Members t (p ∷ ps) m = m.1.distinct

pub NewTo-Represents : (t : Topology) (es : List Entry) → Represents t es → NewTo [] es
NewTo-Represents t es r = subst (NewTo []) r.listed (
    NewTo-entries t.heap r.nodes r.addresses r.apart [] r.nodes (λ a i. ground arith) (λ a i. i)
      (λ a i. ground arith) (Distinct-Members t r.nodes r.members))
