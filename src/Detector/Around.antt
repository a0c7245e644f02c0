-- ===== src/Detector/Around.antt =====
-- The ring as one of its members sees it, and the walk back along it.
use cs425_mp.Common.{
  ℕ, suc, ◌+◌, ◌≡◌, refl, sym, ◌∙◌, ap, ap₂, subst, true, none, some, List, [], ◌∷◌, ◌++◌,
  append-nil, append_assoc, Bytes, ◌==◌, arith, Bool-cases, inl, inr, if◌then◌else◌, ◌>>=◌,
  >>=-eq-some, length, length-append, drop,
}
use cs425_mp.Ring.{Ptr, Heap}
use cs425_mp.Ring.Links.{mem, mem-append, Chain, Chain-join}
use cs425_mp.Ring.Walk.{Alive, load-live}
use cs425_mp.Membership.{backwards}

-- The members from the one behind `v` around to the one before it.
abbrev pub before : Ptr → List Ptr → List Ptr
before v [] = []
before v (x ∷ xs) = if x == v then [] else x ∷ before v xs

abbrev pub behind : Ptr → List Ptr → List Ptr
behind v [] = []
behind v (x ∷ xs) = if x == v then xs else behind v xs

abbrev pub around : Ptr → List Ptr → List Ptr
around v ps = behind v ps ++ before v ps

-- Their addresses, backwards.
abbrev pub addresses_back : Heap → List Ptr → List Bytes
addresses_back h [] = []
addresses_back h (p ∷ ps) = addresses_back h ps ++ h.ip p ∷ []

mem-before : (a v : Ptr) (ps : List Ptr) → mem a (before v ps) ≡ true → mem a ps ≡ true
mem-before a v [] i = i
mem-before a v (x ∷ xs) i = ground (arith, mem-before a v xs)

mem-behind : (a v : Ptr) (ps : List Ptr) → mem a (behind v ps) ≡ true → mem a ps ≡ true
mem-behind a v [] i = i
mem-behind a v (x ∷ xs) i = ground (arith, mem-behind a v xs)

pub mem-around : (a v : Ptr) (ps : List Ptr) → mem a (around v ps) ≡ true → mem a ps ≡ true
mem-around a v ps i =
    ground (arith, mem-append a (behind v ps) (before v ps), mem-before a v ps, mem-behind a v ps)

pub length-around :
    (v : Ptr) (ps : List Ptr) → mem v ps ≡ true → suc (length (around v ps)) ≡ length ps
length-around v [] i = ground arith
length-around v (x ∷ xs) i = elim (Bool-cases (x == v)) [
  | inl hit ↦ rw hit (ap suc (ap length (append-nil xs)))
  | inr miss ↦ rw miss (
      omega (
        arith,
        length-append (behind v xs) (x ∷ before v xs),
        length-append (behind v xs) (before v xs),
        length-around v xs (ground arith),
      ))
]

Chain-part :
    (h : Heap) (p : Ptr) (ps : List Ptr) (v q : Ptr)
    → Chain h p ps q
    → mem v ps ≡ true
    → Chain h p (before v ps) v × Chain h v (behind v ps) q
Chain-part h p [] v q c i = absurd (ground arith)
Chain-part h p (x ∷ xs) v q c i = elim (Bool-cases (x == v)) [
  | inl hit ↦
      let e : x ≡ v = ground arith in rw hit (subst (λ a. Chain h p [] a × Chain h a xs q) e c)
  | inr miss ↦ let (a, b) = Chain-part h x xs v q c.1 (ground arith) in rw miss ((c.0, a), b)
]

-- The ring, begun at another member.
pub Chain-around :
    (h : Heap) (p : Ptr) (ps : List Ptr) (v : Ptr)
    → Chain h p ps p
    → mem v (p ∷ ps) ≡ true
    → Chain h v (around v (p ∷ ps)) v
Chain-around h p ps v c i = elim (Bool-cases (p == v)) [
  | inl hit ↦
      let e : p ≡ v = ground arith in
      rw hit (subst (λ xs. Chain h v xs v) (sym (append-nil ps)) (subst (λ a. Chain h a ps a) e c))
  | inr miss ↦
      let (a, b) = Chain-part h p ps v p c (ground arith) in
      rw miss (Chain-join h v (behind v ps) p (before v ps) v b a)
]

-- The walk back along a chain, and `k` nodes further.
backwards-Chain :
    (h : Heap) (k : ℕ) (v : Ptr) (qs : List Ptr) (q : Ptr) (rest : List Bytes)
    → Chain h v qs q
    → Alive h qs
    → backwards k h v ≡ some rest
    → backwards (length qs + k) h (h.prev q) ≡ some (addresses_back h qs ++ rest)
unfolding backwards
backwards-Chain h k v [] q rest c alive e = ap₂ (λ n p. backwards n h p) (omega arith) c.prev ∙ e
backwards-Chain h k v (x ∷ xs) q rest c alive e =
    let more : suc (length xs) + k ≡ length xs + suc k = omega arith in
    let live = alive x (ground arith) in
    let step : backwards (suc k) h x ≡ some (h.ip x ∷ rest) =
      rw (load-live h h.ip x live, load-live h h.prev x live, c.0.prev, e) refl in
    ap (λ n. backwards n h (h.prev q)) more
    ∙ backwards-Chain h (suc k) x xs q (h.ip x ∷ rest) c.1 (λ a i. alive a (ground arith)) step
    ∙ ap some (sym (append_assoc (addresses_back h xs) (h.ip x ∷ []) rest))

-- From the node before the last one of the chain.
pub backwards-before_last :
    (h : Heap) (v q : Ptr) (qs : List Ptr) (k : ℕ)
    → Chain h v qs q
    → Alive h qs
    → length qs ≡ suc k
    → mem (h.prev q) qs ≡ true
    → backwards k h (h.prev (h.prev q)) ≡ some (drop 1 (addresses_back h qs))
unfolding backwards drop
backwards-before_last h v q qs k c alive e i =
    let one_more : suc k ≡ length qs + 0 = omega arith in
    let all : backwards (suc k) h (h.prev q) ≡ some (addresses_back h qs) =
      ap (λ n. backwards n h (h.prev q)) one_more
      ∙ backwards-Chain h 0 v qs q [] c alive refl
      ∙ ap some (append-nil (addresses_back h qs)) in
    let live = alive (h.prev q) i in
    let opened : (backwards k h (h.prev (h.prev q)) >>= λ ips. some (h.ip (h.prev q) ∷ ips))
        ≡ some (addresses_back h qs) =
      rw (load-live h h.ip (h.prev q) live, load-live h h.prev (h.prev q) live) at all in
    let (ips, runs, whole) =
      >>=-eq-some (backwards k h (h.prev (h.prev q))) (λ ips. some (h.ip (h.prev q) ∷ ips))
        opened in
    runs ∙ ap (λ o. elim o [ none ↦ none | some l ↦ some (drop 1 l) ]) whole

pub length-addresses_back : (h : Heap) (ps : List Ptr) → length (addresses_back h ps) ≡ length ps
length-addresses_back h [] = refl
length-addresses_back h (p ∷ ps) =
    omega (arith, length-append (addresses_back h ps) (h.ip p ∷ []), length-addresses_back h ps)
