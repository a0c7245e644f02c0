-- ===== src/Ring/Links.antt =====
-- Chains of `next` and `prev` pointers, and what writes do to them.
use cs425_mp.Common.{◌≡◌, refl, ◌∙◌, ◌≢◌, Bool, true, false, ◌||◌, List, [], ◌∷◌, ◌++◌, ◌==◌, arith}
use cs425_mp.Ring.{Ptr, Heap}

abbrev pub mem : Ptr → List Ptr → Bool
mem a [] = false
mem a (x ∷ xs) = (a == x) || mem a xs

abbrev pub Distinct : List Ptr → Type 0
Distinct [] = Unit
Distinct (x ∷ xs) = (mem x xs ≡ false) × Distinct xs

-- The node before `q` and the node behind `p` are one another.
pub record Link (h : Heap) (p q : Ptr) : Type 0 where
  pub next : h.next p ≡ q
  pub prev : h.prev q ≡ p

-- From `p` the pointers lead through `xs` to `q`, and back.
abbrev pub Chain : Heap → Ptr → List Ptr → Ptr → Type 0
Chain h p [] q = Link h p q
Chain h p (x ∷ xs) q = Link h p x × Chain h x xs q

abbrev pub last : Ptr → List Ptr → Ptr
last p [] = p
last p (x ∷ xs) = last x xs

abbrev pub first : List Ptr → Ptr → Ptr
first [] q = q
first (x ∷ xs) q = x

pub mem-last : (p : Ptr) (xs : List Ptr) → mem (last p xs) (p ∷ xs) ≡ true
mem-last p [] = ground arith
mem-last p (x ∷ xs) = ground (arith, mem-last x xs)

pub mem-append : (a : Ptr) (xs ys : List Ptr) → mem a (xs ++ ys) ≡ (mem a xs || mem a ys)
mem-append a [] ys = refl
mem-append a (x ∷ xs) ys = ground (arith, mem-append a xs ys)

pub ne_of_mem : (a b : Ptr) (xs : List Ptr) → mem a xs ≡ true → mem b xs ≡ false → (a == b) ≡ false
ne_of_mem a b [] i o = cc
ne_of_mem a b (x ∷ xs) i o = ground (arith, ne_of_mem a b xs)

pub mem-swap : (a p : Ptr) (xs : List Ptr) → mem a (xs ++ p ∷ []) ≡ mem a (p ∷ xs)
mem-swap a p xs = ground (arith, mem-append a xs (p ∷ []))

module _ (h : Heap) where
  pub Chain-last : (p : Ptr) (xs : List Ptr) (q : Ptr) → Chain h p xs q → h.prev q ≡ last p xs
  Chain-last p [] q c = c.prev
  Chain-last p (x ∷ xs) q c = Chain-last x xs q c.1

  pub Chain-first : (p : Ptr) (xs : List Ptr) (q : Ptr) → Chain h p xs q → h.next p ≡ first xs q
  Chain-first p [] q c = c.next
  Chain-first p (x ∷ xs) q c = c.0.next

  pub Chain-split :
      (p : Ptr) (xs : List Ptr) (v : Ptr) (ys : List Ptr) (q : Ptr)
      → Chain h p (xs ++ v ∷ ys) q
      → Chain h p xs v × Chain h v ys q
  Chain-split p [] v ys q c = c
  Chain-split p (x ∷ xs) v ys q c = let (a, b) = Chain-split x xs v ys q c.1 in ((c.0, a), b)

  pub Chain-join :
      (p : Ptr) (xs : List Ptr) (v : Ptr) (ys : List Ptr) (q : Ptr)
      → Chain h p xs v
      → Chain h v ys q
      → Chain h p (xs ++ v ∷ ys) q
  Chain-join p [] v ys q a b = (a, b)
  Chain-join p (x ∷ xs) v ys q a b = (a.0, Chain-join x xs v ys q a.1 b)

module _ (h g : Heap) where
  -- A chain survives writes that spare its `next` and `prev` fields.
  pub Chain-frame :
      (p : Ptr) (xs : List Ptr) (q : Ptr)
      → Chain h p xs q
      → ((a : Ptr) → mem a (p ∷ xs) ≡ true → g.next a ≡ h.next a)
      → ((a : Ptr) → mem a (xs ++ q ∷ []) ≡ true → g.prev a ≡ h.prev a)
      → Chain g p xs q
  Chain-frame p [] q c n v = record {
    next = n p (ground arith) ∙ c.next;
    prev = v q (ground arith) ∙ c.prev;
  }
  Chain-frame p (x ∷ xs) q c n v = (
    record { next = n p (ground arith) ∙ c.0.next; prev = v x (ground arith) ∙ c.0.prev },
    Chain-frame x xs q c.1 (λ a i. n a (ground arith)) (λ a i. v a (ground arith)),
  )

  -- A chain led to another end: only its last `next` was written.
  pub Chain-redirect :
      (p : Ptr) (xs : List Ptr) (q r : Ptr)
      → Chain h p xs q
      → Distinct (p ∷ xs)
      → ((a : Ptr) → mem a (p ∷ xs) ≡ true → a ≢ last p xs → g.next a ≡ h.next a)
      → ((a : Ptr) → mem a xs ≡ true → g.prev a ≡ h.prev a)
      → g.next (last p xs) ≡ r
      → g.prev r ≡ last p xs
      → Chain g p xs r
  Chain-redirect p [] q r c d n v e f = record { next = e; prev = f }
  Chain-redirect p (x ∷ xs) q r c d n v e f = (
    record {
      next = n p (ground arith) (apart p x xs d.0) ∙ c.0.next;
      prev = v x (ground arith) ∙ c.0.prev;
    },
    Chain-redirect x xs q r c.1 d.1 (λ a i ne. n a (ground arith) ne) (λ a i. v a (ground arith)) e
        f,
  )
    where
      apart : (p x : Ptr) (xs : List Ptr) → mem p (x ∷ xs) ≡ false → p ≢ last x xs
      apart p x xs out e = ground (arith, mem-last x xs)
