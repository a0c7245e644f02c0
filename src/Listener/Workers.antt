-- ===== src/Listener/Workers.antt =====
-- Each connection has a worker of its own.
use cs425_mp.Common.{
  >>=-elim, Option-cases, ℕ, zero, suc, ◌+◌, ◌-◌, ◌%◌, ◌≡◌, ◌<◌, refl, ◌∙◌, ap, subst, Bool, true,
  false, Option, none, some, List, [], ◌∷◌, arith, ltb, lt→ltb, ltb→lt, Bool-cases, Option-cases,
  inl, inr, if◌then◌else◌, ◌==◌, ==_true,
}
use cs425_mp.Ring.{update}
use cs425_mp.Listener.{Listener, listening, find_free, accept_connection, end_request}

-- What the listener and its workers can come to, one step at a time in any order.
pub data Run : Listener → Type 0 where
  started : Run listening
  accepted :
      {l l' : Listener} (connect_socket : ℕ)
      → Run l
      → accept_connection connect_socket l ≡ some l'
      → Run l'
  ended : {l l' : Listener} (j : ℕ) → Run l → end_request j l ≡ some l' → Run l'

-- The threads that a slot should have.
abbrev pub workers : Listener → ℕ → List ℕ
workers l j = if l.state j then l.socket j ∷ [] else []

find_free-some :
    (fuel i j : ℕ) (state : ℕ → Bool)
    → find_free fuel state i ≡ some j
    → (j < 15) × (state j ≡ false)
unfolding find_free
find_free-some zero i j state e = absurd (cc)
find_free-some (suc fuel) i j state e = elim (Bool-cases (ltb i 15)) [
  | inr out ↦ absurd (cc (rw (find_free, out) at e))
  | inl inside ↦ elim (Bool-cases (state i)) [
    | inl busy ↦ find_free-some fuel ((i + 1) % 15) j state (rw (find_free, inside, busy) at e)
    | inr idle ↦
        let same : i ≡ j = (let e1 = rw (find_free, inside, idle) at e in ground arith) in
        (subst (λ k. k < 15) same (ltb→lt i 15 inside), subst (λ k. state k ≡ false) same idle)
  ]
]

find_free-none :
    (fuel i d : ℕ) (state : ℕ → Bool)
    → i < 15
    → find_free fuel state i ≡ none
    → d < fuel
    → state ((i + d) % 15) ≡ true
unfolding find_free
find_free-none zero i d state small e h = absurd (omega arith)
find_free-none (suc fuel) i d state small e h =
    let inside : ltb i 15 ≡ true = lt→ltb i 15 small in
    elim (Bool-cases (state i)) [
      | inr idle ↦ absurd (cc (rw (find_free, inside, idle) at e))
      | inl busy ↦ elim (Bool-cases (d == 0)) [
        | inl y ↦
            let nought : d ≡ 0 = ground arith in subst (λ k. state k ≡ true) (omega arith) busy
        | inr y ↦
            let more : 0 < d = ground arith in
            subst (λ k. state k ≡ true) (omega arith)
              (find_free-none fuel ((i + 1) % 15) (d - 1) state (omega arith)
                (rw (find_free, inside, busy) at e) (omega arith))
      ]
    ]

some_injective {ℓ} : {A : Type ℓ} (a b : A) → Path (Option A) (some a) (some b) → a ≡ b
some_injective a b e = ap (λ o. elim o [ none ↦ a | some x ↦ x ]) e

-- After any steps: a slot that is marked has one thread, which serves the connection that the slot
-- holds, and another slot has none; and the next slot to try is inside the array.
pub Run-workers : {l : Listener} → Run l → (j : ℕ) → (l.i < 15) × (l.threads j ≡ workers l j)
unfolding accept_connection end_request
Run-workers started j = (omega arith, refl)
Run-workers (accepted {l} {l'} s r e) j = >>=-elim (find_free 15 l.state l.i) _ e (λ i found done.
    let idle = (find_free-some 15 l.i i l.state found).1 in
    let old = (Run-workers r j).1 in
    let empty : l.threads i ≡ [] = (Run-workers r i).1 ∙ rw (idle) refl in
    subst (λ m. (m.i < 15) × (m.threads j ≡ workers m j)) (some_injective _ _ done)
      (omega arith, elim (Bool-cases (j == i)) [ inl y ↦ rw (y, empty) refl | inr y ↦ rw (y) old ]))
Run-workers (ended {l} {l'} k r e) j = elim (Bool-cases (l.state k)) [
  | inr idle ↦
      let empty : l.threads k ≡ [] = (Run-workers r k).1 ∙ rw (idle) refl in
      absurd (cc (rw (end_request, empty) at e))
  | inl busy ↦
      let one : l.threads k ≡ l.socket k ∷ [] = (Run-workers r k).1 ∙ rw (busy) refl in
      let (small, old) = Run-workers r j in
      subst (λ m. (m.i < 15) × (m.threads j ≡ workers m j))
        (some_injective _ _ (rw (end_request, one) at e))
        (small, elim (Bool-cases (j == k)) [ inl y ↦ rw (y) refl | inr y ↦ rw (y) old ])
]

-- While one of the slots is not marked, the next connection gets a thread of its own, with a slot that
-- no other thread has: the loop that looks for a slot ends, within fifteen rounds.
pub accept_connection-free :
    {l : Listener} (r : Run l) (connect_socket k : ℕ)
    → k < 15
    → l.state k ≡ false
    → (l' : Listener) × (j : ℕ) × (accept_connection connect_socket l ≡ some l')
      × (j < 15)
      × (l.threads j ≡ [])
      × (l'.threads j ≡ connect_socket ∷ [])
unfolding accept_connection
accept_connection-free {l} r s k small free = elim (Option-cases (find_free 15 l.state l.i)) [
  | inl nowhere ↦
      let inside = (Run-workers r 0).0 in
      let busy = find_free-none 15 l.i ((k + 15 - l.i) % 15) l.state inside nowhere (omega arith) in
      let same : (l.i + (k + 15 - l.i) % 15) % 15 ≡ k = omega arith in
      absurd (cc (free, subst (λ m. l.state m ≡ true) same busy))
  | inr (j, found) ↦
      let (inside, idle) = find_free-some 15 l.i j l.state found in
      let empty : l.threads j ≡ [] = (Run-workers r j).1 ∙ rw (idle) refl in
      (
        record {
          state = update l.state j true;
          socket = update l.socket j s;
          i = (j + 1) % 15;
          threads = update l.threads j (s ∷ l.threads j);
        },
        j,
        rw (found) refl,
        inside,
        empty,
        rw (==_true j j refl, empty) refl,
      )
]
