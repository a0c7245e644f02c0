-- ===== src/Dgrep/Retries.antt =====
-- How often the client tries, and what its status flags say.
use cs425_mp.Common.{
  ℕ, zero, suc, ◌+◌, ◌≡◌, ◌≤◌, refl, ap, subst, Bool, true, false, ◌||◌, ◌⊎◌, arith, Bool-cases,
  inl, inr,
}
use cs425_mp.Wire.{ReturnCode, is_success}
use cs425_mp.Dgrep.{retry, is_write_failure, Attempts, do_dgrep, status_success}

-- An attempt that no other one follows.
abbrev pub settles : ReturnCode → Bool
settles rc = is_success rc || is_write_failure rc

-- None of the `m` attempts from `k` on settles.
abbrev pub NoneSettles : (ℕ → ReturnCode) → ℕ → ℕ → Type 0
NoneSettles reply zero k = Unit
NoneSettles reply (suc m) k = (settles (reply k) ≡ false) × NoneSettles reply m (k + 1)

-- A result of at most `n` attempts after attempt `k`: of `m` of them, none of which settled, and of the
-- last one, which settled or was the last allowed.
abbrev pub IsLastTry : ℕ → ℕ → (ℕ → ReturnCode) → ReturnCode × ℕ → Type 0
IsLastTry n k reply r =
    (m : ℕ) × (r ≡ (reply (k + m), k + m + 1))
    × (m ≤ n)
    × NoneSettles reply m k
    × ((settles (reply (k + m)) ≡ true) ⊎ (m ≡ n))

-- A try that settles nothing, before the others.
one_more :
    (n k : ℕ) (reply : ℕ → ReturnCode) (r : ReturnCode × ℕ)
    → settles (reply k) ≡ false
    → IsLastTry n (k + 1) reply r
    → IsLastTry (suc n) k reply r
one_more n k reply r e (m, last, few, earlier, ends) =
    let moved : k + 1 + m ≡ k + suc m = omega arith in
    (
      suc m,
      subst (λ j. r ≡ (reply j, j + 1)) moved last,
      omega arith,
      (e, earlier),
      elim ends [
        | inl settled ↦ inl (subst (λ j. settles (reply j) ≡ true) moved settled)
        | inr all ↦ inr (ap (λ x. suc x) all)
      ],
    )

first_settles :
    (n k : ℕ) (reply : ℕ → ReturnCode)
    → (settles (reply k) ≡ true) ⊎ (0 ≡ n)
    → IsLastTry n k reply (reply k, k + 1)
first_settles n k reply ends =
    let same : k ≡ k + 0 = omega arith in
    (
      0,
      ap (λ j. (reply j, j + 1)) same,
      omega arith,
      tt,
      elim ends [
        | inl settled ↦ inl (subst (λ j. settles (reply j) ≡ true) same settled)
        | inr all ↦ inr all
      ],
    )

-- Each loop of `doDGrep` that repeats an attempt, with `n` more attempts allowed after attempt `k`: it
-- ends with the result of attempt `k + m` for some `m` of at most `n`, it has made the attempts `k` to
-- `k + m`, none before the last one succeeded or met a write failure, and the last one did, or it was
-- the last one allowed.
retry-IsLastTry : (n k : ℕ) (reply : ℕ → ReturnCode) → IsLastTry n k reply (retry n k reply)
unfolding retry
retry-IsLastTry zero k reply = first_settles 0 k reply (inr refl)
retry-IsLastTry (suc n) k reply = elim (Bool-cases (settles (reply k))) [
  | inl e ↦ rw (e) (first_settles (suc n) k reply (inl e))
  | inr e ↦ rw (e) (one_more n k reply (retry n (k + 1) reply) e (retry-IsLastTry n (k + 1) reply))
]

-- What must have gone well: a socket and a connection, and one of the first six attempts to send the
-- script, and one of the first six to have it executed.
abbrev pub WentWell : Attempts → Type 0
WentWell a =
    (a.has_socket ≡ true)
    × (a.connected ≡ true)
    × ((i : ℕ) × (i ≤ 5) × (is_success (a.script i) ≡ true))
    × ((j : ℕ) × (j ≤ 5) × (is_success (a.execute j) ≡ true))

succeeded :
    (reply : ℕ → ReturnCode)
    → is_success (retry 5 0 reply).0 ≡ true
    → (i : ℕ) × (i ≤ 5) × (is_success (reply i) ≡ true)
succeeded reply e =
    let (m, last, few, _, _) = retry-IsLastTry 5 0 reply in
    (0 + m, omega arith, subst (λ r. is_success r.0 ≡ true) last e)

-- `doDGrep` sets the flag of success only when it has a socket and a connection, and one of at most six
-- attempts to send the script succeeded, and one of at most six to have it executed.
pub do_dgrep-WentWell : (a : Attempts) → do_dgrep a ≡ status_success → WentWell a
unfolding do_dgrep
do_dgrep-WentWell a e = elim (Bool-cases a.has_socket) [
  | inr h ↦ absurd (omega (arith, rw (do_dgrep, h) at e))
  | inl h ↦ elim (Bool-cases a.connected) [
    | inr c ↦ absurd (omega (arith, rw (do_dgrep, h, c) at e))
    | inl c ↦ elim (Bool-cases (is_success (retry 5 0 a.script).0)) [
      | inr s ↦ elim (Bool-cases (is_write_failure (retry 5 0 a.script).0)) [
        | inr y ↦ absurd (omega (arith, rw (do_dgrep, h, c, s, y) at e))
        | inl y ↦ absurd (omega (arith, rw (do_dgrep, h, c, s, y) at e))
      ]
      | inl s ↦ elim (Bool-cases (is_success (retry 5 0 a.execute).0)) [
        | inr x ↦ absurd (omega (arith, rw (do_dgrep, h, c, s, x) at e))
        | inl x ↦ (h, c, succeeded a.script s, succeeded a.execute x)
      ]
    ]
  ]
]
