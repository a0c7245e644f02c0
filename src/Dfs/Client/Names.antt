-- ===== src/Dfs/Client/Names.antt =====
-- The names of the chunks: four digits behind the file's name.
use cs425_mp.Common.{
  ℕ, suc, ◌+◌, ◌*◌, ◌/◌, ◌%◌, ◌≤◌, ◌<◌, ◌≡◌, refl, ap, some, [], ◌∷◌, Bytes, take, arith, lt→ltb,
  le→ltb_false, dec_lt, le→leb,
}
use cs425_mp.Dfs.Persist.{digits, decimal}
use cs425_mp.Dfs.Chunks.{atoi}
use cs425_mp.Dfs.Client.{number_suffix}

-- A number below 10000 in four digits.
unfoldable pub four_digits : ℕ → Bytes
four_digits i = (48 + i / 1000 % 10) ∷ (48 + i / 100 % 10) ∷ (48 + i / 10 % 10) ∷ (48 + i % 10) ∷ []

pub digits-small : (fuel n : ℕ) (rest : Bytes) → n < 10 → digits (suc fuel) n rest ≡ (48 + n) ∷ rest
unfolding digits
digits-small fuel n rest h = rw (lt→ltb n 10 h) refl

pub digits-large :
    (fuel n : ℕ) (rest : Bytes)
    → 10 ≤ n
    → digits (suc fuel) n rest ≡ digits fuel (n / 10) ((48 + n % 10) ∷ rest)
unfolding digits
digits-large fuel n rest h = rw (le→ltb_false n 10 h) refl

cons4 :
    {a a' b b' c c' d d' : ℕ}
    → a ≡ a'
    → b ≡ b'
    → c ≡ c'
    → d ≡ d'
    → Path Bytes (a ∷ b ∷ c ∷ d ∷ []) (a' ∷ b' ∷ c' ∷ d' ∷ [])
cons4 e f g h = rw (e, f, g, h) refl

-- Writing the digits of `i` over the right end of four digits of a number that is not greater.
pub number_suffix-four_digits :
    (j i : ℕ) → j ≤ i → i < 10000 → number_suffix (four_digits j) i ≡ some (four_digits i)
unfolding number_suffix decimal four_digits take
number_suffix-four_digits j i le h = elim (dec_lt i 10) [
  | yes a ↦
      rw (digits-small 9 i [] a)
        (ap some (cons4 (omega arith) (omega arith) (omega arith) (omega arith)))
  | no b ↦ elim (dec_lt i 100) [
    | yes a ↦
        rw
          (
            digits-large 9 i [] (omega arith),
            digits-small 8 (i / 10) ((48 + i % 10) ∷ []) (omega arith),
          )
          (ap some (cons4 (omega arith) (omega arith) (omega arith) (omega arith)))
    | no c ↦ elim (dec_lt i 1000) [
      | yes a ↦
          rw
            (
              digits-large 9 i [] (omega arith),
              digits-large 8 (i / 10) ((48 + i % 10) ∷ []) (omega arith),
              digits-small 7 (i / 10 / 10) ((48 + i / 10 % 10) ∷ (48 + i % 10) ∷ []) (omega arith),
            )
            (ap some (cons4 (omega arith) (omega arith) (omega arith) (omega arith)))
      | no d ↦
          rw
            (
              digits-large 9 i [] (omega arith),
              digits-large 8 (i / 10) ((48 + i % 10) ∷ []) (omega arith),
              digits-large 7 (i / 10 / 10) ((48 + i / 10 % 10) ∷ (48 + i % 10) ∷ []) (omega arith),
              digits-small 6 (i / 10 / 10 / 10)
                  ((48 + i / 10 / 10 % 10) ∷ (48 + i / 10 % 10) ∷ (48 + i % 10) ∷ []) (omega arith),
            )
            (ap some (cons4 (omega arith) (omega arith) (omega arith) (omega arith)))
    ]
  ]
]

atoi-digit : (n d : ℕ) (bs : Bytes) → d < 10 → atoi n ((48 + d) ∷ bs) ≡ atoi (n * 10 + d) bs
unfolding atoi
atoi-digit n d bs h =
    rw (le→leb 48 (48 + d) (omega arith), le→leb (48 + d) 57 (omega arith))
      (ap (λ k. atoi (n * 10 + k) bs) (omega arith))

atoi-nil : (n : ℕ) → atoi n [] ≡ n
unfolding atoi
atoi-nil n = refl

-- What `atoi` makes of the four digits.
pub atoi-four_digits : (i : ℕ) → i < 10000 → atoi 0 (four_digits i) ≡ i
unfolding four_digits
atoi-four_digits i h =
    rw
      (
        atoi-digit 0 (i / 1000 % 10) _ (omega arith),
        atoi-digit (0 * 10 + i / 1000 % 10) (i / 100 % 10) _ (omega arith),
        atoi-digit ((0 * 10 + i / 1000 % 10) * 10 + i / 100 % 10) (i / 10 % 10) _ (omega arith),
        atoi-digit (((0 * 10 + i / 1000 % 10) * 10 + i / 100 % 10) * 10 + i / 10 % 10) (i % 10) _
            (omega arith),
        atoi-nil,
      )
      (omega arith)

-- While the chunks are numbered upwards, below 10000, the suffix that a chunk's name gets is written
-- inside its array, and it is what the leader reads the number of the chunk back from.
pub atoi-number_suffix :
    (j i : ℕ)
    → j ≤ i
    → i < 10000
    → (s : Bytes) × (number_suffix (four_digits j) i ≡ some s)
      × (s ≡ four_digits i)
      × (atoi 0 s ≡ i)
atoi-number_suffix j i le h =
    (four_digits i, number_suffix-four_digits j i le h, refl, atoi-four_digits i h)
