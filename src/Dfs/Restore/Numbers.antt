-- ===== src/Dfs/Restore/Numbers.antt =====
-- Numbers and words, as dfs_write_to_file writes them and dfs_read_from_file reads them.
use cs425_mp.Common.{
  ℕ, zero, suc, ◌+◌, ◌*◌, ◌/◌, ◌%◌, ◌≡◌, ◌≤◌, ◌<◌, refl, sym, ◌∙◌, ap, min, Bool, true, ◌&&◌, ◌||◌,
  subst, some, [], ◌∷◌, ◌++◌, Bytes, ltb, leb, lt→ltb, le→ltb_false, le→leb, lt→leb_false, ==_false,
  dec_lt, arith, length,
}
use cs425_mp.Admission.{skip_space}
use cs425_mp.Dfs.Persist.{digits, decimal}
use cs425_mp.Dfs.Client.Names.{digits-small, digits-large}
use cs425_mp.Dfs.Chunks.{atoi}
use cs425_mp.Dfs.Restore.{is_digit, after_digits, magnitude, scan_unsigned}

-- No NUL, no space, no line end and no capital letter.
abbrev pub is_plain : ℕ → Bool
is_plain b = leb 33 b && (ltb b 65 || ltb 90 b)

abbrev pub IsPlain : Bytes → Type 0
IsPlain [] = Unit
IsPlain (b ∷ bs) = (is_plain b ≡ true) × IsPlain bs

-- Ten to the power of one more.
abbrev pub tens : ℕ → ℕ
tens zero = 10
tens (suc f) = tens f * 10

-- What holds of a digit in front, and for each further digit behind, holds of all the digits.
digits-elim {ℓ} :
    (Q : ℕ → Bytes → Bytes → Type ℓ)
    → ((n : ℕ) (rest : Bytes) → n < 10 → Q n rest ((48 + n) ∷ rest))
    → ((n : ℕ) (rest out : Bytes) → 10 ≤ n → Q (n / 10) ((48 + n % 10) ∷ rest) out → Q n rest out)
    → (f n : ℕ) (rest : Bytes) → n < tens f
    → Q n rest (digits (suc f) n rest)
digits-elim Q base step zero n rest h =
    subst (Q n rest) (sym (digits-small 0 n rest h)) (base n rest h)
digits-elim Q base step (suc f) n rest h = elim (dec_lt n 10) [
  | yes small ↦ subst (Q n rest) (sym (digits-small (suc f) n rest small)) (base n rest small)
  | no large ↦
      let more : 10 ≤ n = omega arith in
      subst (Q n rest) (sym (digits-large (suc f) n rest more)) (
        step n rest (digits (suc f) (n / 10) ((48 + n % 10) ∷ rest)) more
          (digits-elim Q base step f (n / 10) ((48 + n % 10) ∷ rest) (omega arith)))
]

digit-is_digit : (n : ℕ) → n < 10 → is_digit (48 + n) ≡ true
digit-is_digit n h = rw (le→leb 48 (48 + n) (omega arith), le→leb (48 + n) 57 (omega arith)) refl

atoi-digit : (a n : ℕ) (rest : Bytes) → n < 10 → atoi a ((48 + n) ∷ rest) ≡ atoi (a * 10 + n) rest
unfolding atoi
atoi-digit a n rest h = rw (digit-is_digit n h) (ap (λ k. atoi k rest) (omega arith))

after_digits-digit :
    (n : ℕ) (rest : Bytes) → n < 10 → after_digits ((48 + n) ∷ rest) ≡ after_digits rest
unfolding after_digits
after_digits-digit n rest h = rw (digit-is_digit n h) refl

atoi-decimal : (n : ℕ) (rest : Bytes) → n < tens 9 → atoi 0 (digits 10 n rest) ≡ atoi n rest
atoi-decimal n rest h =
    digits-elim (λ n rest out. atoi 0 out ≡ atoi n rest)
      (λ n rest small. atoi-digit 0 n rest small ∙ ap (λ k. atoi k rest) (omega arith))
      (λ n rest out large e.
        e ∙ atoi-digit (n / 10) (n % 10) rest (omega arith) ∙ ap (λ k. atoi k rest) (omega arith))
      9 n rest h

after_digits-decimal :
    (n : ℕ) (rest : Bytes) → n < tens 9 → after_digits (digits 10 n rest) ≡ after_digits rest
after_digits-decimal n rest h =
    digits-elim (λ n rest out. after_digits out ≡ after_digits rest)
      (λ n rest small. after_digits-digit n rest small)
      (λ n rest out large e. e ∙ after_digits-digit (n % 10) rest (omega arith)) 9 n rest h

abbrev StartsWithDigit : Bytes → Type 0
StartsWithDigit out = (n : ℕ) × (more : Bytes) × (n < 10) × (out ≡ (48 + n) ∷ more)

decimal-StartsWithDigit : (n : ℕ) (rest : Bytes) → n < tens 9 → StartsWithDigit (digits 10 n rest)
decimal-StartsWithDigit n rest h =
    digits-elim (λ n rest out. StartsWithDigit out) (λ n rest small. (n, rest, small, refl))
      (λ n rest out large e. e) 9 n rest h

pub decimal-IsPlain : (n : ℕ) → n < tens 9 → IsPlain (decimal n)
unfolding decimal
decimal-IsPlain n h =
    digits-elim (λ n rest out. IsPlain rest → IsPlain out)
      (λ n rest small plain. (digit-is_plain n small, plain))
      (λ n rest out large f plain. f (digit-is_plain (n % 10) (omega arith), plain)) 9 n [] h tt
  where
    digit-is_plain : (n : ℕ) → n < 10 → is_plain (48 + n) ≡ true
    digit-is_plain n h =
        rw (le→leb 33 (48 + n) (omega arith), lt→ltb (48 + n) 65 (omega arith)) refl

length-digits : (f n : ℕ) (rest : Bytes) → length (digits f n rest) ≤ f + length rest
unfolding digits
length-digits zero n rest = omega arith
length-digits (suc f) n rest = elim (dec_lt n 10) [
  | yes small ↦ rw (lt→ltb n 10 small) (omega arith)
  | no large ↦
      rw (le→ltb_false n 10 (omega arith))
        (omega (arith, length-digits f (n / 10) ((48 + n % 10) ∷ rest)))
]

digits-append :
    (rest : Bytes) (f n : ℕ) (held : Bytes) → (digits f n held ++ rest) ≡ digits f n (held ++ rest)
unfolding digits
digits-append rest zero n held = refl
digits-append rest (suc f) n held = elim (dec_lt n 10) [
  | yes small ↦ rw (lt→ltb n 10 small) refl
  | no large ↦
      rw (le→ltb_false n 10 (omega arith)) (digits-append rest f (n / 10) ((48 + n % 10) ∷ held))
]

decimal-append : (n : ℕ) (rest : Bytes) → (decimal n ++ rest) ≡ digits 10 n rest
unfolding decimal
decimal-append n rest = digits-append rest 10 n []

atoi-end : (n : ℕ) → atoi n (10 ∷ []) ≡ n
unfolding atoi
atoi-end n = refl

after_digits-end : after_digits (10 ∷ []) ≡ 10 ∷ []
unfolding after_digits
after_digits-end = refl

skip_space-plain : (b : ℕ) (bs : Bytes) → 33 ≤ b → skip_space (b ∷ bs) ≡ b ∷ bs
unfolding skip_space
skip_space-plain b bs h =
    rw (==_false b 32 (λ e. omega arith), lt→leb_false b 13 (omega arith), le→leb 9 b (omega arith))
      refl

magnitude-digit :
    (d n : ℕ) (more rest : Bytes)
    → d < 10
    → atoi 0 ((48 + d) ∷ more) ≡ n
    → after_digits ((48 + d) ∷ more) ≡ rest
    → n < 4294967296
    → magnitude ((48 + d) ∷ more) ≡ some (n, rest)
unfolding magnitude
magnitude-digit d n more rest h value left small =
    let bounded : min n 18446744073709551615 ≡ n = omega arith in
    rw (digit-is_digit d h, value, left, bounded) refl

scan_unsigned-digit :
    (d n : ℕ) (more rest : Bytes)
    → magnitude ((48 + d) ∷ more) ≡ some (n, rest)
    → n < 4294967296
    → scan_unsigned ((48 + d) ∷ more) ≡ some (n, rest)
unfolding scan_unsigned
scan_unsigned-digit d n more rest read small =
    let whole : n % 4294967296 ≡ n = omega arith in
    rw
      (
        scan_unsigned,
        skip_space-plain (48 + d) more (omega arith),
        ==_false (48 + d) 45 (λ e. omega arith),
        ==_false (48 + d) 43 (λ e. omega arith),
        read,
        whole,
      )
      refl

-- A number that was written at the end of a line is read.
pub scan_unsigned-decimal :
    (n : ℕ) → n < 4294967296 → scan_unsigned (decimal n ++ 10 ∷ []) ≡ some (n, 10 ∷ [])
scan_unsigned-decimal n h =
    let (d, more, small, e) = decimal-StartsWithDigit n (10 ∷ []) (omega arith) in
    let value : atoi 0 ((48 + d) ∷ more) ≡ n =
      ap (atoi 0) (sym e) ∙ atoi-decimal n (10 ∷ []) (omega arith) ∙ atoi-end n in
    let left : after_digits ((48 + d) ∷ more) ≡ 10 ∷ [] =
      ap after_digits (sym e) ∙ after_digits-decimal n (10 ∷ []) (omega arith) ∙ after_digits-end in
    ap scan_unsigned (decimal-append n (10 ∷ []) ∙ e)
    ∙ scan_unsigned-digit d n more (10 ∷ []) (magnitude-digit d n more (10 ∷ []) small value left h)
        h

pub number_length : (n : ℕ) → length (decimal n) ≤ 10
unfolding decimal
number_length n = omega (arith, length-digits 10 n [])
