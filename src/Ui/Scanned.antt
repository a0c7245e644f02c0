-- ===== src/Ui/Scanned.antt =====
-- The words of a command, one after the other.
use cs425_mp.Common.{
  ℕ, suc, ◌+◌, ◌*◌, ◌≡◌, ◌≤◌, ◌<◌, refl, sym, ◌∙◌, ap, ap₂, subst, [], ◌∷◌, ◌++◌, Bytes, ==_true,
  ==_false, arith, length, length-append,
}
use cs425_mp.Ui.{Args, scan_command}
use cs425_mp.Ui.Words.{IsName, Holds, at, Holds-frame, Reads, copy_word, begun, next_word}

-- A word that fits its row with the NUL.
abbrev pub IsFileName : Bytes → Type 0
IsFileName w = IsName w × (0 < length w) × (length w < 255)

Reads-split :
    (command : Bytes) (index : ℕ) (u v : Bytes)
    → Reads command index (u ++ v)
    → Reads command index u × Reads command (index + length u) v
Reads-split command index [] v r = (tt, subst (λ k. Reads command k v) (omega arith) r)
Reads-split command index (b ∷ u) v r =
    let (here, later) = Reads-split command (index + 1) u v r.1 in
    let e : index + 1 + length u ≡ index + suc (length u) = omega arith in
    ((r.0, here), subst (λ k. Reads command k v) e later)

-- A space and a word, from the end of the word before it.
copy_next :
    (fuel : ℕ) (command w : Bytes) (f : Args) (index i n : ℕ)
    → Reads command index (32 ∷ w)
    → IsFileName w
    → 0 < length command
    → i < 2
    → n < 255
    → (f' : Args) × (scan_command (length w + fuel) command (at f index i n)
        ≡ scan_command fuel command (at f' (index + 1 + length w) (i + 1) (length w)))
      × Holds f' (255 * (i + 1)) w
      × (f' (255 * i + n) ≡ 0)
      × ((q : ℕ) → q < 255 * i + n → f' q ≡ f q)
copy_next fuel command [] f index i n r name some_text row small = absurd (omega arith)
copy_next fuel command (b ∷ w) f index i n r name some_text row small =
    let start =
      next_word (length w + fuel) command f index i n b r.0 r.1.0 name.0.1 some_text row small in
    let (f', runs, held, same) =
      copy_word fuel command w (begun f i n b) (index + 1 + 1) (i + 1) 1 r.1.1 name.0.2
        (omega arith) (omega arith) (λ e. absurd (omega arith)) in
    let first_place : 255 * (i + 1) + 0 ≡ 255 * (i + 1) = omega arith in
    let more : suc (length w) + fuel ≡ suc (length w + fuel) = omega arith in
    let further : index + 1 + 1 + length w ≡ index + 1 + suc (length w) = omega arith in
    let longer : 1 + length w ≡ suc (length w) = omega arith in
    (
      f',
      ap (λ k. scan_command k command (at f index i n)) more
          ∙ start
          ∙ runs
          ∙ ap₂ (λ x y. scan_command fuel command (at f' x (i + 1) y)) further longer,
      (
        ap f' (sym first_place)
            ∙ same (255 * (i + 1) + 0) (omega arith)
            ∙ rw (==_true (255 * (i + 1) + 0) (255 * (i + 1) + 0) refl) refl,
        held,
      ),
      same (255 * i + n) (omega arith)
          ∙ rw
              (
                ==_false (255 * i + n) (255 * (i + 1) + 0) (λ e. omega arith),
                ==_true (255 * i + n) (255 * i + n) refl,
              )
              refl,
      λ q h.
          same q (omega arith)
          ∙ rw
              (
                ==_false q (255 * (i + 1) + 0) (λ e. omega arith),
                ==_false q (255 * i + n) (λ e. omega arith),
              )
              refl,
    )

-- A verb of three letters at most and a file's name.
abbrev pub verb_and_name : Bytes → Bytes → Bytes
verb_and_name verb a = verb ++ 32 ∷ a

module _ (verb a : Bytes) (stale : Args) (verb_name : IsName verb) (short : length verb ≤ 3)
    (a_name : IsFileName a) where
  pub scan_two :
      (fuel : ℕ) (command : Bytes)
      → Reads command 0 (verb ++ 32 ∷ a)
      → 0 < length command
      → (f : Args) × (scan_command (length verb + (length a + fuel)) command (at stale 0 0 0)
          ≡ scan_command fuel command (at f (length verb + 1 + length a) 1 (length a)))
        × Holds f 0 verb
        × (f (length verb) ≡ 0)
        × Holds f 255 a
  scan_two fuel command r some_text =
      let (r1, r2) = Reads-split command 0 verb (32 ∷ a) r in
      let (f1, runs1, held1, _) =
        copy_word (length a + fuel) command verb stale 0 0 0 r1 verb_name (omega arith)
          (omega arith) (λ e. omega arith) in
      let (f2, runs2, held2, nul, same) =
        copy_next fuel command a f1 (0 + length verb) 0 (0 + length verb) r2 a_name some_text
          (omega arith) (omega arith) in
      let place : 255 * 0 + (0 + length verb) ≡ length verb = omega arith in
      let index : 0 + length verb + 1 + length a ≡ length verb + 1 + length a = omega arith in
      (
        f2,
        runs1 ∙ runs2 ∙ ap (λ x. scan_command fuel command (at f2 x 1 (length a))) index,
        Holds-frame f1 f2 0 (255 * 0 + (0 + length verb)) verb held1 (omega arith) same,
        ap f2 (sym place) ∙ nul,
        held2,
      )

  pub scan_three :
      (b : Bytes)
      → IsFileName b
      → (fuel : ℕ) (command : Bytes) → Reads command 0 ((verb ++ 32 ∷ a) ++ 32 ∷ b)
      → 0 < length command
      → (f : Args) × (scan_command
            (length verb + (length a + (length b + fuel)))
            command
            (at stale 0 0 0)
          ≡ scan_command fuel command
              (at f (length verb + 1 + length a + 1 + length b) 2 (length b)))
        × Holds f 0 verb
        × (f (length verb) ≡ 0)
        × Holds f 255 a
        × (f (255 + length a) ≡ 0)
        × Holds f 510 b
  scan_three b b_name fuel command r some_text =
      let (r1, r2) = Reads-split command 0 (verb ++ 32 ∷ a) (32 ∷ b) r in
      let (f1, runs1, held, nul, held') = scan_two (length b + fuel) command r1 some_text in
      let size : 0 + length (verb ++ 32 ∷ a) ≡ length verb + 1 + length a =
        omega (arith, length-append verb (32 ∷ a)) in
      let (f2, runs2, held2, nul2, same) =
        copy_next fuel command b f1 (length verb + 1 + length a) 1 (length a)
          (subst (λ k. Reads command k (32 ∷ b)) size r2) b_name some_text (omega arith)
          (omega arith) in
      (
        f2,
        runs1 ∙ runs2,
        Holds-frame f1 f2 0 255 verb held (omega arith) (λ q h. same q (omega arith)),
        same (length verb) (omega arith) ∙ nul,
        Holds-frame f1 f2 255 (255 + length a) a held' (omega arith) same,
        nul2,
        held2,
      )
