-- ===== src/Ui/Words.antt =====
-- The words of a command, as they are copied into the rows of `args`.
use cs425_mp.Common.{
  ℕ, zero, suc, ◌+◌, ◌*◌, ◌≡◌, ◌≤◌, ◌<◌, ◌≢◌, refl, sym, ◌∙◌, ap, ap₂, subst, true, false, ◌&&◌,
  ◌||◌, none, some, [], ◌∷◌, ◌++◌, Bytes, ◌==◌, ==_true, ==_false, ltb, lt→ltb, arith, get_elem?,
  length,
}
use cs425_mp.Ring.{update}
use cs425_mp.Ui.{Args, store, text_at, Scan, skip_spaces, next_argument, scan_command}

-- Bytes that are neither NUL nor a space.
abbrev pub IsName : Bytes → Type 0
IsName [] = Unit
IsName (b ∷ bs) = (b ≢ 0) × (b ≢ 32) × IsName bs

-- The array holds a text from a place on.
abbrev pub Holds : Args → ℕ → Bytes → Type 0
Holds args pos [] = Unit
Holds args pos (b ∷ bs) = (args pos ≡ b) × Holds args (pos + 1) bs

-- The state at a place in the row `i`, where `n` bytes are filled.
abbrev pub at : Args → ℕ → ℕ → ℕ → Scan
at args index i n = record {
  args = args;
  index = index;
  i = i;
  string_index = n;
  length = n;
  valid = true;
}

pub Holds-frame :
    (f g : Args) (pos bound : ℕ) (w : Bytes)
    → Holds f pos w
    → pos + length w ≤ bound
    → ((q : ℕ) → q < bound → g q ≡ f q)
    → Holds g pos w
Holds-frame f g pos bound [] h small same = tt
Holds-frame f g pos bound (b ∷ w) h small same =
    (same pos (omega arith) ∙ h.0, Holds-frame f g (pos + 1) bound w h.1 (omega arith) same)

pub text_at-Holds :
    (n : ℕ) (f : Args) (pos : ℕ) (w : Bytes)
    → IsName w
    → Holds f pos w
    → f (pos + length w) ≡ 0
    → length w < n
    → text_at n f pos ≡ w
unfolding text_at
text_at-Holds zero f pos w name h nul small = absurd (omega arith)
text_at-Holds (suc n) f pos [] name h nul small =
    let e : f pos ≡ 0 = ap f (omega arith) ∙ nul in rw e refl
text_at-Holds (suc n) f pos (b ∷ w) name h nul small =
    let e : (f pos == 0) ≡ false = ==_false (f pos) 0 (λ z. name.0 (sym h.0 ∙ z)) in
    let further : pos + 1 + length w ≡ pos + length (b ∷ w) = omega arith in
    rw e (
      ap₂ (λ x xs. x ∷ xs) h.0
        (text_at-Holds n f (pos + 1) w name.2 h.1 (ap f further ∙ nul) (omega arith)))

pub get_elem?-append :
    (xs : Bytes) (b : ℕ) (ys : Bytes) → get_elem? (xs ++ b ∷ ys) (length xs) ≡ some b
get_elem?-append [] b ys = refl
get_elem?-append (x ∷ xs) b ys = get_elem?-append xs b ys

pub store-runs : (pos v : ℕ) (f : Args) → pos < 765 → store pos v f ≡ some (update f pos v)
unfolding store
store-runs pos v f h = rw (lt→ltb pos 765 h) refl

-- One byte of a word.
copy_byte :
    (fuel : ℕ) (command : Bytes) (f : Args) (index i n b : ℕ)
    → get_elem? command index ≡ some b
    → b ≢ 0
    → b ≢ 32
    → 255 * i + n < 765
    → i < 3
    → (i ≡ 0 → n < 3)
    → scan_command (suc fuel) command (at f index i n)
      ≡ scan_command fuel command (at (update f (255 * i + n) b) (index + 1) i (n + 1))
unfolding scan_command
copy_byte fuel command f index i n b here nul space room row first =
    let a : (b == 0) ≡ false = ==_false b 0 nul in
    let c : (b == 32) ≡ false = ==_false b 32 space in
    let stop : (ltb 2 i || ((i == 0) && ltb 3 (n + 1))) ≡ false = ground (arith, first) in
    rw (here, a, c, here, store-runs (255 * i + n) b f room, stop) refl

-- The buffer holds a text from a place on.
abbrev pub Reads : Bytes → ℕ → Bytes → Type 0
Reads command index [] = Unit
Reads command index (b ∷ w) = (get_elem? command index ≡ some b) × Reads command (index + 1) w

Reads-past :
    (c : ℕ) (command : Bytes) (index : ℕ) (w : Bytes)
    → Reads command index w
    → Reads (c ∷ command) (suc index) w
Reads-past c command index [] r = tt
Reads-past c command index (b ∷ w) r = (
  r.0,
  subst (λ k. Reads (c ∷ command) k w) (omega arith) (Reads-past c command (index + 1) w r.1),
)

pub Reads-append : (xs w ys : Bytes) → Reads (xs ++ (w ++ ys)) (length xs) w
Reads-append [] [] ys = tt
Reads-append [] (b ∷ w) ys = (
  refl,
  subst (λ k. Reads (b ∷ (w ++ ys)) k w) {x = 1} (omega arith)
      (Reads-past b (w ++ ys) 0 w (Reads-append [] w ys)),
)
Reads-append (x ∷ xs) w ys = Reads-past x (xs ++ (w ++ ys)) (length xs) w (Reads-append xs w ys)

-- A whole word.
pub copy_word :
    (fuel : ℕ) (command w : Bytes) (f : Args) (index i n : ℕ)
    → Reads command index w
    → IsName w
    → 255 * i + n + length w ≤ 765
    → i < 3
    → (i ≡ 0 → n + length w ≤ 3)
    → (f' : Args) × (scan_command (length w + fuel) command (at f index i n)
        ≡ scan_command fuel command (at f' (index + length w) i (n + length w)))
      × Holds f' (255 * i + n) w
      × ((q : ℕ) → q < 255 * i + n → f' q ≡ f q)
copy_word fuel command [] f index i n r name room row first =
    let k : 0 + fuel ≡ fuel = omega arith in
    let x : index ≡ index + 0 = omega arith in
    let y : n ≡ n + 0 = omega arith in
    (f, ap₂ (λ k s. scan_command k command s) k (ap₂ (λ x y. at f x i y) x y), tt, λ q h. refl)
copy_word fuel command (b ∷ w) f index i n r name room row first =
    let pos : ℕ = 255 * i + n in
    let f1 : Args = update f (255 * i + n) b in
    let (f', runs, held, same) =
      copy_word fuel command w f1 (index + 1) i (n + 1) r.1 name.2 (omega arith) row
        (λ e. first_later e) in
    let more : suc (length w) + fuel ≡ suc (length w + fuel) = omega arith in
    let further : index + 1 + length w ≡ index + suc (length w) = omega arith in
    let longer : n + 1 + length w ≡ n + suc (length w) = omega arith in
    let place : 255 * i + (n + 1) ≡ 255 * i + n + 1 = omega arith in
    (
      f',
      ap (λ k. scan_command k command (at f index i n)) more
          ∙ copy_byte (length w + fuel) command f index i n b r.0 name.0 name.1 (omega arith) row
              (λ e. first_now e)
          ∙ runs
          ∙ ap₂ (λ x y. scan_command fuel command (at f' x i y)) further longer,
      (
        same (255 * i + n) (omega arith) ∙ rw (==_true (255 * i + n) (255 * i + n) refl) refl,
        subst (λ p. Holds f' p w) place held,
      ),
      λ q h. same q (omega arith) ∙ rw (==_false q (255 * i + n) (λ e. omega arith)) refl,
    )
  where
    first_later : i ≡ 0 → n + 1 + length w ≤ 3
    first_later e = omega (arith, first e)

    first_now : i ≡ 0 → n < 3
    first_now e = omega (arith, first e)

skip_one :
    (k : ℕ) (command : Bytes) (index b : ℕ)
    → 0 < k
    → get_elem? command index ≡ some 32
    → get_elem? command (index + 1) ≡ some b
    → b ≢ 32
    → skip_spaces (suc k) command index ≡ some (index + 1)
unfolding skip_spaces
skip_one zero command index b room here there word = absurd (omega arith)
skip_one (suc k) command index b room here there word =
    let e : (b == 32) ≡ false = ==_false b 32 word in rw (here, there, e) refl

next_argument-one :
    (command : Bytes) (f : Args) (index i n b : ℕ)
    → get_elem? command index ≡ some 32
    → get_elem? command (index + 1) ≡ some b
    → b ≢ 32
    → 0 < length command
    → 255 * i + n < 765
    → next_argument command (at f index i n)
      ≡ some (at (update f (255 * i + n) 0) (index + 1) (i + 1) 0)
unfolding next_argument
next_argument-one command f index i n b here there word some_text room =
    rw
      (
        store-runs (255 * i + n) 0 f room,
        skip_one (length command) command index b some_text here there word,
      )
      refl

-- The array after a space behind the byte `n` of the row `i`, and the byte `b` behind it.
abbrev pub begun : Args → ℕ → ℕ → ℕ → Args
begun f i n b = update (update f (255 * i + n) 0) (255 * (i + 1) + 0) b

-- One space between two words: the row is ended, and the next word's first byte begins the next row.
pub next_word :
    (fuel : ℕ) (command : Bytes) (f : Args) (index i n b : ℕ)
    → get_elem? command index ≡ some 32
    → get_elem? command (index + 1) ≡ some b
    → b ≢ 32
    → 0 < length command
    → i < 2
    → n < 255
    → scan_command (suc fuel) command (at f index i n)
      ≡ scan_command fuel command (at (begun f i n b) (index + 1 + 1) (i + 1) 1)
unfolding scan_command
next_word fuel command f index i n b here there word some_text row small =
    let stop : (ltb 2 (i + 1) || ((i + 1 == 0) && ltb 3 1)) ≡ false = ground arith in
    rw
      (
        here,
        next_argument-one command f index i n b here there word some_text (omega arith),
        there,
        store-runs (255 * (i + 1) + 0) b (update f (255 * i + n) 0) (omega arith),
        stop,
      )
      refl

-- A space behind the third word leads outside the array.
pub fourth_word :
    (fuel : ℕ) (command : Bytes) (f : Args) (index n b : ℕ)
    → get_elem? command index ≡ some 32
    → get_elem? command (index + 1) ≡ some b
    → b ≢ 32
    → 0 < length command
    → n < 255
    → scan_command (suc fuel) command (at f index 2 n) ≡ none
unfolding scan_command store
fourth_word fuel command f index n b here there word some_text small =
    rw
      (here, next_argument-one command f index 2 n b here there word some_text (omega arith), there)
      refl

-- The NUL ends the loop.
pub scan_end :
    (fuel : ℕ) (command : Bytes) (s : Scan)
    → get_elem? command s.index ≡ some 0
    → scan_command (suc fuel) command s ≡ some s
unfolding scan_command
scan_end fuel command s here = rw here refl
