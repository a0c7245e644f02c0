-- ===== src/Ui/Commands.antt =====
-- Commands, as they are typed and as they are understood.
use cs425_mp.Common.{
  ℕ, zero, suc, ◌+◌, ◌-◌, ◌*◌, ◌≡◌, ◌≤◌, ◌<◌, ◌≢◌, refl, sym, ◌∙◌, ap, ap₂, Bool, true, false, ◌&&◌,
  ◌||◌, none, some, [], ◌∷◌, ◌++◌, append_assoc, Bytes, codes, ◌==◌, ==_true, ==_false, ltb, arith,
  Bool-cases, inl, inr, get_elem?, length, length-append, bytes_eq, bytes_eq→eq,
}
use cs425_mp.Ring.{update}
use cs425_mp.Ui.{
  Args, text_at, arg, scan_command, Command, put, get, delete, no_source, invalid, choose,
  parse_command,
}
use cs425_mp.Ui.Words.{
  IsName, Holds, at, Holds-frame, text_at-Holds, store-runs, get_elem?-append, Reads-append,
  fourth_word, scan_end,
}
use cs425_mp.Ui.Scanned.{IsFileName, scan_two, scan_three}

arg-Holds :
    (args : Args) (k : ℕ) (w : Bytes)
    → k < 3
    → IsName w
    → Holds args (255 * k) w
    → args (255 * k + length w) ≡ 0
    → length w < 255
    → arg args k ≡ w
unfolding arg
arg-Holds args k w row name held nul small =
    text_at-Holds (765 - 255 * k) args (255 * k) w name held nul (omega arith)

no_complaint : (x : Bool) → ((x && ltb 2 1) || (x && ltb 2 2)) ≡ false
no_complaint true = refl
no_complaint false = refl

-- What follows the loop, where it ended in the third row.
finish_three :
    (exists : Bytes → Bool) (verb a b : Bytes) (f : Args)
    → IsName verb
    → length verb ≤ 3
    → IsFileName a
    → IsFileName b
    → Holds f 0 verb
    → f (length verb) ≡ 0
    → Holds f 255 a
    → f (255 + length a) ≡ 0
    → Holds f 510 b
    → let g = update f (255 * 2 + length b) 0 in
      choose exists (arg g 0) (arg g 1) (arg g 2) ≡ choose exists verb a b
finish_three exists verb a b f vn short an bn hv zv ha za hb =
    let g : Args = update f (255 * 2 + length b) 0 in
    let same : (q : ℕ) → q < 255 * 2 + length b → g q ≡ f q =
      λ q h. rw (==_false q (255 * 2 + length b) (λ e. omega arith)) refl in
    let v =
      arg-Holds g 0 verb (omega arith) vn
        (Holds-frame f g 0 (255 * 2 + length b) verb hv (omega arith) same)
        (same (255 * 0 + length verb) (omega arith) ∙ ap f (first_row (length verb)) ∙ zv)
        (omega arith) in
    let x =
      arg-Holds g 1 a (omega arith) an.0
        (Holds-frame f g 255 (255 * 2 + length b) a ha (omega arith) same)
        (same (255 * 1 + length a) (omega arith) ∙ za) an.2 in
    let y =
      arg-Holds g 2 b (omega arith) bn.0
        (Holds-frame f g 510 (255 * 2 + length b) b hb (omega arith) same)
        (rw (==_true (255 * 2 + length b) (255 * 2 + length b) refl) refl) bn.2 in
    ap₂ (λ p q. choose exists p q (arg g 2)) v x ∙ ap (choose exists verb a) y
  where
    first_row : (n : ℕ) → 255 * 0 + n ≡ n
    first_row n = omega arith

module _ (exists : Bytes → Bool) (verb a : Bytes) (stale : Args) (verb_name : IsName verb)
    (short : length verb ≤ 3) (a_name : IsFileName a) where
  parse_command-three :
      (b junk : Bytes)
      → IsFileName b
      → parse_command exists stale (((verb ++ 32 ∷ a) ++ 32 ∷ b) ++ 0 ∷ junk)
        ≡ some (choose exists verb a b)
  unfolding parse_command
  parse_command-three b junk b_name =
      let text : Bytes = (verb ++ 32 ∷ a) ++ 32 ∷ b in
      let command : Bytes = ((verb ++ 32 ∷ a) ++ 32 ∷ b) ++ 0 ∷ junk in
      let size : length text ≡ length verb + 1 + length a + 1 + length b =
        omega (arith, length-append (verb ++ 32 ∷ a) (32 ∷ b), length-append verb (32 ∷ a)) in
      let fuel : suc (length command)
          ≡ length verb + (length a + (length b + suc (length junk + 3))) =
        omega (arith, size, length-append text (0 ∷ junk)) in
      let (f, runs, hv, zv, ha, za, hb) =
        scan_three verb a stale verb_name short a_name b b_name (suc (length junk + 3)) command
          (Reads-append [] text (0 ∷ junk)) (omega (arith, fuel)) in
      let last : get_elem? command (length verb + 1 + length a + 1 + length b) ≡ some 0 =
        ap (get_elem? command) (sym size) ∙ get_elem?-append text 0 junk in
      let whole : scan_command (suc (length command)) command (at stale 0 0 0)
          ≡ some (at f (length verb + 1 + length a + 1 + length b) 2 (length b)) =
        ap (λ k. scan_command k command (at stale 0 0 0)) fuel
        ∙ runs
        ∙ scan_end (length junk + 3) command
            (at f (length verb + 1 + length a + 1 + length b) 2 (length b)) last in
      rw
        (
          whole,
          no_complaint (bytes_eq (arg f 1) (codes "del")),
          store-runs (255 * 2 + length b) 0 f (omega arith),
          finish_three exists verb a b f verb_name short a_name b_name hv zv ha za hb,
        )
        refl

  -- A fourth word is written outside `args`.
  parse_command-four :
      (b : Bytes) (c : ℕ) (rest : Bytes)
      → IsFileName b
      → c ≢ 32
      → parse_command exists stale (((verb ++ 32 ∷ a) ++ 32 ∷ b) ++ 32 ∷ c ∷ rest) ≡ none
  unfolding parse_command
  parse_command-four b c rest b_name other =
      let text : Bytes = (verb ++ 32 ∷ a) ++ 32 ∷ b in
      let command : Bytes = ((verb ++ 32 ∷ a) ++ 32 ∷ b) ++ 32 ∷ c ∷ rest in
      let index : ℕ = length verb + 1 + length a + 1 + length b in
      let size : length text ≡ length verb + 1 + length a + 1 + length b =
        omega (arith, length-append (verb ++ 32 ∷ a) (32 ∷ b), length-append verb (32 ∷ a)) in
      let fuel : suc (length command)
          ≡ length verb + (length a + (length b + suc (length rest + 4))) =
        omega (arith, size, length-append text (32 ∷ c ∷ rest)) in
      let (f, runs, _, _, _, _, _) =
        scan_three verb a stale verb_name short a_name b b_name (suc (length rest + 4)) command
          (Reads-append [] text (32 ∷ c ∷ rest)) (omega (arith, fuel)) in
      let here : get_elem? command (length verb + 1 + length a + 1 + length b) ≡ some 32 =
        ap (get_elem? command) (sym size) ∙ get_elem?-append text 32 (c ∷ rest) in
      let one_more : length verb + 1 + length a + 1 + length b + 1 ≡ length (text ++ 32 ∷ []) =
        omega (arith, size, length-append text (32 ∷ [])) in
      let there : get_elem? command (length verb + 1 + length a + 1 + length b + 1) ≡ some c =
        ap₂ get_elem? (sym (append_assoc text (32 ∷ []) (c ∷ rest))) one_more
        ∙ get_elem?-append (text ++ 32 ∷ []) c rest in
      let whole : scan_command (suc (length command)) command (at stale 0 0 0) ≡ none =
        ap (λ k. scan_command k command (at stale 0 0 0)) fuel
        ∙ runs
        ∙ fourth_word (length rest + 4) command f (length verb + 1 + length a + 1 + length b)
            (length b) c here there other (omega (arith, fuel)) b_name.2 in
      rw whole refl

length-le-text_at :
    (n : ℕ) (f : Args) (pos : ℕ) (w : Bytes)
    → IsName w
    → Holds f pos w
    → length w ≤ n
    → length w ≤ length (text_at n f pos)
unfolding text_at
length-le-text_at n f pos [] name held small = omega arith
length-le-text_at zero f pos (b ∷ w) name held small = absurd (omega arith)
length-le-text_at (suc n) f pos (b ∷ w) name held small =
    let e : (f pos == 0) ≡ false = ==_false (f pos) 0 (λ z. name.0 (sym held.0 ∙ z)) in
    rw e (omega (arith, length-le-text_at n f (pos + 1) w name.2 held.1 (omega arith)))

no_del :
    (f : Args) (a : Bytes)
    → IsFileName a
    → Holds f 255 a
    → 3 < length a
    → bytes_eq (arg f 1) (codes "del") ≡ false
unfolding arg
no_del f a name held long = elim (Bool-cases (bytes_eq (text_at 510 f 255) (codes "del"))) [
  | inr other ↦ other
  | inl same ↦
      let e : length (text_at 510 f 255) ≡ 3 =
        ap length (bytes_eq→eq (text_at 510 f 255) (codes "del") same) in
      absurd (omega (arith, length-le-text_at 510 f 255 a name.0 held (omega arith)))
]

put-IsName : IsName (codes "put")
put-IsName = omega arith

get-IsName : IsName (codes "get")
get-IsName = omega arith

del-IsName : IsName (codes "del")
del-IsName = omega arith

-- `del`, of a name of four bytes or more.
parse_command-del :
    (exists : Bytes → Bool) (a : Bytes) (stale : Args) (junk : Bytes)
    → IsFileName a
    → 3 < length a
    → parse_command exists stale ((codes "del" ++ 32 ∷ a) ++ 0 ∷ junk) ≡ some (delete a)
unfolding parse_command choose
parse_command-del exists a stale junk a_name long =
    let verb : Bytes = codes "del" in
    let text : Bytes = codes "del" ++ 32 ∷ a in
    let command : Bytes = (codes "del" ++ 32 ∷ a) ++ 0 ∷ junk in
    let verb_name : IsName verb = del-IsName in
    let fuel : suc (length command) ≡ 3 + (length a + suc (length junk + 2)) =
      omega (arith, length-append a (0 ∷ junk)) in
    let (f, runs, hv, zv, ha) =
      scan_two verb a stale verb_name (omega arith) a_name (suc (length junk + 2)) command
        (Reads-append [] text (0 ∷ junk)) (omega (arith, fuel)) in
    let size : 3 + 1 + length a ≡ length text = omega arith in
    let last : get_elem? command (3 + 1 + length a) ≡ some 0 =
      ap (get_elem? command) size ∙ get_elem?-append text 0 junk in
    let whole : scan_command (suc (length command)) command (at stale 0 0 0)
        ≡ some (at f (3 + 1 + length a) 1 (length a)) =
      ap (λ k. scan_command k command (at stale 0 0 0)) fuel
      ∙ runs
      ∙ scan_end (length junk + 2) command (at f (3 + 1 + length a) 1 (length a)) last in
    let g : Args = update f (255 * 1 + length a) 0 in
    let same : (q : ℕ) → q < 255 * 1 + length a → g q ≡ f q =
      λ q h. rw (==_false q (255 * 1 + length a) (λ e. omega arith)) refl in
    let v =
      arg-Holds g 0 verb (omega arith) verb_name
        (Holds-frame f g 0 (255 * 1 + length a) verb hv (omega arith) same)
        (same 3 (omega arith) ∙ zv) (omega arith) in
    let x =
      arg-Holds g 1 a (omega arith) a_name.0
        (Holds-frame f g 255 (255 * 1 + length a) a ha (omega arith) same)
        (rw (==_true (255 * 1 + length a) (255 * 1 + length a) refl) refl) a_name.2 in
    rw (whole, no_del f a a_name ha long, store-runs (255 * 1 + length a) 0 f (omega arith), v, x)
      refl

-- A command as it is typed; a complaint has no text.
abbrev pub command_text : Command → Bytes
command_text (put a b) = (codes "put" ++ 32 ∷ a) ++ 32 ∷ b
command_text (get b a) = (codes "get" ++ 32 ∷ a) ++ 32 ∷ b
command_text (delete a) = codes "del" ++ 32 ∷ a
command_text no_source = []
command_text invalid = []

-- Its file names fit, the file that is put is there, and a deleted file's name has four bytes at least.
abbrev pub IsTyped : (Bytes → Bool) → Command → Type 0
IsTyped exists (put a b) = IsFileName a × IsFileName b × (exists a ≡ true)
IsTyped exists (get b a) = IsFileName a × IsFileName b
IsTyped exists (delete a) = IsFileName a × (3 < length a)
IsTyped exists no_source = ⊥
IsTyped exists invalid = ⊥

-- A command whose words are separated by one space each, with file names of 254 bytes at most, is
-- understood as it is meant, whatever stands behind it in the buffer and whatever the array held before.
-- The file to be put is there, and the name of a file to be deleted has four bytes at least.
pub parse_command-command_text :
    (exists : Bytes → Bool) (stale : Args) (c : Command) (junk : Bytes)
    → IsTyped exists c
    → parse_command exists stale (command_text c ++ 0 ∷ junk) ≡ some c
unfolding choose
parse_command-command_text exists stale (put a b) junk typed =
    parse_command-three exists (codes "put") a stale put-IsName (omega arith) typed.0 b junk typed.1
    ∙ rw typed.2 refl
parse_command-command_text exists stale (get b a) junk typed =
    parse_command-three exists (codes "get") a stale get-IsName (omega arith) typed.0 b junk typed.1
parse_command-command_text exists stale (delete a) junk typed =
    parse_command-del exists a stale junk typed.0 typed.1
parse_command-command_text exists stale no_source junk typed = absurd typed
parse_command-command_text exists stale invalid junk typed = absurd typed

-- Three words that fit, and a fourth one behind one space: `parse_command` writes outside `args`.
pub parse_command-overrun :
    (exists : Bytes → Bool) (stale : Args) (verb a b : Bytes) (c : ℕ) (rest : Bytes)
    → IsName verb
    → length verb ≤ 3
    → IsFileName a
    → IsFileName b
    → c ≢ 32
    → parse_command exists stale (((verb ++ 32 ∷ a) ++ 32 ∷ b) ++ 32 ∷ c ∷ rest) ≡ none
parse_command-overrun exists stale verb a b c rest name short an bn other =
    parse_command-four exists verb a stale name short an b c rest bn other
