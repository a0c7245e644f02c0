-- ===== src/Dfs/Restore/Lines.antt =====
-- The loop of dfs_read_from_file, line by line.
use cs425_mp.Common.{
  ℕ, zero, suc, ◌+◌, ◌≡◌, ◌≤◌, ◌<◌, refl, sym, ◌∙◌, ap, subst, some, [], ◌∷◌, ◌++◌, append_assoc,
  Bytes, ==_false, arith, length, length-append, cstr-text,
}
use cs425_mp.Admission.Saved.{IsWord, word-IsWord, skip_space-IsWord}
use cs425_mp.Dgrep.Script.{IsLine, fgets-whole_line, line-IsText}
use cs425_mp.Dfs.Persist.{line}
use cs425_mp.Dfs.Restore.{scan_word, Reading, read_line, read_lines}
use cs425_mp.Dfs.Restore.Numbers.{IsPlain}

IsPlain-IsWord : (v : Bytes) → IsPlain v → IsWord v
IsPlain-IsWord [] p = tt
IsPlain-IsWord (b ∷ v) p = (ground (arith, p.0), ground (arith, p.0), IsPlain-IsWord v p.1)

pub scan_word-plain : (v : Bytes) → IsPlain v → 0 < length v → scan_word (v ++ 10 ∷ []) ≡ some v
unfolding scan_word
scan_word-plain v p more =
    let w = IsPlain-IsWord v p in
    rw
      (
        scan_word,
        skip_space-IsWord v w more,
        word-IsWord v w,
        ==_false (length v) 0 (λ e. omega arith),
      )
      refl

IsLine-append : (k v : Bytes) → IsLine k → IsPlain v → IsLine (k ++ 58 ∷ v)
IsLine-append [] v a p = (omega arith, λ e. omega arith, IsLine-plain v p)
  where
    IsLine-plain : (v : Bytes) → IsPlain v → IsLine v
    IsLine-plain [] p = tt
    IsLine-plain (b ∷ v) p = (ground (arith, p.0), λ e. ground (arith, p.0), IsLine-plain v p.1)
IsLine-append (b ∷ k) v a p = (a.0, a.1, IsLine-append k v a.2 p)

-- From one state to another, over a text that something may follow, with rounds enough for all of it.
abbrev pub Reads : Reading → Bytes → Reading → Type 0
Reads r text r' =
    (fuel : ℕ) (rest : Bytes)
    → length (text ++ rest) ≤ fuel
    → (fuel' : ℕ) × (length rest ≤ fuel')
      × (read_lines fuel (text ++ rest) r ≡ read_lines fuel' rest r')

pub Reads-nil : (r : Reading) → Reads r [] r
Reads-nil r fuel rest enough = (fuel, enough, refl)

pub Reads-append :
    (r r1 r2 : Reading) (s t : Bytes) → Reads r s r1 → Reads r1 t r2 → Reads r (s ++ t) r2
Reads-append r r1 r2 s t f g fuel rest enough =
    let (fuel1, left, e) =
      f fuel (t ++ rest) (subst (λ u. length u ≤ fuel) (append_assoc s t rest) enough) in
    let (fuel2, left2, e2) = g fuel1 rest left in
    (fuel2, left2, ap (λ u. read_lines fuel u r) (append_assoc s t rest) ∙ e ∙ e2)

pub Reads-whole_line :
    (r r' : Reading) (l : Bytes)
    → IsLine l
    → length l < 127
    → read_line (l ++ 10 ∷ []) r ≡ some r'
    → Reads r (l ++ 10 ∷ []) r'
unfolding read_lines
Reads-whole_line r r' l w short reads zero rest enough =
    absurd (omega (arith, length-append (l ++ 10 ∷ []) rest, length-append l (10 ∷ [])))
Reads-whole_line r r' l w short reads (suc fuel) rest enough =
    let whole : ((l ++ 10 ∷ []) ++ rest) ≡ l ++ 10 ∷ rest = append_assoc l (10 ∷ []) rest in
    (
      fuel,
      omega (arith, length-append (l ++ 10 ∷ []) rest, length-append l (10 ∷ [])),
      rw
          (
            read_lines,
            whole,
            fgets-whole_line 127 l rest w short,
            ==_false (length (l ++ 10 ∷ [])) 0 (λ e. omega (arith, length-append l (10 ∷ []))),
            cstr-text (l ++ 10 ∷ []) (line-IsText l w),
            reads,
          )
          refl,
    )

pub Reads-line :
    (r r' : Reading) (k v : Bytes)
    → IsLine k
    → IsPlain v
    → length k + length v < 126
    → read_line (line k v) r ≡ some r'
    → Reads r (line k v) r'
unfolding line
Reads-line r r' k v a p short reads =
    let whole : line k v ≡ (k ++ 58 ∷ v) ++ 10 ∷ [] = rw (append_assoc k (58 ∷ v) (10 ∷ [])) refl in
    subst (λ u. Reads r u r') (sym whole)
      (Reads-whole_line r r' (k ++ 58 ∷ v) (IsLine-append k v a p)
        (omega (arith, length-append k (58 ∷ v)))
        (subst (λ u. read_line u r ≡ some r') whole reads))
