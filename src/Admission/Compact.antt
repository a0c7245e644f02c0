-- ===== src/Admission/Compact.antt =====
-- The list of members becomes the list of their addresses, in its own buffer.
use mathlib.Core.List.{append_assoc}
use cs425_mp.Common.{
  ℕ, suc, ◌+◌, ◌≡◌, ◌≤◌, refl, sym, ◌∙◌, ap, ap₂, List, [], ◌∷◌, ◌++◌, Bytes, arith, length,
  length-append, length-drop, drop, take-append, drop-append_le, drop-zero, be32,
}
use cs425_mp.Admission.{copy16, compact, id_list}

-- The addresses, row by row.
abbrev pub rows : List (ℕ × Bytes) → Bytes
rows [] = []
rows (e ∷ es) = e.1 ++ rows es

abbrev pub AreRows : List (ℕ × Bytes) → Type 0
AreRows [] = Unit
AreRows (e ∷ es) = (length e.1 ≡ 16) × AreRows es

drop-past : (xs : Bytes) (n : ℕ) (ys : Bytes) → drop (length xs + n) (xs ++ ys) ≡ drop n ys
unfolding drop
drop-past [] n ys = ap (λ k. drop k ys) (omega arith)
drop-past (x ∷ xs) n ys =
    let e : suc (length xs) + n ≡ suc (length xs + n) = omega arith in
    ap (λ k. drop k (x ∷ xs ++ ys)) e ∙ drop-past xs n ys

copy16-row :
    (front junk stamp ip rest : Bytes)
    → length stamp ≡ 4
    → length ip ≡ 16
    → copy16
        (length front)
        (length front + length junk + 4)
        (front ++ (junk ++ (stamp ++ (ip ++ rest))))
      ≡ (front ++ ip) ++ (drop 16 (junk ++ (stamp ++ ip)) ++ rest)
unfolding copy16
copy16-row front junk stamp ip rest four sixteen =
    let from : length front + length junk + 4 ≡ length front + (length junk + (length stamp + 0)) =
      omega arith in
    let a : drop (length front + length junk + 4) (front ++ (junk ++ (stamp ++ (ip ++ rest))))
        ≡ ip ++ rest =
      ap (λ n. drop n (front ++ (junk ++ (stamp ++ (ip ++ rest))))) from
      ∙ drop-past front (length junk + (length stamp + 0)) _
      ∙ drop-past junk (length stamp + 0) _
      ∙ drop-past stamp 0 _
      ∙ drop-zero (ip ++ rest) in
    let long : 16 ≤ length (junk ++ (stamp ++ ip)) =
      omega (arith, length-append junk (stamp ++ ip), length-append stamp ip) in
    let b : drop (length front + 16) (front ++ (junk ++ (stamp ++ (ip ++ rest))))
        ≡ drop 16 (junk ++ (stamp ++ ip)) ++ rest =
      drop-past front 16 _
      ∙ ap (drop 16) (
          sym (
            append_assoc junk (stamp ++ ip) rest
            ∙ ap (λ x. junk ++ x) (append_assoc stamp ip rest)))
      ∙ drop-append_le 16 (junk ++ (stamp ++ ip)) rest long in
    rw
      (
        take-append (length front) front (junk ++ (stamp ++ (ip ++ rest))) refl,
        a,
        b,
        take-append 16 ip rest sixteen,
      )
      refl

-- Behind what is in place already, the loop leaves the addresses of all the members in their order.
compact-rows :
    (es : List (ℕ × Bytes)) (front junk : Bytes)
    → AreRows es
    → (rest : Bytes) × (compact
          (length es)
          (length front)
          (length front + length junk + 4)
          (front ++ (junk ++ id_list es))
        ≡ front ++ (rows es ++ rest))
unfolding compact id_list be32
compact-rows [] front junk h = (junk ++ [], refl)
compact-rows (e ∷ es) front junk h =
    let moved = copy16-row front junk (be32 e.0) e.1 (id_list es) refl h.0 in
    let junk1 = drop 16 (junk ++ (be32 e.0 ++ e.1)) in
    let here : length (front ++ e.1) ≡ length front + 16 =
      omega (arith, length-append front e.1, h.0) in
    let there : length (front ++ e.1) + length junk1 + 4 ≡ length front + length junk + 4 + 20 =
      omega (
        arith,
        here,
        h.0,
        length-drop 16 (junk ++ (be32 e.0 ++ e.1)),
        length-append junk (be32 e.0 ++ e.1),
        length-append (be32 e.0) e.1,
      ) in
    let (rest, done) = compact-rows es (front ++ e.1) junk1 h.1 in
    (
      rest,
      ap (λ buf. compact (length es) (length front + 16) (length front + length junk + 4 + 20) buf)
            moved
          ∙ ap₂ (λ to from. compact (length es) to from ((front ++ e.1) ++ (junk1 ++ id_list es)))
              (sym here) (sym there)
          ∙ done
          ∙ append_assoc front e.1 (rows es ++ rest)
          ∙ ap (λ x. front ++ x) (sym (append_assoc e.1 (rows es) rest)),
    )

-- The buffer of the list, compacted.
pub compact-id_list :
    (es : List (ℕ × Bytes))
    → AreRows es
    → (rest : Bytes) × (compact (length es) 0 4 (id_list es) ≡ rows es ++ rest)
compact-id_list es h = compact-rows es [] [] h
