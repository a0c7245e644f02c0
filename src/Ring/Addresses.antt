-- ===== src/Ring/Addresses.antt =====
-- Addresses as texts in sixteen bytes, and the comparisons of them.
use cs425_mp.Common.{
  ℕ, zero, suc, ◌≡◌, refl, sym, ◌∙◌, ap, true, false, ◌<◌, ◌≤◌, [], ◌∷◌, Bytes, arith, Bool-cases,
  inl, inr, length, take, take-all, set, bytes_eq, bytes_eq→eq, bytes_eq_refl, cstr, pad,
  length-pad, cstr-pad, IsText, strcmp_eq, strncmp_eq, memcmp_eq,
}
use cs425_mp.Ring.{id_ip, node_ip}

-- A text and NULs to the end of the sixteen bytes, one of them at least.
abbrev pub IsAddress : Bytes → Type 0
IsAddress b = (text : Bytes) × IsText text × (length text < 16) × (b ≡ pad 16 text)

take-IsAddress : (a : Bytes) → IsAddress a → take 16 a ≡ a
take-IsAddress a (s, t, small, e) = take-all 16 a (omega (arith, ap length e ∙ length-pad 16 s))

cstr-IsAddress : (a b : Bytes) → IsAddress a → IsAddress b → cstr a ≡ cstr b → a ≡ b
cstr-IsAddress a b (s, t, small, e) (s', t', small', e') same =
    let x : s ≡ s' =
      sym (ap cstr e ∙ cstr-pad 16 s t small) ∙ same ∙ ap cstr e' ∙ cstr-pad 16 s' t' small' in
    e ∙ ap (pad 16) x ∙ sym e'

-- A text differs where the addresses do.
pub strcmp-IsAddress : (a b : Bytes) → IsAddress a → IsAddress b → strcmp_eq a b ≡ bytes_eq a b
unfolding strcmp_eq
strcmp-IsAddress a b ia ib = elim (Bool-cases (bytes_eq a b)) [
  | inl same ↦ rw (bytes_eq→eq a b same) (bytes_eq_refl (cstr b) ∙ sym (bytes_eq_refl b))
  | inr other ↦ elim (Bool-cases (bytes_eq (cstr a) (cstr b))) [
    | inr f ↦ f ∙ sym other
    | inl t ↦
        let e = cstr-IsAddress a b ia ib (bytes_eq→eq (cstr a) (cstr b) t) in
        absurd (clash (sym (ap (bytes_eq a) (sym e) ∙ bytes_eq_refl a) ∙ other))
  ]
]
  where
    clash : true ≡ false → ⊥
    clash e = cc

pub strncmp-IsAddress : (a b : Bytes) → IsAddress a → IsAddress b → strncmp_eq 16 a b ≡ bytes_eq a b
unfolding strncmp_eq
strncmp-IsAddress a b ia ib =
    rw (take-IsAddress a ia, take-IsAddress b ib) (unfold strcmp_eq in strcmp-IsAddress a b ia ib)

pub memcmp-IsAddress : (a b : Bytes) → IsAddress a → IsAddress b → memcmp_eq 16 a b ≡ bytes_eq a b
unfolding memcmp_eq
memcmp-IsAddress a b ia ib = rw (take-IsAddress a ia, take-IsAddress b ib) refl

set-pad : (n : ℕ) (text : Bytes) → length text ≤ n → set (pad (suc n) text) n 0 ≡ pad (suc n) text
unfolding pad
set-pad zero [] h = refl
set-pad zero (b ∷ bs) h = absurd (omega arith)
set-pad (suc n) [] h = ap (λ x. 0 ∷ x) (set-pad n [] (omega arith))
set-pad (suc n) (b ∷ bs) h = ap (λ x. b ∷ x) (set-pad n bs (omega arith))

-- The last byte of such an address is a NUL already.
pub node_ip-IsAddress : (id : Bytes) → IsAddress (id_ip id) → node_ip id ≡ id_ip id
unfolding node_ip
node_ip-IsAddress id i =
    let (s, t, small, e) = i in
    ap (λ b. set b 15 0) (take-IsAddress (id_ip id) i ∙ e) ∙ set-pad 15 s (omega arith) ∙ sym e
