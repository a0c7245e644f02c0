-- ===== src/Common/Memory.antt =====
-- Bytes, C strings and the comparisons of <string.h>.
use Prim.Native.Nat.{ℕ, zero, suc, ◌+◌, ◌*◌, ◌/◌, ◌%◌, ◌<◌}
use Prim.Native.Char.{code}
use Prim.Native.String.{String}
use mathlib.Core.Path.{◌≡◌, refl, ap}
use mathlib.Core.Logic.{◌↔◌}
use mathlib.Core.Bool.{Bool, true, false, ◌&&◌}
use mathlib.Core.List.{List, [], ◌∷◌, ◌++◌}
use native.Mathlib.Omega.{arith}
use cs425_mp.Common.Tests.{◌==◌}
use cs425_mp.Common.Lists.{take, length}

-- A run of memory, one number below 256 for each byte.
abbrev pub Bytes : Type 0
Bytes = List ℕ

-- The bytes of an ASCII literal.
abbrev pub codes : String → Bytes
codes String.[] = []
codes (String.◌∷◌ c s) = code c ∷ codes s

abbrev pub bytes_eq : Bytes → Bytes → Bool
bytes_eq [] [] = true
bytes_eq [] (b ∷ bs) = false
bytes_eq (a ∷ as') [] = false
bytes_eq (a ∷ as') (b ∷ bs) = (a == b) && bytes_eq as' bs

pub bytes_eq→eq : (a b : Bytes) → bytes_eq a b ≡ true → a ≡ b
bytes_eq→eq [] [] h = refl
bytes_eq→eq [] (y ∷ b) h = ground arith
bytes_eq→eq (x ∷ a) [] h = ground arith
bytes_eq→eq (x ∷ a) (y ∷ b) h = ground (arith, bytes_eq→eq a b)

pub bytes_eq_refl : (a : Bytes) → bytes_eq a a ≡ true
bytes_eq_refl [] = refl
bytes_eq_refl (x ∷ a) = ground (arith, bytes_eq_refl a)

pub bytes_eq_iff : (a b : Bytes) → (bytes_eq a b ≡ true) ↔ (a ≡ b)
bytes_eq_iff a b = (bytes_eq→eq a b, λ e. rw e (bytes_eq_refl b))

-- The text of a buffer: what stands before its first NUL.
unfoldable pub cstr : Bytes → Bytes
cstr [] = []
cstr (zero ∷ bs) = []
cstr (suc b ∷ bs) = suc b ∷ cstr bs

-- `!strcmp(a, b)`, `!strncmp(a, b, n)` and `!memcmp(a, b, n)` on buffers.
unfoldable pub strcmp_eq : Bytes → Bytes → Bool
strcmp_eq a b = bytes_eq (cstr a) (cstr b)

unfoldable pub strncmp_eq : ℕ → Bytes → Bytes → Bool
strncmp_eq n a b = bytes_eq (cstr (take n a)) (cstr (take n b))

unfoldable pub memcmp_eq : ℕ → Bytes → Bytes → Bool
memcmp_eq n a b = bytes_eq (take n a) (take n b)

-- `strcpy` into a zeroed buffer of `n` bytes.
unfoldable pub pad : ℕ → Bytes → Bytes
pad zero bs = []
pad (suc n) [] = 0 ∷ pad n []
pad (suc n) (b ∷ bs) = b ∷ pad n bs

-- `htons` and `ntohs` between a number and its two bytes on the wire.
unfoldable pub be16 : ℕ → Bytes
be16 n = n / 256 % 256 ∷ n % 256 ∷ []

-- `htonl`
unfoldable pub be32 : ℕ → Bytes
be32 n = n / 16777216 % 256 ∷ n / 65536 % 256 ∷ n / 256 % 256 ∷ n % 256 ∷ []

unfoldable pub read16 : ℕ → ℕ → ℕ
read16 hi lo = hi * 256 + lo

pub read16-be16 : (n : ℕ) → n < 65536 → read16 (n / 256 % 256) (n % 256) ≡ n
unfolding read16
read16-be16 n h = omega arith

pub length-pad : (n : ℕ) (bs : Bytes) → length (pad n bs) ≡ n
unfolding pad
length-pad zero bs = refl
length-pad (suc n) [] = ap suc (length-pad n [])
length-pad (suc n) (b ∷ bs) = ap suc (length-pad n bs)

-- A text holds no NUL.
abbrev pub IsText : Bytes → Type 0
IsText [] = Unit
IsText (b ∷ bs) = (0 < b) × IsText bs

pub cstr-text : (a : Bytes) → IsText a → cstr a ≡ a
unfolding cstr
cstr-text [] h = refl
cstr-text (zero ∷ a) h = absurd (omega arith)
cstr-text (suc x ∷ a) h = ap (λ t. suc x ∷ t) (cstr-text a h.1)

pub cstr-pad_nil : (n : ℕ) → cstr (pad n []) ≡ []
unfolding cstr pad
cstr-pad_nil zero = refl
cstr-pad_nil (suc n) = refl

-- A text that leaves room for its NUL is read back from its buffer.
pub cstr-pad : (n : ℕ) (a : Bytes) → IsText a → length a < n → cstr (pad n a) ≡ a
unfolding cstr pad
cstr-pad zero a t h = absurd (omega arith)
cstr-pad (suc n) [] t h = refl
cstr-pad (suc n) (zero ∷ a) t h = absurd (omega arith)
cstr-pad (suc n) (suc x ∷ a) t h = ap (λ u. suc x ∷ u) (cstr-pad n a t.1 (omega arith))

pub cstr_idem : (a : Bytes) → cstr (cstr a) ≡ cstr a
unfolding cstr
cstr_idem [] = refl
cstr_idem (zero ∷ a) = refl
cstr_idem (suc x ∷ a) = ap (λ u. suc x ∷ u) (cstr_idem a)

pub strcmp_eq-cstr : (a b : Bytes) → strcmp_eq (cstr a) b ≡ strcmp_eq a b
unfolding strcmp_eq
strcmp_eq-cstr a b = ap (λ c. bytes_eq c (cstr b)) (cstr_idem a)

-- Two buffers that read like a third read alike.
pub strcmp_eq_trans :
    (a b c : Bytes) → strcmp_eq a c ≡ true → strcmp_eq b c ≡ true → strcmp_eq a b ≡ true
unfolding strcmp_eq
strcmp_eq_trans a b c h k =
    rw (bytes_eq→eq (cstr a) (cstr c) h, bytes_eq→eq (cstr b) (cstr c) k) (bytes_eq_refl (cstr c))

-- The text of a buffer is read whatever stands behind the buffer.
pub cstr-pad_append :
    (n : ℕ) (a rest : Bytes) → IsText a → length a < n → cstr (pad n a ++ rest) ≡ a
unfolding cstr pad
cstr-pad_append zero a rest t h = absurd (omega arith)
cstr-pad_append (suc n) [] rest t h = refl
cstr-pad_append (suc n) (zero ∷ a) rest t h = absurd (omega arith)
cstr-pad_append (suc n) (suc x ∷ a) rest t h =
    ap (λ u. suc x ∷ u) (cstr-pad_append n a rest t.1 (omega arith))
