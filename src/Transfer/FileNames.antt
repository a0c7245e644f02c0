-- ===== src/Transfer/FileNames.antt =====
-- Names of files that a shell takes as they are, and what `rm` and `chmod` do to such a file.
use cs425_mp.Common.{
  ℕ, ◌≡◌, ◌≢◌, ◌<◌, true, false, ◌&&◌, ◌||◌, Bool, none, [], ◌∷◌, Bytes, bytes_eq, leb, ◌==◌, arith,
  length, IsText,
}
use cs425_mp.Transfer.Receive.{Files, Shell, remove_command, chmod_command}

-- A letter, a digit, or one of `.`, `_` and `-`.
abbrev pub is_name_byte : ℕ → Bool
is_name_byte b =
    (leb 48 b && leb b 57)
    || (leb 65 b && leb b 90)
    || (leb 97 b && leb b 122)
    || (b == 46)
    || (b == 95)
    || (b == 45)

abbrev pub AreNameBytes : Bytes → Type 0
AreNameBytes [] = Unit
AreNameBytes (b ∷ bs) = (is_name_byte b ≡ true) × AreNameBytes bs

-- A name of such bytes, the first of which is neither `.` nor `-`.
abbrev pub IsFileName : Bytes → Type 0
IsFileName [] = ⊥
IsFileName (b ∷ bs) = (b ≢ 46) × (b ≢ 45) × AreNameBytes (b ∷ bs)

-- The name of something in the working directory itself.
abbrev pub IsHere : Bytes → Type 0
IsHere [] = Unit
IsHere (b ∷ bs) = (b ≢ 47) × IsHere bs

-- What is relied on: `rm -rf` removes what has the name and nothing else in the directory, and `chmod`
-- changes no contents.
pub record IsShell (shell : Shell) : Type 0 where
  pub removes :
      (files : Files) (name : Bytes)
      → IsFileName name
      → shell (remove_command name) files name ≡ none
  pub keeps :
      (files : Files) (name j : Bytes)
      → IsFileName name
      → IsHere j
      → bytes_eq j name ≡ false
      → shell (remove_command name) files j ≡ files j
  pub modes :
      (files : Files) (name j : Bytes)
      → IsFileName name
      → shell (chmod_command name) files j ≡ files j

texts : (name : Bytes) → AreNameBytes name → IsText name
texts [] h = tt
texts (b ∷ bs) h = (ground (arith, h.0), texts bs h.1)

pub file_name-IsText : (name : Bytes) → IsFileName name → IsText name
file_name-IsText [] h = absurd h
file_name-IsText (b ∷ bs) h = texts (b ∷ bs) h.2

pub file_name-positive : (name : Bytes) → IsFileName name → 0 < length name
file_name-positive [] h = absurd h
file_name-positive (b ∷ bs) h = omega arith
