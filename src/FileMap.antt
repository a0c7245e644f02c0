-- ===== src/FileMap.antt =====
-- commons/file_map.c: the map of the files that are being received.
use cs425_mp.Common.{
  ℕ, Option, none, some, List, [], ◌∷◌, Bytes, ◌==◌, if◌then◌else◌, cstr, strcmp_eq,
}

-- `FileNameMap`, whose `state` is always OPEN. `fd` is the bits of the descriptor.
pub record FileNameMap : Type 0 where
  pub file_name : Bytes
  pub fd : ℕ

-- `add_entry`: `fd` is what `open` returns. The new entry comes first.
unfoldable pub add_entry : Bytes → ℕ → List FileNameMap → List FileNameMap
add_entry name fd entries = record { file_name = cstr name; fd = fd } ∷ entries

-- `get_entry`: the first with the name.
unfoldable pub get_entry : Bytes → List FileNameMap → Option FileNameMap
get_entry name [] = none
get_entry name (e ∷ es) =
    let rest = get_entry name es in if strcmp_eq e.file_name name then some e else rest

-- `delete_entry`: the first with the descriptor goes; without one, `none` for the -1.
unfoldable pub delete_entry : ℕ → List FileNameMap → Option (List FileNameMap)
delete_entry fd [] = none
delete_entry fd (e ∷ es) =
    let rest = delete_entry fd es in
    if e.fd == fd then some es else elim rest [ none ↦ none | some es' ↦ some (e ∷ es') ]
