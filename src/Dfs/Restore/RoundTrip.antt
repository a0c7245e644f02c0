-- ===== src/Dfs/Restore/RoundTrip.antt =====
-- A leader's files after they were written and read by another leader.
use cs425_mp.Common.{
  ℕ, zero, suc, ◌+◌, ◌≡◌, refl, sym, ◌∙◌, ap, false, none, some, List, [], ◌∷◌, ◌++◌, append-nil,
  Bytes, codes, >>=-elim, arith, length,
}
use cs425_mp.Wire.{success}
use cs425_mp.Metadata.{FileMetadata, IpToFileInfo, Store}
use cs425_mp.Dfs.Persist.{file_lines, entry_lines, metadata_text}
use cs425_mp.Dfs.Restore.{Reading, read_line, read_lines, dfs_read_from_file}
use cs425_mp.Dfs.Restore.Steps.{at}
use cs425_mp.Dfs.Restore.Kinds.{kind-skip}
use cs425_mp.Dfs.Restore.Lines.{Reads, Reads-nil, Reads-append, Reads-whole_line}
use cs425_mp.Dfs.Restore.Entries.{
  with_entries, Stocked-fewer, AreEntries, counted, summary, turned, entries-Reads, some_same,
}
use cs425_mp.Dgrep.Script.{line_test-IsLine}
use cs425_mp.Ring.{Ptr}
use cs425_mp.Dfs.Restore.Files.{AreKept}
use cs425_mp.Dfs.Restore.All.{files_text, file_lines-text, Stocked, placed, left_over, files-Reads}

read_lines-end : (fuel : ℕ) (r : Reading) → read_lines fuel [] r ≡ some r
unfolding read_lines
read_lines-end zero r = refl
read_lines-end (suc fuel) r = refl

abbrev skip_text : List IpToFileInfo → Bytes
skip_text es = elim es [ [] ↦ [] | _ ∷ _ ↦ codes "SKIP:NEXT\n" ]

skip-Reads : (r : Reading) (es : List IpToFileInfo) → Reads r (skip_text es) r
unfolding read_line
skip-Reads r [] = Reads-nil r
skip-Reads r (e ∷ es) =
    Reads-whole_line r r (codes "SKIP:NEXT") (line_test-IsLine (codes "SKIP:NEXT") refl)
      (omega arith) (rw (read_line, kind-skip) refl)

Stocked-left_over :
    (fs : List FileMetadata) (k : ℕ) (supply : List Ptr)
    → Stocked (length fs + k) supply
    → Stocked k (left_over fs supply)
Stocked-left_over [] k supply stock = Stocked-fewer k (0 + k) supply stock (omega arith)
Stocked-left_over (f ∷ fs) k [] stock =
    absurd (Stocked-fewer 1 (length (f ∷ fs) + k) [] stock (omega arith))
Stocked-left_over (f ∷ fs) k (p ∷ ps) stock =
    Stocked-left_over fs k ps
      (Stocked-fewer (suc (length fs + k)) (length (f ∷ fs) + k) (p ∷ ps) stock (omega arith)).1

-- The parts of what is written.
metadata_text-parts :
    (s : Store) (text : Bytes)
    → AreKept s.files
    → metadata_text s ≡ some text
    → (entries : Bytes) × (entry_lines s.nodes s.files s.entries ≡ some entries)
      × (text ≡ files_text s.files ++ (skip_text s.entries ++ entries))
unfolding metadata_text
metadata_text-parts s text kept e = >>=-elim (file_lines s.files) _ e (λ fs found rest.
    >>=-elim (entry_lines s.nodes s.files s.entries) _ rest (λ es lines whole. (
      es,
      lines,
      sym (some_same whole)
          ∙ ap (λ x. x ++ (skip_text s.entries ++ es))
              (some_same (sym found ∙ file_lines-text s.files kept)),
    )))

-- A leader's files and entries can be read back: names have no capital letter, texts and numbers fit. If
-- it writes its metadata without a fault, another leader, which has some files and entries already and
-- memory for the others, reads them: it ends with RC_SUCCESS, with the same files in front of its own,
-- and the same addresses and counts in front of its own, the last ones first.
pub dfs_read_from_file-metadata_text :
    (s t : Store) (text : Bytes)
    → AreKept s.files
    → AreEntries s.entries
    → Stocked (length s.files + counted s.entries) t.supply
    → metadata_text s ≡ some text
    → (t' : Store) × (dfs_read_from_file (some text) t ≡ some (success, t'))
      × (t'.files ≡ placed s.files t.supply t.files)
      × (summary t'.entries ≡ turned (summary s.entries) (summary t.entries))
unfolding dfs_read_from_file
dfs_read_from_file-metadata_text s t text kept known stock written =
    let start : Reading = record {
      store = t;
      chunk = none;
      has_entry = false;
      i = 0;
      temp_ip = none;
      fname = none;
    } in
    let (entries, lines, parts) = metadata_text-parts s text kept written in
    let (chunk, i, ip, in_files) = files-Reads start s.files t.files t.supply none 0 none kept (
      Stocked-fewer (length s.files) (length s.files + counted s.entries) t.supply stock
        (omega arith)) in
    let after =
      at start (placed s.files t.supply t.files) (left_over s.files t.supply) chunk i ip in
    let (es', supply', nodes', fname', made', sums, in_entries) =
      entries-Reads after s.nodes s.files s.entries t.entries entries (left_over s.files t.supply)
        t.nodes none false kept known (Stocked-left_over s.files (counted s.entries) t.supply stock)
        lines in
    let reads =
      Reads-append start after (with_entries after es' supply' nodes' fname' made')
        (files_text s.files) (skip_text s.entries ++ entries) in_files
        (Reads-append after after (with_entries after es' supply' nodes' fname' made')
          (skip_text s.entries) entries (skip-Reads after s.entries) in_entries) in
    let whole : (files_text s.files ++ (skip_text s.entries ++ entries)) ++ [] ≡ text =
      append-nil (files_text s.files ++ (skip_text s.entries ++ entries)) ∙ sym parts in
    let (fuel, _, e) = reads (length text) [] (omega (arith, ap length whole)) in
    let ends =
      ap (λ u. read_lines (length text) u start) (sym whole)
      ∙ e
      ∙ read_lines-end fuel (with_entries after es' supply' nodes' fname' made') in
    (
      (with_entries after es' supply' nodes' fname' made').store,
      rw (dfs_read_from_file, ends) refl,
      refl,
      sums,
    )
