-- ===== src/Examples/Restored.antt =====
-- A leader's file is read by another leader.
use cs425_mp.Common.{◌==◌, ◌≡◌, refl, false, some, List, [], ◌∷◌, Bytes, codes, cstr, arith}
use cs425_mp.Wire.{success}
use cs425_mp.Ring.{Ptr, null}
use cs425_mp.Metadata.{load_node, FileMetadata, Store}
use cs425_mp.Dfs.Persist.{metadata_text}
use cs425_mp.Dfs.Restore.{dfs_read_from_file}
use cs425_mp.Dfs.Restore.Files.{IsKept}
use cs425_mp.Dfs.Restore.Entries.{summary}
use cs425_mp.Dfs.Restore.RoundTrip.{dfs_read_from_file-metadata_text}

abbrev stored : FileMetadata
stored = record {
  address = 5;
  file_name = codes "a.txt";
  size = 12;
  num_replicas = 2;
  number_of_chunks = 1;
  flags = 1;
  chunk_info = record { chunk_number = 0; ips = codes "10.1" ∷ codes "10.2" ∷ [] } ∷ [];
}

abbrev store_of : List FileMetadata → List Ptr → Store
store_of files supply = record {
  files = files;
  entries = [];
  nodes = record { live = λ p. false; file_meta = λ p. null; next = λ p. null; allocated = 0 };
  turn = 0;
  supply = supply;
}

stored-IsKept : IsKept stored
stored-IsKept = (
  (refl, (refl, (refl, (refl, (refl, tt))))),
  omega arith,
  omega arith,
  omega arith,
  omega arith,
  omega arith,
  refl,
  (
    omega arith,
    (
      codes "10.1",
      codes "10.2",
      refl,
      ((refl, (refl, (refl, (refl, tt)))), omega arith, omega arith),
      ((refl, (refl, (refl, (refl, tt)))), omega arith, omega arith),
    ),
    tt,
  ),
)

-- It has one entry, whose list is the file's node alone.
abbrev leading : Store
leading = record {
  files = stored ∷ [];
  entries = record { ip = codes "10.1"; number_of_files = 1; metadata = 3 } ∷ [];
  nodes = record {
    live = λ p. p == 3;
    file_meta = λ p. stored.address;
    next = λ p. null;
    allocated = 1;
  };
  turn = 0;
  supply = [];
}

abbrev leading_text : Bytes
leading_text =
    codes
      "FILENAME:a.txt\nSIZE:12\nFLAGS:1\nNCHUNKS:1\nNREPLICAS:2\nCHUNKNUM:0\nIP0:10.1\nIP1:10.2\nSKIP:NEXT\nIP:10.1\nNFILES:1\nFNAME:a.txt\n"

leading-text : metadata_text leading ≡ some leading_text
unfolding metadata_text load_node cstr
leading-text = refl

dfs_read_from_file-metadata_text_example :
    (t' : Store) × (dfs_read_from_file (some leading_text) (store_of [] (9 ∷ 8 ∷ []))
      ≡ some (success, t'))
    × (t'.files ≡ record stored { address = 9 } ∷ [])
    × (summary t'.entries ≡ (codes "10.1", 1) ∷ [])
dfs_read_from_file-metadata_text_example =
    dfs_read_from_file-metadata_text leading (store_of [] (9 ∷ 8 ∷ [])) leading_text
      (stored-IsKept, tt)
      (((refl, (refl, (refl, (refl, tt)))), omega arith, omega arith), omega arith, tt)
      (λ e. omega arith, (λ e. omega arith, tt)) leading-text
