-- ===== src/Dfs/Restore/All.antt =====
-- All the files, one after the other.
use cs425_mp.Common.{
  ℕ, zero, suc, ◌≡◌, ◌<◌, ◌≢◌, refl, sym, subst, Option, some, List, [], ◌∷◌, ◌++◌, Bytes, codes,
  arith, length, cstr,
}
use cs425_mp.Ring.{Ptr, null}
use cs425_mp.Metadata.{FileMetadata}
use cs425_mp.Dgrep.Script.{line_test-IsLine}
use cs425_mp.Dfs.Persist.{line, decimal, chunk_lines, file_lines}
use cs425_mp.Dfs.Restore.{Reading}
use cs425_mp.Dfs.Restore.Lines.{Reads, Reads-nil, Reads-append, Reads-line}
use cs425_mp.Dfs.Restore.Numbers.{number_length}
use cs425_mp.Dfs.Restore.Steps.{
  at, named, number-IsPlain, read_line-file_name, read_line-size, read_line-flags,
  read_line-n_chunks, read_line-n_replicas,
}
use cs425_mp.Dfs.Restore.Files.{AreKept, plain-cstr, chunk_text, chunk_lines-text, chunks-Reads}

-- The text of files.
abbrev pub files_text : List FileMetadata → Bytes
files_text [] = []
files_text (f ∷ fs) =
    line (codes "FILENAME") f.file_name
    ++ (line (codes "SIZE") (decimal f.size)
        ++ (line (codes "FLAGS") (decimal f.flags)
            ++ (line (codes "NCHUNKS") (decimal f.number_of_chunks)
                ++ (line (codes "NREPLICAS") (decimal f.num_replicas)
                    ++ (chunk_text f.chunk_info ++ files_text fs)))))

file_lines-cons :
    (f : FileMetadata) (fs : List FileMetadata) (x y : Bytes)
    → cstr f.file_name ≡ f.file_name
    → chunk_lines f.num_replicas f.chunk_info ≡ some x
    → file_lines fs ≡ some y
    → file_lines (f ∷ fs)
      ≡ some (
          line (codes "FILENAME") f.file_name
          ++ (line (codes "SIZE") (decimal f.size)
              ++ (line (codes "FLAGS") (decimal f.flags)
                  ++ (line (codes "NCHUNKS") (decimal f.number_of_chunks)
                      ++ (line (codes "NREPLICAS") (decimal f.num_replicas) ++ (x ++ y))))))
unfolding file_lines
file_lines-cons f fs x y d e g = rw (e, g, d) refl

pub file_lines-text : (fs : List FileMetadata) → AreKept fs → file_lines fs ≡ some (files_text fs)
unfolding file_lines
file_lines-text [] ok = refl
file_lines-text (f ∷ fs) ok =
    let (plain, _, _, _, _, _, two, chunks) = ok.0 in
    file_lines-cons f fs (chunk_text f.chunk_info) (files_text fs) (plain-cstr f.file_name plain)
      (subst (λ n. chunk_lines n f.chunk_info ≡ some (chunk_text f.chunk_info)) (sym two)
        (chunk_lines-text f.chunk_info chunks))
      (file_lines-text fs ok.1)

-- The first addresses that `calloc` will return are not null.
abbrev pub Stocked : ℕ → List Ptr → Type 0
Stocked zero supply = Unit
Stocked (suc n) [] = ⊥
Stocked (suc n) (p ∷ ps) = (p ≢ null) × Stocked n ps

-- The files, at new addresses, each in front of the one before.
abbrev pub placed : List FileMetadata → List Ptr → List FileMetadata → List FileMetadata
placed [] supply gs = gs
placed (f ∷ fs) [] gs = gs
placed (f ∷ fs) (p ∷ ps) gs = placed fs ps (record f { address = p } ∷ gs)

abbrev pub left_over : List FileMetadata → List Ptr → List Ptr
left_over [] supply = supply
left_over (f ∷ fs) [] = []
left_over (f ∷ fs) (p ∷ ps) = left_over fs ps

pub files-Reads :
    (r : Reading) (fs gs : List FileMetadata) (supply : List Ptr) (chunk : Option Ptr) (i : ℕ)
    (ip : Option Bytes)
    → AreKept fs
    → Stocked (length fs) supply
    → (chunk' : Option Ptr) × (i' : ℕ) × (ip' : Option Bytes) × Reads
        (at r gs supply chunk i ip)
        (files_text fs)
        (at r (placed fs supply gs) (left_over fs supply) chunk' i' ip')
files-Reads r [] gs supply chunk i ip ok stock = (chunk, i, ip, Reads-nil _)
files-Reads r (f ∷ fs) gs [] chunk i ip ok stock = absurd stock
files-Reads r (f ∷ fs) gs (p ∷ ps) chunk i ip ok stock =
    let (plain, more, short, size, flags, number, two, chunks) = ok.0 in
    let replicas : f.num_replicas < 4294967296 = omega (arith, two) in
    let (chunk1, i1, ip1, in_chunks) =
      chunks-Reads r f.chunk_info [] (record f { address = p }) gs ps chunk i ip chunks in
    let (chunk', i', ip', others) =
      files-Reads r fs (record f { address = p } ∷ gs) ps chunk1 i1 ip1 ok.1 stock.1 in
    let g1 = named p f.file_name in
    let g2 : FileMetadata = record g1 { size = f.size } in
    let g3 : FileMetadata = record g2 { flags = f.flags } in
    let g4 : FileMetadata = record g3 { number_of_chunks = f.number_of_chunks } in
    (
      chunk',
      i',
      ip',
      Reads-append _ _ _ _ _
          (Reads-line _ _ (codes "FILENAME") f.file_name (line_test-IsLine (codes "FILENAME") refl)
            plain (omega (arith, short))
            (read_line-file_name r g1 gs ps chunk i ip p f.file_name stock.0 plain more))
          (Reads-append _ _ _ _ _
            (Reads-line _ _ (codes "SIZE") (decimal f.size) (line_test-IsLine (codes "SIZE") refl)
              (number-IsPlain f.size size) (omega (arith, number_length f.size))
              (read_line-size r g1 gs ps chunk i ip f.size size))
            (Reads-append _ _ _ _ _
              (Reads-line _ _ (codes "FLAGS") (decimal f.flags)
                (line_test-IsLine (codes "FLAGS") refl) (number-IsPlain f.flags flags)
                (omega (arith, number_length f.flags))
                (read_line-flags r g2 gs ps chunk i ip f.flags flags))
              (Reads-append _ _ _ _ _
                (Reads-line _ _ (codes "NCHUNKS") (decimal f.number_of_chunks)
                  (line_test-IsLine (codes "NCHUNKS") refl)
                  (number-IsPlain f.number_of_chunks number)
                  (omega (arith, number_length f.number_of_chunks))
                  (read_line-n_chunks r g3 gs ps chunk i ip f.number_of_chunks number))
                (Reads-append _ _ _ _ _
                  (Reads-line _ _ (codes "NREPLICAS") (decimal f.num_replicas)
                    (line_test-IsLine (codes "NREPLICAS") refl)
                    (number-IsPlain f.num_replicas replicas)
                    (omega (arith, number_length f.num_replicas))
                    (read_line-n_replicas r g4 gs ps chunk i ip f.num_replicas replicas))
                  (Reads-append _ _ _ _ _ in_chunks others))))),
    )
