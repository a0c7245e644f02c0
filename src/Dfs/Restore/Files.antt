-- ===== src/Dfs/Restore/Files.antt =====
-- The files, as dfs_write_to_file writes them and dfs_read_from_file reads them.
use cs425_mp.Common.{
  ℕ, ◌≡◌, ◌<◌, refl, sym, subst, Option, some, List, [], ◌∷◌, ◌++◌, append_assoc, append-nil, Bytes,
  codes, arith, length, IsText, cstr, cstr-text,
}
use cs425_mp.Ring.{Ptr}
use cs425_mp.Metadata.{ChunkInfo, FileMetadata}
use cs425_mp.Dgrep.Script.{line_test-IsLine}
use cs425_mp.Dfs.Persist.{digits, line, decimal, replica_lines, chunk_lines}
use cs425_mp.Dfs.Restore.{Reading}
use cs425_mp.Dfs.Restore.Lines.{Reads, Reads-nil, Reads-append, Reads-line}
use cs425_mp.Dfs.Restore.Numbers.{IsPlain, number_length}
use cs425_mp.Dfs.Restore.Steps.{
  at, fresh_chunk, with_chunks, number-IsPlain, read_line-chunk_num, read_line-first_replica,
  read_line-second_replica,
}

-- An address that can be read back.
abbrev pub IsIp : Bytes → Type 0
IsIp v = IsPlain v × (0 < length v) × (length v < 16)

abbrev pub AreChunks : List ChunkInfo → Type 0
AreChunks [] = Unit
AreChunks (c ∷ cs) =
    (c.chunk_number < 4294967296)
    × ((a : Bytes) × (b : Bytes) × (c.ips ≡ a ∷ b ∷ []) × IsIp a × IsIp b)
    × AreChunks cs

-- A file that can be read back: a name that has no capital letter and leaves room for the rest of its
-- line, numbers of 32 bits, and two replicas of each chunk.
abbrev pub IsKept : FileMetadata → Type 0
IsKept f =
    IsPlain f.file_name
    × (0 < length f.file_name)
    × (length f.file_name < 118)
    × (f.size < 4294967296)
    × (f.flags < 4294967296)
    × (f.number_of_chunks < 4294967296)
    × (f.num_replicas ≡ 2)
    × AreChunks f.chunk_info

abbrev pub AreKept : List FileMetadata → Type 0
AreKept [] = Unit
AreKept (f ∷ fs) = IsKept f × AreKept fs

pub plain-cstr : (v : Bytes) → IsPlain v → cstr v ≡ v
plain-cstr v p = cstr-text v (texts v p)
  where
    texts : (v : Bytes) → IsPlain v → IsText v
    texts [] p = tt
    texts (b ∷ v) p = (ground (arith, p.0), texts v p.1)

abbrev pub replica_text : List Bytes → Bytes
replica_text (a ∷ b ∷ _) = line (codes "IP0") a ++ (line (codes "IP1") b ++ [])
replica_text _ = []

-- The text of chunks.
abbrev pub chunk_text : List ChunkInfo → Bytes
chunk_text [] = []
chunk_text (c ∷ cs) =
    line (codes "CHUNKNUM") (decimal c.chunk_number) ++ (replica_text c.ips ++ chunk_text cs)

replica_lines-two :
    (a b : Bytes)
    → IsPlain a
    → IsPlain b
    → replica_lines 2 0 (a ∷ b ∷ []) ≡ some (replica_text (a ∷ b ∷ []))
unfolding replica_lines decimal digits
replica_lines-two a b p q = rw (plain-cstr a p, plain-cstr b q) refl

chunk_lines-cons :
    (n : ℕ) (c : ChunkInfo) (cs : List ChunkInfo) (x y : Bytes)
    → replica_lines n 0 c.ips ≡ some x
    → chunk_lines n cs ≡ some y
    → chunk_lines n (c ∷ cs) ≡ some (line (codes "CHUNKNUM") (decimal c.chunk_number) ++ (x ++ y))
unfolding chunk_lines
chunk_lines-cons n c cs x y e f = rw (e, f) refl

pub chunk_lines-text :
    (cs : List ChunkInfo) → AreChunks cs → chunk_lines 2 cs ≡ some (chunk_text cs)
unfolding chunk_lines
chunk_lines-text [] ok = refl
chunk_lines-text (c ∷ cs) ok =
    let (_, (a, b, two, ia, ib), others) = ok in
    chunk_lines-cons 2 c cs (replica_text c.ips) (chunk_text cs)
      (subst (λ ips. replica_lines 2 0 ips ≡ some (replica_text ips)) (sym two)
        (replica_lines-two a b ia.0 ib.0))
      (chunk_lines-text cs others)

-- One chunk.
chunk-Reads :
    (r : Reading) (done : List ChunkInfo) (g : FileMetadata) (gs : List FileMetadata)
    (supply : List Ptr) (chunk : Option Ptr) (i : ℕ) (ip : Option Bytes) (n : ℕ) (a b : Bytes)
    → n < 4294967296
    → IsIp a
    → IsIp b
    → Reads
        (at r (with_chunks g done ∷ gs) supply chunk i ip)
        (line (codes "CHUNKNUM") (decimal n) ++ replica_text (a ∷ b ∷ []))
        (at r
          (with_chunks g (done ++ fresh_chunk n (a ∷ b ∷ []) ∷ []) ∷ gs)
          supply
          (some g.address)
          1
          (some b))
chunk-Reads r done g gs supply chunk i ip n a b small ia ib =
    Reads-append _ _ _ _ _
      (Reads-line _ _ (codes "CHUNKNUM") (decimal n) (line_test-IsLine (codes "CHUNKNUM") refl)
        (number-IsPlain n small) (omega (arith, number_length n))
        (read_line-chunk_num r (with_chunks g done) gs supply chunk i ip n small))
      (Reads-append _ _ _ _ _
        (Reads-line _ _ (codes "IP0") a (line_test-IsLine (codes "IP0") refl) ia.0
          (omega (arith, ia.2))
          (read_line-first_replica r g done gs supply i ip n a ia.0 ia.1 ia.2 [] []))
        (Reads-append _ _ _ _ _
          (Reads-line _ _ (codes "IP1") b (line_test-IsLine (codes "IP1") refl) ib.0
            (omega (arith, ib.2))
            (read_line-second_replica r g done gs supply 0 (some a) n b ib.0 ib.1 ib.2 a []))
          (Reads-nil _)))

subst2 :
    (P : Bytes → List ChunkInfo → Type 0) {s t : Bytes} {ds es : List ChunkInfo}
    → s ≡ t
    → ds ≡ es
    → P s ds
    → P t es
subst2 P {s} {t} {ds} {es} e f x = subst (λ u. P t u) f (subst (λ u. P u ds) e x)

-- The chunks of the first file, one after the other.
pub chunks-Reads :
    (r : Reading) (cs done : List ChunkInfo) (g : FileMetadata) (gs : List FileMetadata)
    (supply : List Ptr) (chunk : Option Ptr) (i : ℕ) (ip : Option Bytes)
    → AreChunks cs
    → (chunk' : Option Ptr) × (i' : ℕ) × (ip' : Option Bytes) × Reads
        (at r (with_chunks g done ∷ gs) supply chunk i ip)
        (chunk_text cs)
        (at r (with_chunks g (done ++ cs) ∷ gs) supply chunk' i' ip')
chunks-Reads r [] done g gs supply chunk i ip ok = (
  chunk,
  i,
  ip,
  subst
      (λ ds.
        Reads (at r (with_chunks g done ∷ gs) supply chunk i ip) []
          (at r (with_chunks g ds ∷ gs) supply chunk i ip))
      (sym (append-nil done)) (Reads-nil _),
)
chunks-Reads r (c ∷ cs) done g gs supply chunk i ip ok =
    let (small, (a, b, two, ia, ib), others) = ok in
    let first =
      subst
        (λ ips.
          Reads (at r (with_chunks g done ∷ gs) supply chunk i ip)
            (line (codes "CHUNKNUM") (decimal c.chunk_number) ++ replica_text ips)
            (at r (with_chunks g (done ++ fresh_chunk c.chunk_number ips ∷ []) ∷ gs) supply
              (some g.address) 1 (some b)))
        (sym two) (chunk-Reads r done g gs supply chunk i ip c.chunk_number a b small ia ib) in
    let (chunk', i', ip', more) =
      chunks-Reads r cs (done ++ c ∷ []) g gs supply (some g.address) 1 (some b) others in
    (
      chunk',
      i',
      ip',
      subst2
          (λ t ds.
            Reads (at r (with_chunks g done ∷ gs) supply chunk i ip) t
              (at r (with_chunks g ds ∷ gs) supply chunk' i' ip'))
          (append_assoc (line (codes "CHUNKNUM") (decimal c.chunk_number)) (replica_text c.ips)
            (chunk_text cs))
          (append_assoc done (c ∷ []) cs) (Reads-append _ _ _ _ _ first more),
    )
