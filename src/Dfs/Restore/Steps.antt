-- ===== src/Dfs/Restore/Steps.antt =====
-- What each kind of line about a file does to the state of dfs_read_from_file.
use cs425_mp.Common.{
  ℕ, ◌≡◌, ◌<◌, ◌≢◌, refl, Option, some, List, [], ◌∷◌, ◌++◌, Bytes, codes, ==_false, ==_refl,
  lt→ltb, arith, length,
}
use cs425_mp.Ring.{Ptr, null}
use cs425_mp.Metadata.{ChunkInfo, FileMetadata}
use cs425_mp.Admission.{strip, skip_space}
use cs425_mp.Dfs.Chunks.{atoi}
use cs425_mp.Dfs.Persist.{line, decimal}
use cs425_mp.Dfs.Restore.{
  magnitude, after_digits, scan_string, scan_number, Reading, set_file, read_number, read_file_name,
  read_chunk_number, set_replica, set_last_replica, write_replica, scan_replica, read_replica,
  read_line, scan_unsigned,
}
use cs425_mp.Dfs.Restore.Kinds.{
  kind-file_name, kind-size, kind-flags, kind-n_chunks, kind-n_replicas, kind-chunk_num,
  kind-first_replica, kind-second_replica,
}
use cs425_mp.Dfs.Restore.Lines.{scan_word-plain}
use cs425_mp.Dfs.Restore.Numbers.{IsPlain, decimal-IsPlain, scan_unsigned-decimal}

strip-line : (k v : Bytes) → strip (k ++ 58 ∷ []) (line k v) ≡ some (v ++ 10 ∷ [])
unfolding strip line
strip-line [] v = refl
strip-line (b ∷ k) v = rw (==_refl b) (strip-line k v)

pub scan_number-line :
    (k : Bytes) (n : ℕ) → n < 4294967296 → scan_number (k ++ 58 ∷ []) (line k (decimal n)) ≡ some n
unfolding scan_number
scan_number-line k n h = rw (scan_number, strip-line k (decimal n), scan_unsigned-decimal n h) refl

pub scan_string-line :
    (k v : Bytes) → IsPlain v → 0 < length v → scan_string (k ++ 58 ∷ []) (line k v) ≡ some v
unfolding scan_string
scan_string-line k v p more = rw (scan_string, strip-line k v, scan_word-plain v p more) refl

pub number-IsPlain : (n : ℕ) → n < 4294967296 → IsPlain (decimal n)
number-IsPlain n h = decimal-IsPlain n (omega arith)

-- A state, with what the lines about files may change.
abbrev pub at : Reading → List FileMetadata → List Ptr → Option Ptr → ℕ → Option Bytes → Reading
at r fs supply chunk i ip = record r {
  store = record r.store { files = fs; supply = supply };
  chunk = chunk;
  i = i;
  temp_ip = ip;
}

-- A file with a name only.
abbrev pub named : Ptr → Bytes → FileMetadata
named p name = record {
  address = p;
  file_name = name;
  size = 0;
  num_replicas = 0;
  number_of_chunks = 0;
  flags = 0;
  chunk_info = [];
}

abbrev pub fresh_chunk : ℕ → List Bytes → ChunkInfo
fresh_chunk n ips = record { chunk_number = n; ips = ips }

abbrev pub with_chunks : FileMetadata → List ChunkInfo → FileMetadata
with_chunks g cs = record g { chunk_info = cs }

module _ (r : Reading) (g : FileMetadata) (gs : List FileMetadata) (supply : List Ptr)
    (chunk : Option Ptr) (i : ℕ) (ip : Option Bytes) where
  pub read_line-file_name :
      (p : Ptr) (v : Bytes)
      → p ≢ null
      → IsPlain v
      → 0 < length v
      → read_line (line (codes "FILENAME") v) (at r gs (p ∷ supply) chunk i ip)
        ≡ some (at r (named p v ∷ gs) supply chunk i ip)
  unfolding read_line read_file_name
  read_line-file_name p v live plain more =
      rw
        (
          read_line,
          kind-file_name v,
          scan_string-line (codes "FILENAME") v plain more,
          ==_false p null live,
        )
        refl

  module _ (n : ℕ) (h : n < 4294967296) where
    pub read_line-size :
        read_line (line (codes "SIZE") (decimal n)) (at r (g ∷ gs) supply chunk i ip)
        ≡ some (at r (record g { size = n } ∷ gs) supply chunk i ip)
    unfolding read_line read_number set_file
    read_line-size =
        rw
          (
            read_line,
            kind-size (decimal n) (number-IsPlain n h),
            read_number,
            scan_number-line (codes "SIZE") n h,
          )
          refl

    pub read_line-flags :
        read_line (line (codes "FLAGS") (decimal n)) (at r (g ∷ gs) supply chunk i ip)
        ≡ some (at r (record g { flags = n } ∷ gs) supply chunk i ip)
    unfolding read_line read_number set_file
    read_line-flags =
        rw
          (
            read_line,
            kind-flags (decimal n) (number-IsPlain n h),
            read_number,
            scan_number-line (codes "FLAGS") n h,
          )
          refl

    pub read_line-n_chunks :
        read_line (line (codes "NCHUNKS") (decimal n)) (at r (g ∷ gs) supply chunk i ip)
        ≡ some (at r (record g { number_of_chunks = n } ∷ gs) supply chunk i ip)
    unfolding read_line read_number set_file
    read_line-n_chunks =
        rw
          (
            read_line,
            kind-n_chunks (decimal n) (number-IsPlain n h),
            read_number,
            scan_number-line (codes "NCHUNKS") n h,
          )
          refl

    pub read_line-n_replicas :
        read_line (line (codes "NREPLICAS") (decimal n)) (at r (g ∷ gs) supply chunk i ip)
        ≡ some (at r (record g { num_replicas = n } ∷ gs) supply chunk i ip)
    unfolding read_line read_number set_file
    read_line-n_replicas =
        rw
          (
            read_line,
            kind-n_replicas (decimal n) (number-IsPlain n h),
            read_number,
            scan_number-line (codes "NREPLICAS") n h,
          )
          refl

    pub read_line-chunk_num :
        read_line (line (codes "CHUNKNUM") (decimal n)) (at r (g ∷ gs) supply chunk i ip)
        ≡ some (
            at r
              (with_chunks g (g.chunk_info ++ fresh_chunk n ([] ∷ [] ∷ []) ∷ []) ∷ gs)
              supply
              (some g.address)
              i
              ip)
    unfolding read_line read_chunk_number
    read_line-chunk_num =
        rw
          (
            read_line,
            kind-chunk_num (decimal n) (number-IsPlain n h),
            read_chunk_number,
            scan_number-line (codes "CHUNKNUM") n h,
          )
          refl

set_last_replica-last :
    (i : ℕ) (ip : Bytes) (cs : List ChunkInfo) (n : ℕ) (ips ips' : List Bytes)
    → set_replica i ip ips ≡ some ips'
    → set_last_replica i ip (cs ++ fresh_chunk n ips ∷ []) ≡ some (cs ++ fresh_chunk n ips' ∷ [])
unfolding set_last_replica
set_last_replica-last i ip [] n ips ips' e = rw (e) refl
set_last_replica-last i ip (c ∷ []) n ips ips' e = rw (e) refl
set_last_replica-last i ip (c ∷ d ∷ cs) n ips ips' e =
    rw (set_last_replica-last i ip (d ∷ cs) n ips ips' e) refl

-- A line about a replica, for the last chunk of the first file.
module _ (r : Reading) (g : FileMetadata) (cs : List ChunkInfo) (gs : List FileMetadata)
    (supply : List Ptr) (i : ℕ) (ip : Option Bytes) (n : ℕ) (v : Bytes) (p : IsPlain v)
    (more : 0 < length v) (short : length v < 16) where
  pub read_line-first_replica :
      (a b : Bytes)
      → read_line (line (codes "IP0") v) (
          at r
            (with_chunks g (cs ++ fresh_chunk n (a ∷ b ∷ []) ∷ []) ∷ gs)
            supply
            (some g.address)
            i
            ip)
        ≡ some (
            at r
              (with_chunks g (cs ++ fresh_chunk n (v ∷ b ∷ []) ∷ []) ∷ gs)
              supply
              (some g.address)
              0
              (some v))
  unfolding read_line read_replica scan_replica scan_unsigned write_replica set_replica line
      skip_space magnitude after_digits atoi
  read_line-first_replica a b =
      rw
        (
          read_line,
          kind-first_replica v p,
          read_replica,
          scan_replica,
          scan_word-plain v p more,
          lt→ltb (length v) 16 short,
          ==_refl g.address,
          set_last_replica-last 0 v cs n (a ∷ b ∷ []) (v ∷ b ∷ []) refl,
        )
        refl

  pub read_line-second_replica :
      (a b : Bytes)
      → read_line (line (codes "IP1") v) (
          at r
            (with_chunks g (cs ++ fresh_chunk n (a ∷ b ∷ []) ∷ []) ∷ gs)
            supply
            (some g.address)
            i
            ip)
        ≡ some (
            at r
              (with_chunks g (cs ++ fresh_chunk n (a ∷ v ∷ []) ∷ []) ∷ gs)
              supply
              (some g.address)
              1
              (some v))
  unfolding read_line read_replica scan_replica scan_unsigned write_replica set_replica line
      skip_space magnitude after_digits atoi
  read_line-second_replica a b =
      rw
        (
          read_line,
          kind-second_replica v p,
          read_replica,
          scan_replica,
          scan_word-plain v p more,
          lt→ltb (length v) 16 short,
          ==_refl g.address,
          set_last_replica-last 1 v cs n (a ∷ b ∷ []) (a ∷ v ∷ []) refl,
        )
        refl
