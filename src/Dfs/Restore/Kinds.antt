-- ===== src/Dfs/Restore/Kinds.antt =====
-- What a line that dfs_write_to_file wrote is taken for.
use cs425_mp.Common.{
  ℕ, ◌≡◌, refl, Bool, true, false, ◌&&◌, [], ◌∷◌, ◌++◌, Bytes, codes, ◌==◌, leb, arith,
}
use cs425_mp.Dfs.Persist.{line}
use cs425_mp.Dfs.Restore.{
  contains, Kind, kind, file_name, size, flags, n_chunks, n_replicas, chunk_num, replica, new_ip,
  n_files, skip,
}
use cs425_mp.Dfs.Restore.Numbers.{is_plain, IsPlain}

is_capital : ℕ → Bool
is_capital k = leb 65 k && leb k 90

not_capital : (k b : ℕ) → is_capital k ≡ true → is_plain b ≡ true → (k == b) ≡ false
unfolding is_capital
not_capital k b c p = ground arith

capital_not_end : (k : ℕ) → is_capital k ≡ true → (k == 10) ≡ false
unfolding is_capital
capital_not_end k c = ground arith

-- A word with a capital letter in front is not in a plain text.
absent :
    (k : ℕ) (ks v : Bytes)
    → is_capital k ≡ true
    → IsPlain v
    → contains (k ∷ ks) (v ++ 10 ∷ []) ≡ false
unfolding contains
absent k ks [] c p = rw (capital_not_end k c) refl
absent k ks (b ∷ v) c p = rw (not_capital k b c p.0) (absent k ks v c p.1)

pub kind-file_name : (v : Bytes) → kind (line (codes "FILENAME") v) ≡ file_name
unfolding kind contains line
kind-file_name v = refl

pub kind-skip : kind (codes "SKIP:NEXT\n") ≡ skip
unfolding kind contains
kind-skip = refl

pub kind-size : (v : Bytes) → IsPlain v → kind (line (codes "SIZE") v) ≡ size
unfolding kind contains line is_capital
kind-size v p = rw (kind, absent b'F' (codes "ILENAME") v refl p) refl

pub kind-flags : (v : Bytes) → IsPlain v → kind (line (codes "FLAGS") v) ≡ flags
unfolding kind contains line is_capital
kind-flags v p =
    rw (kind, absent b'F' (codes "ILENAME") v refl p, absent b'S' (codes "IZE") v refl p) refl

pub kind-n_chunks : (v : Bytes) → IsPlain v → kind (line (codes "NCHUNKS") v) ≡ n_chunks
unfolding kind contains line is_capital
kind-n_chunks v p =
    rw
      (
        kind,
        absent b'F' (codes "ILENAME") v refl p,
        absent b'S' (codes "IZE") v refl p,
        absent b'F' (codes "LAGS") v refl p,
      )
      refl

pub kind-n_replicas : (v : Bytes) → IsPlain v → kind (line (codes "NREPLICAS") v) ≡ n_replicas
unfolding kind contains line is_capital
kind-n_replicas v p =
    rw
      (
        kind,
        absent b'F' (codes "ILENAME") v refl p,
        absent b'S' (codes "IZE") v refl p,
        absent b'F' (codes "LAGS") v refl p,
        absent b'N' (codes "CHUNKS") v refl p,
      )
      refl

pub kind-chunk_num : (v : Bytes) → IsPlain v → kind (line (codes "CHUNKNUM") v) ≡ chunk_num
unfolding kind contains line is_capital
kind-chunk_num v p =
    rw
      (
        kind,
        absent b'F' (codes "ILENAME") v refl p,
        absent b'S' (codes "IZE") v refl p,
        absent b'F' (codes "LAGS") v refl p,
        absent b'N' (codes "CHUNKS") v refl p,
        absent b'N' (codes "REPLICAS") v refl p,
      )
      refl

pub kind-first_replica : (v : Bytes) → IsPlain v → kind (line (codes "IP0") v) ≡ replica
unfolding kind contains line is_capital
kind-first_replica v p =
    rw
      (
        kind,
        absent b'F' (codes "ILENAME") v refl p,
        absent b'S' (codes "IZE") v refl p,
        absent b'F' (codes "LAGS") v refl p,
        absent b'N' (codes "CHUNKS") v refl p,
        absent b'N' (codes "REPLICAS") v refl p,
        absent b'C' (codes "HUNKNUM") v refl p,
        absent b'I' (codes "P:") v refl p,
      )
      refl

pub kind-second_replica : (v : Bytes) → IsPlain v → kind (line (codes "IP1") v) ≡ replica
unfolding kind contains line is_capital
kind-second_replica v p =
    rw
      (
        kind,
        absent b'F' (codes "ILENAME") v refl p,
        absent b'S' (codes "IZE") v refl p,
        absent b'F' (codes "LAGS") v refl p,
        absent b'N' (codes "CHUNKS") v refl p,
        absent b'N' (codes "REPLICAS") v refl p,
        absent b'C' (codes "HUNKNUM") v refl p,
        absent b'I' (codes "P:") v refl p,
      )
      refl

pub kind-new_ip : (v : Bytes) → IsPlain v → kind (line (codes "IP") v) ≡ new_ip
unfolding kind contains line is_capital
kind-new_ip v p =
    rw
      (
        kind,
        absent b'F' (codes "ILENAME") v refl p,
        absent b'S' (codes "IZE") v refl p,
        absent b'F' (codes "LAGS") v refl p,
        absent b'N' (codes "CHUNKS") v refl p,
        absent b'N' (codes "REPLICAS") v refl p,
        absent b'C' (codes "HUNKNUM") v refl p,
        absent b'S' (codes "KIP:NEXT") v refl p,
      )
      refl

pub kind-n_files : (v : Bytes) → IsPlain v → kind (line (codes "NFILES") v) ≡ n_files
unfolding kind contains line is_capital
kind-n_files v p =
    rw
      (
        kind,
        absent b'F' (codes "ILENAME") v refl p,
        absent b'S' (codes "IZE") v refl p,
        absent b'F' (codes "LAGS") v refl p,
        absent b'N' (codes "CHUNKS") v refl p,
        absent b'N' (codes "REPLICAS") v refl p,
        absent b'C' (codes "HUNKNUM") v refl p,
        absent b'I' (codes "P") v refl p,
        absent b'S' (codes "KIP:NEXT") v refl p,
      )
      refl

pub kind-fname : (v : Bytes) → IsPlain v → kind (line (codes "FNAME") v) ≡ Kind.fname
unfolding kind contains line is_capital
kind-fname v p =
    rw
      (
        kind,
        absent b'F' (codes "ILENAME") v refl p,
        absent b'S' (codes "IZE") v refl p,
        absent b'F' (codes "LAGS") v refl p,
        absent b'N' (codes "CHUNKS") v refl p,
        absent b'N' (codes "REPLICAS") v refl p,
        absent b'C' (codes "HUNKNUM") v refl p,
        absent b'I' (codes "P") v refl p,
        absent b'S' (codes "KIP:NEXT") v refl p,
        absent b'N' (codes "FILES") v refl p,
      )
      refl
