-- ===== src/Dfs/Restore/Entries.antt =====
-- The entries of addresses, as dfs_write_to_file writes them and dfs_read_from_file reads them.
use cs425_mp.Common.{
  ℕ, zero, suc, ◌+◌, ◌≡◌, ◌≤◌, ◌<◌, ◌≢◌, refl, sym, ◌∙◌, ap, ap₂, subst, Bool, true, Option, none,
  some, List, [], ◌∷◌, ◌++◌, Bytes, codes, ◌==◌, ==_false, lt→ltb, Bool-cases, inl, inr, ◌>>=◌,
  >>=-elim, arith, length,
}
use cs425_mp.Ring.{Ptr, null}
use cs425_mp.Metadata.{FileMetadata, FileNodes, IpToFileInfo, find_file, load_node}
use cs425_mp.Metadata.Add.{new_node}
use cs425_mp.Dgrep.Script.{line_test-IsLine}
use cs425_mp.Dfs.Persist.{line, decimal, file_at, name_lines, entry_lines}
use cs425_mp.Dfs.Restore.{Reading, read_number, set_entry, read_ip, read_fname, read_line}
use cs425_mp.Dfs.Restore.Kinds.{kind-new_ip, kind-n_files, kind-fname}
use cs425_mp.Dfs.Restore.Lines.{Reads, Reads-nil, Reads-append, Reads-line}
use cs425_mp.Dfs.Restore.Numbers.{IsPlain, number_length}
use cs425_mp.Dfs.Restore.Steps.{number-IsPlain, scan_number-line, scan_string-line}
use cs425_mp.Dfs.Restore.Files.{IsIp, IsKept, AreKept, plain-cstr}
use cs425_mp.Dfs.Restore.All.{Stocked}

-- A state, with what the lines about entries may change.
abbrev pub with_entries :
    Reading → List IpToFileInfo → List Ptr → FileNodes → Option Bytes → Bool → Reading
with_entries r es supply nodes fname made = record r {
  store = record r.store { entries = es; supply = supply; nodes = nodes };
  fname = fname;
  has_entry = made;
}

pub some_same {ℓ} : {A : Type ℓ} {a b : A} → Path (Option A) (some a) (some b) → a ≡ b
some_same {a = a} e = ap (λ o. elim o [ none ↦ a | some x ↦ x ]) e

module _ (r : Reading) (es : List IpToFileInfo) (supply : List Ptr) (nodes : FileNodes)
    (fname : Option Bytes) where
  read_line-new_ip :
      (made : Bool) (v : Bytes)
      → IsIp v
      → read_line (line (codes "IP") v) (with_entries r es supply nodes fname made)
        ≡ some (
            with_entries r
              (record { ip = v; number_of_files = 0; metadata = null } ∷ es)
              supply
              nodes
              fname
              true)
  unfolding read_line read_ip
  read_line-new_ip made v ok =
      rw
        (
          read_line,
          kind-new_ip v ok.0,
          read_ip,
          scan_string-line (codes "IP") v ok.0 ok.1,
          lt→ltb (length v) 16 ok.2,
        )
        refl

  read_line-n_files :
      (e : IpToFileInfo) (n : ℕ)
      → n < 4294967296
      → read_line
          (line (codes "NFILES") (decimal n))
          (with_entries r (e ∷ es) supply nodes fname true)
        ≡ some (with_entries r (record e { number_of_files = n } ∷ es) supply nodes fname true)
  unfolding read_line read_number set_entry
  read_line-n_files e n h =
      rw
        (
          read_line,
          kind-n_files (decimal n) (number-IsPlain n h),
          read_number,
          scan_number-line (codes "NFILES") n h,
        )
        refl

  read_line-fname :
      (e : IpToFileInfo) (p : Ptr) (v : Bytes)
      → p ≢ null
      → IsPlain v
      → 0 < length v
      → (nodes' : FileNodes) × (read_line
            (line (codes "FNAME") v)
            (with_entries r (e ∷ es) (p ∷ supply) nodes fname true)
          ≡ some (with_entries r (record e { metadata = p } ∷ es) supply nodes' (some v) true))
  unfolding read_line read_fname set_entry
  read_line-fname e p v live plain more = (
    new_node nodes p (elim (find_file v r.store.files) [ none ↦ null | some f ↦ f.address ])
        e.metadata,
    rw
        (
          read_line,
          kind-fname v plain,
          read_fname,
          scan_string-line (codes "FNAME") v plain more,
          ==_false p null live,
        )
        refl,
  )

-- Names that can be read back, and their lines.
abbrev AreNames : List Bytes → Type 0
AreNames [] = Unit
AreNames (v ∷ vs) = IsPlain v × (0 < length v) × (length v < 118) × AreNames vs

abbrev names_text : List Bytes → Bytes
names_text [] = []
names_text (v ∷ vs) = line (codes "FNAME") v ++ names_text vs

file_at-IsKept :
    (p : Ptr) (files : List FileMetadata) (f : FileMetadata)
    → AreKept files
    → file_at p files ≡ some f
    → IsKept f
unfolding file_at
file_at-IsKept p [] f kept e = absurd (cc e)
file_at-IsKept p (g ∷ gs) f kept e = elim (Bool-cases (g.address == p)) [
  | inl y ↦ subst IsKept (some_same (rw (file_at, y) at e)) kept.0
  | inr y ↦ file_at-IsKept p gs f kept.1 (rw (file_at, y) at e)
]

-- What is written of a file list is the lines of names, no more than were counted.
name_lines-names :
    (n : ℕ) (h : FileNodes) (files : List FileMetadata) (p : Ptr) (text : Bytes)
    → AreKept files
    → name_lines n h files p ≡ some text
    → (vs : List Bytes) × (text ≡ names_text vs) × (length vs ≤ n) × AreNames vs
unfolding name_lines
name_lines-names zero h files p text kept e = ([], sym (some_same e), omega arith, tt)
name_lines-names (suc n) h files p text kept e = elim (Bool-cases (p == null)) [
  | inl y ↦ ([], sym (some_same (rw (name_lines, y) at e)), omega arith, tt)
  | inr y ↦ >>=-elim (load_node h h.file_meta p) _ (rw (name_lines, y) at e) (λ f found rest.
      elim (Bool-cases (f == null)) [
        | inl z ↦ ([], sym (some_same (rw (z) at rest)), omega arith, tt)
        | inr z ↦ >>=-elim (file_at f files) _ (rw (z) at rest) (λ file at_f rest1.
            >>=-elim (load_node h h.next p >>= λ q. name_lines n h files q) _ rest1
              (λ names others whole. >>=-elim (load_node h h.next p) _ others (λ q next more.
                let (plain, some_byte, short, _, _, _, _, _) =
                  file_at-IsKept f files file kept at_f in
                let (vs, e1, few, good) = name_lines-names n h files q names kept more in
                (
                  file.file_name ∷ vs,
                  sym (some_same whole)
                      ∙ ap₂ (λ v t. line (codes "FNAME") v ++ t) (plain-cstr file.file_name plain)
                          e1,
                  omega (arith, few),
                  (plain, some_byte, short, good),
                ))))
      ])
]

pub Stocked-fewer : (m n : ℕ) (ps : List Ptr) → Stocked n ps → m ≤ n → Stocked m ps
Stocked-fewer zero n ps stock le = tt
Stocked-fewer (suc m) zero ps stock le = absurd (omega arith)
Stocked-fewer (suc m) (suc n) [] stock le = stock
Stocked-fewer (suc m) (suc n) (p ∷ ps) stock le =
    (stock.0, Stocked-fewer m n ps stock.1 (omega arith))

-- The names of the first entry, one after the other.
names-Reads :
    (r : Reading) (vs : List Bytes) (e : IpToFileInfo) (es : List IpToFileInfo) (supply : List Ptr)
    (nodes : FileNodes) (fname : Option Bytes) (spare : ℕ)
    → AreNames vs
    → Stocked (length vs + spare) supply
    → (first : Ptr) × (supply' : List Ptr) × (nodes' : FileNodes) × (fname' : Option Bytes)
      × Stocked spare supply'
      × Reads
          (with_entries r (e ∷ es) supply nodes fname true)
          (names_text vs)
          (with_entries r (record e { metadata = first } ∷ es) supply' nodes' fname' true)
names-Reads r [] e es supply nodes fname spare ok stock = (
  e.metadata,
  supply,
  nodes,
  fname,
  Stocked-fewer spare (0 + spare) supply stock (omega arith),
  Reads-nil _,
)
names-Reads r (v ∷ vs) e es [] nodes fname spare ok stock =
    absurd (Stocked-fewer (suc zero) (length (v ∷ vs) + spare) [] stock (omega arith))
names-Reads r (v ∷ vs) e es (p ∷ ps) nodes fname spare ok stock =
    let (plain, more, short, others) = ok in
    let stocked : Stocked (suc (length vs + spare)) (p ∷ ps) =
      Stocked-fewer (suc (length vs + spare)) (length (v ∷ vs) + spare) (p ∷ ps) stock
        (omega arith) in
    let (nodes1, reads) = read_line-fname r es ps nodes fname e p v stocked.0 plain more in
    let (first, supply', nodes', fname', left, later) =
      names-Reads r vs (record e { metadata = p }) es ps nodes1 (some v) spare others stocked.1 in
    (
      first,
      supply',
      nodes',
      fname',
      left,
      Reads-append _ _ _ _ _
          (Reads-line _ _ (codes "FNAME") v (line_test-IsLine (codes "FNAME") refl) plain
            (omega (arith, short)) reads)
          later,
    )

-- The entries that can be read back, and how many names they count.
abbrev pub AreEntries : List IpToFileInfo → Type 0
AreEntries [] = Unit
AreEntries (e ∷ es) = IsIp e.ip × (e.number_of_files < 4294967296) × AreEntries es

abbrev pub counted : List IpToFileInfo → ℕ
counted [] = 0
counted (e ∷ es) = e.number_of_files + counted es

-- Addresses and counts, the last entry first, in front of others.
abbrev pub summary : List IpToFileInfo → List (Bytes × ℕ)
summary [] = []
summary (e ∷ es) = (e.ip, e.number_of_files) ∷ summary es

abbrev pub turned : List (Bytes × ℕ) → List (Bytes × ℕ) → List (Bytes × ℕ)
turned [] ys = ys
turned (x ∷ xs) ys = turned xs (x ∷ ys)

pub entries-Reads :
    (r : Reading) (h : FileNodes) (files : List FileMetadata) (es gs : List IpToFileInfo)
    (text : Bytes) (supply : List Ptr) (nodes : FileNodes) (fname : Option Bytes) (made : Bool)
    → AreKept files
    → AreEntries es
    → Stocked (counted es) supply
    → entry_lines h files es ≡ some text
    → (es' : List IpToFileInfo) × (supply' : List Ptr) × (nodes' : FileNodes) × (fname' : Option
        Bytes)
      × (made' : Bool) × (summary es' ≡ turned (summary es) (summary gs))
      × Reads
          (with_entries r gs supply nodes fname made)
          text
          (with_entries r es' supply' nodes' fname' made')
unfolding entry_lines
entries-Reads r h files [] gs text supply nodes fname made kept ok stock e = (
  gs,
  supply,
  nodes,
  fname,
  made,
  refl,
  subst
      (λ t.
        Reads (with_entries r gs supply nodes fname made) t
          (with_entries r gs supply nodes fname made))
      (some_same e) (Reads-nil _),
)
entries-Reads r h files (d ∷ ds) gs text supply nodes fname made kept ok stock e =
    >>=-elim (name_lines d.number_of_files h files d.metadata) _ e (λ names found rest.
      >>=-elim (entry_lines h files ds) _ rest (λ later others whole.
        let (ip, small, good) = ok in
        let (vs, lines, few, named) =
          name_lines-names d.number_of_files h files d.metadata names kept found in
        let g1 : IpToFileInfo = record { ip = d.ip; number_of_files = 0; metadata = null } in
        let g2 : IpToFileInfo = record g1 { number_of_files = d.number_of_files } in
        let (first, supply1, nodes1, fname1, left, in_names) =
          names-Reads r vs g2 gs supply nodes fname (counted ds) named (
            Stocked-fewer (length vs + counted ds) (d.number_of_files + counted ds) supply stock
              (omega (arith, few))) in
        let (es', supply', nodes', fname', made', sums, after) =
          entries-Reads r h files ds (record g2 { metadata = first } ∷ gs) later supply1 nodes1
            fname1 true kept good left others in
        (
          es',
          supply',
          nodes',
          fname',
          made',
          sums,
          subst
              (λ t.
                Reads (with_entries r gs supply nodes fname made) t
                  (with_entries r es' supply' nodes' fname' made'))
              (ap₂
                  (λ v t.
                    line (codes "IP") v
                    ++ (line (codes "NFILES") (decimal d.number_of_files) ++ (t ++ later)))
                  (sym (plain-cstr d.ip ip.0)) (sym lines)
                ∙ some_same whole)
              (Reads-append _ _ _ (line (codes "IP") d.ip)
                (line (codes "NFILES") (decimal d.number_of_files) ++ (names_text vs ++ later))
                (Reads-line _ _ (codes "IP") d.ip (line_test-IsLine (codes "IP") refl) ip.0
                  (omega (arith, ip.2)) (read_line-new_ip r gs supply nodes fname made d.ip ip))
                (Reads-append _ _ _ (line (codes "NFILES") (decimal d.number_of_files))
                  (names_text vs ++ later)
                  (Reads-line _ _ (codes "NFILES") (decimal d.number_of_files)
                    (line_test-IsLine (codes "NFILES") refl)
                    (number-IsPlain d.number_of_files small)
                    (omega (arith, number_length d.number_of_files))
                    (read_line-n_files r gs supply nodes fname g1 d.number_of_files small))
                  (Reads-append _ _ _ (names_text vs) later in_names after))),
        )))
