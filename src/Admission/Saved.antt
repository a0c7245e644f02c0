-- ===== src/Admission/Saved.antt =====
-- IPs.txt, as it is written and as it is read.
use mathlib.Core.List.{append_assoc}
use cs425_mp.Common.{
  ℕ, zero, suc, ◌+◌, ◌≡◌, ◌≤◌, ◌<◌, refl, sym, ◌∙◌, ap, ap₂, true, false, ◌&&◌, Option, none, some,
  List, [], ◌∷◌, ◌++◌, Bytes, codes, arith, length, length-append, take, drop, ◌==◌, ==_false, ltb,
  leb, lt→ltb, le→ltb_false, lt→leb_false, le→leb, if◌then◌else◌, ◌>>=◌, dec_lt, cstr, cstr-text,
  cstr-pad, cstr-pad_append, length-pad, IsText, drop-append,
}
use cs425_mp.Ring.Addresses.{IsAddress}
use cs425_mp.Admission.{
  fgets, is_space, skip_space, word, strip, scan_ip, parse_lines, parse_ips_file, write_rows,
  max_num_ips,
}
use cs425_mp.Admission.Compact.{rows}

-- A line for each address.
abbrev pub saved_text : List Bytes → Bytes
saved_text [] = []
saved_text (t ∷ ts) = codes "IP: " ++ (t ++ 10 ∷ saved_text ts)

-- A text without spaces and line ends.
abbrev pub IsWord : Bytes → Type 0
IsWord [] = Unit
IsWord (b ∷ bs) = (0 < b) × (is_space b ≡ false) × IsWord bs

-- The texts of addresses.
abbrev pub AreWords : List Bytes → Type 0
AreWords [] = Unit
AreWords (t ∷ ts) = IsWord t × (0 < length t) × (length t < 16) × AreWords ts

abbrev pub HaveAddresses : List (ℕ × Bytes) → Type 0
HaveAddresses [] = Unit
HaveAddresses (e ∷ es) = IsAddress e.1 × HaveAddresses es

-- The texts of the members' addresses.
abbrev pub texts : List (ℕ × Bytes) → List Bytes
texts [] = []
texts (e ∷ es) = cstr e.1 ∷ texts es

cstr-IsAddress_append : (b rest : Bytes) → IsAddress b → cstr (b ++ rest) ≡ cstr b
cstr-IsAddress_append b rest (s, t, small, e) =
    ap (λ x. cstr (x ++ rest)) e
    ∙ cstr-pad_append 16 s rest t small
    ∙ sym (ap cstr e ∙ cstr-pad 16 s t small)

pub length-IsAddress : (b : Bytes) → IsAddress b → length b ≡ 16
length-IsAddress b (s, t, small, e) = ap length e ∙ length-pad 16 s

-- What `writeIPsToFile` writes of the first of some rows that hold addresses.
pub write_rows-rows :
    (n : ℕ) (es : List (ℕ × Bytes)) (rest : Bytes)
    → n ≤ length es
    → HaveAddresses es
    → write_rows n (rows es ++ rest) ≡ saved_text (take n (texts es))
unfolding write_rows take
write_rows-rows zero es rest le h = refl
write_rows-rows (suc n) [] rest le h = absurd (omega arith)
write_rows-rows (suc n) (e ∷ es) rest le h =
    let whole : (rows (e ∷ es) ++ rest) ≡ e.1 ++ (rows es ++ rest) =
      append_assoc e.1 (rows es) rest in
    let text : cstr (rows (e ∷ es) ++ rest) ≡ cstr e.1 =
      ap cstr whole ∙ cstr-IsAddress_append e.1 (rows es ++ rest) h.0 in
    let left : drop 16 (rows (e ∷ es) ++ rest) ≡ rows es ++ rest =
      ap (drop 16) whole ∙ drop-append 16 e.1 (rows es ++ rest) (length-IsAddress e.1 h.0) in
    ap₂ (λ x y. codes "IP: " ++ (x ++ 10 ∷ write_rows n y)) text left
    ∙ ap (λ y. codes "IP: " ++ (cstr e.1 ++ 10 ∷ y)) (write_rows-rows n es rest (omega arith) h.1)

pub take-AreWords : (n : ℕ) (ts : List Bytes) → AreWords ts → AreWords (take n ts)
unfolding take
take-AreWords zero ts w = tt
take-AreWords (suc n) [] w = tt
take-AreWords (suc n) (t ∷ ts) w = (w.0, w.1, w.2, take-AreWords n ts w.3)

fgets-line :
    (n : ℕ) (l rest : Bytes)
    → IsWord l
    → length l < n
    → fgets n (l ++ 10 ∷ rest) ≡ (l ++ 10 ∷ [], rest)
unfolding fgets
fgets-line zero l rest w h = absurd (omega arith)
fgets-line (suc n) [] rest w h = refl
fgets-line (suc n) (b ∷ l) rest w h =
    let e : (b == 10) ≡ false = ground (arith, w.1) in
    rw (fgets-line n l rest w.2 (omega arith), e) refl

pub word-IsWord : (t : Bytes) → IsWord t → word (t ++ 10 ∷ []) ≡ t
unfolding word
word-IsWord [] w = refl
word-IsWord (b ∷ t) w = rw w.1 (ap (λ x. b ∷ x) (word-IsWord t w.2))

pub skip_space-IsWord :
    (t : Bytes) → IsWord t → 0 < length t → skip_space (t ++ 10 ∷ []) ≡ t ++ 10 ∷ []
unfolding skip_space
skip_space-IsWord [] w p = absurd (omega arith)
skip_space-IsWord (b ∷ t) w p = rw w.1 refl

IsText-IsWord : (t : Bytes) → IsWord t → IsText (t ++ 10 ∷ [])
IsText-IsWord [] w = (omega arith, tt)
IsText-IsWord (b ∷ t) w = (w.0, IsText-IsWord t w.2)

line_text : Bytes → Bytes
line_text t = codes "IP: " ++ (t ++ 10 ∷ [])

scan_ip-line : (t : Bytes) → IsWord t → 0 < length t → scan_ip (cstr (line_text t)) ≡ some t
unfolding scan_ip strip line_text skip_space
scan_ip-line t w p =
    let clean : cstr (codes "IP: " ++ (t ++ 10 ∷ [])) ≡ codes "IP: " ++ (t ++ 10 ∷ []) =
      cstr-text (codes "IP: " ++ (t ++ 10 ∷ []))
        (omega arith, (omega arith, (omega arith, (omega arith, IsText-IsWord t w)))) in
    let skipped : skip_space (32 ∷ (t ++ 10 ∷ [])) ≡ t ++ 10 ∷ [] = skip_space-IsWord t w p in
    rw (clean, skipped, word-IsWord t w, ==_false (length t) 0 (λ e. omega arith)) refl

fgets-ip_line :
    (t rest : Bytes)
    → IsWord t
    → length t < 16
    → fgets 49 (codes "IP: " ++ (t ++ 10 ∷ rest)) ≡ (line_text t, rest)
unfolding fgets line_text
fgets-ip_line t rest w small = rw (fgets-line 45 t rest w (omega arith)) refl

parse_lines-done : (fuel i : ℕ) (stale : ℕ → Bytes) → parse_lines fuel i stale [] ≡ some []
unfolding parse_lines fgets
parse_lines-done zero i stale = refl
parse_lines-done (suc fuel) i stale = refl

-- One round, for a line that a word is scanned from.
parse_lines-round :
    (fuel i : ℕ) (stale : ℕ → Bytes) (text line rest t : Bytes)
    → fgets 49 text ≡ (line, rest)
    → (length line == 0) ≡ false
    → scan_ip (cstr line) ≡ some t
    → ltb (length t) 16 ≡ true
    → parse_lines (suc fuel) i stale text ≡ (do
      later ← parse_lines fuel (i + 1) stale rest
      if ltb i max_num_ips && true then some (t ∷ later) else none)
unfolding parse_lines
parse_lines-round fuel i stale text line rest t got more scanned small =
    rw (parse_lines, got, more, scanned, small) (rw got refl)

-- A line that `writeIPsToFile` wrote is one round.
parse_lines-line :
    (fuel i : ℕ) (stale : ℕ → Bytes) (t rest : Bytes)
    → IsWord t
    → 0 < length t
    → length t < 16
    → parse_lines (suc fuel) i stale (codes "IP: " ++ (t ++ 10 ∷ rest)) ≡ (do
      later ← parse_lines fuel (i + 1) stale rest
      if ltb i max_num_ips && true then some (t ∷ later) else none)
unfolding line_text
parse_lines-line fuel i stale t rest w p small =
    parse_lines-round fuel i stale (codes "IP: " ++ (t ++ 10 ∷ rest)) (line_text t) rest t
      (fgets-ip_line t rest w small) (==_false _ 0 (λ e. omega arith)) (scan_ip-line t w p)
      (lt→ltb (length t) 16 small)

parse_lines-saved_text :
    (ts : List Bytes) (fuel i : ℕ) (stale : ℕ → Bytes)
    → AreWords ts
    → length (saved_text ts) ≤ fuel
    → i + length ts ≤ 10
    → parse_lines fuel i stale (saved_text ts) ≡ some ts
parse_lines-saved_text [] fuel i stale w f room = parse_lines-done fuel i stale
parse_lines-saved_text (t ∷ ts) zero i stale w f room = absurd (omega arith)
parse_lines-saved_text (t ∷ ts) (suc fuel) i stale w f room =
    let ih =
      parse_lines-saved_text ts fuel (i + 1) stale w.3
        (omega (arith, length-append t (10 ∷ saved_text ts))) (omega arith) in
    parse_lines-line fuel i stale t (saved_text ts) w.0 w.1 w.2
    ∙ rw (ih, lt→ltb i 10 (omega arith)) refl

parse_lines-too_many :
    (ts : List Bytes) (fuel i : ℕ) (stale : ℕ → Bytes)
    → AreWords ts
    → length (saved_text ts) ≤ fuel
    → i ≤ 10
    → 10 < i + length ts
    → parse_lines fuel i stale (saved_text ts) ≡ none
parse_lines-too_many [] fuel i stale w f le over = absurd (omega arith)
parse_lines-too_many (t ∷ ts) zero i stale w f le over = absurd (omega arith)
parse_lines-too_many (t ∷ ts) (suc fuel) i stale w f le over =
    let enough : length (saved_text ts) ≤ fuel =
      omega (arith, length-append t (10 ∷ saved_text ts)) in
    parse_lines-line fuel i stale t (saved_text ts) w.0 w.1 w.2 ∙ elim (dec_lt i 10) [
      | yes room ↦
          rw (parse_lines-too_many ts fuel (i + 1) stale w.3 enough (omega arith) (omega arith))
            refl
      | no full ↦
          let shut : ltb i max_num_ips ≡ false = le→ltb_false i 10 (omega arith) in
          rw shut (never (parse_lines fuel (i + 1) stale (saved_text ts)))
    ]
  where
    never :
        (o : Option (List Bytes))
        → (o >>= λ later. if false && true then some (t ∷ later) else none) ≡ none
    never none = refl
    never (some later) = refl

-- A text of ten lines at most is read back, and one of more overruns `maybeIPs`.
pub parse_ips_file-saved_text :
    (ts : List Bytes) (stale : ℕ → Bytes)
    → AreWords ts
    → parse_ips_file stale (some (saved_text ts))
      ≡ (if leb (length ts) max_num_ips then some ts else none)
unfolding parse_ips_file
parse_ips_file-saved_text ts stale w = elim (dec_lt 10 (length ts)) [
  | yes over ↦
      rw (lt→leb_false (length ts) 10 over)
        (parse_lines-too_many ts _ 0 stale w (omega arith) (omega arith) (omega arith))
  | no few ↦
      rw (le→leb (length ts) 10 (omega arith))
        (parse_lines-saved_text ts _ 0 stale w (omega arith) (omega arith))
]
