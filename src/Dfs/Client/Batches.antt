-- ===== src/Dfs/Client/Batches.antt =====
-- Which chunks go where: `dfs_file_transfer` in batches of five, and `dfs_file_receive`.
use cs425_mp.Common.{
  ℕ, zero, suc, ◌+◌, ◌-◌, ◌%◌, ◌≤◌, ◌<◌, ◌≡◌, refl, sym, ◌∙◌, ap, ap₂, min, true, some, List, [],
  ◌∷◌, ◌++◌, Bytes, ==_false, cstr, length, take, get_elem?, get_or, arith, le→leb,
}
use cs425_mp.Wire.{ReturnCode, success}
use cs425_mp.Dfs.{FileInfo}
use cs425_mp.Dfs.Client.{Job, batch_jobs, all_placed, transfer_batches, fetch_jobs}
use cs425_mp.Dfs.Client.Names.{four_digits, number_suffix-four_digits}

-- `count` jobs from chunk `i` on: chunk `k` has the number `k`, and the addresses of row `pick k`.
abbrev pub jobs_of : (ℕ → ℕ) → FileInfo → Bytes → ℕ → ℕ → List Job
jobs_of pick info name i zero = []
jobs_of pick info name i (suc count) =
    record {
      name = cstr name ++ four_digits i;
      ips = take info.no_of_replicas (get_or info.addresses (pick i) []);
    }
    ∷ jobs_of pick info name (suc i) count

jobs_of-add :
    (pick : ℕ → ℕ) (info : FileInfo) (name : Bytes) (i a b : ℕ)
    → jobs_of pick info name i (a + b)
      ≡ jobs_of pick info name i a ++ jobs_of pick info name (i + a) b
jobs_of-add pick info name i zero b =
    let e : 0 + b ≡ b = omega arith in
    let e' : i ≡ i + 0 = omega arith in
    ap (jobs_of pick info name i) e ∙ ap (λ k. jobs_of pick info name k b) e'
jobs_of-add pick info name i (suc a) b =
    let e : suc a + b ≡ suc (a + b) = omega arith in
    let e' : suc i + a ≡ i + suc a = omega arith in
    ap (jobs_of pick info name i) e
    ∙ ap
        (λ js.
          record {
            name = cstr name ++ four_digits i;
            ips = take info.no_of_replicas (get_or info.addresses (pick i) []);
          }
          ∷ js)
        (jobs_of-add pick info name (suc i) a b
          ∙ ap (λ k. jobs_of pick info name (suc i) a ++ jobs_of pick info name k b) e')

get_elem?-get_or :
    (rows : List (List Bytes)) (i : ℕ)
    → i < length rows
    → get_elem? rows i ≡ some (get_or rows i [])
get_elem?-get_or [] i h = absurd (omega arith)
get_elem?-get_or (r ∷ rs) zero h = refl
get_elem?-get_or (r ∷ rs) (suc i) h = get_elem?-get_or rs i (omega arith)

abbrev fifth : ℕ → ℕ
fifth k = k % 5

module _ (info : FileInfo) (two : info.no_of_replicas ≤ 2) where
  batch_jobs-jobs_of :
      (count i j k : ℕ)
      → (0 < count → i % 5 ≡ j)
      → j + count ≤ 5
      → j + count ≤ length info.addresses
      → k ≤ i
      → i + count ≤ 10000
      → (last : ℕ) × (batch_jobs count i j (four_digits k) info
          ≡ some (jobs_of fifth info info.file_name i count, four_digits last))
        × (last ≤ i + count)
  unfolding batch_jobs
  batch_jobs-jobs_of zero i j k at five rows le small = (k, refl, omega arith)
  batch_jobs-jobs_of (suc count) i j k at five rows le small =
      let here : i % 5 ≡ j = at (omega arith) in
      let (last, runs, bound) =
        batch_jobs-jobs_of count (i + 1) (j + 1) i (λ p. grind (arith, here)) (omega arith)
          (omega arith) (omega arith) (omega arith) in
      let e : i + 1 ≡ suc i = omega arith in
      (
        last,
        rw
            (
              number_suffix-four_digits k i le (omega arith),
              le→leb info.no_of_replicas 2 two,
              get_elem?-get_or info.addresses j (omega arith),
              runs,
            )
            (ap₂
              (λ r js. some (
                record {
                  name = cstr info.file_name ++ four_digits i;
                  ips = take info.no_of_replicas (get_or info.addresses r []);
                }
                    ∷ js,
                four_digits last,
              ))
              (sym here) (ap (λ x. jobs_of fifth info info.file_name x count) e)),
        omega arith,
      )

pub all_placed-always :
    (place : Job → ReturnCode)
    → ((job : Job) → place job ≡ success)
    → (js : List Job) → all_placed place js ≡ true
unfolding all_placed
all_placed-always place always [] = refl
all_placed-always place always (j ∷ js) = rw (always j, all_placed-always place always js) refl

next :
    (i left threads : ℕ)
    → threads < suc left
    → threads ≡ 5
    → i % 5 ≡ 0
    → (i + min threads (suc left)) % 5 ≡ 0
next i left threads more five at = grind (arith, more, five, at)

whole : (left threads : ℕ) → min threads (suc left) + (suc left - threads) ≡ suc left
whole left threads = omega arith

module _ (info : FileInfo) (two : info.no_of_replicas ≤ 2) (place : Job → ReturnCode)
    (always : (job : Job) → place job ≡ success) where
  transfer_batches-jobs_of :
      (fuel left i threads k : ℕ)
      → left ≤ fuel
      → (0 < left → i % 5 ≡ 0)
      → 0 < threads
      → threads ≤ 5
      → (threads < left → threads ≡ 5)
      → min threads left ≤ length info.addresses
      → k ≤ i
      → i + left ≤ 10000
      → transfer_batches fuel left i threads (four_digits k) info place
        ≡ some (true, jobs_of fifth info info.file_name i left)
  unfolding transfer_batches
  transfer_batches-jobs_of zero left i threads k enough at some_thread few full rows le small =
      let e : left ≡ 0 = omega arith in rw (e) refl
  transfer_batches-jobs_of (suc fuel) zero i threads k enough at some_thread few full rows le
        small =
      refl
  transfer_batches-jobs_of (suc fuel) (suc left) i threads k enough at some_thread few full rows le
        small =
      let count : ℕ = min threads (suc left) in
      let (last, runs, bound) =
        batch_jobs-jobs_of info two count i 0 k (λ p. at (omega arith)) (omega arith) (omega arith)
          le (omega arith) in
      let later =
        transfer_batches-jobs_of fuel (suc left - threads) (i + count) threads last (omega arith)
          (λ p. next i left threads (omega arith) (full (omega arith)) (at (omega arith)))
          some_thread few (λ p. full (omega arith)) (omega arith) bound (omega arith) in
      rw
        (
          ==_false (suc left) 0 (λ e. absurd (omega arith)),
          runs,
          all_placed-always place always,
          later,
        )
        (ap (λ js. some (true, js))
          (sym (jobs_of-add fifth info info.file_name i count (suc left - threads))
            ∙ ap (jobs_of fifth info info.file_name i) (whole left threads)))

transfer_count :
    (info : FileInfo) (place : Job → ReturnCode)
    → info.no_of_replicas ≤ 2
    → ((job : Job) → place job ≡ success)
    → (n : ℕ) → n < 256
    → min n 5 ≤ length info.addresses
    → transfer_batches n n 0 (min n 5) (four_digits 0) info place
      ≡ some (true, jobs_of fifth info info.file_name 0 n)
unfolding transfer_batches
transfer_count info place two always zero b r = refl
transfer_count info place two always (suc n) b r =
    transfer_batches-jobs_of info two place always (suc n) (suc n) 0 (min (suc n) 5) 0 (omega arith)
      (λ p. refl) (omega arith) (omega arith) (λ p. omega arith) (omega arith) (omega arith)
      (omega arith)

pub transfer_batches-rows :
    (info : FileInfo) (place : Job → ReturnCode)
    → info.no_of_replicas ≤ 2
    → ((job : Job) → place job ≡ success)
    → info.no_of_splits < 256
    → min info.no_of_splits 5 ≤ length info.addresses
    → transfer_batches info.no_of_splits info.no_of_splits 0
        (min info.no_of_splits 5)
        (four_digits 0)
        info
        place
      ≡ some (true, jobs_of (λ k. k % 5) info info.file_name 0 info.no_of_splits)
transfer_batches-rows info place two always byte rows =
    transfer_count info place two always info.no_of_splits byte rows

pub fetch_jobs-rows :
    (info : FileInfo) (name : Bytes) (count i k : ℕ)
    → info.no_of_replicas ≤ 2
    → i + count ≤ length info.addresses
    → k ≤ i
    → i + count ≤ 10000
    → fetch_jobs count i (four_digits k) name info ≡ some (jobs_of (λ r. r) info name i count)
unfolding fetch_jobs
fetch_jobs-rows info name zero i k two rows le small = refl
fetch_jobs-rows info name (suc count) i k two rows le small =
    let e : i + 1 ≡ suc i = omega arith in
    rw
      (
        number_suffix-four_digits k i le (omega arith),
        le→leb info.no_of_replicas 2 two,
        get_elem?-get_or info.addresses i (omega arith),
        fetch_jobs-rows info name count (i + 1) i two (omega arith) (omega arith) (omega arith),
      )
      (ap
        (λ x. some (
          record {
            name = cstr name ++ four_digits i;
            ips = take info.no_of_replicas (get_or info.addresses i []);
          }
          ∷ jobs_of (λ r. r) info name x count))
        e)
