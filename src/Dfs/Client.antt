-- ===== src/Dfs/Client.antt =====
-- The client's side of dfs/dfs_operation.c: a file goes out in chunks, and comes back. What the
-- network answers is an argument.
pub mod Batches
pub mod Names
pub mod Outcomes
pub mod Replicas
use cs425_mp.Common.{
  ℕ, zero, suc, ◌+◌, ◌-◌, ◌*◌, ◌/◌, ◌%◌, ◌^◌, min, Bool, true, false, ◌&&◌, ◌||◌, not, Option, none,
  some, List, [], ◌∷◌, ◌++◌, Bytes, codes, ◌==◌, ltb, leb, if◌then◌else◌, ◌>>=◌, cstr, strcmp_eq,
  length, take, drop, get_elem?,
}
use cs425_mp.Wire.{
  ReturnCode, success, failure, file_not_found, input_file_not_found, no_response_received,
  file_replica_placement_failure, is_success, has_flag,
}
use cs425_mp.Ring.{Ptr, null, load}
use cs425_mp.Transfer.Send.{send_file}
use cs425_mp.Dfs.{
  FileInfo, FileOperation, Leader, put_file_request, del_file_request, get_file_request,
  file_name_available, file_not_found_flag, file_info_update, file_chunks_placed_successfully,
}
use cs425_mp.Dfs.Persist.{decimal, dfs_write_to_file}

-- `FILE_CHUNKS_COULD_NOT_BE_PLACED`
abbrev pub file_chunks_could_not_be_placed : ℕ
file_chunks_could_not_be_placed = 0x40

-- `MAX_DFS_THREADS`
abbrev pub max_dfs_threads : ℕ
max_dfs_threads = 5

-- `n` to the nearest multiple of `unit`, and to the even one of two that are as near.
unfoldable pub round_to : ℕ → ℕ → ℕ
round_to unit n =
    let q = n / unit in
    let r = n % unit in
    (if ltb (2 * r) unit then q else if ltb unit (2 * r) then q + 1 else q + q % 2) * unit

-- `(float)n` of an int, with 24 bits: the unit doubles from 1 until they are enough, seven times at
-- most.
unfoldable pub to_float : ℕ → ℕ → ℕ → ℕ
unfolding round_to
to_float zero unit n = round_to unit n
to_float (suc fuel) unit n =
    let rest = to_float fuel (2 * unit) n in
    if ltb (n / unit) (2 ^ 24) then round_to unit n else rest

-- `ceil((float)size / (1024 * 1024))`; the quotient is exact.
unfoldable pub megabytes : ℕ → ℕ
unfolding to_float
megabytes size = (to_float 7 1 size + (2 ^ 20 - 1)) / 2 ^ 20

-- `suffix`, five bytes with the NUL that is last, after `strcpy(suffix + 4 - strlen(digits), digits)`.
-- More than four digits are written before the array: a fault.
unfoldable pub number_suffix : Bytes → ℕ → Option Bytes
unfolding decimal
number_suffix suffix i =
    let digits = decimal i in
    if leb (length digits) 4 then some (take (4 - length digits) suffix ++ digits) else none

-- What a thread is given: the name of the chunk and the addresses.
pub record Job : Type 0 where
  pub name : Bytes
  pub ips : List Bytes

-- The inner `for` loop of `dfs_file_transfer`: `count` chunks from `i` on, of which the `j`th of the
-- batch goes to the addresses of row `j`; and what `suffix` is then. The array of the thread has
-- room for two addresses.
unfoldable pub batch_jobs : ℕ → ℕ → ℕ → Bytes → FileInfo → Option (List Job × Bytes)
unfolding number_suffix
batch_jobs zero i j suffix info = some ([], suffix)
batch_jobs (suc count) i j suffix info = do
  suffix1 ← number_suffix suffix i
  row ← (if leb info.no_of_replicas 2 then get_elem? info.addresses j else none)
  (jobs, suffix2) ← batch_jobs count (i + 1) (j + 1) suffix1 info
  some (
    record { name = cstr info.file_name ++ suffix1; ips = take info.no_of_replicas row } ∷ jobs,
    suffix2,
  )

-- Whether each thread of a batch ends with RC_SUCCESS.
unfoldable pub all_placed : (Job → ReturnCode) → List Job → Bool
all_placed place [] = true
all_placed place (job ∷ jobs) = is_success (place job) && all_placed place jobs

-- The outer `for` loop, which stops behind a batch that fails: whether none did, and the jobs that
-- were run. `left` may fall below 0 in the source, where it is 0 here and the loop ends too. Each
-- round has a batch, so that `left` rounds are enough.
unfoldable pub transfer_batches :
    ℕ → ℕ → ℕ → ℕ → Bytes → FileInfo → (Job → ReturnCode) → Option (Bool × List Job)
unfolding batch_jobs all_placed
transfer_batches zero left i threads suffix info place = if left == 0 then some (true, []) else none
transfer_batches (suc fuel) left i threads suffix info place =
    if left == 0 then some (true, []) else (do
      (jobs, suffix1) ← batch_jobs (min threads left) i 0 suffix info
      (placed, later) ←
          (if all_placed place jobs
            then transfer_batches fuel (left - threads) (i + min threads left) threads suffix1 info
                place
            else some (false, []))
      some (placed, jobs ++ later))

-- What a command of the client does: its return code, the request to the leader, the jobs that were
-- run, and the update that the leader is sent.
pub record Outcome : Type 0 where
  pub code : ReturnCode
  pub request : Option FileOperation
  pub jobs : List Job
  pub update : Option FileInfo

abbrev pub refused : ReturnCode → Option FileOperation → Outcome
refused code request = record { code = code; request = request; jobs = []; update = none }

-- What the leader is told at the end.
unfoldable pub placement_update : Bool → Bytes → FileInfo
placement_update placed name = record {
  flags =
      file_info_update
      + (if placed then file_chunks_placed_successfully else file_chunks_could_not_be_placed);
  file_name = cstr name;
  no_of_splits = 0;
  no_of_replicas = 0;
  addresses = [];
}

-- A request of this node: `myself` must be there.
unfoldable pub client_request : ℕ → ℕ → Bytes → Leader → Option FileOperation
client_request flags size name s = do
  ip ← load s.topology.heap s.topology.heap.ip s.myself
  some (record { flags = flags; file_size = size; requester_ip = ip; file_name = cstr name })

-- `dfs_file_transfer`: `local` is the size of the local file, if there is one, and `leader` what the
-- thread that asks the leader leaves as `status` and `return_data`.
unfoldable pub dfs_file_transfer :
    Option ℕ
    → Bytes
    → Leader
    → (FileOperation → ReturnCode × Option FileInfo)
    → (Job → ReturnCode)
    → Option Outcome
unfolding megabytes client_request transfer_batches placement_update
dfs_file_transfer none destination s leader place = some (refused input_file_not_found none)
dfs_file_transfer (some size) destination s leader place = elim s.topology.head [
  | none ↦ some (refused failure none)
  | some head ↦ if head.node == null then some (refused failure none) else (do
    request ← client_request put_file_request (megabytes size) destination s
    let (status, answer) = leader request
    if not (is_success status) then some (refused failure (some request)) else elim answer [
      | none ↦ some (refused no_response_received (some request))
      | some info ↦
          if not (has_flag info.flags file_name_available)
          then some (refused failure (some request))
          else (do
            (placed, jobs) ←
                transfer_batches info.no_of_splits info.no_of_splits 0
                  (min info.no_of_splits max_dfs_threads) (codes "0000") info place
            some (record {
              code = if placed then success else file_replica_placement_failure;
              request = some request;
              jobs = jobs;
              update = some (placement_update placed destination);
            }))
    ])
]

-- The loop of `dfs_file_receive`: chunk `i` is fetched from the addresses of row `i`. More replicas
-- than the two of a row do not occur.
unfoldable pub fetch_jobs : ℕ → ℕ → Bytes → Bytes → FileInfo → Option (List Job)
unfolding number_suffix
fetch_jobs zero i suffix name info = some []
fetch_jobs (suc count) i suffix name info = do
  suffix1 ← number_suffix suffix i
  row ← (if leb info.no_of_replicas 2 then get_elem? info.addresses i else none)
  jobs ← fetch_jobs count (i + 1) suffix1 name info
  some (record { name = cstr name ++ suffix1; ips = take info.no_of_replicas row } ∷ jobs)

-- `dfs_file_receive`: the outcome, and whether the chunks were merged. Every answer but a chunk that
-- fails is a success, also that the file is not there.
unfoldable pub dfs_file_receive :
    Bytes
    → Leader
    → (FileOperation → ReturnCode × Option FileInfo)
    → (Job → ReturnCode)
    → Option (Outcome × Bool)
unfolding client_request fetch_jobs
dfs_file_receive remote s leader fetch = elim s.topology.head [
  | none ↦ some (refused failure none, false)
  | some head ↦ if head.node == null then some (refused failure none, false) else (do
    request ← client_request get_file_request 0 remote s
    let (status, answer) = leader request
    if not (is_success status) then some (refused success (some request), false) else elim answer [
      | none ↦ some (refused success (some request), false)
      | some info ↦
          if has_flag info.flags file_not_found_flag
          then some (refused success (some request), false)
          else (do
            jobs ← fetch_jobs info.no_of_splits 0 (codes "0000") remote info
            let fetched = all_placed fetch jobs
            some (
              record {
                code = if fetched then success else failure;
                request = some request;
                jobs = jobs;
                update = none;
              },
              fetched,
            ))
    ])
]

-- The loop of `sendFileWrapper` over the addresses: an address of this node is skipped, and each of
-- the others replaces the return code. `connects` tells what `createConnection` does, and `reply` what
-- `sendPayload` returns there.
unfoldable pub send_to_all :
    (Bytes → Bool)
    → (Bytes → ℕ → ReturnCode)
    → Option Bytes
    → Bytes
    → Bytes
    → ReturnCode
    → List Bytes
    → Option ReturnCode
send_to_all connects reply contents name mine rc [] = some rc
send_to_all connects reply contents name mine rc (ip ∷ ips) =
    let skip = send_to_all connects reply contents name mine rc ips in
    let cut_off = send_to_all connects reply contents name mine failure ips in
    let sent = (do
      (rc1, _) ← send_file (reply ip) contents name
      send_to_all connects reply contents name mine rc1 ips) in
    if strcmp_eq ip mine then skip else if connects ip then sent else cut_off

-- `sendFileWrapper`: what `dfs_data->rc` is afterwards. A chunk that cannot be opened leaves it as it
-- was, `stale`.
unfoldable pub send_file_wrapper :
    (Bytes → Bool)
    → (Bytes → ℕ → ReturnCode)
    → Option Bytes
    → Bytes
    → ReturnCode
    → Job
    → Option ReturnCode
unfolding send_to_all
send_file_wrapper connects reply none mine stale job = some stale
send_file_wrapper connects reply (some contents) mine stale job =
    send_to_all connects reply (some contents) job.name mine success job.ips

-- What becomes of a fetch from one address: no connection or no request went out; `message_decode`
-- failed before the last piece; or the last piece came.
pub data Attempt : Type 0 where
  unreached : Attempt
  lost : ReturnCode → Attempt
  delivered : Attempt

-- The loop of `receiveFileWrapper`, with its `rc`.
unfoldable pub receive_from : ReturnCode → List Attempt → ReturnCode
receive_from rc [] = rc
receive_from rc (unreached ∷ rest) = receive_from rc rest
receive_from rc (lost code ∷ rest) = receive_from code rest
receive_from rc (delivered ∷ rest) = success

-- `receiveFileWrapper`: what `dfs_data->rc` is afterwards; `stale` is what `rc` holds at first, which
-- the source does not initialise.
unfoldable pub receive_file_wrapper : Bool → ReturnCode → List Attempt → ReturnCode
unfolding receive_from
receive_file_wrapper present stale attempts =
    if present then success else receive_from stale attempts

-- `dfs_delete_file`: the request that goes to the leader, after which the node writes its own
-- metadata.
unfoldable pub dfs_delete_file : Bytes → Leader → Option (Option FileOperation × Leader)
unfolding client_request
dfs_delete_file name s = elim s.topology.head [
  | none ↦ some (none, s)
  | some head ↦ if head.node == null then some (none, s) else (do
    request ← client_request del_file_request 0 name s
    s1 ← dfs_write_to_file s
    some (some request, s1))
]
