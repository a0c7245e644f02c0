-- ===== src/Examples/Clients.antt =====
-- A file that is put and got, and the ends of its transfers.
use cs425_mp.Common.{
  ℕ, ◌*◌, ◌%◌, ◌^◌, ◌<◌, ◌≡◌, refl, Bool, true, false, none, some, List, [], ◌∷◌, map, Bytes, codes,
  arith, strcmp_eq, cstr, ◌||◌, ◌&&◌, ◌++◌, take,
}
use cs425_mp.Wire.{ReturnCode, success, failure, is_success, has_flag}
use cs425_mp.Ring.{Topology, check, load}
use cs425_mp.Transfer.{Message, max_file_chunk_size}
use cs425_mp.Transfer.Send.{send_file, send_loop, message_status}
use cs425_mp.Transfer.Termination.{AreChunks, send_file-AreChunks}
use cs425_mp.Dfs.{FileInfo, FileOperation, Leader}
use cs425_mp.Dfs.Requests.{chunks_of_size}
use cs425_mp.Dfs.Chunks.{atoi}
use cs425_mp.Dfs.Client.{
  Job, Attempt, unreached, lost, delivered, round_to, to_float, megabytes, number_suffix,
  client_request, placement_update, dfs_file_transfer, dfs_file_receive, send_file_wrapper,
  receive_file_wrapper,
}
use cs425_mp.Dfs.Client.Names.{four_digits, atoi-number_suffix}
use cs425_mp.Dfs.Client.Batches.{jobs_of}
use cs425_mp.Dfs.Client.Outcomes.{dfs_file_transfer-rows, dfs_file_receive-rows}
use cs425_mp.Dfs.Client.Replicas.{
  any_delivered, none_asked, send_file_wrapper-last, receive_file_wrapper-any_delivered,
  chunks_of_size-megabytes,
}

-- The first chunk is refused and the file is over.
abbrev refusing : ℕ → ReturnCode
refusing i = failure

abbrev accepting : ℕ → ReturnCode
accepting i = success

abbrev hello : Bytes
hello = codes "hello"

send_file-AreChunks_example :
    (rc : ReturnCode) × (ms : List Message) × (send_file refusing (some hello) (codes "a.t")
      ≡ some (rc, ms))
    × AreChunks max_file_chunk_size ms
send_file-AreChunks_example = send_file-AreChunks refusing (some hello) (codes "a.t")

atoi-number_suffix_example :
    (s : Bytes) × (number_suffix (four_digits 99) 100 ≡ some s)
    × (s ≡ four_digits 100)
    × (atoi 0 s ≡ 100)
atoi-number_suffix_example = atoi-number_suffix 99 100 (omega arith) (omega arith)

abbrev ring : Topology
ring = record {
  heap = record {
    live = λ p. true;
    ip = λ p. codes "10.0.0.9";
    timestamp = λ p. 100;
    next = λ p. 1;
    prev = λ p. 1;
  };
  head = some (record { node = 1; num_of_nodes = 1 });
}

abbrev node : Leader
node = record {
  store = record {
    files = [];
    entries = [];
    nodes = record { live = λ p. false; file_meta = λ p. 0; next = λ p. 0; allocated = 0 };
    turn = 0;
    supply = [];
  };
  topology = ring;
  myself = 1;
  metadata_file = none;
  copied_to = [];
}

abbrev asked : ℕ → ℕ → FileOperation
asked flags size = record {
  flags = flags;
  file_size = size;
  requester_ip = codes "10.0.0.9";
  file_name = codes "b";
}

abbrev rows : List (List Bytes)
rows = map (λ b. (b ∷ []) ∷ codes "x" ∷ []) (1 ∷ 2 ∷ 3 ∷ 4 ∷ 5 ∷ 6 ∷ [])

-- The leader's answer: six chunks with two replicas.
abbrev answer : ℕ → FileInfo
answer flags = record {
  flags = flags;
  file_name = codes "b";
  no_of_splits = 6;
  no_of_replicas = 2;
  addresses = rows;
}

put-flag : has_flag 16 16 ≡ true
unfolding has_flag
put-flag = refl

get-flag : has_flag 2 8 ≡ false
unfolding has_flag
get-flag = refl

put-runs : client_request 1 (megabytes 1000) (codes "b") node ≡ some (asked 1 1)
unfolding client_request megabytes to_float round_to check load cstr
put-runs = refl

get-runs : client_request 2 0 (codes "b") node ≡ some (asked 2 0)
unfolding client_request check load cstr
get-runs = refl

abbrev always : Job → ReturnCode
always job = success

dfs_file_transfer-rows_example :
    dfs_file_transfer (some 1000) (codes "b") node (λ r. (success, some (answer 16))) always
    ≡ some (record {
      code = success;
      request = some (asked 1 1);
      jobs = jobs_of (λ k. k % 5) (answer 16) (codes "b") 0 6;
      update = some (placement_update true (codes "b"));
    })
dfs_file_transfer-rows_example =
    dfs_file_transfer-rows node (record { node = 1; num_of_nodes = 1 }) (asked 1 1) (answer 16)
      (λ r. (success, some (answer 16))) refl refl refl (omega arith) (omega arith) 1000 (codes "b")
      always put-runs put-flag (omega arith) (λ job. refl)

dfs_file_receive-rows_example :
    dfs_file_receive (codes "b") node (λ r. (success, some (answer 2))) always
    ≡ some (
      record {
        code = success;
        request = some (asked 2 0);
        jobs = jobs_of (λ k. k) (answer 2) (codes "b") 0 6;
        update = none;
      },
      true,
    )
dfs_file_receive-rows_example =
    dfs_file_receive-rows node (record { node = 1; num_of_nodes = 1 }) (asked 2 0) (answer 2)
      (λ r. (success, some (answer 2))) refl refl refl (omega arith) (omega arith) (codes "b")
      always get-runs get-flag (omega arith) (λ job. refl)

-- The first of two replicas cannot be made.
abbrev second_up : Bytes → Bool
second_up ip = strcmp_eq ip (codes "10.0.0.3")

abbrev sent_hello : ReturnCode × List Message
sent_hello = elim (send_file accepting (some hello) (codes "b0000")) [
  | none ↦ (failure, [])
  | some r ↦ r
]

send_file-hello : send_file accepting (some hello) (codes "b0000") ≡ some (success, sent_hello.1)
unfolding send_file send_loop message_status take max_file_chunk_size
send_file-hello = refl

not_own : strcmp_eq (codes "10.0.0.3") (codes "10.0.0.9") ≡ false
unfolding strcmp_eq cstr
not_own = refl

reached : second_up (codes "10.0.0.3") ≡ true
unfolding strcmp_eq cstr
reached = refl

send_file_wrapper-last_example :
    send_file_wrapper second_up
      (λ ip. accepting)
      (some hello)
      (codes "10.0.0.9")
      failure
      (record { name = codes "b0000"; ips = (codes "10.0.0.2" ∷ []) ++ codes "10.0.0.3" ∷ [] })
    ≡ some success
send_file_wrapper-last_example =
    send_file_wrapper-last second_up (λ ip. accepting) hello (codes "10.0.0.9") (codes "b0000")
      failure (codes "10.0.0.2" ∷ []) (codes "10.0.0.3") success sent_hello.1 not_own reached
      send_file-hello

abbrev attempts : List Attempt
attempts = unreached ∷ lost failure ∷ delivered ∷ []

bad : is_success failure ≡ false
bad = refl

receive_file_wrapper-any_delivered_example :
    is_success (receive_file_wrapper false success attempts)
    ≡ (false || (any_delivered attempts || (none_asked attempts && is_success success)))
receive_file_wrapper-any_delivered_example =
    receive_file_wrapper-any_delivered false success attempts (bad, tt)

chunks_of_size-megabytes_example : chunks_of_size (megabytes 67108866) * 2 ^ 26 < 67108866
chunks_of_size-megabytes_example = chunks_of_size-megabytes 67108866 (omega arith) (omega arith)
