-- ===== src/Dfs/Client/Outcomes.antt =====
-- What the commands of the client do from end to end.
use cs425_mp.Common.{
  ℕ, ◌%◌, ◌≤◌, ◌<◌, ◌≡◌, refl, min, true, false, Option, none, some, Bytes, codes, ◌==◌, length,
  arith,
}
use cs425_mp.Wire.{ReturnCode, success, has_flag}
use cs425_mp.Ring.{null, Head}
use cs425_mp.Dfs.{
  FileInfo, FileOperation, Leader, put_file_request, get_file_request, file_name_available,
  file_not_found_flag,
}
use cs425_mp.Dfs.Client.{
  Job, megabytes, client_request, placement_update, dfs_file_transfer, dfs_file_receive,
}
use cs425_mp.Dfs.Client.Names.{four_digits}
use cs425_mp.Dfs.Client.Batches.{jobs_of, all_placed-always, transfer_batches-rows, fetch_jobs-rows}

zeros : codes "0000" ≡ four_digits 0
unfolding four_digits
zeros = refl

module _ (s : Leader) (head : Head) (request : FileOperation) (info : FileInfo)
    (leader : FileOperation → ReturnCode × Option FileInfo) (led : s.topology.head ≡ some head)
    (there : (head.node == null) ≡ false) (answered : leader request ≡ (success, some info))
    (two : info.no_of_replicas ≤ 2) (byte : info.no_of_splits < 256) where
  -- A file that is put, where the leader gives it chunks with two replicas at most and every chunk is
  -- placed: the command succeeds and says so to the leader, and chunk `k`, whose name ends in the four
  -- digits of `k`, was sent to the addresses that the leader gave for chunk `k % 5`.
  pub dfs_file_transfer-rows :
      (size : ℕ) (destination : Bytes) (place : Job → ReturnCode)
      → client_request put_file_request (megabytes size) destination s ≡ some request
      → has_flag info.flags file_name_available ≡ true
      → min info.no_of_splits 5 ≤ length info.addresses
      → ((job : Job) → place job ≡ success)
      → dfs_file_transfer (some size) destination s leader place
        ≡ some (record {
          code = success;
          request = some request;
          jobs = jobs_of (λ k. k % 5) info info.file_name 0 info.no_of_splits;
          update = some (placement_update true destination);
        })
  unfolding dfs_file_transfer
  dfs_file_transfer-rows size destination place asked free rows always =
      rw
        (
          led,
          there,
          asked,
          answered,
          free,
          zeros,
          transfer_batches-rows info place two always byte rows,
        )
        refl

  -- A file that is got, where the leader knows it with two replicas at most and every chunk is
  -- fetched: the command succeeds and merges the chunks, and chunk `k`, whose name ends in the four
  -- digits of `k`, was fetched from the addresses that the leader gave for chunk `k`.
  pub dfs_file_receive-rows :
      (remote : Bytes) (fetch : Job → ReturnCode)
      → client_request get_file_request 0 remote s ≡ some request
      → has_flag info.flags file_not_found_flag ≡ false
      → info.no_of_splits ≤ length info.addresses
      → ((job : Job) → fetch job ≡ success)
      → dfs_file_receive remote s leader fetch
        ≡ some (
          record {
            code = success;
            request = some request;
            jobs = jobs_of (λ k. k) info remote 0 info.no_of_splits;
            update = none;
          },
          true,
        )
  unfolding dfs_file_receive
  dfs_file_receive-rows remote fetch asked known rows always =
      rw
        (
          led,
          there,
          asked,
          answered,
          known,
          zeros,
          fetch_jobs-rows info remote info.no_of_splits 0 0 two (omega arith) (omega arith)
              (omega arith),
          all_placed-always fetch always,
        )
        refl
