-- ===== src/Dfs/Settle.antt =====
-- A file is told of once its chunks are reported: `processFileInfoUpdatePayload` of
-- dfs/dfs_operation.c before `populateFileInfoPayload`.
use cs425_mp.Common.{
  ℕ, ◌%◌, ◌≡◌, refl, sym, ◌∙◌, ap, true, false, some, List, [], ◌∷◌, map, Bytes, ◌==◌, >>=-elim,
  cstr, strcmp_eq, length, take, arith, Bool-cases, inl, inr,
}
use cs425_mp.Wire.{has_flag}
use cs425_mp.Metadata.{FileMetadata, Store, find_file, get_file_metadata, write_file_metadata}
use cs425_mp.Dfs.{
  FileInfo, FileOperation, Leader, file_info_response, get_file_request, file_info_finalized,
  file_info_tentative, file_chunks_placed_successfully,
}
use cs425_mp.Dfs.Persist.{file_at, metadata_text, send_metadata_to_neighbour, dfs_write_to_file}
use cs425_mp.Dfs.Requests.{populate_file_info, process_file_info_update}
use cs425_mp.Dfs.Answers.{populate_file_info-get}

send_metadata_to_neighbour-store :
    (s s' : Leader) → send_metadata_to_neighbour s ≡ some s' → s'.store ≡ s.store
unfolding send_metadata_to_neighbour
send_metadata_to_neighbour-store s s' e = ground arith

dfs_write_to_file-store : (s s' : Leader) → dfs_write_to_file s ≡ some s' → s'.store ≡ s.store
unfolding dfs_write_to_file
dfs_write_to_file-store s s' e =
    >>=-elim (metadata_text s.store) _ e
      λ text e1 k. send_metadata_to_neighbour-store (record s { metadata_file = some text }) s' k

find_file-name :
    (name : Bytes) (fs : List FileMetadata) (f : FileMetadata)
    → find_file name fs ≡ some f
    → strcmp_eq f.file_name name ≡ true
unfolding find_file
find_file-name name [] f e = ground arith
find_file-name name (g ∷ gs) f e = elim (Bool-cases (strcmp_eq g.file_name name)) [
  | inl hit ↦
      let same : g ≡ f = ground arith in ap (λ x. strcmp_eq x.file_name name) (sym same) ∙ hit
  | inr miss ↦ find_file-name name gs f (rw miss at e)
]

-- A file that its own address finds is the one that its name finds after a change of its flags.
find_file-write_file_metadata :
    (name : Bytes) (fs : List FileMetadata) (f : FileMetadata) (flags : ℕ)
    → find_file name fs ≡ some f
    → file_at f.address fs ≡ some f
    → find_file name (write_file_metadata (record f { flags = flags }) fs)
      ≡ some (record f { flags = flags })
unfolding find_file write_file_metadata file_at
find_file-write_file_metadata name [] f flags e at = ground arith
find_file-write_file_metadata name (g ∷ gs) f flags e at =
    elim (Bool-cases (g.address == f.address)) [
      | inl own ↦ rw (own, find_file-name name (g ∷ gs) f e) refl
      | inr other ↦ elim (Bool-cases (strcmp_eq g.file_name name)) [
        | inl hit ↦ absurd (ground (arith, other, hit))
        | inr miss ↦
            rw (other, miss)
              (find_file-write_file_metadata name gs f flags (rw miss at e) (rw other at at))
      ]
    ]

update_writes :
    (info : FileInfo) (s s1 : Leader) (f : FileMetadata)
    → get_file_metadata info.file_name s.store ≡ some f
    → has_flag info.flags file_chunks_placed_successfully ≡ true
    → process_file_info_update info s ≡ some s1
    → dfs_write_to_file (record s {
      store = record s.store {
        files = write_file_metadata (record f { flags = file_info_finalized }) s.store.files;
      };
    })
      ≡ some s1
unfolding process_file_info_update
update_writes info s s1 f found placed runs = rw (process_file_info_update, found, placed) at runs

finalized : has_flag file_info_finalized file_info_tentative ≡ false
unfolding has_flag
finalized = refl

-- For a file that its name and its own address find, with two replicas and as many chunks as it
-- counts: when the report that its chunks are placed runs at the leader without a fault, a client
-- that asks for the file by the same name is then told of the two addresses of every chunk, also if
-- the file was tentative before.
pub process_file_info_update-get :
    (info : FileInfo) (request : FileOperation) (s s1 : Leader) (f : FileMetadata)
    → get_file_metadata info.file_name s.store ≡ some f
    → file_at f.address s.store.files ≡ some f
    → f.num_replicas ≡ 2
    → f.number_of_chunks ≡ length f.chunk_info
    → has_flag info.flags file_chunks_placed_successfully ≡ true
    → process_file_info_update info s ≡ some s1
    → has_flag request.flags get_file_request ≡ true
    → request.file_name ≡ info.file_name
    → populate_file_info request s1
      ≡ some (
        record {
          flags = file_info_response;
          file_name = cstr request.file_name;
          no_of_splits = length f.chunk_info % 256;
          no_of_replicas = 2;
          addresses = map (λ c. take 2 c.ips) f.chunk_info;
        },
        s1,
      )
unfolding get_file_metadata
process_file_info_update-get info request s s1 f found own two count placed runs get same =
    let f1 : FileMetadata = record f { flags = file_info_finalized } in
    let written : Store = record s.store { files = write_file_metadata f1 s.store.files } in
    let wrote : dfs_write_to_file (record s { store = written }) ≡ some s1 =
      update_writes info s s1 f found placed runs in
    let kept = dfs_write_to_file-store (record s { store = written }) s1 wrote in
    let there : find_file request.file_name s1.store.files ≡ some f1 =
      ap (λ n. find_file n s1.store.files) same
      ∙ ap (λ t. find_file info.file_name t.files) kept
      ∙ find_file-write_file_metadata info.file_name s.store.files f file_info_finalized found
          own in
    populate_file_info-get request s1 f1 get there finalized two count
