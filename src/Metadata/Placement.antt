-- ===== src/Metadata/Placement.antt =====
-- What `addFileMetaInfo` leaves in the leader's record of the files.
use cs425_mp.Common.{
  ℕ, zero, suc, ◌+◌, ◌≡◌, refl, sym, ◌∙◌, ap, subst, true, Option, none, some, List, [], ◌∷◌, ◌++◌,
  map, Bytes, ◌==◌, ==_refl, ltb, if◌then◌else◌, >>=-elim, cstr, cstr_idem, strcmp_eq,
  bytes_eq_refl, length, take, arith, min, Bool-cases, inl, inr, replicate,
}
use cs425_mp.Wire.{ReturnCode, is_success, success, failure}
use cs425_mp.Ring.{Ptr, null, Topology}
use cs425_mp.Metadata.{
  max_replicas, name_max, ChunkInfo, FileMetadata, IpToFileInfo, Store, calloc, strcpy, find_file,
  get_file_metadata,
}
use cs425_mp.Metadata.Add.{
  add_ip_to_file_info, update_file_list, update_ip_to_file_info, add_replicas, with_chunk,
  add_chunk_info, get_next_ip_rr, another_ip, other_ips, choose_replicas, add_chunks,
  add_file_meta_info,
}

calloc-files : (s : Store) → (calloc s).1.files ≡ s.files
unfolding calloc
calloc-files s = ground arith

add_ip_to_file_info-files :
    (ip : Bytes) (s s' : Store) (c : ReturnCode)
    → add_ip_to_file_info ip s ≡ some (c, s')
    → s'.files ≡ s.files
unfolding add_ip_to_file_info
add_ip_to_file_info-files ip s s' c e = ground (arith, calloc-files s)

update_file_list-files :
    (o : Option IpToFileInfo) (file : Ptr) (s s' : Store) (c : ReturnCode)
    → update_file_list o file s ≡ some (c, s')
    → s'.files ≡ s.files
unfolding update_file_list
update_file_list-files none file s s' c e = ground arith
update_file_list-files (some i) file s s' c e = ground (arith, calloc-files s)

update_ip_to_file_info-files :
    (ip : Bytes) (file : Ptr) (s s' : Store) (c : ReturnCode)
    → update_ip_to_file_info ip file s ≡ some (c, s')
    → s'.files ≡ s.files
unfolding update_ip_to_file_info
update_ip_to_file_info-files ip file s s' c e =
    grind (arith, update_file_list-files, add_ip_to_file_info-files)

get_next_ip_rr-files :
    (t : Topology) (s s' : Store) (ip : Bytes)
    → get_next_ip_rr t s ≡ some (ip, s')
    → s'.files ≡ s.files
unfolding get_next_ip_rr
get_next_ip_rr-files t s s' ip e = ground arith

another_ip-files :
    (client : Bytes) (t : Topology) (s s' : Store) (ip : Bytes)
    → another_ip client t s ≡ some (ip, s')
    → s'.files ≡ s.files
unfolding another_ip
another_ip-files client t s s' ip e = >>=-elim (get_next_ip_rr t s) _ e λ r e1 k.
    let one = get_next_ip_rr-files t s r.1 r.0 e1 in
    let two = get_next_ip_rr-files t r.1 s' ip in ground (arith, one, two)

strcpy-cstr : (n : ℕ) (a b : Bytes) → strcpy n a ≡ some b → b ≡ cstr a
unfolding strcpy
strcpy-cstr n a b e = ground arith

add_replicas-files :
    (ips texts : List Bytes) (file : Ptr) (s s' : Store)
    → add_replicas ips file s ≡ some (texts, s')
    → (s'.files ≡ s.files) × (texts ≡ map cstr ips)
unfolding add_replicas
add_replicas-files [] texts file s s' e = (ground arith, ground arith)
add_replicas-files (ip ∷ ips) texts file s s' e = >>=-elim (strcpy 16 ip) _ e λ text e1 k1.
    >>=-elim (update_ip_to_file_info text file s) _ k1 λ r e2 k2.
      >>=-elim (add_replicas ips file r.1) _ k2 λ q e3 k3.
        let copied = strcpy-cstr 16 ip text e1 in
        let kept = update_ip_to_file_info-files text file s r.1 r.0 e2 in
        let (files, same) = add_replicas-files ips q.0 file r.1 q.1 e3 in
        (ground (arith, kept, files), ground (arith, copied, same))

other_ips-files :
    (n : ℕ) (client : Bytes) (t : Topology) (s s' : Store) (ips : List Bytes)
    → other_ips n client t s ≡ some (ips, s')
    → s'.files ≡ s.files
unfolding other_ips
other_ips-files zero client t s s' ips e = ground arith
other_ips-files (suc n) client t s s' ips e = >>=-elim (another_ip client t s) _ e λ r e1 k1.
    >>=-elim (other_ips n client t r.1) _ k1 λ q e2 k2.
      let one = another_ip-files client t s r.1 r.0 e1 in
      let two = other_ips-files n client t r.1 q.1 q.0 e2 in ground (arith, one, two)

-- The first replica is the client.
abbrev Leads : Bytes → List Bytes → Type 0
Leads client [] = ⊥
Leads client (ip ∷ ips) = ip ≡ cstr client

choose_replicas-files :
    (n : ℕ) (client : Bytes) (t : Topology) (s s' : Store) (ips : List Bytes)
    → choose_replicas (suc n) client t s ≡ some (ips, s')
    → (s'.files ≡ s.files) × Leads client ips
unfolding choose_replicas
choose_replicas-files n client t s s' ips e = >>=-elim (strcpy 16 client) _ e λ text e1 k1.
    >>=-elim (other_ips n client t s) _ k1 λ q e2 k2.
      let copied = strcpy-cstr 16 client text e1 in
      let kept = other_ips-files n client t s q.1 q.0 e2 in
      let same : text ∷ q.0 ≡ ips = ground arith in
      (ground (arith, kept), subst (Leads client) same copied)

-- A chunk of the given number whose first replica is the client.
pub record IsPlaced (client : Bytes) (number : ℕ) (c : ChunkInfo) : Type 0 where
  pub numbered : c.chunk_number ≡ number
  pub first : Leads client c.ips

-- Such chunks, numbered upwards.
abbrev pub ArePlaced : Bytes → ℕ → List ChunkInfo → Type 0
ArePlaced client number [] = Unit
ArePlaced client number (c ∷ cs) = IsPlaced client number c × ArePlaced client (suc number) cs

-- The record with other chunks.
abbrev pub with_chunks : FileMetadata → List ChunkInfo → FileMetadata
with_chunks f cs = record f { chunk_info = cs }

Leads_padded :
    (client : Bytes) (ips : List Bytes)
    → Leads client ips
    → Leads client (take max_replicas (map cstr ips ++ replicate max_replicas []))
unfolding take
Leads_padded client [] l = absurd l
Leads_padded client (ip ∷ ips) l = rw (l, cstr_idem client)

add_chunk_info-IsPlaced :
    (number : ℕ) (ips : List Bytes) (client : Bytes) (f : FileMetadata) (fs : List FileMetadata)
    (s s' : Store)
    → add_chunk_info number ips f.address s ≡ some (success, s')
    → Leads client ips
    → s.files ≡ f ∷ fs
    → (c : ChunkInfo) × (s'.files ≡ with_chunks f (c ∷ f.chunk_info) ∷ fs)
      × IsPlaced client number c
unfolding add_chunk_info with_chunk
add_chunk_info-IsPlaced number ips client f fs s s' e l files =
    elim (Bool-cases ((calloc s).0 == null)) [
      | inl full ↦ absurd (ground (arith, full))
      | inr got ↦
          let go = rw (add_chunk_info, got) at e in
          >>=-elim (add_replicas ips f.address (calloc s).1) _ go λ r e1 k1.
            let (kept, texts) = add_replicas-files ips r.0 f.address (calloc s).1 r.1 e1 in
            let before : r.1.files ≡ f ∷ fs = kept ∙ calloc-files s ∙ files in
            (
              record {
                chunk_number = number;
                ips = take max_replicas (r.0 ++ replicate max_replicas []);
              },
              ground (arith, before, ==_refl f.address),
              record {
                numbered = refl;
                first =
                    subst (λ a. Leads client (take max_replicas (a ++ replicate max_replicas [])))
                      (sym texts) (Leads_padded client ips l);
              },
            )
    ]

went_on :
    (code : ReturnCode) (s s' : Store) (rest : Option (ReturnCode × Store))
    → (if is_success code then rest else some (failure, s)) ≡ some (success, s')
    → (code ≡ success) × (rest ≡ some (success, s'))
went_on success s s' rest e = (refl, e)
went_on failure s s' rest e = absurd (ground arith)
went_on _ s s' rest e = absurd (ground arith)

-- The chunks that are left to add come before those that are there.
add_chunks-ArePlaced :
    (n r : ℕ) (client : Bytes) (t : Topology) (f : FileMetadata) (fs : List FileMetadata)
    (s s' : Store)
    → add_chunks n (suc r) client f.address t s ≡ some (success, s')
    → s.files ≡ f ∷ fs
    → ArePlaced client n f.chunk_info
    → (cs : List ChunkInfo) × (s'.files ≡ with_chunks f cs ∷ fs)
      × (length cs ≡ n + length f.chunk_info)
      × ArePlaced client 0 cs
unfolding add_chunks
add_chunks-ArePlaced zero r client t f fs s s' e files placed =
    (f.chunk_info, ground (arith, files), omega arith, placed)
add_chunks-ArePlaced (suc n) r client t f fs s s' e files placed =
    >>=-elim (choose_replicas (suc r) client t s) _ e λ p e1 k1.
      >>=-elim (add_chunk_info n p.0 f.address p.1) _ k1 λ q e2 k2.
        let (kept, l) = choose_replicas-files r client t s p.1 p.0 e1 in
        let (ok, k) = went_on q.0 q.1 s' (add_chunks n (suc r) client f.address t q.1) k2 in
        let run = e2 ∙ ap (λ c. some (c, q.1)) ok in
        let (c, after, one) =
          add_chunk_info-IsPlaced n p.0 client f fs p.1 q.1 run l (kept ∙ files) in
        let (cs, done, count, all) =
          add_chunks-ArePlaced n r client t (with_chunks f (c ∷ f.chunk_info)) fs q.1 s' k after
            (one, placed) in
        (cs, done, omega (arith, count), all)

strcmp_cstr : (a : Bytes) → strcmp_eq (cstr a) a ≡ true
unfolding strcmp_eq
strcmp_cstr a = rw (cstr_idem a) (bytes_eq_refl (cstr a))

-- A name that is free, added by `addFileMetaInfo` to the record of a leader whose ring has members:
-- when it succeeds, the file is found under its name, with the size, the flags and the counts that
-- were given, with as many replicas as there are members but two at most, and with exactly that many
-- chunks, numbered upwards from 0, each of which has the client as its first replica. The files that
-- were there before are unchanged.
pub add_file_meta_info-ArePlaced :
    (name client : Bytes) (size flags chunks : ℕ) (t : Topology) (members : ℕ) (node : Ptr)
    (s s' : Store)
    → t.head ≡ some (record { node = node; num_of_nodes = suc members })
    → get_file_metadata name s ≡ none
    → add_file_meta_info name size flags chunks client t s ≡ some (success, s')
    → (f : FileMetadata) × (get_file_metadata name s' ≡ some f)
      × (s'.files ≡ f ∷ s.files)
      × ((f.size ≡ size)
          × (f.flags ≡ flags)
          × (f.number_of_chunks ≡ chunks)
          × (f.num_replicas ≡ min (suc members) 2))
      × (length f.chunk_info ≡ chunks)
      × ArePlaced client 0 f.chunk_info
unfolding add_file_meta_info get_file_metadata find_file
add_file_meta_info-ArePlaced name client size flags chunks t members node s s' head free e =
    elim (Bool-cases ((calloc s).0 == null)) [
      | inl full ↦ absurd (ground (arith, full))
      | inr got ↦
          let go = rw (add_file_meta_info, free, got, head) at e in
          >>=-elim (strcpy name_max name) _ go λ text e1 k1.
            let many : (if ltb (suc members) max_replicas then suc members else max_replicas)
                ≡ suc (min members 1) =
              ground arith in
            let run = rw many at k1 in
            let f : FileMetadata = record {
              address = (calloc s).0;
              file_name = text;
              size = size;
              num_replicas = suc (min members 1);
              number_of_chunks = chunks;
              flags = flags;
              chunk_info = [];
            } in
            let s1 : Store = record (calloc s).1 { files = f ∷ (calloc s).1.files } in
            let (cs, done, count, all) =
              add_chunks-ArePlaced chunks (min members 1) client t f (calloc s).1.files s1 s' run
                refl tt in
            (
              with_chunks f cs,
              rw (done, strcpy-cstr name_max name text e1) (rw (strcmp_cstr name) refl),
              done ∙ ap (λ fs. with_chunks f cs ∷ fs) (calloc-files s),
              (refl, refl, refl, omega arith),
              omega (arith, count),
              all,
            )
    ]
