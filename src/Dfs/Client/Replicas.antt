-- ===== src/Dfs/Client/Replicas.antt =====
-- What a thread of the client reports of the replicas that it tried, and how a file is measured.
use cs425_mp.Common.{
  ℕ, zero, suc, ◌+◌, ◌-◌, ◌*◌, ◌^◌, ◌≤◌, ◌<◌, ◌≡◌, refl, ◌∙◌, ap, Bool, true, false, ◌||◌, ◌&&◌,
  some, List, [], ◌∷◌, ◌++◌, Bytes, Bool-cases, inl, inr, arith, strcmp_eq,
}
use cs425_mp.Wire.{ReturnCode, success, failure, is_success}
use cs425_mp.Transfer.{Message}
use cs425_mp.Transfer.Send.{send_file}
use cs425_mp.Transfer.Termination.{send_file-AreChunks}
use cs425_mp.Dfs.Requests.{chunks_of_size}
use cs425_mp.Dfs.Client.{
  Attempt, unreached, lost, delivered, round_to, to_float, megabytes, send_to_all,
  send_file_wrapper, receive_from, receive_file_wrapper,
}

module _ (connects : Bytes → Bool) (reply : Bytes → ℕ → ReturnCode)
    (contents mine name : Bytes) where
  send_to_all-last :
      (front : List Bytes) (ip : Bytes) (rc0 rc : ReturnCode) (ms : List Message)
      → strcmp_eq ip mine ≡ false
      → connects ip ≡ true
      → send_file (reply ip) (some contents) name ≡ some (rc, ms)
      → send_to_all connects reply (some contents) name mine rc0 (front ++ ip ∷ []) ≡ some rc
  unfolding send_to_all
  send_to_all-last [] ip rc0 rc ms other reached sent = rw (other, reached, sent) refl
  send_to_all-last (a ∷ front) ip rc0 rc ms other reached sent =
      let (rc1, ms1, e, _) = send_file-AreChunks (reply a) (some contents) name in
      elim (Bool-cases (strcmp_eq a mine)) [
        | inl own ↦ rw own (send_to_all-last front ip rc0 rc ms other reached sent)
        | inr foreign ↦ elim (Bool-cases (connects a)) [
          | inl up ↦ rw (foreign, up, e) (send_to_all-last front ip rc1 rc ms other reached sent)
          | inr down ↦
              rw (foreign, down) (send_to_all-last front ip failure rc ms other reached sent)
        ]
      ]

-- `sendFileWrapper` returns, and reports what `sendFile` said of the last address, if that is reached
-- and not the node's own, whatever became of the replicas before it.
pub send_file_wrapper-last :
    (connects : Bytes → Bool) (reply : Bytes → ℕ → ReturnCode) (contents mine name : Bytes)
    (stale : ReturnCode) (front : List Bytes) (ip : Bytes) (rc : ReturnCode) (ms : List Message)
    → strcmp_eq ip mine ≡ false
    → connects ip ≡ true
    → send_file (reply ip) (some contents) name ≡ some (rc, ms)
    → send_file_wrapper connects reply
        (some contents)
        mine
        stale
        (record { name = name; ips = front ++ ip ∷ [] })
      ≡ some rc
unfolding send_file_wrapper
send_file_wrapper-last connects reply contents mine name stale front ip rc ms =
    send_to_all-last connects reply contents mine name front ip success rc ms

-- One of the attempts delivered the chunk.
abbrev pub any_delivered : List Attempt → Bool
any_delivered [] = false
any_delivered (delivered ∷ rest) = true
any_delivered (unreached ∷ rest) = any_delivered rest
any_delivered (lost code ∷ rest) = any_delivered rest

-- The codes of lost connections are errors.
abbrev pub AreErrors : List Attempt → Type 0
AreErrors [] = Unit
AreErrors (lost code ∷ rest) = (is_success code ≡ false) × AreErrors rest
AreErrors (_ ∷ rest) = AreErrors rest

-- No address was connected to and asked, so that nothing sets `rc`.
abbrev pub none_asked : List Attempt → Bool
none_asked [] = true
none_asked (unreached ∷ rest) = none_asked rest
none_asked (_ ∷ rest) = false

receive_from-any_delivered :
    (rc : ReturnCode) (attempts : List Attempt)
    → AreErrors attempts
    → is_success (receive_from rc attempts)
      ≡ (any_delivered attempts || (none_asked attempts && is_success rc))
unfolding receive_from
receive_from-any_delivered rc [] ok = refl
receive_from-any_delivered rc (unreached ∷ rest) ok = receive_from-any_delivered rc rest ok
receive_from-any_delivered rc (lost code ∷ rest) ok =
    receive_from-any_delivered code rest ok.1
    ∙ ap (λ b. any_delivered rest || (none_asked rest && b)) ok.0
    ∙ ap (λ b. any_delivered rest || b) (never (none_asked rest))
  where
    never : (b : Bool) → (b && false) ≡ false
    never true = refl
    never false = refl
receive_from-any_delivered rc (delivered ∷ rest) ok = refl

-- `receiveFileWrapper` reports a success exactly if the chunk was there before, or one of the addresses
-- delivered it, or none of them was connected to and asked and the `rc` that the source does not
-- initialise happens to read as a success. The codes of the connections that were lost are errors.
pub receive_file_wrapper-any_delivered :
    (present : Bool) (stale : ReturnCode) (attempts : List Attempt)
    → AreErrors attempts
    → is_success (receive_file_wrapper present stale attempts)
      ≡ (present || (any_delivered attempts || (none_asked attempts && is_success stale)))
unfolding receive_file_wrapper
receive_file_wrapper-any_delivered true stale attempts ok = refl
receive_file_wrapper-any_delivered false stale attempts ok =
    receive_from-any_delivered stale attempts ok

one_chunk : (extra : ℕ) → extra ≤ 4 → chunks_of_size (megabytes (2 ^ 26 + extra)) ≡ 1
unfolding chunks_of_size megabytes to_float round_to
one_chunk zero h = refl
one_chunk (suc zero) h = refl
one_chunk (suc (suc zero)) h = refl
one_chunk (suc (suc (suc zero))) h = refl
one_chunk (suc (suc (suc (suc zero)))) h = refl
one_chunk (suc (suc (suc (suc (suc n))))) h = absurd (omega arith)

-- For a file of one to four bytes more than 64 MiB, the size is rounded down and the number of chunks
-- that the leader counts is too small to hold the file.
pub chunks_of_size-megabytes :
    (size : ℕ) → 2 ^ 26 < size → size ≤ 2 ^ 26 + 4 → chunks_of_size (megabytes size) * 2 ^ 26 < size
chunks_of_size-megabytes size more few =
    let again : size ≡ 2 ^ 26 + (size - 2 ^ 26) = omega arith in
    let one =
      ap (λ n. chunks_of_size (megabytes n)) again ∙ one_chunk (size - 2 ^ 26) (omega arith) in
    omega (arith, one)
