-- ===== src/Listener.antt =====
-- dfs/dfs_listener.c: the connections about files, each of which one of fifteen workers serves.
pub mod Workers
use cs425_mp.Common.{
  ℕ, zero, suc, ◌+◌, ◌%◌, ◌==◌, ltb, Bool, true, false, Option, none, some, List, [], ◌∷◌, ◌>>=◌,
  if◌then◌else◌,
}
use cs425_mp.Ring.{update}

abbrev pub num_worker_threads : ℕ
num_worker_threads = 15

-- `connectedSocket`, the `state` and `socket` of each slot; the next slot to try, `i`; and the threads
-- that run with the address of a slot, each by the connection it was started for.
pub record Listener : Type 0 where
  pub state : ℕ → Bool
  pub socket : ℕ → ℕ
  pub i : ℕ
  pub threads : ℕ → List ℕ

-- `connectedSocket[NUM_WORKER_THREADS] = {0}` and `i = 0`
abbrev pub listening : Listener
listening = record { state = λ j. false; socket = λ j. 0; i = 0; threads = λ j. [] }

-- `while (connectedSocket[i].state)`, for the rounds of its fuel; `none` is a read outside the array, or
-- a loop that goes on.
unfoldable pub find_free : ℕ → (ℕ → Bool) → ℕ → Option ℕ
find_free zero state i = none
find_free (suc fuel) state i =
    let later = find_free fuel state ((i + 1) % num_worker_threads) in
    if ltb i num_worker_threads then (if state i then later else some i) else none

-- A connection that was accepted: the rest of the loop's body. The loop that looks for a slot is back
-- where it was after fifteen rounds.
unfoldable pub accept_connection : ℕ → Listener → Option Listener
accept_connection connect_socket l = do
  i ← find_free num_worker_threads l.state l.i
  some (record {
    state = update l.state i true;
    socket = update l.socket i connect_socket;
    i = (i + 1) % num_worker_threads;
    threads = update l.threads i (connect_socket ∷ l.threads i);
  })

-- The end of `handle_request`, of the thread that was started last with slot `j`.
unfoldable pub end_request : ℕ → Listener → Option Listener
end_request j l = elim (l.threads j) [
  | [] ↦ none
  | _ ∷ rest ↦ some (record l { state = update l.state j false; threads = update l.threads j rest })
]
