-- ===== src/Detector/States.antt =====
-- The states of a node, and its threads, as it joins and leaves.
use cs425_mp.Common.{
  ℕ, zero, suc, ◌+◌, ◌-◌, ◌≡◌, ◌≤◌, refl, sym, subst, true, false, ◌⊎◌, inl, inr, Option, none,
  some, List, Bytes, if◌then◌else◌, >>=-elim, Bool-cases, ap, arith,
}
use cs425_mp.Wire.{ReturnCode, success, failure}
use cs425_mp.Membership.{Process, AddDelete, delete_notification, leave_notification}
use cs425_mp.Detector.{
  Contact, State, is_init, Threads, Node, node_init, node_id, Cancel, refused, cancelled,
  ended_before, returns_zero, left_of, Cancels, node_exit, start_receiving, Listening, goes_on,
  listen_for_updates, listen_for_files,
}

abbrev pub all_cancelled : Cancels
all_cancelled = record { receiving = cancelled; sending = cancelled; listening = cancelled }

-- What can become of a node from `n` on, with the number of times that it joined, and of mishaps: in the
-- state INIT it tries to join, it may leave, and at any time a message or a heartbeat changes its view of
-- the group. Mishaps are to leave with a thread that is not cancelled, a socket for heartbeats
-- that is not bound, and the end of a listening thread.
pub data Run (contact_ip : Bytes) (n : Node) : ℕ → ℕ → Node → Type 0 where
  started : Run contact_ip n zero zero n
  joined :
      {k w : ℕ} {m m' : Node} (c : Contact)
      → Run contact_ip n k w m
      → is_init m.state ≡ true
      → node_init c m ≡ some (success, m')
      → Run contact_ip n (suc k) w m'
  refused_entry :
      {k w : ℕ} {m m' : Node} (c : Contact)
      → Run contact_ip n k w m
      → is_init m.state ≡ true
      → node_init c m ≡ some (failure, m')
      → Run contact_ip n k w m'
  left :
      {k w : ℕ} {m m' : Node} (sent : List (Bytes × AddDelete))
      → Run contact_ip n k w m
      → node_exit contact_ip all_cancelled m ≡ some (success, m', sent)
      → Run contact_ip n k w m'
  left_partly :
      {k w : ℕ} {m m' : Node} (cancels : Cancels) (code : ReturnCode)
      (sent : List (Bytes × AddDelete))
      → Run contact_ip n k w m
      → node_exit contact_ip cancels m ≡ some (code, m', sent)
      → Run contact_ip n k (suc w) m'
  bind_lost :
      {k w : ℕ} {m : Node}
      → Run contact_ip n k w m
      → Run contact_ip n k (suc w) (start_receiving false m)
  updates_lost :
      {k w : ℕ} {m : Node} (l : Listening)
      → Run contact_ip n k w m
      → goes_on l ≡ false
      → Run contact_ip n k (suc w) (listen_for_updates l m)
  files_lost :
      {k w : ℕ} {m : Node} (l : Listening)
      → Run contact_ip n k w m
      → goes_on l ≡ false
      → Run contact_ip n k (suc w) (listen_for_files l m)
  learnt :
      {k w : ℕ} {m : Node} (s : Process)
      → Run contact_ip n k w m
      → Run contact_ip n k w (record m { process = s })

-- How many threads of a kind a node should have.
abbrev pub wanted : State → ℕ
wanted state = if is_init state then 0 else 1

abbrev pub Near : ℕ → ℕ → ℕ → Type 0
Near w a b = (a ≤ b + w) × (b ≤ a + w)

-- One thread of each kind runs in a member, and none in another node, but a listener for files for each
-- of `k` times, with `w` threads of a kind more or less; of the listeners for files there are none more.
pub record HasThreads (w k : ℕ) (n : Node) : Type 0 where
  pub sending : Near w n.threads.sending (wanted n.state)
  pub receiving : Near w n.threads.receiving (wanted n.state)
  pub listening : Near w n.threads.listening (wanted n.state)
  pub dfs_listening : (n.threads.dfs_listening ≤ k) × (k ≤ n.threads.dfs_listening + w)

-- A new thread of each kind, where there was none of a member.
node_init-threads :
    (c : Contact) (m m' : Node)
    → is_init m.state ≡ true
    → node_init c m ≡ some (success, m')
    → (is_init m'.state ≡ false)
      × (m'.threads.sending ≡ m.threads.sending + 1)
      × (m'.threads.receiving ≡ m.threads.receiving + 1)
      × (m'.threads.listening ≡ m.threads.listening + 1)
      × (m'.threads.dfs_listening ≡ m.threads.dfs_listening + 1)
unfolding node_init
node_init-threads c m m' i e =
    (ground arith, ground arith, ground arith, ground arith, ground arith)

node_init-refused :
    (c : Contact) (m m' : Node)
    → is_init m.state ≡ true
    → node_init c m ≡ some (failure, m')
    → (m'.state ≡ m.state) × (m'.threads ≡ m.threads)
unfolding node_init
node_init-refused c m m' i e = (ground arith, ground arith)

-- What a node that leaves may have left of the threads of a kind.
abbrev Fewer : ℕ → ℕ → Type 0
Fewer b a = (b ≤ a) × (a ≤ b + 1)

left_of-Fewer : (c : Cancel) (a : ℕ) → Fewer (left_of c a) a
left_of-Fewer refused a = (omega arith, omega arith)
left_of-Fewer cancelled a = (omega arith, omega arith)
left_of-Fewer ended_before a = (omega arith, omega arith)

stays : (a : ℕ) → Fewer a a
stays a = (omega arith, omega arith)

-- What becomes of the state and the threads of a node that tries to leave.
abbrev Leaves : Node → Node → Type 0
Leaves m m' =
    ((is_init m'.state ≡ true) ⊎ (m'.state ≡ m.state))
    × Fewer m'.threads.sending m.threads.sending
    × Fewer m'.threads.receiving m.threads.receiving
    × Fewer m'.threads.listening m.threads.listening
    × (m'.threads.dfs_listening ≡ m.threads.dfs_listening)

abbrev Exit : Type 0
Exit = ReturnCode × Node × List (Bytes × AddDelete)

-- The node that is left.
left_node : (x y : Exit) → Path (Option Exit) (some x) (some y) → x.1 ≡ y.1
left_node x y e = ap (λ o. elim o [ none ↦ x.1 | some z ↦ z.1 ]) e

node_exit-threads :
    (contact_ip : Bytes) (cancels : Cancels) (m m' : Node) (code : ReturnCode)
    (sent : List (Bytes × AddDelete))
    → node_exit contact_ip cancels m ≡ some (code, m', sent)
    → Leaves m m'
unfolding node_exit
node_exit-threads contact_ip cancels m m' code sent e =
    let t = m.threads in
    let v = left_of-Fewer cancels.receiving t.receiving in
    let s = left_of-Fewer cancels.sending t.sending in
    let l = left_of-Fewer cancels.listening t.listening in
    elim (Bool-cases (returns_zero cancels.receiving)) [
      | inr x ↦
          subst (Leaves m) (left_node _ _ (rw (node_exit, x) at e))
            (inr refl, stays t.sending, stays t.receiving, stays t.listening, refl)
      | inl x ↦
          >>=-elim (node_id m.process.topology.heap m.process.myself) _ (rw (node_exit, x) at e)
            (λ id named rest.
              >>=-elim (delete_notification leave_notification id 4 contact_ip m.process) _ rest
                (λ told heard done. elim (Bool-cases (returns_zero cancels.sending)) [
                  | inr y ↦
                      subst (Leaves m) (left_node _ _ (rw (y) at done))
                        (inr refl, stays t.sending, v, stays t.listening, refl)
                  | inl y ↦ elim (Bool-cases (returns_zero cancels.listening)) [
                    | inr z ↦
                        subst (Leaves m) (left_node _ _ (rw (y, z) at done))
                          (inr refl, s, v, stays t.listening, refl)
                    | inl z ↦
                        subst (Leaves m) (left_node _ _ (rw (y, z) at done))
                          (inl refl, s, v, l, refl)
                  ]
                ]))
    ]

node_exit-all :
    (contact_ip : Bytes) (m m' : Node) (sent : List (Bytes × AddDelete))
    → node_exit contact_ip all_cancelled m ≡ some (success, m', sent)
    → (is_init m'.state ≡ true)
      × (m'.threads.sending ≡ m.threads.sending - 1)
      × (m'.threads.receiving ≡ m.threads.receiving - 1)
      × (m'.threads.listening ≡ m.threads.listening - 1)
      × (m'.threads.dfs_listening ≡ m.threads.dfs_listening)
unfolding node_exit
node_exit-all contact_ip m m' sent e =
    (ground arith, ground arith, ground arith, ground arith, ground arith)

leave-Near :
    (w a b : ℕ) (s s' : State)
    → Near w a (wanted s)
    → (is_init s' ≡ true) ⊎ (s' ≡ s)
    → Fewer b a
    → Near (suc w) b (wanted s')
leave-Near w a b s s' near (inl i) few = ground arith
leave-Near w a b s s' near (inr e) few =
    subst (λ u. Near (suc w) b (wanted u)) (sym e) (omega arith, omega arith)

HasThreads-same :
    (w k : ℕ) (m m' : Node)
    → m'.state ≡ m.state
    → m'.threads ≡ m.threads
    → HasThreads w k m
    → HasThreads w k m'
HasThreads-same w k m m' same threads h = record {
  sending = moved (λ t. t.sending) h.sending;
  receiving = moved (λ t. t.receiving) h.receiving;
  listening = moved (λ t. t.listening) h.listening;
  dfs_listening =
      subst (λ t. (t.dfs_listening ≤ k) × (k ≤ t.dfs_listening + w)) (sym threads) h.dfs_listening;
}
  where
    moved :
        (kind : Threads → ℕ)
        → Near w (kind m.threads) (wanted m.state)
        → Near w (kind m'.threads) (wanted m'.state)
    moved kind near =
        subst (λ t. Near w (kind t) (wanted m'.state)) (sym threads)
          (subst (λ s. Near w (kind m.threads) (wanted s)) (sym same) near)

listen_for_updates-lost :
    (l : Listening) (m : Node)
    → goes_on l ≡ false
    → listen_for_updates l m
      ≡ record m { threads = record m.threads { listening = m.threads.listening - 1 } }
unfolding listen_for_updates
listen_for_updates-lost l m over = rw (over) refl

listen_for_files-lost :
    (l : Listening) (m : Node)
    → goes_on l ≡ false
    → listen_for_files l m
      ≡ record m { threads = record m.threads { dfs_listening = m.threads.dfs_listening - 1 } }
unfolding listen_for_files
listen_for_files-lost l m over = rw (over) refl

-- One more mishap is allowed for, and one thread may end.
more-Near : (w a b : ℕ) → Near w a b → Near (suc w) a b
more-Near w a b near = (omega arith, omega arith)

lost-Near : (w a b : ℕ) → Near w a b → Near (suc w) (a - 1) b
lost-Near w a b near = (omega arith, omega arith)

-- From a node without threads in the state INIT, with every `pthread_create` successful: the threads of
-- each kind that send heartbeats, receive them and listen for messages differ from one while the node is
-- a member, and from none while it is not, by the number of mishaps at most; the listeners for files are
-- as many as the times that it joined, or fewer by the number of mishaps at most. So without mishaps the
-- numbers are exactly these, and the listeners for files add up.
pub Run-HasThreads :
    {contact_ip : Bytes} {n m : Node} {k w : ℕ}
    → HasThreads zero zero n
    → Run contact_ip n k w m
    → HasThreads w k m
unfolding start_receiving listen_for_updates listen_for_files
Run-HasThreads t started = t
Run-HasThreads t (joined {m = m} {m' = m'} c r i e) =
    let h = Run-HasThreads t r in
    let (here, s, v, l, f) = node_init-threads c m m' i e in
    record {
      sending = ground arith;
      receiving = ground arith;
      listening = ground arith;
      dfs_listening = ground arith;
    }
Run-HasThreads t (refused_entry {k = k} {w = w} {m = m} {m' = m'} c r i e) =
    let h = Run-HasThreads t r in
    let (same, threads) = node_init-refused c m m' i e in HasThreads-same w k m m' same threads h
Run-HasThreads t (left {m = m} {m' = m'} sent r e) =
    let h = Run-HasThreads t r in
    let (out, s, v, l, f) = node_exit-all _ m m' sent e in
    record {
      sending = ground arith;
      receiving = ground arith;
      listening = ground arith;
      dfs_listening = ground arith;
    }
Run-HasThreads t (left_partly {w = w} {m = m} {m' = m'} cancels code sent r e) =
    let h = Run-HasThreads t r in
    let (state, s, v, l, f) = node_exit-threads _ cancels m m' code sent e in
    record {
      sending = leave-Near w _ _ m.state m'.state h.sending state s;
      receiving = leave-Near w _ _ m.state m'.state h.receiving state v;
      listening = leave-Near w _ _ m.state m'.state h.listening state l;
      dfs_listening = ground arith;
    }
Run-HasThreads t (bind_lost {w = w} {m = m} r) =
    let h = Run-HasThreads t r in
    record {
      sending = leave-Near w _ _ m.state State.init h.sending (inl refl) (omega arith, omega arith);
      receiving =
          leave-Near w _ _ m.state State.init h.receiving (inl refl) (omega arith, omega arith);
      listening =
          leave-Near w _ _ m.state State.init h.listening (inl refl) (omega arith, omega arith);
      dfs_listening = ground arith;
    }
Run-HasThreads t (updates_lost {k = k} {w = w} {m = m} l r over) =
    let h = Run-HasThreads t r in
    subst (HasThreads (suc w) k) (sym (listen_for_updates-lost l m over)) (record {
      sending = more-Near w _ _ h.sending;
      receiving = more-Near w _ _ h.receiving;
      listening = lost-Near w _ _ h.listening;
      dfs_listening = (h.dfs_listening.0, omega (arith, h.dfs_listening.1));
    })
Run-HasThreads t (files_lost {k = k} {w = w} {m = m} l r over) =
    let h = Run-HasThreads t r in
    subst (HasThreads (suc w) k) (sym (listen_for_files-lost l m over)) (record {
      sending = more-Near w _ _ h.sending;
      receiving = more-Near w _ _ h.receiving;
      listening = more-Near w _ _ h.listening;
      dfs_listening = (omega (arith, h.dfs_listening.0), omega (arith, h.dfs_listening.1));
    })
Run-HasThreads t (learnt s r) =
    let h = Run-HasThreads t r in
    record {
      sending = h.sending;
      receiving = h.receiving;
      listening = h.listening;
      dfs_listening = h.dfs_listening;
    }
