-- ===== src/Detector/Stale.antt =====
-- The clock after a failure.
use cs425_mp.Common.{
  ◌≤◌, ℕ, ◌≡◌, refl, sym, ◌∙◌, true, false, Option, none, some, Bytes, arith, strcmp_eq,
}
use cs425_mp.Membership.{process_heartbeat, touch, Process, watch}
use cs425_mp.Detector.{
  Polled, Round, readable, heartbeat_missed, receive_heartbeat, heartbeat_round, declare_failed,
}

declare_failed-latest :
    (contact_ip : Bytes) (s : Process) (round : Round)
    → declare_failed contact_ip s ≡ some round
    → round.process.saved0.latest_time_stamp ≡ s.saved0.latest_time_stamp
unfolding declare_failed watch
declare_failed-latest contact_ip s round e = ground arith

pub round-missed :
    (contact_ip : Bytes) (now : ℕ) (polled : Polled) (s : Process)
    → heartbeat_missed now polled (receive_heartbeat now polled s) ≡ true
    → heartbeat_round contact_ip now polled s
      ≡ declare_failed contact_ip (receive_heartbeat now polled s)
unfolding heartbeat_round
round-missed contact_ip now polled s missed = unfold heartbeat_round in rw missed refl

missed-round :
    (contact_ip : Bytes) (now : ℕ) (polled : Polled) (s : Process) {round : Round}
    → heartbeat_missed now polled (receive_heartbeat now polled s) ≡ true
    → heartbeat_round contact_ip now polled s ≡ some round
    → declare_failed contact_ip (receive_heartbeat now polled s) ≡ some round
missed-round contact_ip now polled s missed runs =
    sym (round-missed contact_ip now polled s missed) ∙ runs

still_missed :
    (now later : ℕ) (heard other : Option Bytes) (s r : Process)
    → heartbeat_missed now (readable heard) s ≡ true
    → r.saved0.latest_time_stamp ≡ s.saved0.latest_time_stamp
    → now ≤ later
    → heartbeat_missed later (readable other) r ≡ true
unfolding heartbeat_missed
still_missed now later heard other s r missed same h = rw same (ground arith)

receive_heartbeat-unnamed :
    (later : ℕ) (other : Option Bytes) (s : Process)
    → ((ip : Bytes) → other ≡ some ip → strcmp_eq s.saved0.ip_addr ip ≡ false)
    → (receive_heartbeat later (readable other) s).saved0.latest_time_stamp
      ≡ s.saved0.latest_time_stamp
unfolding receive_heartbeat process_heartbeat touch
receive_heartbeat-unnamed later none s differs = refl
receive_heartbeat-unnamed later (some ip) s differs = rw (differs ip refl) refl

-- A member that has declared its predecessor failed since the last heartbeat is too old, still has
-- that old time: whatever datagram comes next that does not name its new predecessor, it declares that
-- failed too.
pub heartbeat_round_again :
    (contact_ip : Bytes) (now later : ℕ) (heard other : Option Bytes) (s : Process) (round : Round)
    → heartbeat_missed now (readable heard) (receive_heartbeat now (readable heard) s) ≡ true
    → heartbeat_round contact_ip now (readable heard) s ≡ some round
    → now ≤ later
    → ((ip : Bytes) → other ≡ some ip → strcmp_eq round.process.saved0.ip_addr ip ≡ false)
    → heartbeat_round contact_ip later (readable other) round.process
      ≡ declare_failed contact_ip (receive_heartbeat later (readable other) round.process)
heartbeat_round_again contact_ip now later heard other s round missed runs h differs =
    let s1 = receive_heartbeat now (readable heard) s in
    let declared : declare_failed contact_ip s1 ≡ some round =
      missed-round contact_ip now (readable heard) s missed runs in
    let same =
      receive_heartbeat-unnamed later other round.process differs
      ∙ declare_failed-latest contact_ip s1 round declared in
    round-missed contact_ip later (readable other) round.process (
      still_missed now later heard other s1 (receive_heartbeat later (readable other) round.process)
        missed same h)
