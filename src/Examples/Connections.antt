-- ===== src/Examples/Connections.antt =====
-- Connections: one that is served while another comes, and one that is refused.
use cs425_mp.Common.{ℕ, ◌+◌, ◌≡◌, ◌<◌, refl, true, false, none, some, [], ◌∷◌, codes, arith}
use cs425_mp.Wire.{success, failure, has_flag}
use cs425_mp.Ring.{update}
use cs425_mp.Listener.{Listener, listening, accept_connection, find_free}
use cs425_mp.Listener.Workers.{Run, started, accepted, Run-workers, accept_connection-free}
use cs425_mp.NodeInfo.{
  ThreadData, Exchange, wait_for_response, return_value_required, free_payload,
  send_node_update_payload,
}
use cs425_mp.NodeInfo.Outcome.{verdict, send_node_update_payload-status}

-- The listener with the connection 7.
abbrev busy : Listener
busy = record {
  state = update listening.state 0 true;
  socket = update listening.socket 0 7;
  i = 1;
  threads = update listening.threads 0 (7 ∷ []);
}

busy-Run : Run busy
unfolding accept_connection find_free
busy-Run = accepted 7 started refl

Run-workers_example : (1 < 15) × (busy.threads 0 ≡ 7 ∷ [])
Run-workers_example = Run-workers busy-Run 0

accept_connection-free_example :
    (l' : Listener) × (j : ℕ) × (accept_connection 8 busy ≡ some l')
    × (j < 15)
    × (busy.threads j ≡ [])
    × (l'.threads j ≡ 8 ∷ [])
accept_connection-free_example = accept_connection-free busy-Run 8 1 (omega arith) refl

abbrev request : ThreadData
request = record {
  ip = codes "10.1";
  flags = wait_for_response + return_value_required;
  live = true;
  payload_live = true;
  status = failure;
  return_data = none;
}

abbrev answered : Exchange
answered = record {
  has_socket = true;
  connected = true;
  sent = success;
  decoded = success;
  answer = none;
}

request-flags : has_flag request.flags return_value_required ≡ true
unfolding has_flag
request-flags = refl

request-keeps : has_flag request.flags free_payload ≡ false
unfolding has_flag
request-keeps = refl

send_node_update_payload-status_example :
    (d' : ThreadData) × (send_node_update_payload answered request ≡ some d')
    × (d'.live ≡ true)
    × (d'.payload_live ≡ false)
    × (d'.status ≡ verdict answered (has_flag request.flags wait_for_response))
send_node_update_payload-status_example =
    send_node_update_payload-status answered request refl refl request-flags request-keeps
