-- ===== src/NodeInfo.antt =====
-- node/node_send_info.c: the thread that sends one message to a node, and may wait for its answer.
pub mod Outcome
use cs425_mp.Common.{
  ℕ, ◌+◌, Bool, true, false, not, ◌&&◌, ◌||◌, Option, none, some, Bytes, strcmp_eq, if◌then◌else◌,
  ◌>>=◌,
}
use cs425_mp.Wire.{ReturnCode, is_success, has_flag, socket_creation_failed, socket_connect_failed}

abbrev pub wait_for_response : ℕ
wait_for_response = 0x01

abbrev pub return_value_required : ℕ
return_value_required = 0x02

abbrev pub free_payload : ℕ
free_payload = 0x04

abbrev pub use_dfs_port : ℕ
use_dfs_port = 0x08

abbrev pub tcp_listen_port : ℕ
tcp_listen_port = 18000

abbrev pub dfs_listen_port : ℕ
dfs_listen_port = 28000

abbrev pub admission_contact_port : ℕ
admission_contact_port = 2000

-- `thread_data`, with whether it and its payload are still allocated.
pub record ThreadData : Type 0 where
  pub ip : Bytes
  pub flags : ℕ
  pub live : Bool
  pub payload_live : Bool
  pub status : ReturnCode
  pub return_data : Option Bytes

-- What the thread meets: whether there is a socket and a connection, what `sendPayload` returns, what
-- `message_decode` returns, and what `processPacket` makes of the answer.
pub record Exchange : Type 0 where
  pub has_socket : Bool
  pub connected : Bool
  pub sent : ReturnCode
  pub decoded : ReturnCode
  pub answer : Option Bytes

-- The port that is connected to.
unfoldable pub port : Bytes → ThreadData → ℕ
port admission_contact_ip d =
    if has_flag d.flags use_dfs_port
    then dfs_listen_port
    else if strcmp_eq d.ip admission_contact_ip
    then admission_contact_port
    else tcp_listen_port

-- `free(my_data->payload)`
unfoldable pub drop_payload : ThreadData → Option ThreadData
drop_payload d = if d.live && d.payload_live then some (record d { payload_live = false }) else none

-- `free(my_data)`
unfoldable pub drop_data : ThreadData → Option ThreadData
drop_data d = if d.live then some (record d { live = false }) else none

-- `my_data->status = …`
unfoldable pub set_status : ReturnCode → ThreadData → Option ThreadData
set_status rc d = if d.live then some (record d { status = rc }) else none

-- The end, once the message is sent: the return code is that of the answer where one is waited for.
unfoldable pub finish : Exchange → ThreadData → Option ThreadData
unfolding drop_data
finish e d =
    let waits = has_flag d.flags wait_for_response in
    let rc = if waits then e.decoded else e.sent in
    let return_data = if waits && is_success e.decoded then e.answer else none in
    if (not waits && not (has_flag d.flags return_value_required)) || has_flag d.flags free_payload
    then drop_data d
    else if d.live
    then some (record d { return_data = return_data; status = rc })
    else none

-- `send_node_update_payload`. `none` is a use of memory that was freed.
unfoldable pub send_node_update_payload : Exchange → ThreadData → Option ThreadData
unfolding drop_payload drop_data set_status finish
send_node_update_payload e d =
    if not e.has_socket
    then (do
      d1 ← drop_payload d
      d2 ← (if not (has_flag d.flags return_value_required) then drop_data d1 else some d1)
      set_status socket_creation_failed d2)
    else if not e.connected
    then (do d1 ← drop_payload d; set_status socket_connect_failed d1)
    else (do d1 ← drop_payload d; finish e d1)
