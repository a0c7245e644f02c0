-- ===== src/NodeInfo/Outcome.antt =====
-- What a caller finds in the data of its thread.
use cs425_mp.Common.{
  ◌≡◌, refl, Bool, true, false, Option, none, some, Bytes, Bool-cases, inl, inr, if◌then◌else◌,
}
use cs425_mp.Wire.{ReturnCode, is_success, has_flag, socket_creation_failed, socket_connect_failed}
use cs425_mp.NodeInfo.{
  ThreadData, Exchange, wait_for_response, return_value_required, free_payload,
  send_node_update_payload,
}

-- Without a socket or a connection, the code for that; or else, if an answer is waited for, what
-- `message_decode` returned for it, whatever `sendPayload` returned before; or else what `sendPayload`
-- returned.
abbrev pub verdict : Exchange → Bool → ReturnCode
verdict e waits =
    if e.has_socket
    then (if e.connected then (if waits then e.decoded else e.sent) else socket_connect_failed)
    else socket_creation_failed

-- The data after the thread.
abbrev left : ThreadData → ReturnCode → Option Bytes → ThreadData
left d rc answer = record d { payload_live = false; status = rc; return_data = answer }

-- A caller that asks for a return value, and not to have its data freed, finds in its data, once the
-- thread has ended: that there was no socket or no connection; or else, if it waits for an answer, what
-- `message_decode` returned for that, even where the sending had failed; or else what the sending
-- returned. The data are still there, and the payload is freed.
pub send_node_update_payload-status :
    (e : Exchange) (d : ThreadData)
    → d.live ≡ true
    → d.payload_live ≡ true
    → has_flag d.flags return_value_required ≡ true
    → has_flag d.flags free_payload ≡ false
    → (d' : ThreadData) × (send_node_update_payload e d ≡ some d')
      × (d'.live ≡ true)
      × (d'.payload_live ≡ false)
      × (d'.status ≡ verdict e (has_flag d.flags wait_for_response))
unfolding send_node_update_payload
send_node_update_payload-status e d live payload wanted kept = elim (Bool-cases e.has_socket) [
  | inr s ↦ (
    left d socket_creation_failed d.return_data,
    rw (s, live, payload, wanted) refl,
    live,
    refl,
    rw (s) refl,
  )
  | inl s ↦ elim (Bool-cases e.connected) [
    | inr c ↦ (
      left d socket_connect_failed d.return_data,
      rw (s, c, live, payload) refl,
      live,
      refl,
      rw (s, c) refl,
    )
    | inl c ↦ elim (Bool-cases (has_flag d.flags wait_for_response)) [
      | inl w ↦ (
        left d e.decoded (if is_success e.decoded then e.answer else none),
        rw (s, c, live, payload, wanted, kept, w) refl,
        live,
        refl,
        rw (s, c, w) refl,
      )
      | inr w ↦ (
        left d e.sent none,
        rw (s, c, live, payload, wanted, kept, w) refl,
        live,
        refl,
        rw (s, c, w) refl,
      )
    ]
  ]
]
