-- ===== src/CmWs/Send.antt =====
-- cm_conn_tcp.c and cm_conn_ws.c: the sending of a frame.
use jklibs.Common.{
  ℕ, zero, suc, true, false, List, [], ◌++◌, Option, none, some, ◌==◌, if◌then◌else◌, length, take,
  drop, min,
}
use jklibs.Common.Int.{ℤ, pos, negsuc}
use jklibs.CmWs.Frame.{FrameHeader, umask, generate_frame_head}

-- The loop of cm_conn_tcp_send: `send` gives what the call of a number returns for so many bytes,
-- `size` is the most that one call is given, and `wire` what was sent. `none` means that the fuel ran
-- out.
unfoldable pub send_rounds : (ℕ → ℕ → ℤ) → ℕ → ℕ → ℕ → List ℕ → List ℕ → Option (ℤ × List ℕ)
send_rounds send zero calls size data_ wire = none
send_rounds send (suc fuel) calls size data_ wire =
    let n = min (length data_) size in
    elim (send calls n) [
      | negsuc e ↦ some (negsuc e, wire)
      | pos out ↦
          let sent = wire ++ take out data_ in
          let left = drop out data_ in
          let more = send_rounds send fuel (suc calls) n left sent in
          if length left == 0 then some (pos (length sent), sent) else more
    ]

-- cm_conn_tcp_send on a connection
unfoldable pub tcp_send : (ℕ → ℕ → ℤ) → ℕ → List ℕ → Option (ℤ × List ℕ)
tcp_send send fuel data_ =
    let rounds = send_rounds send fuel 0 20480 data_ [] in
    if length data_ == 0 then some (negsuc 110, []) else rounds

-- What cm_websocket_request sends: `key` is the random mask, and `fresh` what malloc gives.
unfoldable pub request_data : List ℕ → List ℕ → List ℕ → List ℕ
request_data key fresh msg =
    let header : FrameHeader = record {
      fin = false;
      opcode = 0;
      mask = true;
      payload_length = length msg;
      masking_key = key;
    } in
    generate_frame_head header fresh ++ umask msg key

-- cm_websocket_request without waiting for an answer; what it leaves in the caller's `msg` is the
-- last of the three.
unfoldable pub websocket_request :
    (ℕ → ℕ → ℤ) → ℕ → List ℕ → List ℕ → List ℕ → Option (ℤ × List ℕ × List ℕ)
websocket_request send fuel key fresh msg = elim (tcp_send send fuel (request_data key fresh msg)) [
  | none ↦ none
  | some (ret, wire) ↦ some (ret, wire, umask msg key)
]
