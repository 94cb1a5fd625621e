-- ===== src/CmWs/Once.antt =====
-- cm_conn_ws.c: cm_websocket_request_recv, which reads one frame and gives up after a time.
use jklibs.Common.{
  ℕ, zero, suc, ◌+◌, ◌-◌, ◌%◌, ◌^◌, List, [], ◌++◌, Option, none, some, ltb, ◌==◌, if◌then◌else◌,
  length, take, drop,
}
use jklibs.Common.Int.{ℤ, pos, negsuc}
use jklibs.CmWs.Frame.{FrameHeader}
use jklibs.CmWs.Read.{Conn, Received, HeadRead, recv_simple, request_read, read_len}

abbrev pub once_ended : ℤ → List ℕ → Conn → Received
once_ended ret result conn = record { ret = ret; result = result; conn = conn }

-- What a read of a payload does to the loop: `more` is the next round.
unfoldable pub after_read :
    ℤ → Conn → List ℕ → Option (Option (List ℕ) × Conn) → Option (Option (List ℕ) × Conn)
after_read (negsuc n) conn counted more = some (none, conn)
after_read (pos zero) conn counted more = some (some counted, conn)
after_read (pos (suc n)) conn counted more = more

-- The loop over the payload into a buffer that holds `memory` from here on. A read that gave nothing
-- leaves needread as it is, so that all the rest counts as read.
unfoldable pub read_once :
    (ℕ → ℕ → ℕ) → ℕ → Conn → ℕ → List ℕ → List ℕ → Option (Option (List ℕ) × Conn)
read_once grant zero conn need got memory = if need == 0 then some (some got, conn) else none
read_once grant (suc fuel) conn need got memory =
    let r = recv_simple grant conn need in
    let more =
      read_once grant fuel (r.conn) (need - length (r.got)) (got ++ r.got)
        (drop (length (r.got)) memory) in
    let next = after_read (r.ret) (r.conn) (got ++ take need memory) more in
    if need == 0 then some (some got, conn) else next

-- What the loop over the payload gives, as the function returns it.
unfoldable pub once_body : Option (Option (List ℕ) × Conn) → Option Received
once_body none = none
once_body (some (none, conn)) = some (once_ended (negsuc 4) [] conn)
once_body (some (some got, conn)) = some (once_ended (pos 0) got conn)

unfoldable pub once_head :
    (HeadRead → Option Received) → Option Received → ℤ → HeadRead → Option Received
once_head body again (pos zero) r = again
once_head body again (negsuc n) r = some (once_ended (negsuc 1) [] (r.conn))
once_head body again (pos (suc n)) r = body r

-- cm_websocket_request_recv in at most `rounds` rounds, from the time `start` on; `clock` gives the
-- time of each round, and `result` is as long as what *lenresult counts.
unfoldable pub request_recv :
    (ℕ → ℕ → ℕ) → List ℕ → (ℕ → ℕ) → ℕ → ℕ → ℕ → FrameHeader → Conn → List ℕ → Option Received
request_recv grant fresh clock start zero fuel head conn memory = none
request_recv grant fresh clock start (suc rounds) fuel head conn memory =
    let r = request_read grant fresh conn head in
    let again =
      request_recv grant fresh (λ t. clock (suc t)) start rounds fuel (r.head) (r.conn) memory in
    let read =
      once_head
        (λ r.
          once_body (read_once grant fuel (r.conn) (read_len (r.head.payload_length)) [] memory))
        again (r.ret) r in
    if ltb 8000 ((clock 0 + (2 ^ 64 - start)) % 2 ^ 64)
    then some (once_ended (negsuc 3) [] conn)
    else read

-- The memory behind the bytes that came.
abbrev pub left_over : ℕ → List ℕ → List ℕ → List ℕ
left_over need part memory = take (need - length part) (drop (length part) memory)
