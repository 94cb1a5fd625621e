-- ===== src/CmWs/Exchange.antt =====
-- A request is sent, and read at the other end.
use jklibs.Common.{
  ◌+◌, ℕ, suc, ◌≤◌, ◌<◌, ◌≡◌, refl, sym, ap, ◌∙◌, true, false, List, [], ◌++◌, some, arith, length,
  append_assoc,
}
use jklibs.Common.Int.{ℤ, pos}
use jklibs.CmWs.Frame.{FrameHeader, umask}
use jklibs.CmWs.Read.{Conn, recv_frames}
use jklibs.CmWs.Send.{request_data, websocket_request}
use jklibs.CmWs.Mask.{AllBytes, umask-umask, length-umask}
use jklibs.CmWs.Heads.{Whole, tail_reads, head_text, generate_frame_head-text, request_read-head}
use jklibs.CmWs.Payload.{Gives}
use jklibs.CmWs.Fragments.{recv_frames-round}
use jklibs.CmWs.Sending.{Sends, tcp_send-all}

request_data-text :
    (key fresh msg : List ℕ)
    → length msg < 65535
    → length key ≡ 4
    → request_data key fresh msg ≡ head_text 129 true (length msg) key ++ umask msg key
unfolding request_data
request_data-text key fresh msg h four =
    let header : FrameHeader = record {
      fin = false;
      opcode = 0;
      mask = true;
      payload_length = length msg;
      masking_key = key;
    } in
    ap (λ t. t ++ umask msg key) (generate_frame_head-text header fresh h four)

pub websocket_request-sent :
    (send : ℕ → ℕ → ℤ)
    → Sends send
    → (key fresh msg : List ℕ) → length msg < 65535
    → length key ≡ 4
    → websocket_request send (length (request_data key fresh msg)) key fresh msg
      ≡ some (pos (length (request_data key fresh msg)), request_data key fresh msg, umask msg key)
unfolding websocket_request
websocket_request-sent send sends key fresh msg h four =
    let wire = request_data key fresh msg in
    let text = ap length (request_data-text key fresh msg h four) in
    let one : 1 ≤ length wire = omega (arith, text) in
    rw (websocket_request, tcp_send-all send sends (length wire) wire one (omega arith)) refl

-- A request of less than 65535 bytes with a mask of four bytes is sent whole, however few bytes
-- above none a call takes. Its wire, read by this library at an end where the reads of the head
-- give all they ask for, and every read at least a byte and no more than it asks for, gives one
-- message of the same length, which is the request under the mask: the mask taken once more gives
-- the request back, and what follows is left.
pub recv_frames-websocket_request :
    (send : ℕ → ℕ → ℤ) (grant : ℕ → ℕ → ℕ) (fresh memory : List ℕ)
    → Sends send
    → Gives grant
    → (frames fuel : ℕ) (head : FrameHeader) (conn : Conn) (key msg rest : List ℕ)
    → Whole grant (conn.reads) (2 + tail_reads (length msg) true)
    → length msg < 65535
    → length key ≡ 4
    → AllBytes msg
    → AllBytes key
    → length msg ≤ fuel
    → conn.input ≡ request_data key fresh msg ++ rest
    → (websocket_request send (length (request_data key fresh msg)) key fresh msg
        ≡ some
            (pos (length (request_data key fresh msg)), request_data key fresh msg, umask msg key))
      × ((next : Conn) × (recv_frames grant memory (suc frames) fuel head conn []
            ≡ some (record { ret = pos (length msg); result = umask msg key; conn = next }))
          × (next.input ≡ rest))
      × (umask (umask msg key) key ≡ msg)
recv_frames-websocket_request send grant fresh memory sends gives frames fuel head conn key msg rest
      whole h four bytes keys most e =
    let body = umask msg key in
    let same : length body ≡ length msg = length-umask msg key in
    let start : conn.input ≡ head_text 129 true (length msg) key ++ (body ++ rest) =
      e
      ∙ (ap (λ t. t ++ rest) (request_data-text key fresh msg h four)
          ∙ append_assoc (head_text 129 true (length msg) key) body rest) in
    let read =
      request_read-head grant memory conn head 129 (length msg) true key (body ++ rest) whole
        (omega arith) four start in
    let got : FrameHeader = record head {
      fin = true;
      opcode = 1;
      mask = true;
      payload_length = length msg;
    } in
    let (next, round, ends, _) =
      recv_frames-round grant memory gives frames fuel head got conn [] body rest read (sym same)
        (omega (arith, same)) (omega (arith, same)) in
    (
      websocket_request-sent send sends key fresh msg h four,
      (
        next,
        round ∙ ap (λ n. some (record { ret = pos n; result = body; conn = next })) same,
        ends,
      ),
      umask-umask msg key bytes keys,
    )
