-- ===== src/CmWs/Cut.antt =====
-- A payload of which too little comes is reported whole.
use jklibs.Common.{
  ℕ, zero, suc, ◌+◌, ◌-◌, ◌%◌, ◌^◌, ◌≤◌, ◌<◌, ◌≡◌, refl, sym, ap, ap₂, ◌∙◌, Bool, false, List, [],
  ◌∷◌, ◌++◌, some, arith, ltb, ◌==◌, if◌then◌else◌, length, take, drop, length-take, length-drop,
  length-append, leb, take-drop, drop-drop, append-nil, append_assoc,
}
use jklibs.Common.Int.{pos}
use jklibs.CmWs.Frame.{FrameHeader}
use jklibs.CmWs.Read.{Conn, Recv, recv_from, recv_simple, request_read, read_len}
use jklibs.CmWs.Heads.{Whole, tail_reads, behind, head_text, request_read-head}
use jklibs.CmWs.Payload.{Gives}
use jklibs.CmWs.Fragments.{read_len-small}
use jklibs.CmWs.Closes.{request_read-closes}
use jklibs.CmWs.Once.{after_read, read_once, once_body, once_head, request_recv, left_over}

-- A round that reads a byte at least.
read_once-round :
    (grant : ℕ → ℕ → ℕ) (fuel : ℕ) (conn : Conn) (need k : ℕ) (b : ℕ) (part got memory : List ℕ)
    → (need == 0) ≡ false
    → conn.input ≡ b ∷ part
    → length (take (grant (conn.reads) need) (b ∷ part)) ≡ suc k
    → read_once grant (suc fuel) conn need got memory
      ≡ read_once grant fuel
          (behind conn (drop (grant (conn.reads) need) (b ∷ part)))
          (need - suc k)
          (got ++ take (grant (conn.reads) need) (b ∷ part))
          (drop (suc k) memory)
unfolding read_once recv_simple recv_from after_read
read_once-round grant fuel conn need k b part got memory more e count =
    let g = grant (conn.reads) need in
    let r = ap (recv_from grant conn need) e in
    let round = λ (r : Recv).
      (if need == 0
        then some (some got, conn)
        else after_read (r.ret) (r.conn) (got ++ take need memory) (
            read_once grant fuel (r.conn) (need - length (r.got)) (got ++ r.got)
              (drop (length (r.got)) memory))) in
    ap round r
    ∙ (ap
          (λ t.
            if t
            then some (some got, conn)
            else after_read (pos (length (take g (b ∷ part)))) (behind conn (drop g (b ∷ part)))
                (got ++ take need memory)
                (read_once grant fuel (behind conn (drop g (b ∷ part)))
                  (need - length (take g (b ∷ part))) (got ++ take g (b ∷ part))
                  (drop (length (take g (b ∷ part))) memory)))
          more
        ∙ ap
            (λ n. after_read (pos n) (behind conn (drop g (b ∷ part))) (got ++ take need memory) (
              read_once grant fuel (behind conn (drop g (b ∷ part))) (need - n)
                (got ++ take g (b ∷ part)) (drop n memory)))
            count)

-- The bytes that came, and what the memory holds behind them, put together after a round.
left_over-round :
    (need g k : ℕ) (bytes memory : List ℕ)
    → length (take g bytes) ≡ suc k
    → take g bytes
        ++ (drop g bytes ++ left_over (need - suc k) (drop g bytes) (drop (suc k) memory))
      ≡ bytes ++ left_over need bytes memory
left_over-round need g k bytes memory count =
    let left = length-drop g bytes in
    let taken = length-take g bytes in
    let all : suc k + length (drop g bytes) ≡ length bytes = omega (arith, left, taken, count) in
    let needed : need - suc k - length (drop g bytes) ≡ need - length bytes = omega (arith, all) in
    sym (
      append_assoc (take g bytes) (drop g bytes)
        (left_over (need - suc k) (drop g bytes) (drop (suc k) memory)))
    ∙ ap₂ ◌++◌ (take-drop g bytes) (
        ap₂ take needed
          (drop-drop (suc k) (length (drop g bytes)) memory ∙ ap (λ n. drop n memory) all))

abbrev silent_conn : Conn → Conn
silent_conn conn = record {
  input = [];
  closes = false;
  reads = suc (conn.reads);
  status = conn.status;
}

read_once-silent :
    (grant : ℕ → ℕ → ℕ)
    → Gives grant
    → (fuel : ℕ) (conn : Conn) (need : ℕ) (got part memory : List ℕ) → conn.closes ≡ false
    → conn.input ≡ part
    → length part ≤ need
    → need ≤ fuel
    → (next : Conn) × (read_once grant fuel conn need got memory
        ≡ some (some (got ++ (part ++ left_over need part memory)), next))
      × (next.input ≡ [])
unfolding read_once recv_simple recv_from after_read
read_once-silent grant gives zero conn zero got [] memory open_ e l h =
    (conn, ap (λ t. some (some t, conn)) (sym (append-nil got)), e)
read_once-silent grant gives (suc fuel) conn zero got [] memory open_ e l h =
    (conn, ap (λ t. some (some t, conn)) (sym (append-nil got)), e)
read_once-silent grant gives zero conn (suc need) got [] memory open_ e l h = absurd (omega arith)
read_once-silent grant gives (suc fuel) conn (suc need) got [] memory open_ e l h =
    let more : (suc need == 0) ≡ false = ground arith in
    let all : suc need ≡ suc need - 0 = omega arith in
    let next = record conn { reads = suc (conn.reads) } in
    (
      next,
      rw (e, open_, more) (ap (λ n. some (some (got ++ take n memory), silent_conn conn)) all),
      e,
    )
read_once-silent grant gives zero conn need got (b ∷ part) memory open_ e l h = absurd (omega arith)
read_once-silent grant gives (suc fuel) conn need got (b ∷ part) memory open_ e l h =
    let g = grant (conn.reads) need in
    let given = gives (conn.reads) need (omega (arith, l)) in
    let taken = length-take g (b ∷ part) in
    let left = length-drop g (b ∷ part) in
    let k = length (take g (b ∷ part)) - 1 in
    let count : length (take g (b ∷ part)) ≡ suc k = omega (arith, taken, given) in
    let more : (need == 0) ≡ false = ground (arith, l) in
    let fewer : length (drop g (b ∷ part)) ≤ need - suc k =
      omega (arith, l, left, taken, count, given) in
    let round = read_once-round grant fuel conn need k b part got memory more e count in
    let (next, rest, ends) =
      read_once-silent grant gives fuel (behind conn (drop g (b ∷ part))) (need - suc k)
        (got ++ take g (b ∷ part)) (drop g (b ∷ part)) (drop (suc k) memory) open_ refl fewer
        (omega (arith, h)) in
    let whole =
      append_assoc got (take g (b ∷ part))
        (drop g (b ∷ part) ++ left_over (need - suc k) (drop g (b ∷ part)) (drop (suc k) memory))
      ∙ ap (λ t. got ++ t) (left_over-round need g k (b ∷ part) memory count) in
    (next, round ∙ (rest ∙ ap (λ t. some (some t, next)) whole), ends)

-- A frame of less than 65536 bytes whose head comes within eight seconds, and of whose payload
-- all or a part comes before the connection falls silent, is reported with 0 and the whole
-- length: behind the bytes that came, the result has what the buffer, which is long enough, held
-- before. The reads of the head give all they ask for, and every read that finds bytes at least
-- one of them and no more than it asks for.
pub request_recv-cut :
    (grant : ℕ → ℕ → ℕ) (fresh : List ℕ) (clock : ℕ → ℕ) (start rounds fuel : ℕ)
    (head : FrameHeader) (conn : Conn) (b0 len : ℕ) (m : Bool) (key part memory : List ℕ)
    → Whole grant (conn.reads) (2 + tail_reads len m)
    → Gives grant
    → start < 2 ^ 64
    → start ≤ clock 0
    → clock 0 ≤ start + 8000
    → conn.closes ≡ false
    → conn.input ≡ head_text b0 m len key ++ part
    → length key ≡ 4
    → len < 65536
    → len ≤ fuel
    → length part ≤ len
    → len ≤ length memory
    → (next : Conn) × (request_recv grant fresh clock start (suc rounds) fuel head conn memory
        ≡ some (record { ret = pos 0; result = part ++ left_over len part memory; conn = next }))
      × (length (part ++ left_over len part memory) ≡ len)
      × (next.input ≡ [])
unfolding request_recv once_head once_body
request_recv-cut grant fresh clock start rounds fuel head conn b0 len m key part memory whole gives
      s low high open_ e four small most l room =
    let in_time : ltb 8000 ((clock 0 + (2 ^ 64 - start)) % 2 ^ 64) ≡ false = ground arith in
    let r = request_read grant fresh conn head in
    let (k, ret, same, left) =
      request_read-head grant fresh conn head b0 len m key part whole small four e in
    let got : FrameHeader = record head {
      fin = leb 128 b0;
      opcode = b0 % 16;
      mask = m;
      payload_length = len;
    } in
    let open_still : r.conn.closes ≡ false = request_read-closes grant fresh conn head ∙ open_ in
    let (next, body, ends) =
      read_once-silent grant gives fuel (r.conn) len [] part memory open_still left l most in
    let again =
      request_recv grant fresh (λ t. clock (suc t)) start rounds fuel (r.head) (r.conn) memory in
    let read = λ (h : FrameHeader).
      once_body (read_once grant fuel (r.conn) (read_len (h.payload_length)) [] memory) in
    (
      next,
      rw in_time (
          ap
            (λ t.
              once_head
                (λ r.
                  once_body
                    (read_once grant fuel (r.conn) (read_len (r.head.payload_length)) [] memory))
                again t r)
            ret
          ∙ (ap read same
              ∙ (ap (λ n. once_body (read_once grant fuel (r.conn) n [] memory))
                    (read_len-small len small)
                  ∙ ap once_body body))),
      omega (
        arith,
        length-append part (left_over len part memory),
        length-take (len - length part) (drop (length part) memory),
        length-drop (length part) memory,
      ),
      ends,
    )
