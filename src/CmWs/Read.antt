-- ===== src/CmWs/Read.antt =====
-- cm_conn_tcp.c and cm_conn_ws.c: what a connection gives, and the reading of frames from it.
use jklibs.Common.{
  ℕ, zero, suc, ◌+◌, ◌-◌, ◌*◌, ◌%◌, Bool, false, List, [], ◌∷◌, ◌++◌, Option, none, some, ltb, leb,
  ◌==◌, if◌then◌else◌, length, take, drop, ◌||◌,
}
use jklibs.Common.Int.{ℤ, pos, negsuc}
use jklibs.CmWs.Frame.{FrameHeader, byte_at, invert_string, bytes_number}

-- CMConnTCP: the bytes still to come, whether the peer closes behind them, the number of the reads,
-- and the status.
pub record Conn : Type 0 where
  pub input : List ℕ
  pub closes : Bool
  pub reads : ℕ
  pub status : ℕ

pub record Recv : Type 0 where
  pub ret : ℤ
  pub got : List ℕ
  pub conn : Conn

-- cm_conn_tcp_recv_simple. `grant` says how many of the bytes asked for the read of a number gives;
-- without bytes the wait ends, or the connection has closed.
unfoldable pub recv_from : (ℕ → ℕ → ℕ) → Conn → ℕ → List ℕ → Recv
recv_from grant conn n [] =
    if conn.closes
    then record {
      ret = negsuc 0;
      got = [];
      conn = record conn { reads = suc (conn.reads); status = 0 };
    }
    else record { ret = pos 0; got = []; conn = record conn { reads = suc (conn.reads) } }
recv_from grant conn n (b ∷ input) = record {
  ret = pos (length (take (grant (conn.reads) n) (b ∷ input)));
  got = take (grant (conn.reads) n) (b ∷ input);
  conn = record conn { input = drop (grant (conn.reads) n) (b ∷ input); reads = suc (conn.reads) };
}

unfoldable pub recv_simple : (ℕ → ℕ → ℕ) → Conn → ℕ → Recv
recv_simple grant conn n = recv_from grant conn n (conn.input)

-- What a function that reads a head leaves.
pub record HeadRead : Type 0 where
  pub ret : ℤ
  pub head : FrameHeader
  pub conn : Conn

-- n == 0 ? 0 : code, where the read gave nothing
unfoldable pub unless_read : Recv → ℤ → FrameHeader → (ℕ → HeadRead) → HeadRead
unless_read r code head next = elim (r.ret) [
  | negsuc n ↦ record { ret = code; head = head; conn = r.conn }
  | pos n ↦ if n == 0 then record { ret = pos 0; head = head; conn = r.conn } else next n
]

module _ (grant : ℕ → ℕ → ℕ) (fresh : List ℕ) where
  -- A buffer of `n` bytes after a read into it: what the read did not give is what was there.
  abbrev pub buffer : ℕ → List ℕ → List ℕ
  buffer n got = take n (got ++ fresh)

  -- The mask is read and not kept.
  unfoldable pub read_mask : FrameHeader → Conn → ℕ → HeadRead
  read_mask head conn n =
      let r = recv_simple grant conn 4 in
      if head.mask
      then unless_read r (negsuc 4) head (λ n. record { ret = pos n; head = head; conn = r.conn })
      else record { ret = pos n; head = head; conn = conn }

  unfoldable pub read_length : FrameHeader → Conn → ℕ → HeadRead
  read_length head conn n =
      let two = recv_simple grant conn 2 in
      let eight = recv_simple grant conn 8 in
      let short = buffer 2 (two.got) in
      let long = bytes_number (invert_string (buffer 8 (eight.got)) 8) in
      if head.payload_length == 126
      then unless_read two (negsuc 2) head (λ n.
        read_mask (record head { payload_length = byte_at short 0 * 256 + byte_at short 1 })
          (two.conn) n)
      else if head.payload_length == 127
      then unless_read eight (negsuc 3) head
          (λ n. read_mask (record head { payload_length = long }) (eight.conn) n)
      else read_mask head conn n

  -- cm_websocket_request_read into `head`
  unfoldable pub request_read : Conn → FrameHeader → HeadRead
  request_read conn head =
      let first = recv_simple grant conn 1 in
      let second = recv_simple grant (first.conn) 1 in
      let b0 = byte_at (first.got) 0 in
      let b1 = byte_at (second.got) 0 in
      let head1 : FrameHeader = record head { fin = leb 128 b0; opcode = b0 % 16 } in
      unless_read first (negsuc 0) head (λ n. unless_read second (negsuc 1) head1 (λ n.
        read_length (record head1 { mask = leb 128 b1; payload_length = b1 % 128 }) (second.conn)
          n))

  -- The loop over the payload, with `need` bytes still to be read behind `got`; `none` means that the
  -- fuel ran out, and `fails` which results of a read end the loop.
  unfoldable pub read_body : (ℤ → Bool) → ℕ → Conn → ℕ → List ℕ → Option (Option (List ℕ) × Conn)
  read_body fails zero conn need got = if need == 0 then some (some got, conn) else none
  read_body fails (suc fuel) conn need got =
      let r = recv_simple grant conn need in
      let more = read_body fails fuel (r.conn) (need - length (r.got)) (got ++ r.got) in
      if need == 0
      then some (some got, conn)
      else if fails (r.ret)
      then some (none, r.conn)
      else more

-- (int) of an unsigned number, as the number of bytes that the loop reads
abbrev pub read_len : ℕ → ℕ
read_len n = let low = n % 4294967296 in if ltb low 2147483648 then low else 0

-- n == -1 || n == -12
abbrev pub is_broken : ℤ → Bool
is_broken (pos n) = false
is_broken (negsuc n) = (n == 0) || (n == 11)

pub record Received : Type 0 where
  pub ret : ℤ
  pub result : List ℕ
  pub conn : Conn

-- What follows the payload: `go` is the next round, behind the bytes read so far.
unfoldable pub after_body :
    (Conn → List ℕ → Option Received)
    → List ℕ
    → FrameHeader
    → Option (Option (List ℕ) × Conn)
    → Option Received
after_body go all head none = none
after_body go all head (some (none, conn)) =
    some (record { ret = negsuc 4; result = all; conn = conn })
after_body go all head (some (some got, conn)) =
    if head.fin
    then some (record { ret = pos (length (all ++ got)); result = all ++ got; conn = conn })
    else go conn (all ++ got)

unfoldable pub after_head : (HeadRead → Option Received) → List ℕ → ℤ → HeadRead → Option Received
after_head body all (pos zero) r = some (record { ret = pos 0; result = all; conn = r.conn })
after_head body all (negsuc n) r = some (record { ret = negsuc 1; result = all; conn = r.conn })
after_head body all (pos (suc n)) r = body r

-- The memory for the result is granted, and its strlen for a debug message is left out.
-- cm_websocket_request_recv_ex with `all` read so far, in at most `frames` rounds; `none` means that
-- the rounds or the fuel of a payload ran out.
unfoldable pub recv_frames :
    (ℕ → ℕ → ℕ) → List ℕ → ℕ → ℕ → FrameHeader → Conn → List ℕ → Option Received
recv_frames grant fresh zero fuel head conn all = none
recv_frames grant fresh (suc frames) fuel head conn all =
    let r = request_read grant fresh conn head in
    after_head
      (λ r.
        after_body (recv_frames grant fresh frames fuel (r.head)) all (r.head)
          (read_body grant fresh is_broken fuel (r.conn) (read_len (r.head.payload_length)) []))
      all (r.ret) r
