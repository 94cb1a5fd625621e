-- ===== src/CmWs/Fragments.antt =====
-- A message in several frames is put together.
use jklibs.Common.{
  ℕ, suc, ◌+◌, ◌%◌, ◌≤◌, ◌<◌, ◌≡◌, refl, sym, ap, ◌∙◌, true, false, List, [], ◌∷◌, ◌++◌, some,
  arith, leb, if◌then◌else◌, length, append_assoc, append-nil,
}
use jklibs.Common.Int.{pos}
use jklibs.CmWs.Frame.{FrameHeader}
use jklibs.CmWs.Read.{
  Conn, Received, read_body, request_read, read_len, is_broken, after_body, after_head, recv_frames,
}
use jklibs.CmWs.Heads.{Whole, tail_reads, Reads, head_text, request_read-head}
use jklibs.CmWs.Payload.{Gives, read_body-all}

pub read_len-small : (n : ℕ) → n < 65536 → read_len n ≡ n
read_len-small n h = ground arith

-- The frame of a part: the first byte, and no mask.
abbrev pub frame_text : ℕ → List ℕ → List ℕ
frame_text b0 part = head_text b0 false (length part) (0 ∷ (0 ∷ (0 ∷ (0 ∷ [])))) ++ part

-- The parts of a message as frames: the first has the kind of the message, the others continue it, and the last
-- has the bit for the end.
abbrev pub message_text : ℕ → List (List ℕ) → List ℕ
message_text opcode [] = []
message_text opcode (part ∷ []) = frame_text (128 + opcode) part
message_text opcode (part ∷ (two ∷ parts)) = frame_text opcode part ++ message_text 0 (two ∷ parts)

abbrev pub joined : List (List ℕ) → List ℕ
joined [] = []
joined (part ∷ parts) = part ++ joined parts

abbrev whole_of : List ℕ → List ℕ → Conn → Received
whole_of all part conn = record {
  ret = pos (length (all ++ part));
  result = all ++ part;
  conn = conn;
}

abbrev pub Fit : ℕ → List (List ℕ) → Type 0
Fit fuel [] = Unit {0}
Fit fuel (part ∷ parts) = ((length part < 65536) × (length part ≤ fuel)) × Fit fuel parts

-- The reads of the head of each part give all they ask for. `next` is the connection behind the part.
abbrev pub WholeHeads : (ℕ → ℕ → ℕ) → List ℕ → ℕ → Conn → List (List ℕ) → Type 0
WholeHeads grant fresh fuel conn [] = Unit {0}
WholeHeads grant fresh fuel conn (part ∷ parts) =
    Whole grant (conn.reads) (2 + tail_reads (length part) false)
    × ((head : FrameHeader) (next : Conn)
        → read_body grant fresh is_broken fuel ((request_read grant fresh conn head).conn)
            (length part) []
          ≡ some (some part, next)
        → WholeHeads grant fresh fuel next parts)

module _ (grant : ℕ → ℕ → ℕ) (fresh : List ℕ) (gives : Gives grant) where
  pub recv_frames-round :
      (frames fuel : ℕ) (head read : FrameHeader) (conn : Conn) (all payload rest : List ℕ)
      → Reads (request_read grant fresh conn head) read (payload ++ rest)
      → read.payload_length ≡ length payload
      → length payload < 65536
      → length payload ≤ fuel
      → (next : Conn) × (recv_frames grant fresh (suc frames) fuel head conn all ≡ (
          if read.fin
          then some
              (record { ret = pos (length (all ++ payload)); result = all ++ payload; conn = next })
          else recv_frames grant fresh frames fuel read next (all ++ payload)))
        × (next.input ≡ rest)
        × (read_body grant fresh is_broken fuel
              ((request_read grant fresh conn head).conn)
              (length payload)
              []
            ≡ some (some payload, next))
  unfolding recv_frames after_head after_body
  recv_frames-round frames fuel head read conn all payload rest (k, ret, same, left) count short h =
      let r = request_read grant fresh conn head in
      let go = λ (h : FrameHeader). recv_frames grant fresh frames fuel h in
      let (next, body, ends) =
        read_body-all grant fresh is_broken gives (λ n. refl) fuel (r.conn) (length payload) []
          payload rest refl h left in
      let bytes : read_len (read.payload_length) ≡ length payload =
        ap read_len count ∙ read_len-small (length payload) short in
      (
        next,
        ap
              (λ t.
                after_head
                  (λ r. after_body (go (r.head)) all (r.head) (
                    read_body grant fresh is_broken fuel (r.conn) (read_len (r.head.payload_length))
                      []))
                  all t r)
              ret
            ∙ (ap
                  (λ h. after_body (go h) all h (
                    read_body grant fresh is_broken fuel (r.conn) (read_len (h.payload_length)) []))
                  same
                ∙ (ap
                      (λ n.
                        after_body (go read) all read
                          (read_body grant fresh is_broken fuel (r.conn) n []))
                      bytes
                    ∙ ap (after_body (go read) all read) body)),
        ends,
        body,
      )

  -- A message of a kind below 128 whose parts come in frames without a mask, each of less than
  -- 65536 bytes and within the fuel, is received whole, when the reads of each head give all they
  -- ask for, and every read at least a byte and no more than it asks for: the result is the parts
  -- in their order behind what was there, the return value is its length, and what follows the
  -- message is left.
  pub recv_frames-message :
      (frames fuel opcode : ℕ) (head : FrameHeader) (conn : Conn) (all part : List ℕ)
      (parts : List (List ℕ)) (rest : List ℕ)
      → opcode < 128
      → Fit fuel (part ∷ parts)
      → WholeHeads grant fresh fuel conn (part ∷ parts)
      → conn.input ≡ message_text opcode (part ∷ parts) ++ rest
      → (next : Conn) × (recv_frames grant fresh (length (part ∷ parts) + frames) fuel head conn all
          ≡ some (record {
            ret = pos (length (all ++ joined (part ∷ parts)));
            result = all ++ joined (part ∷ parts);
            conn = next;
          }))
        × (next.input ≡ rest)
  recv_frames-message frames fuel opcode head conn all part [] rest small fit whole e =
      let start =
        e
        ∙ append_assoc (head_text (128 + opcode) false (length part) (0 ∷ (0 ∷ (0 ∷ (0 ∷ [])))))
            part rest in
      let read =
        request_read-head grant fresh conn head (128 + opcode) (length part) false
          (0 ∷ (0 ∷ (0 ∷ (0 ∷ [])))) (part ++ rest) (whole.0) (fit.0.0) refl start in
      let h : FrameHeader = record head {
        fin = leb 128 (128 + opcode);
        opcode = (128 + opcode) % 16;
        mask = false;
        payload_length = length part;
      } in
      let (next, round, ends, _) =
        recv_frames-round frames fuel head h conn all part rest read refl (fit.0.0) (fit.0.1) in
      let one : length (part ∷ []) + frames ≡ suc frames = omega arith in
      let last : leb 128 (128 + opcode) ≡ true = ground arith in
      (
        next,
        ap (λ n. recv_frames grant fresh n fuel head conn all) one
            ∙ (round
                ∙ (ap
                      (λ b.
                        if b
                        then some (whole_of all part next)
                        else recv_frames grant fresh frames fuel h next (all ++ part))
                      last
                    ∙ ap (λ t. some (whole_of all t next)) (sym (append-nil part)))),
        ends,
      )
  recv_frames-message frames fuel opcode head conn all part (two ∷ parts) rest small fit whole e =
      let key : List ℕ = 0 ∷ (0 ∷ (0 ∷ (0 ∷ []))) in
      let later = message_text 0 (two ∷ parts) ++ rest in
      let start =
        e
        ∙ (append_assoc (frame_text opcode part) (message_text 0 (two ∷ parts)) rest
            ∙ append_assoc (head_text opcode false (length part) key) part later) in
      let read =
        request_read-head grant fresh conn head opcode (length part) false key (part ++ later)
          (whole.0) (fit.0.0) refl start in
      let h : FrameHeader = record head {
        fin = leb 128 opcode;
        opcode = opcode % 16;
        mask = false;
        payload_length = length part;
      } in
      let count = length (two ∷ parts) + frames in
      let (next, round, ends, body) =
        recv_frames-round count fuel head h conn all part later read refl (fit.0.0) (fit.0.1) in
      let (after, more, left) =
        recv_frames-message frames fuel 0 h next (all ++ part) two parts rest (omega arith) (fit.1)
          (whole.1 head next body) ends in
      let one : length (part ∷ (two ∷ parts)) + frames ≡ suc count = omega arith in
      let open_ : leb 128 opcode ≡ false = ground arith in
      (
        after,
        ap (λ n. recv_frames grant fresh n fuel head conn all) one
            ∙ (round
                ∙ (ap
                      (λ b.
                        if b
                        then some (whole_of all part next)
                        else recv_frames grant fresh count fuel h next (all ++ part))
                      open_
                    ∙ (more
                        ∙ ap (λ t. some (record { ret = pos (length t); result = t; conn = after }))
                            (append_assoc all part (joined (two ∷ parts)))))),
        left,
      )
