-- ===== src/CmWs/Tests.antt =====
-- Runs and examples of frames.
use jklibs.Common.{
  ltb, if◌then◌else◌, ◌≤◌, ℕ, ◌≡◌, refl, false, List, [], ◌∷◌, ◌++◌, some, arith, length, min,
}
use jklibs.Common.Int.{ℤ, pos}
use jklibs.Common.Outcome.{fault}
use jklibs.CmWs.Frame.{
  FrameHeader, umask, plain_head, parse_frame_header, umask_from, invert_string, invert_from,
  number_bytes,
}
use jklibs.CmWs.Read.{Conn, recv_frames}
use jklibs.CmWs.Send.{request_data, websocket_request}
use jklibs.CmWs.Payload.{Gives}
use jklibs.CmWs.Sending.{Sends}
use jklibs.CmWs.Fragments.{message_text, recv_frames-message, WholeHeads}
use jklibs.CmWs.Once.{request_recv}
use jklibs.CmWs.Cut.{request_recv-cut}
use jklibs.CmWs.Heads.{Whole, head_text}
use jklibs.CmWs.Exchange.{recv_frames-websocket_request}

abbrev four_at_most : ℕ → ℕ → ℕ
four_at_most t n = min n 4

four_at_most-WholeHeads :
    (conn : Conn) (parts : List (List ℕ)) → WholeHeads four_at_most [] 5 conn parts
four_at_most-WholeHeads conn [] = tt
four_at_most-WholeHeads conn (part ∷ parts) =
    (λ s n low high one few. ground arith, λ head next e. four_at_most-WholeHeads next parts)

-- A head of three reads at most comes whole, and then one byte a read.
abbrev singly : ℕ → ℕ → ℕ
singly t n = if ltb t 3 then min n 4 else min n 1

singly-Whole : (reads : ℕ) → reads ≤ 3 → Whole singly 0 reads
singly-Whole reads h s n low high one few = ground arith

singly-Gives : Gives singly
singly-Gives t n one = (ground arith, ground arith)

four_at_most-Gives : Gives four_at_most
four_at_most-Gives t n one = (ground arith, ground arith)

abbrev three_a_call : ℕ → ℕ → ℤ
three_a_call t n = pos (min n 3)

three_a_call-Sends : Sends three_a_call
three_a_call-Sends t n one = (min n 3, refl, ground arith, ground arith)

abbrev blank_head : FrameHeader
blank_head = record { fin = false; opcode = 0; mask = false; payload_length = 0; masking_key = [] }

abbrev conn_with : List ℕ → Conn
conn_with bytes = record { input = bytes; closes = false; reads = 0; status = 1 }

abbrev first_part : List ℕ
first_part = 72 ∷ (101 ∷ (108 ∷ (108 ∷ (111 ∷ []))))

abbrev second_part : List ℕ
second_part = 33 ∷ []

recv_frames-message_example :
    (next : Conn) × (recv_frames four_at_most [] 2 5 blank_head
        (conn_with (message_text 1 (first_part ∷ (second_part ∷ [])) ++ (7 ∷ [])))
        []
      ≡ some (record { ret = pos 6; result = first_part ++ second_part; conn = next }))
    × (next.input ≡ 7 ∷ [])
recv_frames-message_example =
    recv_frames-message four_at_most [] four_at_most-Gives 0 5 1 blank_head
      (conn_with (message_text 1 (first_part ∷ (second_part ∷ [])) ++ (7 ∷ []))) [] first_part
      (second_part ∷ []) (7 ∷ []) (omega arith)
      ((omega arith, omega arith), ((omega arith, omega arith), tt))
      (four_at_most-WholeHeads
        (conn_with (message_text 1 (first_part ∷ (second_part ∷ [])) ++ (7 ∷ [])))
        (first_part ∷ (second_part ∷ [])))
      refl

abbrev key : List ℕ
key = 55 ∷ (250 ∷ (33 ∷ (61 ∷ [])))

abbrev on_wire : List ℕ
on_wire = request_data key [] first_part

recv_frames-websocket_request_example :
    (websocket_request three_a_call (length on_wire) key [] first_part
      ≡ some (pos (length on_wire), on_wire, umask first_part key))
    × ((next : Conn) × (recv_frames singly [] 1 5 blank_head (conn_with (on_wire ++ (7 ∷ []))) []
          ≡ some (record { ret = pos 5; result = umask first_part key; conn = next }))
        × (next.input ≡ 7 ∷ []))
    × (umask (umask first_part key) key ≡ first_part)
recv_frames-websocket_request_example =
    recv_frames-websocket_request three_a_call singly [] [] three_a_call-Sends singly-Gives 0 5
      blank_head (conn_with (on_wire ++ (7 ∷ []))) key first_part (7 ∷ [])
      (singly-Whole 3 (omega arith)) (omega arith) refl
      (omega arith, (omega arith, (omega arith, (omega arith, (omega arith, tt)))))
      (omega arith, (omega arith, (omega arith, (omega arith, tt)))) (omega arith) refl

abbrev held : List ℕ
held = 1 ∷ (2 ∷ (3 ∷ (4 ∷ (5 ∷ []))))

abbrev mixed : List ℕ
mixed = 72 ∷ (101 ∷ (3 ∷ (4 ∷ (5 ∷ []))))

request_recv-cut_example :
    (next : Conn) × (request_recv singly []
        (λ t. 1500)
        1000
        1
        5
        blank_head
        (conn_with (head_text 129 false 5 key ++ (72 ∷ (101 ∷ []))))
        held
      ≡ some (record { ret = pos 0; result = mixed; conn = next }))
    × (length mixed ≡ 5)
    × (next.input ≡ [])
request_recv-cut_example =
    request_recv-cut singly [] (λ t. 1500) 1000 0 5 blank_head
      (conn_with (head_text 129 false 5 key ++ (72 ∷ (101 ∷ [])))) 129 5 false key (72 ∷ (101 ∷ []))
      held (singly-Whole 2 (omega arith)) singly-Gives (omega arith) (omega arith) (omega arith)
      refl refl refl (omega arith) (omega arith) (omega arith) (omega arith)

-- The example of the protocol's description.
umask_hello : umask first_part key ≡ 127 ∷ (159 ∷ (77 ∷ (81 ∷ (88 ∷ []))))
unfolding umask umask_from
umask_hello = refl

-- A long head has two bytes more than the protocol's: what the memory held stands behind the length.
long_head_memory :
    plain_head 65536 (17 ∷ (34 ∷ []))
    ≡ 129 ∷ (127 ∷ (0 ∷ (0 ∷ (0 ∷ (0 ∷ (0 ∷ (1 ∷ (0 ∷ (0 ∷ (17 ∷ (34 ∷ [])))))))))))
unfolding plain_head invert_string invert_from number_bytes
long_head_memory = refl

-- The mask is looked for behind byte 10, where a short head with its mask has ended.
masked_head_read_outside :
    parse_frame_header
      (129 ∷ (133 ∷ (55 ∷ (250 ∷ (33 ∷ (61 ∷ (127 ∷ (159 ∷ (77 ∷ (81 ∷ (88 ∷ [])))))))))))
    ≡ fault
unfolding parse_frame_header
masked_head_read_outside = refl
