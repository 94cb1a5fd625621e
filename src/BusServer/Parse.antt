-- ===== src/BusServer/Parse.antt =====
-- busserver.c: how a message of several parts is written to a connection and found in the bytes
-- that were received. (busserver_ex.c holds the same functions.) A pointer into the received bytes
-- is the memory from there on.
use jklibs.Common.{
  ℕ, zero, suc, ◌+◌, ◌-◌, Bool, true, false, ◌&&◌, List, [], ◌∷◌, ◌++◌, Option, none, some, ltb,
  leb, ◌==◌, if◌then◌else◌, length, take, drop,
}
use jklibs.Common.Int.{ℤ, pos, negsuc, pos_part, ltb_ℤ, ◌+ℤ◌, to_size}
use jklibs.Common.Decimal.{print_nat, atoi}
use jklibs.Common.Outcome.{Outcome, done, err, fault, ◌>>=◌}
use jklibs.Common.Text.{codes, starts_with}

-- struct bc_str: `text` is the memory that `data` points to.
pub record BcStr : Type 0 where
  pub len : ℤ
  pub text : List ℕ

abbrev pub max_multipart_opt : ℕ
max_multipart_opt = 20

-- The types of messages; 0 is none of them.
abbrev pub keepalive : ℕ
keepalive = 1

abbrev pub rpc_request : ℕ
rpc_request = 2

abbrev pub rpc_response : ℕ
rpc_response = 3

abbrev pub recv_topic : ℕ
recv_topic = 5

abbrev pub crlf : List ℕ
crlf = 13 ∷ (10 ∷ [])

-- struct mbuf of a connection: the bytes received, and what memory holds behind them.
pub record Mbuf : Type 0 where
  pub bytes : List ℕ
  pub behind : List ℕ

abbrev pub memory : Mbuf → List ℕ
memory io = io.bytes ++ io.behind

abbrev one_more : Outcome ℤ → Outcome ℤ
one_more (done (pos n)) = done (pos (suc n))
one_more (done (negsuc n)) = done (negsuc n)
one_more (err n) = err n
one_more fault = fault

-- strstr(p, "\r\n") - p, or -1; a search that meets no NUL runs off the memory.
unfoldable pub find_in_str : List ℕ → Outcome ℤ
find_in_str [] = fault
find_in_str (c ∷ s) =
    let rest = one_more (find_in_str s) in
    if c == 0 then done (negsuc 0) else if starts_with crlf (c ∷ s) then done (pos 0) else rest

-- strncmp(pp + offset, "\r\n", 2) == 0
unfoldable pub crlf_at : List ℕ → ℤ → Outcome Bool
crlf_at mem (pos n) = if ltb n (length mem) then done (starts_with crlf (drop n mem)) else fault
crlf_at mem (negsuc n) = fault

-- The tests of the first part's text, in their order; the last that holds gives the type.
unfoldable pub type_of : List ℕ → ℕ → ℕ
type_of text type =
    if starts_with (codes "publish") text
    then recv_topic
    else if starts_with (codes "response") text
    then rpc_response
    else if starts_with (codes "request") text
    then rpc_request
    else if starts_with (codes "keepalive") text
    then keepalive
    else type

-- The part at the offset `handled` and the offset behind it; `none` is the return value -1. A sum that
-- an int does not hold is not defined; as `size` is an int, it is above what is left.
unfoldable pub part_at : List ℕ → ℕ → ℕ → ℤ → ℤ → Outcome (Option (BcStr × ℕ))
part_at mem size handled line part_len =
    let start = pos handled +ℤ line in
    let stop = start +ℤ pos 2 +ℤ part_len in
    let part : BcStr = record { len = part_len; text = drop (pos_part start + 2) mem } in
    if ltb_ℤ (pos (size - handled)) (line +ℤ pos 4 +ℤ part_len)
    then (if ltb_ℤ (pos 2147483647) (line +ℤ pos 4 +ℤ part_len) then fault else done none)
    else crlf_at mem start >>= λ line_end.
        if line_end
        then (crlf_at mem stop >>= λ part_end.
            done (if part_end then some (part, pos_part stop + 2) else none))
        else done none

unfoldable pub next_part : List ℕ → ℕ → ℕ → Outcome (Option (BcStr × ℕ))
next_part mem size handled = find_in_str (drop handled mem) >>= λ line.
    part_at mem size handled line (atoi (drop handled mem))

abbrev pub ends_at : List ℕ → ℕ → ℕ → Bool
ends_at mem size handled = leb 2 (size - handled) && starts_with crlf (drop handled mem)

-- What the parser leaves in `msg` and `*type`, and the bytes of the message.
pub record Parsed : Type 0 where
  pub parts : List BcStr
  pub type : ℕ
  pub size : ℕ

unfoldable pub first_text : List BcStr → List ℕ
first_text [] = []
first_text (part ∷ parts) = part.text

unfoldable pub message_of : List BcStr → ℕ → ℕ → Parsed
unfolding first_text
message_of parts type handled = record {
  parts = parts;
  type = type_of (first_text parts) type;
  size = handled + 2;
}

-- The loop, with `rounds` of them left.
unfoldable pub parse_parts : ℕ → List ℕ → ℕ → ℕ → List BcStr → ℕ → Outcome (Option Parsed)
parse_parts zero mem size handled parts type = done none
parse_parts (suc rounds) mem size handled parts type = next_part mem size handled >>= λ next.
    elim next [
      | none ↦ done none
      | some (part, behind) ↦
          let rest = parse_parts rounds mem size behind (parts ++ (part ∷ [])) type in
          if ends_at mem size behind
          then done (some (message_of (parts ++ (part ∷ [])) type behind))
          else rest
    ]

unfoldable pub parse_multipart_msg : Mbuf → ℕ → Outcome (Option Parsed)
parse_multipart_msg io type =
    parse_parts max_multipart_opt (memory io) (length (io.bytes)) 0 [] type

-- busclient_mg_send: the bytes that the four calls of mg_send write, for a length of at most nine digits.
unfoldable pub part_bytes : List ℕ → List ℕ
part_bytes data_ = print_nat (length data_) ++ (crlf ++ (data_ ++ crlf))

-- busclient_multipart_send
unfoldable pub multipart_bytes : List (List ℕ) → List ℕ
multipart_bytes [] = crlf
multipart_bytes (part ∷ parts) = part_bytes part ++ multipart_bytes parts

-- !strncmp(part.data, name, part.len)
unfoldable pub eq_within : ℕ → List ℕ → List ℕ → Bool
eq_within zero name text = true
eq_within (suc n) [] text = starts_with (0 ∷ []) text
eq_within (suc n) (c ∷ name) [] = false
eq_within (suc n) (c ∷ name) (d ∷ text) = (c == d) && eq_within n name text

unfoldable pub part_is : BcStr → List ℕ → Bool
part_is part name = eq_within (to_size (part.len)) name (part.text)

-- The bytes that a callback is given with their number.
abbrev pub bytes_of : BcStr → List ℕ
bytes_of part = take (pos_part (part.len)) (part.text)
