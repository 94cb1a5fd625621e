-- ===== src/BusServer/Framing.antt =====
-- The parser takes a message that was sent out of the received bytes, and no byte more.
use jklibs.Common.{
  ℕ, zero, suc, ◌+◌, ◌-◌, ◌≤◌, ◌≡◌, refl, ap, ap₂, ◌∙◌, true, false, List, [], ◌∷◌, ◌++◌, some,
  arith, leb, length, drop, length-append, append_assoc,
}
use jklibs.Common.Decimal.{print_nat, AllDigits, print_nat-AllDigits, print_nat-length}
use jklibs.Common.Outcome.{done}
use jklibs.Common.Text.{starts_with}
use jklibs.BusServer.Parse.{
  BcStr, crlf, ends_at, message_of, first_text, type_of, parse_parts, parse_multipart_msg,
  part_bytes, multipart_bytes, max_multipart_opt,
}
use jklibs.BusServer.Parts.{drop_at, part_in, parts_in, part_bytes-append, next_part-read}

print_nat-head : (n : ℕ) (rest : List ℕ) → starts_with crlf (print_nat n ++ rest) ≡ false
print_nat-head n rest = digit_first (print_nat n) rest (print_nat-AllDigits n) (print_nat-length n)
  where
    digit_first :
        (s rest : List ℕ) → AllDigits s → 1 ≤ length s → starts_with crlf (s ++ rest) ≡ false
    digit_first [] rest h e = absurd (omega arith)
    digit_first (c ∷ s) rest h e = ground arith

-- Where another part stands, the message does not end.
part_bytes-more : (part rest : List ℕ) → starts_with crlf (part_bytes part ++ rest) ≡ false
part_bytes-more part rest =
    ap (starts_with crlf) (part_bytes-append part rest)
    ∙ print_nat-head (length part) (13 ∷ (10 ∷ (part ++ (13 ∷ (10 ∷ rest)))))

length-multipart : (parts : List (List ℕ)) → 2 ≤ length (multipart_bytes parts)
unfolding multipart_bytes
length-multipart [] = omega arith
length-multipart (part ∷ parts) =
    omega (arith, length-append (part_bytes part) (multipart_bytes parts), length-multipart parts)

ends_at-last :
    (mem : List ℕ) (size handled : ℕ) (rest : List ℕ)
    → drop handled mem ≡ crlf ++ rest
    → handled + 2 ≤ size
    → ends_at mem size handled ≡ true
ends_at-last mem size handled rest e h =
    let room : leb 2 (size - handled) ≡ true = ground arith in rw (room, e) refl

ends_at-more :
    (mem : List ℕ) (size handled : ℕ) (part rest : List ℕ)
    → drop handled mem ≡ part_bytes part ++ rest
    → ends_at mem size handled ≡ false
ends_at-more mem size handled part rest e =
    let more = part_bytes-more part rest in rw (e, more) (ground arith)

parse_parts-bytes :
    (rounds : ℕ) (mem : List ℕ) (size handled : ℕ) (acc : List BcStr) (type : ℕ) (part : List ℕ)
    (parts : List (List ℕ)) (rest : List ℕ)
    → drop handled mem ≡ multipart_bytes (part ∷ parts) ++ rest
    → handled + length (multipart_bytes (part ∷ parts)) ≤ size
    → length (part ∷ parts) ≤ rounds
    → parse_parts rounds mem size handled acc type
      ≡ done (
          some (
            message_of
              (acc ++ parts_in (part ∷ parts) rest)
              type
              (handled + length (multipart_bytes (part ∷ parts)) - 2)))
unfolding parse_parts multipart_bytes
parse_parts-bytes zero mem size handled acc type part parts rest e h r = absurd (omega arith)
parse_parts-bytes (suc rounds) mem size handled acc type part [] rest e h r =
    let here = e ∙ append_assoc (part_bytes part) crlf rest in
    let len = length-append (part_bytes part) crlf in
    let first = next_part-read mem size handled part (crlf ++ rest) here (omega (arith, len)) in
    let next =
      drop_at handled (length (part_bytes part)) mem (part_bytes part) (crlf ++ rest) here refl in
    let last =
      ends_at-last mem size (handled + length (part_bytes part)) rest next (omega (arith, len)) in
    let total : handled + length (part_bytes part)
        ≡ handled + length (part_bytes part ++ crlf) - 2 =
      omega (arith, len) in
    rw first (
      rw last (
        ap (λ n. done (some (message_of (acc ++ (part_in part (crlf ++ rest) ∷ [])) type n)))
          total))
parse_parts-bytes (suc rounds) mem size handled acc type part (two ∷ parts) rest e h r =
    let behind = multipart_bytes (two ∷ parts) in
    let here = e ∙ append_assoc (part_bytes part) behind rest in
    let len = length-append (part_bytes part) behind in
    let small = length-multipart (two ∷ parts) in
    let first = next_part-read mem size handled part (behind ++ rest) here (omega (arith, len)) in
    let next =
      drop_at handled (length (part_bytes part)) mem (part_bytes part) (behind ++ rest) here refl in
    let more =
      ends_at-more mem size (handled + length (part_bytes part)) two (multipart_bytes parts ++ rest)
        (next ∙ append_assoc (part_bytes two) (multipart_bytes parts) rest) in
    let later =
      parse_parts-bytes rounds mem size (handled + length (part_bytes part))
        (acc ++ (part_in part (behind ++ rest) ∷ [])) type two parts rest next (omega (arith, len))
        (omega arith) in
    let total : handled + length (part_bytes part) + length behind - 2
        ≡ handled + length (part_bytes part ++ behind) - 2 =
      omega (arith, len) in
    rw first (
      rw more (
        later
        ∙ ap₂ (λ l n. done (some (message_of l type n)))
            (append_assoc acc (part_in part (behind ++ rest) ∷ []) (parts_in (two ∷ parts) rest))
            total))

-- A message of one part to twenty, with any bytes in its parts, that was sent into the received
-- bytes, with any bytes behind it, is read by one call of the parser: its parts are those sent, and
-- the number of bytes returned is the number of bytes sent.
pub parse_multipart_msg-bytes :
    (part : List ℕ) (parts : List (List ℕ)) (rest behind : List ℕ) (type : ℕ)
    → length (part ∷ parts) ≤ max_multipart_opt
    → parse_multipart_msg
        (record { bytes = multipart_bytes (part ∷ parts) ++ rest; behind = behind })
        type
      ≡ done (
          some (record {
            parts = parts_in (part ∷ parts) (rest ++ behind);
            type = type_of (part ++ (crlf ++ (multipart_bytes parts ++ (rest ++ behind)))) type;
            size = length (multipart_bytes (part ∷ parts));
          }))
unfolding parse_multipart_msg message_of first_text
parse_multipart_msg-bytes part parts rest behind type h =
    let sent = multipart_bytes (part ∷ parts) in
    let memory = (sent ++ rest) ++ behind in
    let small = length-multipart (part ∷ parts) in
    let total : 0 + length sent - 2 + 2 ≡ length sent = omega arith in
    parse_parts-bytes max_multipart_opt memory (length (sent ++ rest)) 0 [] type part parts
      (rest ++ behind) (append_assoc sent rest behind) (omega (arith, length-append sent rest)) h
    ∙ ap
        (λ n. done (
          some (record {
            parts = parts_in (part ∷ parts) (rest ++ behind);
            type = type_of (part ++ (crlf ++ (multipart_bytes parts ++ (rest ++ behind)))) type;
            size = n;
          })))
        total
