-- ===== src/BusServer/Removal.antt =====
-- What mbuf_remove of the library does to the received bytes.
use jklibs.Common.{
  ◌<◌, false, ℕ, ◌+◌, ◌-◌, ◌≤◌, ◌≡◌, refl, ◌∙◌, ap, true, List, [], ◌∷◌, ◌++◌, none, arith, ltb,
  length, drop, length-append, drop_append_n, append_assoc,
}
use jklibs.Common.Outcome.{done}
use jklibs.BusServer.Parse.{
  Mbuf, memory, part_at, part_bytes, next_part, parse_parts, parse_multipart_msg, multipart_bytes,
}
use jklibs.Common.Decimal.{length-print, print_nat, print_nat-AllDigits, atoi-print_before}
use jklibs.BusServer.Parts.{find_in_str-digits, part_bytes-append}

-- mbuf_remove takes bytes off the front of those received.
abbrev pub Removes : (ℕ → Mbuf → Mbuf) → Type 0
Removes mbuf_remove =
    (n : ℕ) (io : Mbuf) → n ≤ length (io.bytes) → (mbuf_remove n io).bytes ≡ drop n (io.bytes)

-- mbuf_remove in full: the bytes that stay move to the front, and the memory behind is as it was.
abbrev pub Moves : (ℕ → Mbuf → Mbuf) → Type 0
Moves mbuf_remove =
    (n : ℕ) (io : Mbuf)
    → n ≤ length (io.bytes)
    → mbuf_remove n io
      ≡ record { bytes = drop n (io.bytes); behind = drop (length (io.bytes) - n) (memory io) }

pub Moves-Removes : {mbuf_remove : ℕ → Mbuf → Mbuf} → Moves mbuf_remove → Removes mbuf_remove
Moves-Removes moves n io h = ap (λ i. i.bytes) (moves n io h)

-- Where no byte is left, a message in the memory behind is not taken for a new one.
pub parse-nothing :
    (part : List ℕ) (parts : List (List ℕ)) (behind : List ℕ) (type : ℕ)
    → length part < 1000
    → parse_multipart_msg
        (record { bytes = []; behind = multipart_bytes (part ∷ parts) ++ behind })
        type
      ≡ done none
unfolding parse_multipart_msg parse_parts next_part part_at multipart_bytes
parse-nothing part parts behind type small =
    let later = multipart_bytes parts ++ behind in
    let digits = print_nat (length part) in
    let text = part ++ (13 ∷ (10 ∷ later)) in
    let whole =
      append_assoc (part_bytes part) (multipart_bytes parts) behind
      ∙ part_bytes-append part later in
    let short : ltb (0 - 0 + 0) (length digits + 4 + length part + 0) ≡ true = ground arith in
    let no_overflow : ltb (2147483647 + 0) (length digits + 4 + length part + 0) ≡ false =
      let few = length-print 2 (length part) small in ground (arith, few) in
    rw
      (
        whole,
        find_in_str-digits digits text (print_nat-AllDigits (length part)),
        atoi-print_before (length part) 13 (10 ∷ text) refl,
        short,
        no_overflow,
      )
      refl

-- What stands behind the bytes that are removed.
pub removed :
    (mbuf_remove : ℕ → Mbuf → Mbuf)
    → Removes mbuf_remove
    → (bytes behind : List ℕ) (io : Mbuf) → io.bytes ≡ bytes ++ behind
    → (mbuf_remove (length bytes) io).bytes ≡ behind
removed mbuf_remove removes bytes behind io front =
    let room : length bytes ≤ length (io.bytes) =
      omega (arith, ap length front, length-append bytes behind) in
    removes (length bytes) io room
    ∙ (ap (drop (length bytes)) front ∙ drop_append_n (length bytes) bytes behind refl)
