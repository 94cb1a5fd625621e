-- ===== src/CmHttpDownload/Receive.antt =====
-- read_data, recv_chunked_response and recv_response of common/cm_http_download.c.
use jklibs.Common.{
  ℕ, zero, suc, ◌+◌, ◌-◌, ◌*◌, ◌%◌, Bool, ◌&&◌, ◌||◌, List, [], ◌∷◌, ◌++◌, Option, none, some, leb,
  ltb, ◌==◌, if◌then◌else◌, length, take, drop, min,
}
use jklibs.Common.Int.{ℤ, pos, negsuc}
use jklibs.Common.Decimal.{negate}
use jklibs.Common.Outcome.{Outcome, done, err, fault, ◌>>=◌}
use jklibs.CmHttpDownload.{Http, recv_buf}
use jklibs.CmHttpDownload.Header.{read_line, text_in}

-- save_data; `opens` tells whether the file can be opened.
abbrev pub save_to : Bool → Http → List ℕ → Option (List ℕ) → Outcome Http
save_to opens info bytes (some old) = done (record info { saved = some (old ++ bytes) })
save_to opens info bytes none = if opens then done (record info { saved = some bytes }) else err 1

unfoldable pub save_data : Bool → Http → List ℕ → Outcome Http
save_data opens info bytes = save_to opens info bytes info.saved

-- A full read of `n` bytes into the buffer.
abbrev pub read_full : Http → ℕ → Http
read_full info n = record info {
  buffer = take n info.input ++ drop n info.buffer;
  input = drop n info.input;
}

-- read_data of `total` bytes, in at most `fuel` rounds. A read that falls short is not saved.
unfoldable pub read_rounds : ℕ → Bool → Http → ℕ → Outcome Http
read_rounds fuel opens info zero = done info
read_rounds zero opens info (suc total) = fault
read_rounds (suc fuel) opens info (suc total) =
    let n = min (suc total) recv_buf in
    let full = read_full info n in
    let round = save_data opens full (take n info.input) >>= λ info.
    read_rounds fuel opens (record info { recv_data_len = info.recv_data_len + n })
      (suc total - n) in
    if ltb (length info.input) n then err 1 else round

-- read_data; a length below 0 is a huge one for fread.
unfoldable pub read_data : Bool → Http → ℤ → Outcome Http
read_data opens info (pos n) = read_rounds n opens info n
read_data opens info (negsuc n) = fault

abbrev pub hex_value : ℕ → Option ℕ
hex_value c =
    if leb b'0' c && leb c b'9'
    then some (c - b'0')
    else if leb b'a' c && leb c b'f'
    then some (c - b'a' + 10)
    else if leb b'A' c && leb c b'F'
    then some (c - b'A' + 10)
    else none

unfoldable pub hex_digits : ℕ → List ℕ → ℕ
hex_digits acc [] = acc
hex_digits acc (c ∷ s) = elim (hex_value c) [ none ↦ acc | some v ↦ hex_digits (acc * 16 + v) s ]

-- The digits behind the prefix 0x or 0X, if there is one.
abbrev pub after_0x : List ℕ → List ℕ
after_0x (zero_digit ∷ (x ∷ s)) =
    if (zero_digit == b'0') && ((x == b'x') || (x == b'X')) then s else zero_digit ∷ (x ∷ s)
after_0x s = s

-- A value out of the range of long is its bound.
abbrev pub long_max : ℕ
long_max = 9223372036854775807

abbrev pub positive_long : ℕ → ℤ
positive_long n = pos (min n long_max)

abbrev pub negative_long : ℕ → ℤ
negative_long n = negate (min n (suc long_max))

-- strtol(text, NULL, 16): spaces, a sign, the prefix, digits.
unfoldable pub strtol16 : List ℕ → ℤ
strtol16 [] = pos 0
strtol16 (c ∷ s) =
    let skipped = strtol16 s in
    if (c == 32) || (leb 9 c && leb c 13)
    then skipped
    else if c == b'-'
    then negative_long (hex_digits 0 (after_0x s))
    else if c == b'+'
    then positive_long (hex_digits 0 (after_0x s))
    else positive_long (hex_digits 0 (after_0x (c ∷ s)))

-- A number modulo 2^32 as an int
abbrev pub low_int : ℕ → ℤ
low_int n = if ltb n 2147483648 then pos n else negsuc (4294967295 - n)

-- The int that a long becomes as an argument
abbrev pub long_int : ℤ → ℤ
long_int (pos n) = low_int (n % 4294967296)
long_int (negsuc n) = low_int (4294967295 - n % 4294967296)

-- The two bytes behind a part.
abbrev pub read_two : Http → Outcome Http
read_two info = if ltb (length info.input) 2 then err 1 else done (read_full info 2)

-- The loop of recv_chunked_response; every round takes two bytes at least of the input.
unfoldable pub recv_parts : ℕ → Bool → Http → Outcome Http
recv_parts zero opens info = fault
recv_parts (suc n) opens info =
    let info = (read_line info).0 in
    let part_len = strtol16 (text_in info) in
    read_data opens info (long_int part_len) >>= read_two >>= λ info. elim part_len [
      | pos m ↦ (let rest = recv_parts n opens info in if m == 0 then done info else rest)
      | negsuc m ↦ recv_parts n opens info
    ]

unfoldable pub recv_chunked_response : Bool → Http → Outcome Http
recv_chunked_response opens info = recv_parts (suc (length info.input)) opens info

unfoldable pub recv_response : Bool → Http → Outcome Http
recv_response opens info =
    if info.chunked_flag then recv_chunked_response opens info else read_data opens info info.len
