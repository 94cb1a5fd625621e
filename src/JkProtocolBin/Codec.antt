-- ===== src/JkProtocolBin/Codec.antt =====
-- Generating and parsing messages: jk_protocol_bin_generate_data and jk_protocol_bin_parse_data.
use jklibs.Common.{
  ℕ, suc, ◌+◌, ◌-◌, ◌^◌, Bool, List, [], ◌∷◌, ◌++◌, Option, none, some, ltb, leb, ◌==◌,
  if◌then◌else◌, length, take, drop, replicate,
}
use jklibs.Common.Int.{ℤ, pos, negsuc, ltb_ℤ, suc_ℤ}
use jklibs.Common.Decimal.{print_int, print_int2}
use jklibs.Common.Outcome.{Outcome, done, err, fault, ◌>>=◌}
use jklibs.Common.Text.{codes, same_text, until_nul}
use jklibs.JkProtocolBin.State.{Header, JkProtocolBin, check_valid}
use jklibs.JkProtocolBin.Text.{◌-then-◌, header_text, parse_header}

-- jkpbin_key
abbrev jkpbin_key : List ℕ
jkpbin_key = codes "ab3w-be82f231-aa-cd1b"

-- What the MD5 is taken of.
unfoldable pub sign_text : Header → List ℕ
sign_text h =
    print_int2 h.version
    -then- h.id
    -then- print_int h.cmd
    -then- print_int h.subcmd
    -then- print_int h.transaction
    -then- print_int h.sequence
    -then- jkpbin_key
    -then- print_int h.length

-- The bytes `at` on are overwritten.
unfoldable pub put : List ℕ → ℕ → List ℕ → List ℕ
put memory at bytes = take at memory ++ (bytes ++ drop (at + length bytes) memory)

-- memcpy(save + headerLen, body.data, length), of a length that is not negative.
unfoldable pub put_body : List ℕ → ℕ → Option (List ℕ) → ℕ → Outcome (List ℕ)
put_body memory at none n = if n == 0 then done memory else fault
put_body memory at (some bytes) n =
    if ltb (length bytes) n then fault else done (put memory at (take n bytes))

abbrev pub put_text : JkProtocolBin → ℤ → ℤ → Outcome (List ℕ)
put_text pbin (pos m) (pos n) =
    put_body (put (replicate (m + n) 0) 0 (header_text pbin.header ++ (0 ∷ []))) m pbin.body_data n
put_text pbin _ _ = fault

-- jk_protocol_bin_save_text, into a buffer that is large enough: the bytes of `save`. A negative
-- length is a huge size.
unfoldable pub save_text : JkProtocolBin → Outcome (List ℕ)
save_text pbin = put_text pbin pbin.header.header_len pbin.header.length

-- What is allocated for a body, and how it is filled from the bytes behind the header.
unfoldable pub take_body : (ℕ → Bool) → ℤ → ℤ → List ℕ → Outcome (List ℕ)
take_body grants (pos m) (pos n) bytes =
    if grants (suc n)
    then (if ltb (length (drop m bytes)) n then fault else done (take n (drop m bytes) ++ (0 ∷ [])))
    else err 4
take_body grants m (negsuc n) bytes = if grants (2 ^ 64 - n) then fault else err 4
take_body grants (negsuc m) n bytes = fault

-- The number that the next message gets: `1<< 16-1` is 1 << 15.
abbrev pub next_sequence : ℤ → ℤ
next_sequence curseq = if ltb_ℤ (pos (2 ^ 15)) curseq then pos 0 else curseq

-- The header that is sent at time `now`, without its sign.
abbrev pub stamped : ℤ → JkProtocolBin → Header
stamped now pbin =
    let h = pbin.header in record h { transaction = now; sequence = next_sequence pbin.curseq }

-- The body pointer is what was allocated and filled, or NULL.
abbrev pub filled : JkProtocolBin → Outcome (List ℕ) → JkProtocolBin × Outcome (Unit {0})
filled p (done body) = (record p { body_data = some body }, done tt)
filled p (err n) = (p, err n)
filled p fault = (p, fault)

-- What jk_protocol_bin_parse_data_text does with the header that it has read.
abbrev pub receive :
    (ℕ → Bool) → List ℕ → JkProtocolBin → Outcome Header → JkProtocolBin × Outcome (Unit {0})
receive grants bytes pbin (done h) =
    let pbin' = record pbin { header = h; body_length = h.length; body_data = none } in
    if ltb_ℤ (pos (2 ^ 15)) h.length
    then (record pbin { header = h }, err 3)
    else filled pbin' (take_body grants h.header_len h.length bytes)
receive grants bytes pbin (err n) = (pbin, err n)
receive grants bytes pbin fault = (pbin, fault)

unfoldable pub parse_data_text :
    (ℕ → Bool) → JkProtocolBin → List ℕ → ℤ → JkProtocolBin × Outcome (Unit {0})
parse_data_text grants pbin bytes len =
    if ltb_ℤ len pbin.header.header_len
    then (pbin, err 3)
    else receive grants bytes pbin (parse_header pbin.header (until_nul bytes))

-- The stamped header `h` with its sign, or without one, and what is saved.
abbrev pub signed : Header → ℤ → JkProtocolBin → Outcome (List ℕ) → JkProtocolBin × Outcome (List ℕ)
signed h curseq pbin (done sign) =
    let h' = record h { sign = take 33 sign } in
    let pbin' = record pbin { header = h'; curseq = curseq } in
    (pbin', if ltb_ℤ (check_valid h') (pos 0) then err 2 else save_text pbin')
signed h curseq pbin (err n) = (record pbin { header = h; curseq = curseq }, err n)
signed h curseq pbin fault = (record pbin { header = h; curseq = curseq }, fault)

module _ (md5_text : List ℕ → List ℕ) where
  -- jk_protocol_bin_generate_sign: the version is printed into four bytes.
  unfoldable pub generate_sign : Header → Outcome (List ℕ)
  generate_sign h =
      if leb 4 (length (print_int2 h.version)) then fault else done (md5_text (sign_text h))

  -- jk_protocol_bin_check_header_valid
  unfoldable pub check_header_valid : Header → Outcome ℤ
  check_header_valid h = do
    sign ← generate_sign h
    done (if same_text sign h.sign then pos 1 else pos 0)

  -- jk_protocol_bin_generate_data; the bytes are those of `save`, the code -2 is for fields that
  -- are not valid. The object keeps what was set in either case.
  unfoldable pub generate_data : ℤ → JkProtocolBin → JkProtocolBin × Outcome (List ℕ)
  generate_data now pbin =
      signed (stamped now pbin) (suc_ℤ (next_sequence pbin.curseq)) pbin
        (generate_sign (stamped now pbin))

  -- The checks after parsing: only a negative value of the sign check is an error.
  unfoldable pub check_parsed : Header → Outcome (Unit {0})
  check_parsed h =
      if ltb_ℤ (check_valid h) (pos 0)
      then err 3
      else check_header_valid h >>= λ v. if ltb_ℤ v (pos 0) then err 5 else done tt

  -- A failure of the parser is -4.
  abbrev pub parsed : JkProtocolBin → Outcome (Unit {0}) → Outcome (Unit {0})
  parsed pbin (done _) = check_parsed pbin.header
  parsed pbin (err n) = err 4
  parsed pbin fault = fault

  -- jk_protocol_bin_parse_data
  unfoldable pub parse_data :
      (ℕ → Bool) → JkProtocolBin → List ℕ → ℤ → JkProtocolBin × Outcome (Unit {0})
  parse_data grants pbin bytes len =
      if ltb_ℤ len pbin.header.header_len
      then (pbin, err 1)
      else let (pbin', r) = parse_data_text grants pbin bytes len in (pbin', parsed pbin' r)
