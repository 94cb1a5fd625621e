-- ===== src/JkProtocolBin/Text.antt =====
-- The header as text: version-id-direction-cmd-subcmd-transaction-sequence-sign-length-ret-retcode.
use jklibs.Common.{ℕ, List, ◌∷◌, ◌++◌, none, some, leb, if◌then◌else◌, length, drop}
use jklibs.Common.Int.{ℤ}
use jklibs.Common.Decimal.{print_int, print_int2, atoi, split_at}
use jklibs.Common.Outcome.{Outcome, done, fault, ◌>>=◌}
use jklibs.JkProtocolBin.State.{Header}

abbrev pub dash : ℕ
dash = b'-'

-- A field with the dash behind it.
infixr 66 ◌-then-◌
abbrev pub ◌-then-◌ : List ℕ → List ℕ → List ℕ
s -then- rest = s ++ (dash ∷ rest)

-- The `sprintf` of jk_protocol_bin_save_text.
unfoldable pub header_text : Header → List ℕ
header_text h =
    print_int2 h.version
    -then- h.id
    -then- print_int h.direction
    -then- print_int h.cmd
    -then- print_int h.subcmd
    -then- print_int h.transaction
    -then- print_int h.sequence
    -then- h.sign
    -then- print_int h.length
    -then- print_int h.ret
    -then- print_int h.ret_code

-- strstr(pn, "-"). Without a dash the pointer becomes NULL + 1, through which the next `strstr`
-- reads.
unfoldable pub field : List ℕ → Outcome (List ℕ × List ℕ)
field s = elim (split_at dash s) [ none ↦ fault | some r ↦ done r ]

-- A field that is copied into a zeroed array of `n` bytes and used as a text: `n` bytes or more
-- overrun it, or leave no NUL.
unfoldable pub text_field : ℕ → List ℕ → Outcome (List ℕ × List ℕ)
text_field n s = field s >>= λ r. if leb n (length (r.0)) then fault else done r

unfoldable pub number : List ℕ → Outcome (ℤ × List ℕ)
number s = text_field 16 s >>= λ r. done (atoi (r.0), r.1)

-- The last field is read only if a dash follows it.
unfoldable pub last_number : ℤ → List ℕ → Outcome ℤ
last_number old s = elim (split_at dash s) [
  | none ↦ done old
  | some r ↦ if leb 16 (length (r.0)) then fault else done (atoi (r.0))
]

-- The fields of jk_protocol_bin_parse_data_text, put into the header `h`. The array of the sign is
-- not cleared, so the rest of a longer old sign stays behind the new one.
unfoldable pub parse_header : Header → List ℕ → Outcome Header
parse_header h s = do
  version ← number s
  id ← text_field 16 (version.1)
  direction ← number (id.1)
  cmd ← number (direction.1)
  subcmd ← number (cmd.1)
  transaction ← number (subcmd.1)
  sequence ← number (transaction.1)
  sign ← text_field 34 (sequence.1)
  len ← number (sign.1)
  ret ← number (len.1)
  code ← last_number h.ret_code (ret.1)
  done (record {
    version = version.0;
    direction = direction.0;
    cmd = cmd.0;
    subcmd = subcmd.0;
    id = id.0;
    transaction = transaction.0;
    sequence = sequence.0;
    length = len.0;
    sign = (sign.0) ++ drop (length (sign.0)) h.sign;
    header_len = h.header_len;
    ret = ret.0;
    ret_code = code;
  })
