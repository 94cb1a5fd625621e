-- ===== src/JkProtocol.antt =====
-- jkprotocol/jkprotocol.c: signed messages of fields between line ends. MD5 with its printing as
-- text, the clock and the allocator are parameters; pointers are taken not to be NULL. A text that
-- fills its array has no NUL behind it, and is used as one: the outcome `fault`.
pub mod Fields
pub mod RoundTrip
mod Tests
use jklibs.Common.{
  ℕ, zero, suc, ◌+◌, ◌-◌, ◌^◌, Bool, true, false, ◌&&◌, List, [], ◌∷◌, ◌++◌, Option, none, some,
  ltb, leb, ◌==◌, if◌then◌else◌, length, take,
}
use jklibs.Common.Int.{ℤ, pos, negsuc, eqb_ℤ, minus, to_size}
use jklibs.Common.Decimal.{print_int, atoi}
use jklibs.Common.Outcome.{Outcome, done, err, fault, ◌>>=◌}
use jklibs.Common.Text.{codes, same_text}

-- JKProtocolHead
pub record Head : Type 0 where
  pub version : List ℕ
  pub id : List ℕ
  pub cmd : ℤ
  pub sub_cmd : ℤ
  pub tm : ℤ
  pub sign : List ℕ

-- struct tagJKProtocol with JKProtocolBody; the pointer to the data, or NULL.
pub record JkProtocol : Type 0 where
  pub head : Head
  pub filename : List ℕ
  pub body_data : Option (List ℕ)

abbrev pub key : List ℕ
key = codes "ab3w-be82f231-aa-cd1b"

abbrev pub protocol_version : List ℕ
protocol_version = codes "0.0.1"

-- seperate
abbrev pub seperate : List ℕ
seperate = 13 ∷ (10 ∷ [])

-- A field with the separator behind it.
infixr 66 ◌-line-◌
abbrev pub ◌-line-◌ : List ℕ → List ℕ → List ℕ
s -line- rest = s ++ (13 ∷ (10 ∷ rest))

abbrev pub no_head : Head
no_head = record { version = []; id = []; cmd = pos 0; sub_cmd = pos 0; tm = pos 0; sign = [] }

-- jk_protocol_init, of an identifier that fits its 16 bytes.
unfoldable pub protocol_init : List ℕ → Outcome JkProtocol
protocol_init id =
    if leb 16 (length id)
    then fault
    else done (record {
      head = record no_head { id = id; version = protocol_version };
      filename = [];
      body_data = none;
    })

-- The text that jk_protocol_generate_sign hands to MD5.
abbrev pub sign_source : Head → List ℕ
sign_source h =
    h.version
    -line- h.id
    -line- print_int h.cmd
    -line- print_int h.sub_cmd
    -line- print_int h.tm
    -line- key

-- strstr(p, seperate): the text before, and the text behind.
abbrev pub cons_before : ℕ → Option (List ℕ × List ℕ) → Option (List ℕ × List ℕ)
cons_before c none = none
cons_before c (some r) = some (c ∷ (r.0), r.1)

unfoldable pub split_line : List ℕ → Option (List ℕ × List ℕ)
split_line [] = none
split_line (c ∷ []) = none
split_line (c ∷ (d ∷ s)) =
    let later = cons_before c (split_line (d ∷ s)) in
    if (c == 13) && (d == 10) then some ([], s) else later

-- What is read of a text: the field, the rest of the text, and by how much `headlen` grows.
pub record Read : Type 0 where
  pub text : List ℕ
  pub rest : List ℕ
  pub step : ℕ

-- A field that is copied into a zeroed array of `n` bytes. Without a separator nothing is read.
abbrev pub fill : ℕ → List ℕ → Option (List ℕ × List ℕ) → Outcome Read
fill n p none = done (record { text = []; rest = p; step = 0 })
fill n p (some r) =
    if leb n (length (r.0))
    then fault
    else done (record { text = r.0; rest = r.1; step = length (r.0) + 2 })

unfoldable pub read_field : ℕ → List ℕ → Outcome Read
read_field n p = fill n p (split_line p)

-- The six fields: the head with the sign that was sent, the rest, and `headlen`.
unfoldable pub read_head : List ℕ → Outcome (Head × List ℕ × ℕ)
read_head bytes = do
  version ← read_field 8 bytes
  id ← read_field 16 version.rest
  cmd ← read_field 4 id.rest
  sub_cmd ← read_field 4 cmd.rest
  tm ← read_field 16 sub_cmd.rest
  sign ← read_field 40 tm.rest
  done (
    record {
      version = version.text;
      id = id.text;
      cmd = atoi cmd.text;
      sub_cmd = atoi sub_cmd.text;
      tm = atoi tm.text;
      sign = sign.text;
    },
    sign.rest,
    version.step + id.step + cmd.step + sub_cmd.step + tm.step + sign.step,
  )

-- The text of a message: the fields, for a file its name too, and the data.
unfoldable pub generate_string : JkProtocol → List ℕ → List ℕ
generate_string pro bytes =
    let h = pro.head in
    let rest = if eqb_ℤ h.sub_cmd (pos 1) then pro.filename -line- bytes else bytes in
    h.version
    -line- h.id
    -line- print_int h.cmd
    -line- print_int h.sub_cmd
    -line- print_int h.tm
    -line- h.sign
    -line- rest

-- Where the data of a file begins with a line that is its name, the name is taken off.
unfoldable pub take_filename : JkProtocol → List ℕ → Outcome JkProtocol
take_filename pro p =
    if eqb_ℤ pro.head.sub_cmd (pos 1)
    then elim (split_line p) [
      | none ↦ done pro
      | some r ↦
          if leb 256 (length (r.0))
          then fault
          else done (record pro { filename = r.0; body_data = some (r.1) })
    ]
    else done pro

-- The data at the end of jk_protocol_parse: `datalen` bytes are asked for, and the whole rest is
-- printed into them. If there is no memory, a file's data is read through NULL.
unfoldable pub take_data : (ℕ → Bool) → ℤ → Head → List ℕ → Outcome JkProtocol
take_data grants datalen head p =
    let pro : JkProtocol = record { head = head; filename = []; body_data = none } in
    if grants (to_size datalen)
    then if leb (to_size datalen) (length p)
      then fault
      else take_filename (record pro { body_data = some p }) p
    else if eqb_ℤ head.sub_cmd (pos 1)
    then fault
    else done pro

-- The getters
abbrev pub protocol_cmd : JkProtocol → ℤ
protocol_cmd pro = pro.head.cmd

abbrev pub protocol_subcmd : JkProtocol → ℤ
protocol_subcmd pro = pro.head.sub_cmd

abbrev pub protocol_data : JkProtocol → Option (List ℕ)
protocol_data pro = pro.body_data

-- jk_protocol_data_free
unfoldable pub data_free : JkProtocol → JkProtocol
data_free pro = record pro { body_data = none }

module _ (md5_text : List ℕ → List ℕ) where
  -- The sign that jk_protocol_generate_sign puts into the cleared array.
  abbrev pub with_sign : Head → Head
  with_sign h = record h { sign = md5_text (sign_source h) }

  unfoldable pub generate_register : ℤ → JkProtocol → JkProtocol
  generate_register now pro =
      let h : Head = record pro.head { cmd = pos 1; tm = now } in record pro { head = with_sign h }

  -- jk_protocol_generate_notify_savefile and jk_protocol_generate_control_savefile.
  abbrev pub with_file : ℤ → ℤ → JkProtocol → List ℕ → JkProtocol
  with_file cmd now pro filename =
      let h : Head = record pro.head { cmd = cmd; sub_cmd = pos 1; tm = now } in
      record pro { head = with_sign h; filename = take 255 filename }

  unfoldable pub generate_notify_savefile : ℤ → JkProtocol → List ℕ → JkProtocol
  generate_notify_savefile now pro filename = with_file (pos 2) now pro filename

  unfoldable pub generate_control_savefile : ℤ → JkProtocol → List ℕ → JkProtocol
  generate_control_savefile now pro filename = with_file (pos 4) now pro filename

  -- What jk_protocol_parse does with the fields: a wrong sign is -2.
  unfoldable pub check_sign : (ℕ → Bool) → ℤ → Head × List ℕ × ℕ → Outcome JkProtocol
  check_sign grants len (head, rest, headlen) =
      if same_text head.sign (md5_text (sign_source head))
      then take_data grants (minus len (headlen + 2)) (with_sign head) rest
      else err 2

  -- jk_protocol_parse, of `data` with the length `len` that the caller gives.
  unfoldable pub protocol_parse : (ℕ → Bool) → List ℕ → ℤ → Outcome JkProtocol
  protocol_parse grants bytes len = read_head bytes >>= check_sign grants len
