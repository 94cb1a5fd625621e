-- ===== src/JkProtocolBin/State.antt =====
-- The protocol object, its setters and getters, and the check of its fields.
use jklibs.Common.{ℕ, ◌^◌, ◌&&◌, ◌||◌, not, List, [], Option, none, some, if◌then◌else◌, take}
use jklibs.Common.Int.{ℤ, pos, negsuc, ltb_ℤ, eqb_ℤ}

-- Header
pub record Header : Type 0 where
  pub version : ℤ
  pub direction : ℤ
  pub cmd : ℤ
  pub subcmd : ℤ
  pub id : List ℕ
  pub transaction : ℤ
  pub sequence : ℤ
  pub length : ℤ
  pub sign : List ℕ
  pub header_len : ℤ
  pub ret : ℤ
  pub ret_code : ℤ

-- struct tagJKProtocolBin, with the fields of Body.
pub record JkProtocolBin : Type 0 where
  pub header : Header
  pub body_length : ℤ
  pub body_data : Option (List ℕ)
  pub curseq : ℤ

-- valid_header_len
abbrev pub valid_header_len : ℕ
valid_header_len = 120

-- jk_protocol_bin_init, where `bvpu_mem_calloc` succeeds.
unfoldable pub init : JkProtocolBin
init = record {
  header = record {
    version = pos 1;
    direction = pos 0;
    cmd = pos 0;
    subcmd = pos 0;
    id = [];
    transaction = pos 0;
    sequence = pos 0;
    length = pos 0;
    sign = [];
    header_len = pos valid_header_len;
    ret = pos 0;
    ret_code = pos 0;
  };
  body_length = pos 0;
  body_data = none;
  curseq = pos 1;
}

-- jk_protocol_bin_set_args: `snprintf` keeps 15 bytes of the id.
unfoldable pub set_args : JkProtocolBin → ℤ → ℤ → List ℕ → JkProtocolBin
set_args pbin cmd subcmd id =
    let h = pbin.header in
    record pbin { header = record h { cmd = cmd; subcmd = subcmd; id = take 15 id } }

-- jk_protocol_bin_set_data: a NULL leaves the pointer alone.
unfoldable pub set_data : JkProtocolBin → ℤ → Option (List ℕ) → JkProtocolBin
set_data pbin len text =
    let h = pbin.header in
    record pbin {
      header = record h { length = len };
      body_length = len;
      body_data = elim text [ none ↦ pbin.body_data | some bytes ↦ some bytes ];
    }

-- jk_protocol_bin_set_response. `1<<7 -1` is 1 << 6.
unfoldable pub set_response : JkProtocolBin → ℤ → ℤ → JkProtocolBin × ℤ
set_response pbin ret retcode =
    let h = pbin.header in
    if ltb_ℤ (pos (2 ^ 6)) retcode
    then (pbin, negsuc 0)
    else if ltb_ℤ retcode (pos 0)
    then (pbin, negsuc 1)
    else (
      record pbin {
        header = record h {
          ret = if eqb_ℤ ret (pos 0) then pos 0 else pos 1;
          ret_code = retcode;
          direction = pos 1;
        };
      },
      pos 0,
    )

-- jk_protocol_bin_check_valid, in the order of the code; 1 is valid. In C `-` binds tighter than
-- `<<`, so that `1<<4-1` is 1 << 3.
unfoldable pub check_valid : Header → ℤ
check_valid h =
    if ltb_ℤ (pos (2 ^ 3)) h.version
    then negsuc 6
    else if ltb_ℤ (pos (2 ^ 3)) h.cmd
    then negsuc 1
    else if ltb_ℤ (pos (2 ^ 11)) h.subcmd
    then negsuc 2
    else if not (eqb_ℤ h.direction (pos 0)) && not (eqb_ℤ h.direction (pos 1))
    then negsuc 3
    else if ltb_ℤ (pos (2 ^ 15)) h.length
    then negsuc 4
    else if ltb_ℤ (pos (2 ^ 15)) h.sequence
    then negsuc 5
    else if not (eqb_ℤ h.header_len (pos valid_header_len))
    then negsuc 6
    else if not (eqb_ℤ h.ret (pos 1)) && not (eqb_ℤ h.ret (pos 0))
    then negsuc 7
    else if ltb_ℤ h.ret_code (pos 0) || ltb_ℤ (pos (2 ^ 6)) h.ret_code
    then negsuc 8
    else pos 1

-- jk_protocol_bin_parse_data_free
unfoldable pub parse_data_free : JkProtocolBin → JkProtocolBin
parse_data_free pbin = record pbin { body_data = none; body_length = pos 0 }

-- The getters, for a pointer that is not NULL.
abbrev pub get_curseq : JkProtocolBin → ℤ
get_curseq pbin = pbin.curseq

abbrev pub get_data_length : JkProtocolBin → ℤ
get_data_length pbin = pbin.header.length

abbrev pub get_version : JkProtocolBin → ℤ
get_version pbin = pbin.header.version

abbrev pub get_id : JkProtocolBin → List ℕ
get_id pbin = pbin.header.id

abbrev pub get_cmd : JkProtocolBin → ℤ
get_cmd pbin = pbin.header.cmd

abbrev pub get_subcmd : JkProtocolBin → ℤ
get_subcmd pbin = pbin.header.subcmd

abbrev pub get_sequence : JkProtocolBin → ℤ
get_sequence pbin = pbin.header.sequence

abbrev pub get_direction : JkProtocolBin → ℤ
get_direction pbin = pbin.header.direction

abbrev pub get_ret : JkProtocolBin → ℤ
get_ret pbin = pbin.header.ret

abbrev pub get_retcode : JkProtocolBin → ℤ
get_retcode pbin = pbin.header.ret_code

abbrev pub get_data : JkProtocolBin → Option (List ℕ)
get_data pbin = pbin.body_data
