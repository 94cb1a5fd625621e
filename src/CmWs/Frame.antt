-- ===== src/CmWs/Frame.antt =====
-- cm_http.c: the head of a frame, and the mask of its payload.
use Prim.Native.Nat.{bit_xor}
use jklibs.Common.{
  ℕ, zero, suc, ◌+◌, ◌-◌, ◌*◌, ◌/◌, ◌%◌, Bool, List, [], ◌∷◌, ◌++◌, none, some, ltb, leb, ◌==◌,
  if◌then◌else◌, length, take, drop, set, get_elem?,
}
use jklibs.Common.Outcome.{Outcome, done, fault}

-- CMWSFrameHeader, without the pointer to the payload, which stands behind the head.
pub record FrameHeader : Type 0 where
  pub fin : Bool
  pub opcode : ℕ
  pub mask : Bool
  pub payload_length : ℕ
  pub masking_key : List ℕ

abbrev pub byte_at : List ℕ → ℕ → ℕ
byte_at bytes i = elim (get_elem? bytes i) [ none ↦ 0 | some b ↦ b ]

-- The loop of cm_ws_invert_string, with `rounds` to go.
unfoldable pub invert_from : ℕ → ℕ → ℕ → List ℕ → List ℕ
invert_from zero i len str = str
invert_from (suc rounds) i len str =
    invert_from rounds (suc i) len
      (set (set str i (byte_at str (len - i - 1))) (len - i - 1) (byte_at str i))

unfoldable pub invert_string : List ℕ → ℕ → List ℕ
invert_string str len = invert_from (len / 2) 0 len str

-- The bytes of a number in memory, the lowest first.
unfoldable pub number_bytes : ℕ → ℕ → List ℕ
number_bytes zero n = []
number_bytes (suc k) n = n % 256 ∷ number_bytes k (n / 256)

unfoldable pub bytes_number : List ℕ → ℕ
bytes_number [] = 0
bytes_number (b ∷ bytes) = b + 256 * bytes_number bytes

unfoldable pub umask_from : ℕ → List ℕ → List ℕ → List ℕ
umask_from i [] key = []
umask_from i (b ∷ data_) key = bit_xor b (byte_at key (i % 4)) ∷ umask_from (suc i) data_ key

-- cm_ws_umask and cm_ws_umask_string
unfoldable pub umask : List ℕ → List ℕ → List ℕ
umask data_ key = umask_from 0 data_ key

-- The head without the mask; `fresh` is what malloc gives behind the bytes that are written.
unfoldable pub plain_head : ℕ → List ℕ → List ℕ
plain_head len fresh =
    if ltb len 126
    then 129 ∷ (len ∷ [])
    else if ltb len 65535
    then 129 ∷ (126 ∷ (len / 256 % 256 ∷ (len % 256 ∷ [])))
    else 129 ∷ (127 ∷ (invert_string (number_bytes 8 len) 8 ++ take 2 fresh))

-- response_head[1] |= 0x80, where the bit is not set
abbrev pub masked_head : List ℕ → List ℕ → List ℕ
masked_head head key = set head 1 (byte_at head 1 + 128) ++ take 4 key

unfoldable pub generate_frame_head : FrameHeader → List ℕ → List ℕ
generate_frame_head header fresh =
    let head = plain_head (header.payload_length) fresh in
    if header.mask then masked_head head (header.masking_key) else head

-- cm_ws_parse_frame_header of the memory from `data` on, which is not asked for its length; the mask
-- is taken from the byte 11 on.
unfoldable pub parse_frame_header : List ℕ → Outcome (FrameHeader × ℕ)
parse_frame_header data_ =
    let short = byte_at data_ 1 % 128 in
    let mask = leb 128 (byte_at data_ 1) in
    let size = if short == 126 then 4 else if short == 127 then 10 else 2 in
    let need = if mask then 15 else if short == 127 then 12 else size in
    let value =
      if short == 126
      then byte_at data_ 2 * 256 + byte_at data_ 3
      else if short == 127
      then bytes_number (invert_string (take 8 (drop 4 data_)) 8)
      else short in
    let header : FrameHeader = record {
      fin = leb 128 (byte_at data_ 0);
      opcode = byte_at data_ 0 % 16;
      mask = mask;
      payload_length = value;
      masking_key = if mask then take 4 (drop 11 data_) else 0 ∷ (0 ∷ (0 ∷ (0 ∷ [])));
    } in
    if ltb (length data_) need then fault else done (header, if mask then size + 4 else size)
