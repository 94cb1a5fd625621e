-- ===== src/JkBytes.antt =====
-- common/jkbytes.c: hexadecimal digits to bytes, and texts with `\xhh` escapes.
pub mod Escapes
mod Tests
use Prim.Native.Nat.{bit_or}
use jklibs.Common.{
  ℕ, ◌+◌, ◌-◌, ◌*◌, ◌%◌, ◌^◌, Bool, ◌&&◌, List, [], ◌∷◌, ltb, leb, ◌==◌, if◌then◌else◌,
}
use jklibs.Common.Outcome.{Outcome, done, fault, ◌>>=◌}

-- toupper, in the locale of C
abbrev pub to_upper : ℕ → ℕ
to_upper c = if leb b'a' c && leb c b'z' then c - 32 else c

-- `highByte` and `lowByte`: unsigned characters, so that a subtraction wraps around.
unfoldable pub digit_byte : ℕ → ℕ
digit_byte c =
    let u = to_upper c in if ltb 0x39 u then (u + 256 - 0x37) % 256 else (u + 256 - 0x30) % 256

-- (highByte << 4) | lowByte, in an unsigned character.
unfoldable pub byte_of : ℕ → ℕ → ℕ
byte_of a b = bit_or (digit_byte a * 16) (digit_byte b) % 256

-- HexStrToByte, of a text with an even number of bytes.
unfoldable pub hex_str_to_byte : List ℕ → List ℕ
hex_str_to_byte [] = []
hex_str_to_byte (a ∷ []) = []
hex_str_to_byte (a ∷ (b ∷ s)) = byte_of a b ∷ hex_str_to_byte s

abbrev pub put_front : ℕ → Outcome (List ℕ) → Outcome (List ℕ)
put_front c r = r >>= λ s. done (c ∷ s)

-- !strncmp(&src[j], "\\x", 2)
abbrev pub is_escape : ℕ → ℕ → Bool
is_escape c d = (c == 92) && (d == b'x')

-- string_reerect. An escape with fewer than two bytes behind it is read past the end of the text.
unfoldable pub string_reerect : List ℕ → Outcome (List ℕ)
string_reerect [] = done []
string_reerect (c ∷ []) = done (c ∷ [])
string_reerect (c ∷ (d ∷ [])) =
    let plain = put_front c (string_reerect (d ∷ [])) in if is_escape c d then fault else plain
string_reerect (c ∷ (d ∷ (a ∷ []))) =
    let plain = put_front c (string_reerect (d ∷ (a ∷ []))) in
    if is_escape c d then fault else plain
string_reerect (c ∷ (d ∷ (a ∷ (b ∷ s)))) =
    let plain = put_front c (string_reerect (d ∷ (a ∷ (b ∷ s)))) in
    let escaped = put_front (byte_of a b) (string_reerect s) in
    if is_escape c d then escaped else plain
