-- ===== src/CmUtils/Hex.antt =====
-- Bytes as hexadecimal digits.
use jklibs.Common.{
  ℕ, ◌+◌, ◌-◌, ◌*◌, ◌/◌, ◌%◌, ◌<◌, ◌≡◌, refl, ap₂, ◌∙◌, true, false, ◌&&◌, List, [], ◌∷◌, arith,
  ltb, ◌==◌, ==_iff, if◌then◌else◌, length,
}
use jklibs.Common.Bits.{passes, passes-lt}
use jklibs.CmUtils.{cm_isxdigit, all_cm_xdigits, digit_value, hex_pairs, hex2bin}

-- The digit of a number below 16, and the two digits of each byte.
abbrev pub hex_digit : ℕ → ℕ
hex_digit n = if ltb n 10 then n + b'0' else n - 10 + b'a'

abbrev pub hex_text : List ℕ → List ℕ
hex_text [] = []
hex_text (b ∷ s) = hex_digit (b / 16) ∷ (hex_digit (b % 16) ∷ hex_text s)

abbrev pub AllBytes : List ℕ → Type 0
AllBytes [] = Unit {0}
AllBytes (b ∷ s) = (b < 256) × AllBytes s

digit-table : passes (λ n. (digit_value (hex_digit n) == n) && cm_isxdigit (hex_digit n)) 16 ≡ true
unfolding passes
digit-table = refl

digit_value-hex : (n : ℕ) → n < 16 → digit_value (hex_digit n) ≡ n
digit_value-hex n h = let t = passes-lt _ 16 digit-table h in (==_iff _ n).0 (ground (arith, t))

cm_isxdigit-hex : (n : ℕ) → n < 16 → cm_isxdigit (hex_digit n) ≡ true
cm_isxdigit-hex n h = let t = passes-lt _ 16 digit-table h in ground (arith, t)

all_cm_xdigits-hex : (s : List ℕ) → AllBytes s → all_cm_xdigits (hex_text s) ≡ true
all_cm_xdigits-hex [] h = refl
all_cm_xdigits-hex (b ∷ s) h =
    rw
      (
        cm_isxdigit-hex (b / 16) (omega arith),
        cm_isxdigit-hex (b % 16) (omega arith),
        all_cm_xdigits-hex s (h.1),
      )
      refl

hex_pairs-hex : (s : List ℕ) → AllBytes s → hex_pairs (hex_text s) ≡ s
hex_pairs-hex [] h = refl
hex_pairs-hex (b ∷ s) h =
    let whole : digit_value (hex_digit (b / 16)) * 16 + digit_value (hex_digit (b % 16)) ≡ b =
      ap₂ (λ u v. u * 16 + v) (digit_value-hex (b / 16) (omega arith))
        (digit_value-hex (b % 16) (omega arith))
      ∙ omega arith in
    ap₂ (λ c t. c ∷ t) whole (hex_pairs-hex s (h.1))

length-hex_text : (s : List ℕ) → length (hex_text s) ≡ 2 * length s
length-hex_text [] = refl
length-hex_text (b ∷ s) = omega (arith, length-hex_text s)

-- The hexadecimal digits of any bytes are read back by `cm_hex2bin`, which returns their number.
pub hex2bin-hex_text : (s : List ℕ) → AllBytes s → hex2bin (hex_text s) ≡ (length s, s)
unfolding hex2bin
hex2bin-hex_text s h =
    let even : (length (hex_text s) % 2 == 1) ≡ false = ground (arith, length-hex_text s) in
    let half : length (hex_text s) / 2 ≡ length s = omega (arith, length-hex_text s) in
    rw (even, all_cm_xdigits-hex s h, half, hex_pairs-hex s h) refl
