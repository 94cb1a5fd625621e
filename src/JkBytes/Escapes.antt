-- ===== src/JkBytes/Escapes.antt =====
-- Escaped texts are read back.
use jklibs.Common.{
  ℕ, ◌+◌, ◌*◌, ◌/◌, ◌%◌, ◌<◌, ◌≡◌, ◌≢◌, refl, ◌∙◌, true, false, List, [], ◌∷◌, arith, ◌==◌, ==_iff,
}
use jklibs.Common.Bits.{passes, passes-lt}
use jklibs.Common.Outcome.{done}
use jklibs.CmUtils.Hex.{hex_digit, AllBytes}
use jklibs.JkBytes.{byte_of, digit_byte, string_reerect}

-- Every byte as an escape, `\xhh`.
abbrev pub escaped : List ℕ → List ℕ
escaped [] = []
escaped (b ∷ s) = 92 ∷ (b'x' ∷ (hex_digit (b / 16) ∷ (hex_digit (b % 16) ∷ escaped s)))

byte-table :
    passes (λ h. passes (λ l. byte_of (hex_digit h) (hex_digit l) == h * 16 + l) 16) 16 ≡ true
unfolding passes byte_of digit_byte
byte-table = refl

byte_of-hex : (b : ℕ) → b < 256 → byte_of (hex_digit (b / 16)) (hex_digit (b % 16)) ≡ b
byte_of-hex b h =
    let row = passes-lt _ 16 byte-table (omega arith) in
    (==_iff _ (b / 16 * 16 + b % 16)).0 (passes-lt _ 16 row (omega arith)) ∙ omega arith

-- A text of which every byte is escaped becomes the bytes.
pub reerect-escaped : (s : List ℕ) → AllBytes s → string_reerect (escaped s) ≡ done s
unfolding string_reerect
reerect-escaped [] h = refl
reerect-escaped (b ∷ s) h = rw (reerect-escaped s (h.1), byte_of-hex b (h.0)) refl

-- No backslash in the text.
abbrev pub NoBackslash : List ℕ → Type 0
NoBackslash [] = Unit {0}
NoBackslash (c ∷ s) = (c ≢ 92) × NoBackslash s

-- A text without backslashes stays as it is.
pub reerect_plain : (s : List ℕ) → NoBackslash s → string_reerect s ≡ done s
unfolding string_reerect
reerect_plain [] h = refl
reerect_plain (c ∷ []) h = refl
reerect_plain (c ∷ (d ∷ [])) h = let other : (c == 92) ≡ false = ground arith in rw other refl
reerect_plain (c ∷ (d ∷ (a ∷ []))) h =
    let other : (c == 92) ≡ false = ground arith in
    rw (other, reerect_plain (d ∷ (a ∷ [])) (h.1)) refl
reerect_plain (c ∷ (d ∷ (a ∷ (b ∷ s)))) h =
    let other : (c == 92) ≡ false = ground arith in
    rw (other, reerect_plain (d ∷ (a ∷ (b ∷ s))) (h.1)) refl
