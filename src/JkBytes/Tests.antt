-- ===== src/JkBytes/Tests.antt =====
-- Runs of the escapes.
use jklibs.Common.{◌≡◌, refl, [], ◌∷◌}
use jklibs.Common.Outcome.{done, fault}
use jklibs.Common.Text.{codes}
use jklibs.JkBytes.{string_reerect, byte_of, digit_byte, hex_str_to_byte}

mixed : string_reerect (codes "ab\\xe8") ≡ done (97 ∷ (98 ∷ (232 ∷ [])))
unfolding string_reerect byte_of digit_byte
mixed = refl

cut_off : string_reerect (codes "\\xe") ≡ fault
unfolding string_reerect
cut_off = refl

two_bytes : hex_str_to_byte (codes "0aFF") ≡ 10 ∷ (255 ∷ [])
unfolding hex_str_to_byte byte_of digit_byte
two_bytes = refl
