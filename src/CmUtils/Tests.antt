-- ===== src/CmUtils/Tests.antt =====
-- Runs of the routines on texts and numbers.
use jklibs.Common.{Option, replicate, take, ℕ, ◌≡◌, refl, arith, [], ◌∷◌, none, some, ◌^◌, ◌-◌}
use jklibs.Common.Int.{ℤ, pos, negsuc}
use jklibs.Common.Text.{codes}
use jklibs.CmUtils.{
  generate_mac_with_char, mac_from, rindex, take_out_last_string, hex2bin, check_mac_valid,
}
use jklibs.Common.Outcome.{Outcome, done}
use jklibs.CmUtils.Sps.{Sets, codec_parse, split_sets, find_start, copy, codec_parse_pps, find_pps}
use jklibs.CmUtils.SpsParse.{coded, codec_parse-sets}
use jklibs.CmUtils.Fields.{
  clear_parenthesis, copy_inner, remove_space, trim_end, leading_spaces, remove_last_break,
}

with_colons : generate_mac_with_char (codes "845dd7") b':' ≡ codes "84:5d:d7"
unfolding generate_mac_with_char mac_from
with_colons = refl

last_part : take_out_last_string b'.' (codes "a.b.jpg") ≡ some (codes "jpg")
unfolding take_out_last_string rindex
last_part = refl

odd_digits : hex2bin (codes "abc") ≡ (2 ^ 32 - 1, [])
unfolding hex2bin
odd_digits = refl

check_mac_short : check_mac_valid (codes "845d") ≡ negsuc 0
unfolding check_mac_valid
check_mac_short = refl

-- Buffers of 32 bytes.
abbrev buffers : Sets
buffers = record { sps = replicate 32 0; lensps = 0; pps = replicate 32 0; lenpps = 0 }

abbrev length_found : Outcome (Sets × ℤ) → Option ℕ
length_found (done r) = some (r.0.lenpps)
length_found _ = none

-- The end of a second set of an even length is not found: its length is given as 0.
even_set :
    length_found
      (codec_parse (coded (103 ∷ []) (coded (104 ∷ (1 ∷ [])) (coded [] (101 ∷ [])))) 16 buffers)
    ≡ some 0
unfolding codec_parse split_sets find_start copy codec_parse_pps find_pps
even_set = refl

codec_parse-sets_example :
    (after : Sets) × (codec_parse
        (coded (103 ∷ []) (coded (104 ∷ []) (coded [] (101 ∷ []))))
        15
        buffers
      ≡ done (after, pos 0))
    × (take after.lensps after.sps ≡ coded (103 ∷ []) [])
    × (take after.lenpps after.pps ≡ coded (104 ∷ []) [])
codec_parse-sets_example =
    codec_parse-sets 0 (103 ∷ []) (104 ∷ []) (101 ∷ []) buffers (omega arith, tt) (omega arith, tt)
      (omega arith) (omega arith) (omega arith)

-- The closing parenthesis stays: the byte that is tested stands before the one that is copied.
in_parenthesis : clear_parenthesis (codes "(ab)") ≡ done (codes "ab)")
unfolding clear_parenthesis copy_inner
in_parenthesis = refl

-- With a space in front and none behind, the last byte is lost.
space_in_front : remove_space (codes " ab") ≡ done (codes "a")
unfolding remove_space trim_end leading_spaces
space_in_front = refl

without_break : remove_last_break (codes "ab\n") ≡ done (codes "ab")
unfolding remove_last_break
without_break = refl
