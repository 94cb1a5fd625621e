-- ===== src/CmUtils.antt =====
-- Routines of common/cm_utils.c on texts and numbers. A text is the list of its bytes before the
-- NUL; what a routine writes to a buffer is the list of the bytes written.
pub mod Texts
pub mod Hex
pub mod Signal
pub mod Sps
pub mod Fields
pub mod Joined
pub mod SpsParse
mod Tests
use jklibs.Common.{
  ℕ, ◌+◌, ◌*◌, ◌-◌, ◌/◌, ◌%◌, ◌^◌, Bool, true, false, ◌&&◌, ◌||◌, List, [], ◌∷◌, ◌++◌, Option, none,
  some, ltb, leb, ◌==◌, if◌then◌else◌, length,
}
use jklibs.Common.Int.{ℤ, pos, negsuc, ltb_ℤ}
use jklibs.FlashCfg.{all_xdigits}

-- cm_clear_string_char
unfoldable pub clear_string_char : ℕ → List ℕ → List ℕ
clear_string_char c [] = []
clear_string_char c (d ∷ s) = let rest = clear_string_char c s in if d == c then rest else d ∷ rest

-- cm_check_mac_valid
unfoldable pub check_mac_valid : List ℕ → ℤ
check_mac_valid s = if length s == 12 then if all_xdigits s then pos 1 else negsuc 0 else negsuc 0

-- The loop of cm_generate_mac_with_char at round `i`, over the bytes from mac[i - 1] on.
unfoldable pub mac_from : ℕ → ℕ → ℕ → List ℕ → List ℕ
mac_from c len i [] = []
mac_from c len i (d ∷ s) =
    let rest = mac_from c len (i + 1) s in
    d ∷ (if (i % 2 == 0) && ltb i len then c ∷ rest else rest)

unfoldable pub generate_mac_with_char : List ℕ → ℕ → List ℕ
generate_mac_with_char mac c = mac_from c (length mac) 1 mac

-- The byte `d`, the text `s` behind it and what was found in that.
abbrev pub last_of : ℕ → ℕ → List ℕ → Option (List ℕ × List ℕ) → Option (List ℕ × List ℕ)
last_of c d s (some r) = some (d ∷ (r.0), r.1)
last_of c d s none = if d == c then some ([], s) else none

-- rindex: the texts before and behind the last `c`.
unfoldable pub rindex : ℕ → List ℕ → Option (List ℕ × List ℕ)
rindex c [] = none
rindex c (d ∷ s) = last_of c d s (rindex c s)

-- cm_seperate_filename: the path, which is not written if there is none, and the name.
abbrev pub path_and_name : List ℕ → Option (List ℕ × List ℕ) → Option (List ℕ) × List ℕ
path_and_name orig none = (none, orig)
path_and_name orig (some r) = (some (r.0), r.1)

unfoldable pub seperate_filename : List ℕ → Option (List ℕ) × List ℕ
seperate_filename orig = path_and_name orig (rindex b'/' orig)

-- cm_take_out_last_string: what is written to `save`, if anything.
unfoldable pub take_out_last_string : ℕ → List ℕ → Option (List ℕ)
take_out_last_string split str = elim (rindex split str) [ none ↦ none | some r ↦ some (r.1) ]

-- _cm_isxdigit
abbrev pub cm_isxdigit : ℕ → Bool
cm_isxdigit c =
    ((leb b'0' c && leb c b'9') || (leb b'a' c && leb c b'f')) || (leb b'A' c && leb c b'F')

abbrev pub all_cm_xdigits : List ℕ → Bool
all_cm_xdigits [] = true
all_cm_xdigits (c ∷ s) = cm_isxdigit c && all_cm_xdigits s

-- The value of a hexadecimal digit, as "%x" reads it.
abbrev pub digit_value : ℕ → ℕ
digit_value c = if leb c b'9' then c - b'0' else if leb c b'F' then c - b'A' + 10 else c - b'a' + 10

-- The loop of cm_hex2bin.
abbrev pub hex_pairs : List ℕ → List ℕ
hex_pairs [] = []
hex_pairs (a ∷ []) = []
hex_pairs (a ∷ (b ∷ s)) = (digit_value a * 16 + digit_value b) ∷ hex_pairs s

-- cm_hex2bin: the value returned, which is unsigned, and the bytes.
unfoldable pub hex2bin : List ℕ → ℕ × List ℕ
hex2bin hex =
    if length hex % 2 == 1
    then (2 ^ 32 - 1, [])
    else if all_cm_xdigits hex
    then (length hex / 2, hex_pairs hex)
    else (2 ^ 32 - 2, [])

-- cm_wifi_signal_level
unfoldable pub wifi_signal_level : ℤ → ℕ
wifi_signal_level signal =
    if ltb_ℤ signal (negsuc 89)
    then 1
    else if ltb_ℤ (negsuc 34) signal
    then 5
    else if ltb_ℤ signal (negsuc 34) && ltb_ℤ (negsuc 49) signal
    then 4
    else if ltb_ℤ signal (negsuc 49) && ltb_ℤ (negsuc 74) signal
    then 3
    else if ltb_ℤ signal (negsuc 74) && ltb_ℤ (negsuc 89) signal
    then 2
    else 0
