-- ===== src/FlashCfg.antt =====
-- common/cm_flash_cfg.c: the factory settings, a table of fields of fixed length in the flash.
-- The device is a function from addresses to bytes, and the list of the shell commands that
-- `system` was given. Reads and writes of the device are taken to succeed: the code tests
-- `fread(...) < 0` and `fwrite(...) < 0`, which never holds, so it sees no failure.
pub mod Params
pub mod Layout
pub mod Find
pub mod Memory
pub mod RoundTrip
pub mod Settings
pub mod Tool
pub mod Mac
mod Tests
use jklibs.Common.{
  ℕ, zero, suc, ◌+◌, ◌-◌, ◌≤◌, Bool, true, false, ◌&&◌, ◌||◌, List, [], ◌∷◌, ◌++◌, Option, none,
  some, ltb, leb, ◌==◌, if◌then◌else◌, length, take, drop, replicate, get_elem?, min,
}
use jklibs.Common.Outcome.{Outcome, done, err, fault, ◌>>=◌}
use jklibs.Common.Text.{codes, starts_with, same_text, until_nul}
use Params.{Param, all_params, parameter_name, data_len, cfg_data_len}

pub record Device : Type 0 where
  pub flash : ℕ → ℕ
  pub commands : List (List ℕ)

-- START_INDEX and MAX_SPACE
abbrev pub start_index : ℕ
start_index = 0x40000

abbrev pub max_space : ℕ
max_space = 0x42000

-- CFG_DATA_LEN_MAX
abbrev pub cfg_data_len_max : ℕ
cfg_data_len_max = 192

-- The sum of the lengths before entry `i`.
abbrev pub total_len : ℕ → List Param → ℕ
total_len zero ps = 0
total_len (suc i) [] = 0
total_len (suc i) (p ∷ ps) = data_len p + total_len i ps

pub offset_index : ℕ → ℕ
offset_index i = start_index + total_len i all_params

-- The first entry that passes the test, and its index.
pub find_param : (Param → Bool) → List Param → ℕ → Option (ℕ × Param)
find_param test [] i = none
find_param test (p ∷ ps) i = if test p then some (i, p) else find_param test ps (i + 1)

-- fseek and fread
pub read_bytes : (ℕ → ℕ) → ℕ → ℕ → List ℕ
read_bytes flash at zero = []
read_bytes flash at (suc n) = flash at ∷ read_bytes flash (at + 1) n

-- fseek and fwrite
pub write_bytes : (ℕ → ℕ) → ℕ → List ℕ → (ℕ → ℕ)
write_bytes flash at [] = flash
write_bytes flash at (b ∷ bs) = write_bytes (λ a. if a == at then b else flash a) (at + 1) bs

-- An empty field leaves `result` alone.
abbrev pub unless_empty : List ℕ → List ℕ → List ℕ
unless_empty [] result = result
unless_empty (c ∷ s) result = c ∷ s

abbrev pub get_found : (ℕ → ℕ) → List ℕ → Option (ℕ × Param) → List ℕ
get_found flash result none = result
get_found flash result (some (i, p)) =
    unless_empty (until_nul (read_bytes flash (offset_index i) (data_len p))) result

-- cm_flash_cfg_get: what `result` holds afterwards. The return value is 0 on every path.
pub cfg_get : (ℕ → ℕ) → List ℕ → List ℕ → List ℕ
cfg_get flash argv result =
    get_found flash result (find_param (λ p. same_text argv (parameter_name p)) all_params 0)

pub is_xdigit : ℕ → Bool
is_xdigit c =
    (leb b'0' c && leb c b'9') || ((leb b'a' c && leb c b'f') || (leb b'A' c && leb c b'F'))

pub all_xdigits : List ℕ → Bool
all_xdigits [] = true
all_xdigits (c ∷ s) = is_xdigit c && all_xdigits s

-- check_mac, true where it returns 0.
unfoldable pub check_mac : List ℕ → Bool
check_mac s = (length s == 12) && all_xdigits s

-- temp_mac: the digits in `n` pairs, a colon between the pairs.
pub mac_text : ℕ → List ℕ → List ℕ
mac_text zero s = []
mac_text (suc n) [] = []
mac_text (suc n) (a ∷ []) = a ∷ []
mac_text (suc n) (a ∷ (b ∷ s)) = a ∷ (b ∷ (if n == 0 then [] else b':' ∷ mac_text n s))

-- The buffer `value`: CFG_DATA_LEN_MAX + 1 zeros, over which `strncpy` puts the text.
pub value_buffer : List ℕ → List ℕ
value_buffer text =
    take cfg_data_len_max text
    ++ replicate (cfg_data_len_max + 1 - min cfg_data_len_max (length text)) 0

-- sprintf into `str_sp`, of CFG_DATA_LEN_MAX + 1 bytes, and `system`.
pub echo_command : List ℕ → List ℕ → Outcome (List (List ℕ))
echo_command text file =
    let line = codes "echo '" ++ (text ++ (codes "' >/usr/data/" ++ file)) in
    if ltb cfg_data_len_max (length line) then fault else done (line ∷ [])

pub mac_commands : List ℕ → Outcome (List (List ℕ))
mac_commands value =
    if check_mac (until_nul value)
    then (echo_command (mac_text 6 value) (codes "mac.txt") >>= λ cs.
        done (cs ++ (codes "sync" ∷ [])))
    else err 1

-- The directory is made, then the value is echoed into the file.
abbrev pub save_line : Outcome (List (List ℕ)) → Outcome (List (List ℕ))
save_line cs = cs >>= λ cs. done (codes "mkdir -p /usr/data/" ∷ cs)

-- The file that keeps a copy of the value.
pub save_commands : List ℕ → Outcome (List (List ℕ))
save_commands argv =
    if starts_with (codes "qqsn") argv
    then save_line (echo_command (drop 5 argv) (codes "guid.txt"))
    else if starts_with (codes "license") argv
    then save_line (echo_command (drop 8 argv) (codes "licence.txt"))
    else if starts_with (codes "qqpid") argv
    then save_line (echo_command (drop 6 argv) (codes "qqpid.txt"))
    else done []

-- The return value after a write.
pub set_status : List ℕ → ℕ
set_status argv =
    if starts_with (codes "flag") argv || starts_with (codes "fw_version") argv then 0 else 1

pub sync_commands : List ℕ → List (List ℕ)
sync_commands argv = if set_status argv == 0 then [] else codes "sync" ∷ []

-- The body of the loop of `cfg_set` at the entry that matches. `argv + strlen(name) + 1` must not
-- lie past the end of the text.
pub set_param : Device → List ℕ → ℕ → Param → Outcome (Device × ℕ)
set_param d argv i p =
    let n = length (parameter_name p) in
    let value = value_buffer (drop (n + 1) argv) in
    if ltb (length argv) (n + 1) then fault else do
      macs ← if i == 0 then mac_commands value else done []
      saves ← save_commands argv
      done (
        record {
          flash = write_bytes d.flash (offset_index i) (take (data_len p) value);
          commands = d.commands ++ (macs ++ (saves ++ sync_commands argv));
        },
        set_status argv,
      )

abbrev pub set_found : Device → List ℕ → Option (ℕ × Param) → Outcome (Device × ℕ)
set_found d argv none = done (d, 0)
set_found d argv (some (i, p)) = set_param d argv i p

pub cfg_set : Device → List ℕ → Outcome (Device × ℕ)
cfg_set d argv =
    set_found d argv (find_param (λ p. starts_with (parameter_name p) argv) all_params 0)

-- cfg_erase writes `data_len` bytes of each field from an array of CFG_DATA_LEN zeros.
pub erase_from : (ℕ → ℕ) → List Param → ℕ → Outcome (ℕ → ℕ)
erase_from flash [] i = done flash
erase_from flash (p ∷ ps) i =
    let rest =
      erase_from (write_bytes flash (offset_index i) (replicate (data_len p) 0)) ps (i + 1) in
    if ltb cfg_data_len (data_len p) then fault else rest

pub cfg_erase : (ℕ → ℕ) → Outcome (ℕ → ℕ)
unfolding erase_from
cfg_erase flash = erase_from flash all_params 0
