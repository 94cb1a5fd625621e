-- ===== src/FlashCfg/RoundTrip.antt =====
-- `cfg_set`, then `cm_flash_cfg_get`.
use jklibs.Common.{
  ℕ, zero, suc, ◌+◌, ◌-◌, ◌*◌, ◌≤◌, ◌≡◌, refl, ◌⊎◌, ◌≢◌, true, false, List, [], ◌∷◌, ◌++◌, some,
  arith, ltb, ◌==◌, if◌then◌else◌, length, take, drop, replicate, take_all, length-append,
  length-replicate,
}
use jklibs.Common.Outcome.{done}
use jklibs.Common.Text.{starts_with, NoNul, until_nul, codes}
use jklibs.FlashCfg.{
  Device, unless_empty, write_bytes, cfg_get, cfg_set, set_param, check_mac, all_xdigits, mac_text,
  mac_commands, echo_command, save_commands, save_line, value_buffer, set_status, sync_commands,
  cfg_data_len_max, find_param,
}
use jklibs.FlashCfg.Params.{
  Param, all_params, data_len, index, parameter_name, mac, qqsn, license, license_res, license_res2,
  qqpid,
}
use jklibs.FlashCfg.Find.{Settable, assignment, find-assignment, find_by_name}
use jklibs.FlashCfg.Layout.{field_start, fields_apart}
use jklibs.FlashCfg.Memory.{read_back, read-write_apart, field_bytes, until_nul-field}

-- What `cfg_set` wants of a text besides its length: twelve hexadecimal digits for the MAC, and
-- a licence whose shell command fits the buffer of the command.
abbrev pub Accepts : Param → List ℕ → Type 0
Accepts mac s = (length s ≡ 12) × (all_xdigits s ≡ true)
Accepts license s = length s ≤ 162
Accepts p s = Unit {0}

pub until_nul-value :
    (s : List ℕ) → length s ≤ cfg_data_len_max → NoNul s → until_nul (value_buffer s) ≡ s
unfolding value_buffer
until_nul-value s h nn = rw (take_all s cfg_data_len_max h) (until_nul-field s _ nn)

length-mac_text : (n : ℕ) (s : List ℕ) → length (mac_text n s) ≤ 3 * n
unfolding mac_text
length-mac_text zero s = omega arith
length-mac_text (suc n) [] = omega arith
length-mac_text (suc n) (a ∷ []) = omega arith
length-mac_text (suc n) (a ∷ (b ∷ s)) = ground (arith, length-mac_text n s)

echo-done :
    (text file : List ℕ)
    → length text + length file ≤ 173
    → (cs : List (List ℕ)) × (echo_command text file ≡ done cs)
unfolding echo_command
echo-done text file h =
    let line = codes "echo '" ++ (text ++ (codes "' >/usr/data/" ++ file)) in
    let short : ltb cfg_data_len_max (length line) ≡ false =
      ground (arith, length-append text (codes "' >/usr/data/" ++ file)) in
    (line ∷ [], rw short)

pub save-done :
    (text file : List ℕ)
    → length text + length file ≤ 173
    → (cs : List (List ℕ)) × (save_line (echo_command text file) ≡ done cs)
save-done text file h =
    let (cs, e) = echo-done text file h in (codes "mkdir -p /usr/data/" ∷ cs, rw e)

saves-done :
    (p : Param) (s : List ℕ)
    → Settable p
    → length s ≤ data_len p
    → Accepts p s
    → (cs : List (List ℕ)) × (save_commands (assignment p s) ≡ done cs)
unfolding save_commands
saves-done qqsn s ok h a = save-done s (codes "guid.txt") (omega arith)
saves-done license s ok h a = save-done s (codes "licence.txt") (omega arith)
saves-done license_res s ok h a = absurd ok
saves-done license_res2 s ok h a = absurd ok
saves-done qqpid s ok h a = save-done s (codes "qqpid.txt") (omega arith)
saves-done p s ok h a = ([], refl)

macs-done :
    (p : Param) (s : List ℕ)
    → NoNul s
    → length s ≤ data_len p
    → Accepts p s
    → (cs : List (List ℕ)) × ((if index p == 0 then mac_commands (value_buffer s) else done [])
        ≡ done cs)
unfolding mac_commands
macs-done mac s nn h a =
    let text : until_nul (value_buffer s) ≡ s = until_nul-value s (omega arith) nn in
    let valid : check_mac s ≡ true = unfold check_mac in ground arith in
    let digits = mac_text 6 (value_buffer s) in
    let (cs, e) =
      echo-done digits (codes "mac.txt") (omega (arith, length-mac_text 6 (value_buffer s))) in
    (cs ++ (codes "sync" ∷ []), rw (text, valid, e) refl)
macs-done p s nn h a = ([], refl)

drop_name : (p : Param) (s : List ℕ) → drop (length (parameter_name p) + 1) (assignment p s) ≡ s
drop_name mac s = refl
drop_name p s = refl

name_fits : (p : Param) (s : List ℕ) → length (parameter_name p) + 1 ≤ length (assignment p s)
name_fits p s = omega (arith, length-append (parameter_name p) (b'=' ∷ s))

data_len-le : (p : Param) → data_len p ≤ cfg_data_len_max
data_len-le license = omega arith
data_len-le p = omega arith

-- What the field of `p` holds after the text `s` is written.
abbrev pub field_of : Param → List ℕ → List ℕ
field_of p s = s ++ replicate (data_len p - length s) 0

length-field_of :
    (p : Param) (s : List ℕ) → length s ≤ data_len p → length (field_of p s) ≡ data_len p
length-field_of p s h = omega (
  arith,
  length-append s (replicate (data_len p - length s) 0),
  length-replicate {A = ℕ} (data_len p - length s) 0,
)

-- `cfg_set` has written the text `s` into the field of `p`.
abbrev pub Writes : Device → List ℕ → Param → List ℕ → Type 0
Writes d argv p s =
    (d' : Device) × (r : ℕ) × (cfg_set d argv ≡ done (d', r))
    × (d'.flash ≡ write_bytes d.flash (field_start p) (field_of p s))

pub set-Writes :
    (d : Device) (argv : List ℕ) (p : Param) (s : List ℕ) (macs saves : List (List ℕ))
    → find_param (λ q. starts_with (parameter_name q) argv) all_params 0 ≡ some (index p, p)
    → length (parameter_name p) + 1 ≤ length argv
    → drop (length (parameter_name p) + 1) argv ≡ s
    → length s ≤ data_len p
    → (if index p == 0 then mac_commands (value_buffer s) else done []) ≡ done macs
    → save_commands argv ≡ done saves
    → Writes d argv p s
unfolding cfg_set set_param
set-Writes d argv p s macs saves found long rest fits m v =
    let short : ltb (length argv) (length (parameter_name p) + 1) ≡ false = ground arith in
    (
      record {
        flash = write_bytes d.flash (field_start p) (take (data_len p) (value_buffer s));
        commands = d.commands ++ (macs ++ (saves ++ sync_commands argv));
      },
      set_status argv,
      rw (found, short, rest, m, v) refl,
      rw (field_bytes s (data_len p) fits (data_len-le p)) refl,
    )

-- With a name that is no extension of another name, a text without NUL that fits the field and is
-- accepted is written to the field of that name.
pub set_assignment-Writes :
    (d : Device) (p : Param) (s : List ℕ)
    → Settable p
    → NoNul s
    → length s ≤ data_len p
    → Accepts p s
    → Writes d (assignment p s) p s
set_assignment-Writes d p s ok nn fits a =
    let (macs, m) = macs-done p s nn fits a in
    let (saves, v) = saves-done p s ok fits a in
    set-Writes d (assignment p s) p s macs saves (find-assignment p s ok) (name_fits p s)
      (drop_name p s) fits m v

-- Reading the field of `p` after a write to it.
pub get_written :
    (flash : ℕ → ℕ) (p : Param) (s result : List ℕ)
    → NoNul s
    → length s ≤ data_len p
    → cfg_get (write_bytes flash (field_start p) (field_of p s)) (parameter_name p) result
      ≡ unless_empty s result
unfolding cfg_get
get_written flash p s result nn fits =
    rw
      (
        find_by_name p,
        read_back flash (field_start p) (data_len p) (field_of p s) (length-field_of p s fits),
        until_nul-field s _ nn,
      )
      refl

-- Reading another field.
pub get_apart :
    (flash : ℕ → ℕ) (p q : Param) (s result : List ℕ)
    → index p ≢ index q
    → length s ≤ data_len p
    → cfg_get (write_bytes flash (field_start p) (field_of p s)) (parameter_name q) result
      ≡ cfg_get flash (parameter_name q) result
unfolding cfg_get
get_apart flash p q s result ne fits =
    rw
      (
        find_by_name q,
        read-write_apart flash (field_start p) (field_of p s) (field_start q) (data_len q) side,
      )
      refl
  where
    side :
        (field_start q + data_len q ≤ field_start p)
        ⊎ (field_start p + length (field_of p s) ≤ field_start q)
    side = ground (arith, fields_apart p q, fields_apart q p, length-field_of p s fits)
