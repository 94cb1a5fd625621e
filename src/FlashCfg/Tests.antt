-- ===== src/FlashCfg/Tests.antt =====
-- Runs of the settings tool.
use jklibs.Common.{ℕ, ◌∷◌, true, ◌≡◌, refl, List, [], arith}
use jklibs.Common.Outcome.{done, fault, ◌>>=◌}
use jklibs.Common.Text.{codes, NoNul}
use jklibs.Common.Int.{pos}
use jklibs.FlashCfg.Tool.{flash_setmac, flash_getmac, run_command, printed, print_value, try_set}
use jklibs.FlashCfg.Mac.{getmac-setmac}
use jklibs.FlashCfg.{
  check_mac, all_xdigits, is_xdigit, set_param, save_commands, set_status, read_bytes, write_bytes,
  value_buffer, offset_index, Device, cfg_get, cfg_set, mac_text, find_param, cfg_erase,
}
use jklibs.FlashCfg.Params.{ssid, password, parameter_name}
use jklibs.FlashCfg.Find.{assignment}
use jklibs.FlashCfg.Settings.{get-set_self, get-set_other}

abbrev blank : Device
blank = record { flash = λ a. 0; commands = [] }

abbrev home : List ℕ
home = codes "home"

mac_colons : mac_text 6 (codes "845dd7001122") ≡ codes "84:5d:d7:00:11:22"
unfolding mac_text
mac_colons = refl

unknown_name : cfg_set blank (codes "colour=red") ≡ done (blank, 0)
unfolding cfg_set find_param
unknown_name = refl

-- `cfg_erase` reads 192 bytes of an array of 64 at the licence.
erase_faults : (flash : ℕ → ℕ) → cfg_erase flash ≡ fault
unfolding cfg_erase
erase_faults flash = refl

get-set_self_example :
    (d' : Device) × (r : ℕ) × (cfg_set blank (assignment ssid home) ≡ done (d', r))
    × (cfg_get d'.flash (parameter_name ssid) [] ≡ home)
get-set_self_example =
    get-set_self blank ssid home [] tt (omega arith) (omega arith) (omega arith) tt

get-set_other_example :
    (d' : Device) × (r : ℕ) × (cfg_set blank (assignment ssid home) ≡ done (d', r))
    × (cfg_get d'.flash (parameter_name password) home
        ≡ cfg_get blank.flash (parameter_name password) home)
get-set_other_example =
    get-set_other blank ssid password home home (omega arith) tt (omega arith) (omega arith) tt

getmac-setmac_example :
    (after : Device) × (flash_setmac true blank (codes "845dd7001122") ≡ done (after, pos 0))
    × (flash_getmac true after [] ≡ (pos 0, codes "845dd7001122"))
unfolding check_mac all_xdigits is_xdigit
getmac-setmac_example = getmac-setmac blank (codes "845dd7001122") [] twelve (omega arith)
  where
    twelve : NoNul (codes "845dd7001122")
    twelve = (
      omega arith,
      (
        omega arith,
        (
          omega arith,
          (
            omega arith,
            (
              omega arith,
              (
                omega arith,
                (
                  omega arith,
                  (omega arith, (omega arith, (omega arith, (omega arith, (omega arith, tt))))),
                ),
              ),
            ),
          ),
        ),
      ),
    )

-- "get" prints what "set" stored, and "set" sets the flag too.
shown :
    (run_command blank ((codes "set") ∷ ((codes "ssid=home") ∷ [])) >>= λ r.
    run_command (r.0) ((codes "checkflag") ∷ []) >>= λ r. done (r.1))
    ≡ done (printed (codes "flag=1" ∷ []))
unfolding run_command try_set cfg_set find_param set_param print_value save_commands set_status
    read_bytes write_bytes value_buffer offset_index
shown = refl
