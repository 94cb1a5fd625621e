-- ===== src/FlashCfg/Tool.antt =====
-- The other routines of common/cm_flash_cfg.c: printing settings, the flag, the MAC for the
-- library's users, and the command line. Whether the device opens is an argument.
use jklibs.Common.{
  ℕ, Bool, false, not, ◌&&◌, List, [], ◌∷◌, ◌++◌, Option, none, some, leb, ltb, if◌then◌else◌,
  length,
}
use jklibs.Common.Int.{ℤ, pos, negsuc}
use jklibs.Common.Outcome.{Outcome, done, err, fault, ◌>>=◌}
use jklibs.Common.Text.{codes, same_text, starts_with, until_nul}
use jklibs.FlashCfg.{Device, find_param, read_bytes, offset_index, cfg_get, cfg_set, cfg_erase}
use jklibs.FlashCfg.Params.{Param, all_params, parameter_name, data_len}

-- cfg_get, which prints "name=value" for a field that is not empty: the lines printed.
abbrev pub value_line : List ℕ → List ℕ → List (List ℕ)
value_line argv [] = []
value_line argv (c ∷ s) = (argv ++ (b'=' ∷ (c ∷ s))) ∷ []

abbrev pub print_found : (ℕ → ℕ) → List ℕ → Option (ℕ × Param) → List (List ℕ)
print_found flash argv none = []
print_found flash argv (some (i, p)) =
    value_line argv (until_nul (read_bytes flash (offset_index i) (data_len p)))

unfoldable pub print_value : (ℕ → ℕ) → List ℕ → List (List ℕ)
print_value flash argv =
    print_found flash argv (find_param (λ p. same_text argv (parameter_name p)) all_params 0)

-- cfg_list
unfoldable pub list_from : (ℕ → ℕ) → List Param → List (List ℕ)
list_from flash [] = []
list_from flash (p ∷ ps) = print_value flash (parameter_name p) ++ list_from flash ps

unfoldable pub cfg_list : (ℕ → ℕ) → List (List ℕ)
cfg_list flash = list_from flash all_params

-- What a caller of cfg_set has: the device, and whether the value returned is above 0. A call that
-- returns -1 has left the device alone.
abbrev pub after_set : Device → Outcome (Device × ℕ) → Outcome (Device × Bool)
after_set d (done r) = done (r.0, ltb 0 (r.1))
after_set d (err n) = done (d, false)
after_set d fault = fault

unfoldable pub try_set : Device → List ℕ → Outcome (Device × Bool)
try_set d argv = after_set d (cfg_set d argv)

-- check_cfg_flag, set_cfg_flag and clear_cfg_flag
abbrev pub check_cfg_flag : Device → List (List ℕ)
check_cfg_flag d = print_value d.flash (codes "flag")

abbrev pub set_cfg_flag : Device → Outcome Device
set_cfg_flag d = try_set d (codes "flag=1") >>= λ r. done (r.0)

abbrev pub clear_cfg_flag : Device → Outcome Device
clear_cfg_flag d = try_set d (codes "flag=0") >>= λ r. done (r.0)

-- cm_flash_getmac: what is returned, and `result` afterwards.
unfoldable pub flash_getmac : Bool → Device → List ℕ → ℤ × List ℕ
flash_getmac opens d result =
    if opens then (pos 0, cfg_get d.flash (codes "mac") result) else (negsuc 0, result)

-- cm_flash_setmac, with the argument of cfg_set in 64 bytes.
abbrev pub setmac_status : Device × Bool → Device × ℤ
setmac_status (d, set) = (d, if set then pos 0 else negsuc 1)

unfoldable pub flash_setmac : Bool → Device → List ℕ → Outcome (Device × ℤ)
flash_setmac opens d mac =
    let set =
      if leb 60 (length mac)
      then fault
      else (try_set d (codes "mac=" ++ mac) >>= λ r. done (setmac_status r)) in
    if opens then set else done (d, negsuc 0)

-- What the command line prints: lines, or how it is used.
pub data Printed : Type 0 where
  usage : Printed
  printed : List (List ℕ) → Printed

-- The command set: a value that is stored sets the flag too, but for the name update_flag.
abbrev pub set_command : List ℕ → Device × Bool → Outcome (Device × Printed)
set_command argv (d, set) =
    if set && not (starts_with (codes "update_flag") argv)
    then (set_cfg_flag d >>= λ d. done (d, printed []))
    else done (d, printed [])

-- The commands without an argument.
abbrev pub plain_command : Device → List ℕ → Outcome (Device × Printed)
plain_command d name =
    if same_text name (codes "checkflag")
    then done (d, printed (check_cfg_flag d))
    else if same_text name (codes "setflag")
    then (set_cfg_flag d >>= λ d. done (d, printed []))
    else if same_text name (codes "clearflag")
    then (clear_cfg_flag d >>= λ d. done (d, printed []))
    else if same_text name (codes "list")
    then done (d, printed (cfg_list d.flash))
    else if same_text name (codes "erase")
    then (cfg_erase d.flash >>= λ flash. done (record d { flash = flash }, printed []))
    else done (d, usage)

-- main, on a device that opens, with the arguments behind the program's name.
unfoldable pub run_command : Device → List (List ℕ) → Outcome (Device × Printed)
run_command d [] = done (d, usage)
run_command d (name ∷ []) =
    if same_text name (codes "-h") then done (d, usage) else plain_command d name
run_command d (name ∷ (arg ∷ args)) =
    if same_text name (codes "-h")
    then done (d, usage)
    else if same_text name (codes "get")
    then done (d, printed (print_value d.flash arg))
    else if same_text name (codes "set")
    then (try_set d arg >>= set_command arg)
    else plain_command d name
