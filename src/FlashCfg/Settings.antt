-- ===== src/FlashCfg/Settings.antt =====
-- What `cfg_set` does to every setting.
use jklibs.Common.{
  ℕ, ◌≤◌, ◌≡◌, refl, ◌∙◌, ◌≢◌, ◌⊎◌, false, List, [], ◌∷◌, ◌++◌, some, arith, ltb, ◌&&◌, ◌==◌,
  length,
}
use jklibs.Common.Outcome.{done, err}
use jklibs.Common.Text.{NoNul, codes, starts_with}
use jklibs.FlashCfg.{
  Device, cfg_data_len_max, all_xdigits, set_param, mac_commands, check_mac, cfg_get, cfg_set,
  unless_empty, find_param, save_commands,
}
use jklibs.FlashCfg.Params.{
  Param, data_len, index, parameter_name, mac, license, license_res, all_params,
}
use jklibs.FlashCfg.Find.{Settable, assignment, find-assignment}
use jklibs.FlashCfg.RoundTrip.{
  until_nul-value, Accepts, set_assignment-Writes, set-Writes, save-done, get_written, get_apart,
}

some_of_long : (s result : List ℕ) → 1 ≤ length s → unless_empty s result ≡ s
some_of_long [] result h = absurd (omega arith)
some_of_long (c ∷ s) result h = refl

-- A setting whose name is no extension of another's comes back: after `cfg_set` of "name=text",
-- with a non-empty text without NUL that fits the field and is accepted, `cm_flash_cfg_get` of
-- the name gives the text.
pub get-set_self :
    (d : Device) (p : Param) (s result : List ℕ)
    → Settable p
    → NoNul s
    → 1 ≤ length s
    → length s ≤ data_len p
    → Accepts p s
    → (d' : Device) × (r : ℕ) × (cfg_set d (assignment p s) ≡ done (d', r))
      × (cfg_get d'.flash (parameter_name p) result ≡ s)
get-set_self d p s result ok nn full fits a =
    let (d', r, e, w) = set_assignment-Writes d p s ok nn fits a in
    (d', r, e, rw w (get_written d.flash p s result nn fits ∙ some_of_long s result full))

-- Setting a parameter whose name is no extension of another's, with a text without NUL that fits
-- the field and is accepted, changes what is read of no other setting.
pub get-set_other :
    (d : Device) (p q : Param) (s result : List ℕ)
    → index p ≢ index q
    → Settable p
    → NoNul s
    → length s ≤ data_len p
    → Accepts p s
    → (d' : Device) × (r : ℕ) × (cfg_set d (assignment p s) ≡ done (d', r))
      × (cfg_get d'.flash (parameter_name q) result ≡ cfg_get d.flash (parameter_name q) result)
get-set_other d p q s result ne ok nn fits a =
    let (d', r, e, w) = set_assignment-Writes d p s ok nn fits a in
    (d', r, e, rw w (get_apart d.flash p q s result ne fits))

license_found :
    (s : List ℕ)
    → find_param (λ q. starts_with (parameter_name q) (assignment license_res s)) all_params 0
      ≡ some (index license, license)
unfolding find_param
license_found s = refl

license_saves :
    (s : List ℕ)
    → length s ≤ 158
    → (cs : List (List ℕ)) × (save_commands (assignment license_res s) ≡ done cs)
unfolding save_commands
license_saves s h = save-done (codes "res=" ++ s) (codes "licence.txt") (omega arith)

-- "license_res=text" does not set `license_res`: the shorter name "license" matches first, so the
-- text with "res=" before it becomes the licence, and `license_res` reads as before.
pub set-license_res :
    (d : Device) (s result : List ℕ)
    → NoNul s
    → length s ≤ 158
    → (d' : Device) × (r : ℕ) × (cfg_set d (assignment license_res s) ≡ done (d', r))
      × (cfg_get d'.flash (parameter_name license) result ≡ codes "res=" ++ s)
      × (cfg_get d'.flash (parameter_name license_res) result
          ≡ cfg_get d.flash (parameter_name license_res) result)
set-license_res d s result nn h =
    let text = codes "res=" ++ s in
    let fits : length text ≤ data_len license = omega arith in
    let (saves, v) = license_saves s h in
    let (d', r, e, w) =
      set-Writes d (assignment license_res s) license text [] saves (license_found s) (omega arith)
        refl fits refl v in
    (
      d',
      r,
      e,
      rw w (
          get_written d.flash license text result
            (omega arith, (omega arith, (omega arith, (omega arith, nn)))) fits),
      rw w (get_apart d.flash license license_res text result (omega arith) fits),
    )

-- A MAC that is not twelve hexadecimal digits is refused with -1: the flash is not written and no
-- command is run.
pub set_mac-refused :
    (d : Device) (s : List ℕ)
    → NoNul s
    → length s ≤ cfg_data_len_max
    → (length s ≢ 12) ⊎ (all_xdigits s ≡ false)
    → cfg_set d (assignment mac s) ≡ err 1
unfolding cfg_set set_param mac_commands check_mac
set_mac-refused d s nn h bad =
    let invalid : ((length s == 12) && all_xdigits s) ≡ false = ground arith in
    let short : ltb (length (assignment mac s)) 4 ≡ false = ground arith in
    rw (find-assignment mac s tt, short, until_nul-value s h nn, invalid) refl
