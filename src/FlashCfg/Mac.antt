-- ===== src/FlashCfg/Mac.antt =====
-- The MAC of the device, set and read back.
use jklibs.Common.{
  ℕ, ◌≤◌, ◌≡◌, refl, Bool, true, false, List, arith, leb, if◌then◌else◌, length, Bool-cases, inl,
  inr, ◌⊎◌, ◌≢◌,
}
use jklibs.Common.Int.{pos, negsuc}
use jklibs.Common.Outcome.{Outcome, done, err, fault, ◌>>=◌}
use jklibs.Common.Text.{NoNul}
use jklibs.FlashCfg.{
  Device, cfg_get, cfg_set, check_mac, set_param, set_status, all_xdigits, find_param,
}
use jklibs.FlashCfg.Params.{mac, parameter_name}
use jklibs.FlashCfg.Find.{assignment}
use jklibs.FlashCfg.Settings.{get-set_self, set_mac-refused}
use jklibs.FlashCfg.Tool.{flash_getmac, flash_setmac, try_set}

-- What a write returns does not depend on what it wrote.
write-status :
    (b : Bool) (macs saves : Outcome (List (List ℕ))) (f : List (List ℕ) → List (List ℕ) → Device)
    (n : ℕ) (d : Device) (r : ℕ)
    → ◌≡◌ {A = Outcome (Device × ℕ)}
        (if b then fault else (macs >>= λ m. saves >>= λ v. done (f m v, n)))
        (done (d, r))
    → r ≡ n
write-status true macs saves f n d r e = ground arith
write-status false (done m) (done v) f n d r e = ground arith
write-status false (done m) (err x) f n d r e = ground arith
write-status false (done m) fault f n d r e = ground arith
write-status false (err x) saves f n d r e = ground arith
write-status false fault saves f n d r e = ground arith

set_mac-status :
    (d after : Device) (s : List ℕ) (r : ℕ) → cfg_set d (assignment mac s) ≡ done (after, r) → r ≡ 1
unfolding cfg_set set_param find_param set_status
set_mac-status d after s r e = write-status _ _ _ _ _ after r e

valid-mac : (s : List ℕ) → check_mac s ≡ true → (length s ≡ 12) × (all_xdigits s ≡ true)
unfolding check_mac
valid-mac s e = (ground arith, ground arith)

invalid-mac : (s : List ℕ) → check_mac s ≡ false → (length s ≢ 12) ⊎ (all_xdigits s ≡ false)
unfolding check_mac
invalid-mac s e = elim (Bool-cases (all_xdigits s)) [
  | inl f ↦ inl (λ n. ground arith)
  | inr f ↦ inr f
]

-- cm_flash_setmac on a device that opens, for a text without NUL of at most 59 bytes: it returns 0
-- for twelve hexadecimal digits, and cm_flash_getmac then gives them; for any other text it
-- returns -2, and cm_flash_getmac gives what it gave before.
pub getmac-setmac :
    (d : Device) (s result : List ℕ)
    → NoNul s
    → length s ≤ 59
    → (after : Device) × (flash_setmac true d s
        ≡ done (after, if check_mac s then pos 0 else negsuc 1))
      × (flash_getmac true after result
          ≡ (pos 0, if check_mac s then s else cfg_get d.flash (parameter_name mac) result))
unfolding flash_getmac flash_setmac try_set
getmac-setmac d s result nn h =
    let room : leb 60 (length s) ≡ false = ground arith in
    elim (Bool-cases (check_mac s)) [
      | inl e ↦
          let (len, digits) = valid-mac s e in
          let (after, r, sets, reads) =
            get-set_self d mac s result tt nn (omega arith) (omega arith) (len, digits) in
          let one = set_mac-status d after s r sets in
          (after, rw (room, e, sets, one) refl, rw (e, reads) refl)
      | inr e ↦
          let refused = set_mac-refused d s nn (omega arith) (invalid-mac s e) in
          (d, rw (room, e, refused) refl, rw e refl)
    ]
