-- ===== src/CmUtils/Signal.antt =====
-- The levels of a wireless signal.
use jklibs.Common.{◌≤◌, ◌≡◌, ◌≢◌, ◌↔◌, ◌⊎◌, arith}
use jklibs.Common.Int.{ℤ, pos, negsuc, ◌≤ℤ◌}
use jklibs.CmUtils.{wifi_signal_level}

-- The level is 0 for the four bounds themselves and for nothing else.
pub signal_level-zero :
    (signal : ℤ)
    → (wifi_signal_level signal ≡ 0) ↔ (
        (signal ≡ negsuc 34)
        ⊎ ((signal ≡ negsuc 49) ⊎ ((signal ≡ negsuc 74) ⊎ (signal ≡ negsuc 89))))
unfolding wifi_signal_level
signal_level-zero (pos n) = ground arith
signal_level-zero (negsuc n) = ground arith

-- A stronger signal has no lower level, the bounds apart.
pub signal_level_mono :
    (weak strong : ℤ)
    → weak ≤ℤ strong
    → wifi_signal_level strong ≢ 0
    → wifi_signal_level weak ≤ wifi_signal_level strong
unfolding wifi_signal_level
signal_level_mono (pos m) (pos n) h z = ground arith
signal_level_mono (pos m) (negsuc n) h z = ground arith
signal_level_mono (negsuc m) (pos n) h z = ground arith
signal_level_mono (negsuc m) (negsuc n) h z = ground arith
