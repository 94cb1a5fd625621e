-- ===== src/CmYuv.antt =====
-- codec/cmyuv.c: a picture of four bytes for two points turned into planes. The two pictures are
-- functions from the places in memory, behind the pointers given, to bytes.
pub mod Planes
mod Tests
use jklibs.Common.{ℕ, zero, suc, ◌+◌, ◌*◌, ◌/◌, Bool, true, false, not, ◌==◌, if◌then◌else◌}

-- The variables of the loop of cm_yuy2_yuv420p.
pub record Loop : Type 0 where
  pub p : ℕ
  pub py : ℕ
  pub pu : ℕ
  pub pv : ℕ
  pub flag : Bool
  pub out : ℕ → ℕ

-- *at = byte
abbrev pub store : (ℕ → ℕ) → ℕ → ℕ → (ℕ → ℕ)
store out at byte = λ a. if a == at then byte else out a

-- One round of the loop.
abbrev pub convert_four : (ℕ → ℕ) → Loop → Loop
convert_four bytes s =
    let out = store (store s.out s.py (bytes s.p)) (s.py + 1) (bytes (s.p + 2)) in
    if s.flag then record s { p = s.p + 4; py = s.py + 2; flag = false; out = out } else record {
      p = s.p + 4;
      py = s.py + 2;
      pu = s.pu + 1;
      pv = s.pv + 1;
      flag = true;
      out = store (store out s.pu (bytes (s.p + 1))) s.pv (bytes (s.p + 3));
    }

-- The loop, of `n` rounds.
unfoldable pub convert : (ℕ → ℕ) → ℕ → Loop → Loop
convert bytes zero s = s
convert bytes (suc n) s = convert bytes n (convert_four bytes s)

-- cm_yuy2_yuv420p: the loop counts i in steps of four below width * height * 2.
unfoldable pub yuy2_yuv420p : (ℕ → ℕ) → ℕ → ℕ → (ℕ → ℕ) → (ℕ → ℕ)
yuy2_yuv420p bytes width height outdata =
    let points = width * height in
    (convert bytes ((points * 2 + 3) / 4) (record {
      p = 0;
      py = 0;
      pu = points;
      pv = points + points / 4;
      flag = false;
      out = outdata;
    })).out
