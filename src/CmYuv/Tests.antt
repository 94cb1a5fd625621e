-- ===== src/CmYuv/Tests.antt =====
-- A picture of four points.
use jklibs.Common.{ℕ, ◌+◌, ◌≡◌, arith}
use jklibs.CmYuv.{yuy2_yuv420p}
use jklibs.CmYuv.Planes.{yuy2_yuv420p-planes}

abbrev picture : ℕ → ℕ
picture i = i + 16

abbrev blank : ℕ → ℕ
blank a = 0

yuy2_yuv420p-planes_example : yuy2_yuv420p picture 2 2 blank 5 ≡ 19
yuy2_yuv420p-planes_example = yuy2_yuv420p-planes picture blank 2 2 1 5 (omega arith)
