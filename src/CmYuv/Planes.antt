-- ===== src/CmYuv/Planes.antt =====
-- What stands in the planes.
use jklibs.Common.{
  ℕ, zero, suc, ◌+◌, ◌*◌, ◌-◌, ◌/◌, ◌<◌, ◌≡◌, refl, ap, ◌∙◌, false, arith, ltb, leb, ◌&&◌,
  if◌then◌else◌,
}
use jklibs.CmYuv.{Loop, store, convert_four, convert, yuy2_yuv420p}

-- The planes of `k` groups of eight bytes, behind the first `j` groups.
abbrev pub planes : (ℕ → ℕ) → (ℕ → ℕ) → ℕ → ℕ → ℕ → ℕ
planes bytes out k j a =
    if leb (4 * j) a && ltb a (4 * k)
    then bytes (2 * a)
    else if leb (4 * k + j) a && ltb a (5 * k)
    then bytes (8 * (a - 4 * k) + 1)
    else if leb (5 * k + j) a && ltb a (6 * k)
    then bytes (8 * (a - 5 * k) + 3)
    else out a

abbrev state : ℕ → ℕ → (ℕ → ℕ) → Loop
state k j out = record {
  p = 8 * j;
  py = 4 * j;
  pu = 4 * k + j;
  pv = 5 * k + j;
  flag = false;
  out = out;
}

-- Two rounds of the loop.
abbrev eight : (ℕ → ℕ) → ℕ → ℕ → (ℕ → ℕ) → (ℕ → ℕ)
eight bytes k j out =
    let out = store (store out (4 * j) (bytes (8 * j))) (4 * j + 1) (bytes (8 * j + 2)) in
    let out = store (store out (4 * k + j) (bytes (8 * j + 1))) (5 * k + j) (bytes (8 * j + 3)) in
    store (store out (4 * j + 2) (bytes (8 * j + 4))) (4 * j + 2 + 1) (bytes (8 * j + 4 + 2))

two_rounds :
    (bytes out : ℕ → ℕ) (k j : ℕ)
    → convert_four bytes (convert_four bytes (state k j out))
      ≡ state k (j + 1) (eight bytes k j out)
two_rounds bytes out k j =
    let p : 8 * j + 4 + 4 ≡ 8 * (j + 1) = omega arith in
    let py : 4 * j + 2 + 2 ≡ 4 * (j + 1) = omega arith in
    let pu : 4 * k + j + 1 ≡ 4 * k + (j + 1) = omega arith in
    let pv : 5 * k + j + 1 ≡ 5 * k + (j + 1) = omega arith in rw (p, py, pu, pv) refl

planes-eight :
    (bytes out : ℕ → ℕ) (k j a : ℕ)
    → j < k
    → planes bytes (eight bytes k j out) k (j + 1) a ≡ planes bytes out k j a
planes-eight bytes out k j a h = ground arith

convert-planes :
    (bytes out : ℕ → ℕ) (n k j a : ℕ)
    → j + n ≡ k
    → (convert bytes (2 * n) (state k j out)).out a ≡ planes bytes out k j a
unfolding convert
convert-planes bytes out zero k j a h = ground arith
convert-planes bytes out (suc n) k j a h =
    let rounds : 2 * suc n ≡ suc (suc (2 * n)) = omega arith in
    ap (λ m. (convert bytes m (state k j out)).out a) rounds
    ∙ (ap (λ s. (convert bytes (2 * n) s).out a) (two_rounds bytes out k j)
        ∙ (convert-planes bytes (eight bytes k j out) n k (j + 1) a (omega arith)
            ∙ planes-eight bytes out k j a (omega arith)))

start :
    (bytes outdata : ℕ → ℕ) (points k a : ℕ)
    → points ≡ 4 * k
    → (convert bytes ((points * 2 + 3) / 4) (record {
      p = 0;
      py = 0;
      pu = points;
      pv = points + points / 4;
      flag = false;
      out = outdata;
    })).out
        a
      ≡ (convert bytes (2 * k) (state k 0 outdata)).out a
start bytes outdata points k a size =
    let rounds : (points * 2 + 3) / 4 ≡ 2 * k = omega arith in
    let pu : 4 * k + 0 ≡ 4 * k = omega arith in
    let pv : points + points / 4 ≡ 5 * k + 0 = omega arith in rw (rounds, pv, size, pu) refl

-- For 4 * k points, cm_yuy2_yuv420p gives the plane of the even bytes, then of each group of eight
-- bytes the byte 1, then of each group the byte 3, and writes nothing behind these 6 * k bytes.
pub yuy2_yuv420p-planes :
    (bytes outdata : ℕ → ℕ) (width height k a : ℕ)
    → width * height ≡ 4 * k
    → yuy2_yuv420p bytes width height outdata a ≡ (
        if ltb a (4 * k)
        then bytes (2 * a)
        else if ltb a (5 * k)
        then bytes (8 * (a - 4 * k) + 1)
        else if ltb a (6 * k)
        then bytes (8 * (a - 5 * k) + 3)
        else outdata a)
unfolding yuy2_yuv420p
yuy2_yuv420p-planes bytes outdata width height k a size =
    start bytes outdata (width * height) k a size
    ∙ (convert-planes bytes outdata k k 0 a (omega arith) ∙ ground arith)
