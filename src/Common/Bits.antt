-- ===== src/Common/Bits.antt =====
-- Bit tests and the loops that copy bits one at a time.
use Prim.Native.Nat.{bit_and, bit_or}
use jklibs.Common.{
  ℕ, zero, suc, ◌+◌, ◌%◌, ◌^◌, ◌<◌, ◌≡◌, Bool, true, not, ◌&&◌, arith, ◌==◌, if◌then◌else◌,
}

-- `x & (1 << i)` is not zero.
abbrev pub bit_test : ℕ → ℕ → Bool
bit_test x i = not (bit_and x (2 ^ i) == 0)

-- for (; n rounds; i++) if (src & (1 << (i + from))) dst |= 1 << (i + to); where `dst` holds
-- values below `m`: the store cuts the rest off.
unfoldable pub copy_bits : ℕ → ℕ → ℕ → ℕ → ℕ → ℕ → ℕ → ℕ
copy_bits m zero i from to src dst = dst
copy_bits m (suc n) i from to src dst =
    copy_bits m n (i + 1) from to src
      (if bit_test src (i + from) then bit_or dst (2 ^ (i + to)) % m else dst)

-- A table: the test holds of each of the first `k` numbers. It is evaluated, not proved.
unfoldable pub passes : (ℕ → Bool) → ℕ → Bool
passes test zero = true
passes test (suc k) = passes test k && test k

pub passes-lt : (test : ℕ → Bool) (k : ℕ) {x : ℕ} → passes test k ≡ true → x < k → test x ≡ true
unfolding passes
passes-lt test zero table below = absurd (omega arith)
passes-lt test (suc k) {x} table below = ground (arith, passes-lt test k {x = x})
