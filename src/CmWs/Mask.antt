-- ===== src/CmWs/Mask.antt =====
-- The mask of a frame, taken twice, gives the payload back.
use Prim.Native.Nat.{bit_xor}
use jklibs.Common.{
  ℕ, zero, suc, ◌%◌, ◌<◌, ◌≡◌, refl, ap, ap₂, Bool, true, List, [], ◌∷◌, ◌==◌, length, arith,
  ==_iff,
}
use jklibs.Common.Bits.{passes, passes-lt}
use jklibs.CmWs.Frame.{byte_at, umask_from, umask}

abbrev xor_back : ℕ → ℕ → Bool
xor_back a b = bit_xor (bit_xor a b) b == a

xor_table : passes (λ a. passes (xor_back a) 256) 256 ≡ true
unfolding passes
xor_table = refl

bit_xor_twice : (a b : ℕ) → a < 256 → b < 256 → bit_xor (bit_xor a b) b ≡ a
bit_xor_twice a b ha hb =
    (==_iff (bit_xor (bit_xor a b) b) a).0
      (passes-lt (xor_back a) 256 (passes-lt (λ a. passes (xor_back a) 256) 256 xor_table ha) hb)

abbrev pub AllBytes : List ℕ → Type 0
AllBytes [] = Unit {0}
AllBytes (b ∷ bytes) = (b < 256) × AllBytes bytes

byte_at-lt : (bytes : List ℕ) (i : ℕ) → AllBytes bytes → byte_at bytes i < 256
byte_at-lt [] i h = omega arith
byte_at-lt (b ∷ bytes) zero h = h.0
byte_at-lt (b ∷ bytes) (suc i) h = byte_at-lt bytes i (h.1)

umask_from_twice :
    (i : ℕ) (data_ key : List ℕ)
    → AllBytes data_
    → AllBytes key
    → umask_from i (umask_from i data_ key) key ≡ data_
unfolding umask_from
umask_from_twice i [] key h k = refl
umask_from_twice i (b ∷ data_) key h k =
    ap₂ ◌∷◌ (bit_xor_twice b (byte_at key (i % 4)) (h.0) (byte_at-lt key (i % 4) k))
      (umask_from_twice (suc i) data_ key (h.1) k)

pub umask-umask :
    (data_ key : List ℕ) → AllBytes data_ → AllBytes key → umask (umask data_ key) key ≡ data_
unfolding umask
umask-umask data_ key h k = umask_from_twice 0 data_ key h k

length-umask_from : (i : ℕ) (data_ key : List ℕ) → length (umask_from i data_ key) ≡ length data_
unfolding umask_from
length-umask_from i [] key = refl
length-umask_from i (b ∷ data_) key = ap suc (length-umask_from (suc i) data_ key)

pub length-umask : (data_ key : List ℕ) → length (umask data_ key) ≡ length data_
unfolding umask
length-umask data_ key = length-umask_from 0 data_ key
