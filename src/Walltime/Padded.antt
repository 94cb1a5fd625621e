-- ===== src/Walltime/Padded.antt =====
-- Numbers printed with leading zeros: texts of one length are compared as the numbers are.
use jklibs.Common.{
  ℕ, zero, suc, ◌+◌, ◌-◌, ◌*◌, ◌^◌, ◌<◌, ◌≡◌, refl, ◌∙◌, List, [], ◌∷◌, ◌++◌, arith, leb, length,
  replicate, length-append, length-replicate,
}
use jklibs.Common.Decimal.{
  AllDigits, read_digits, print_nat, print_nat-AllDigits, read_digits-print, length-print,
}
use jklibs.Walltime.{pad, strcmp_le}

pub AllDigits-append : (a b : List ℕ) → AllDigits a → AllDigits b → AllDigits (a ++ b)
AllDigits-append [] b h k = k
AllDigits-append (c ∷ a) b h k = (h.0, AllDigits-append a b h.1 k)

zeros-AllDigits : (k : ℕ) → AllDigits (replicate k b'0')
zeros-AllDigits zero = tt
zeros-AllDigits (suc k) = ((omega arith, omega arith), zeros-AllDigits k)

pub pad-AllDigits : (w n : ℕ) → AllDigits (pad w n)
unfolding pad
pad-AllDigits w n = AllDigits-append _ _ (zeros-AllDigits _) (print_nat-AllDigits n)

pub length-pad : (k n : ℕ) → n < 10 ^ suc k → length (pad (suc k) n) ≡ suc k
unfolding pad
length-pad k n h = omega (
  arith,
  length-print k n h,
  length-append (replicate (suc k - length (print_nat n)) b'0') (print_nat n),
  length-replicate {A = ℕ} (suc k - length (print_nat n)) b'0',
)

read_zeros : (k : ℕ) (s : List ℕ) → read_digits 0 (replicate k b'0' ++ s) ≡ read_digits 0 s
unfolding read_digits
read_zeros zero s = refl
read_zeros (suc k) s = read_zeros k s

pub read_digits-pad : (w n : ℕ) → read_digits 0 (pad w n) ≡ n
unfolding pad
read_digits-pad w n = read_zeros (w - length (print_nat n)) (print_nat n) ∙ read_digits-print n

-- The value read grows with what was read before.
read_digits-lt :
    (m n : ℕ) (a b : List ℕ)
    → m < n
    → AllDigits a
    → AllDigits b
    → length a ≡ length b
    → read_digits m a < read_digits n b
unfolding read_digits
read_digits-lt m n [] [] h da db e = h
read_digits-lt m n [] (d ∷ b) h da db e = absurd (omega arith)
read_digits-lt m n (c ∷ a) [] h da db e = absurd (omega arith)
read_digits-lt m n (c ∷ a) (d ∷ b) h da db e =
    ground (arith, read_digits-lt (m * 10 + (c - b'0')) (n * 10 + (d - b'0')) a b)

pub strcmp_le-read :
    (n : ℕ) (a b : List ℕ)
    → AllDigits a
    → AllDigits b
    → length a ≡ length b
    → strcmp_le a b ≡ leb (read_digits n a) (read_digits n b)
unfolding strcmp_le read_digits
strcmp_le-read n [] [] da db e = ground arith
strcmp_le-read n [] (d ∷ b) da db e = absurd (omega arith)
strcmp_le-read n (c ∷ a) [] da db e = absurd (omega arith)
strcmp_le-read n (c ∷ a) (d ∷ b) da db e = ground (
  arith,
  strcmp_le-read (n * 10 + (c - b'0')) a b,
  read_digits-lt (n * 10 + (c - b'0')) (n * 10 + (d - b'0')) a b,
  read_digits-lt (n * 10 + (d - b'0')) (n * 10 + (c - b'0')) b a,
)
