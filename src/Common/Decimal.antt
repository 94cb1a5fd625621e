-- ===== src/Common/Decimal.antt =====
-- Decimal numbers in text, as `%d` prints and `atoi` reads them, and fields between separators.
use jklibs.Common.{
  ℕ, zero, suc, ◌+◌, ◌-◌, ◌*◌, ◌/◌, ◌%◌, ◌^◌, ◌≤◌, ◌<◌, ◌≡◌, refl, ◌∙◌, ◌≢◌, ap, Bool, true, false,
  ◌&&◌, ◌||◌, List, [], ◌∷◌, ◌++◌, Option, none, some, arith, ltb, leb, ◌==◌, if◌then◌else◌, length,
  Bool-cases, inl, inr,
}
use jklibs.Common.Int.{ℤ, pos, negsuc}
use native.Mathlib.Nat.{pow-suc}

abbrev pub is_digit : ℕ → Bool
is_digit c = leb b'0' c && leb c b'9'

-- The digits of `n` in front of `acc`, the last digit first to be written.
unfoldable pub digits_fuel : ℕ → ℕ → List ℕ → List ℕ
digits_fuel zero n acc = acc
digits_fuel (suc f) n acc =
    let more = digits_fuel f (n / 10) ((n % 10 + b'0') ∷ acc) in
    if ltb n 10 then (n % 10 + b'0') ∷ acc else more

unfoldable pub print_nat : ℕ → List ℕ
print_nat n = digits_fuel (suc n) n []

-- "%d"
unfoldable pub print_int : ℤ → List ℕ
print_int (pos n) = print_nat n
print_int (negsuc n) = b'-' ∷ print_nat (suc n)

-- "%02d"
unfoldable pub print_int2 : ℤ → List ℕ
print_int2 (pos n) = if ltb n 10 then b'0' ∷ print_nat n else print_nat n
print_int2 (negsuc n) = print_int (negsuc n)

unfoldable pub read_digits : ℕ → List ℕ → ℕ
read_digits acc [] = acc
read_digits acc (c ∷ s) =
    let more = read_digits (acc * 10 + (c - b'0')) s in if is_digit c then more else acc

abbrev pub negate : ℕ → ℤ
negate zero = pos 0
negate (suc n) = negsuc n

-- Spaces, a sign, digits; what is no number reads as 0. (Overflow is not modelled.)
unfoldable pub atoi : List ℕ → ℤ
atoi [] = pos 0
atoi (c ∷ s) =
    let skipped = atoi s in
    if (c == 32) || (leb 9 c && leb c 13)
    then skipped
    else if c == b'-'
    then negate (read_digits 0 s)
    else if c == b'+'
    then pos (read_digits 0 s)
    else pos (read_digits 0 (c ∷ s))

-- The text before the first `c`, and what follows `c`.
unfoldable pub split_at : ℕ → List ℕ → Option (List ℕ × List ℕ)
split_at c [] = none
split_at c (d ∷ s) = if d == c then some ([], s) else cons_left d (split_at c s)
  where
    cons_left : ℕ → Option (List ℕ × List ℕ) → Option (List ℕ × List ℕ)
    cons_left d none = none
    cons_left d (some (a, b)) = some (d ∷ a, b)

abbrev pub AllDigits : List ℕ → Type 0
AllDigits [] = Unit {0}
AllDigits (c ∷ s) = ((b'0' ≤ c) × (c ≤ b'9')) × AllDigits s

-- No `c` in the text, and no NUL.
abbrev pub Without : ℕ → List ℕ → Type 0
Without c [] = Unit {0}
Without c (d ∷ s) = ((d ≢ c) × (1 ≤ d)) × Without c s

pub split_at-append : (c : ℕ) (a b : List ℕ) → Without c a → split_at c (a ++ (c ∷ b)) ≡ some (a, b)
unfolding split_at
split_at-append c [] b h = ground arith
split_at-append c (d ∷ a) b h = ground (arith, split_at-append c a b h.1)

digits_fuel-AllDigits : (f n : ℕ) (acc : List ℕ) → AllDigits acc → AllDigits (digits_fuel f n acc)
unfolding digits_fuel
digits_fuel-AllDigits zero n acc h = h
digits_fuel-AllDigits (suc f) n acc h =
    let d : AllDigits ((n % 10 + b'0') ∷ acc) = ((omega arith, omega arith), h) in
    let rest = digits_fuel-AllDigits f (n / 10) ((n % 10 + b'0') ∷ acc) d in
    elim (Bool-cases (ltb n 10)) [ inl e ↦ rw e d | inr e ↦ rw e rest ]

read_digits_digit :
    (a d : ℕ) (s : List ℕ) → d < 10 → read_digits a ((d + b'0') ∷ s) ≡ read_digits (a * 10 + d) s
unfolding read_digits
read_digits_digit a d s h =
    let digit : is_digit (d + b'0') ≡ true = ground arith in
    let value : d + b'0' - b'0' ≡ d = omega arith in rw (digit, value) refl

read_digits-digits :
    (f n : ℕ) (acc : List ℕ) → n < f → read_digits 0 (digits_fuel f n acc) ≡ read_digits n acc
unfolding digits_fuel
read_digits-digits zero n acc h = absurd (omega arith)
read_digits-digits (suc f) n acc h = elim (Bool-cases (ltb n 10)) [
  | inl e ↦
      let small : 0 * 10 + n % 10 ≡ n = ground arith in
      rw e (read_digits_digit 0 (n % 10) acc (omega arith) ∙ rw small refl)
  | inr e ↦
      let whole : n / 10 * 10 + n % 10 ≡ n = omega arith in
      rw e (
        read_digits-digits f (n / 10) ((n % 10 + b'0') ∷ acc) (ground arith)
        ∙ (read_digits_digit (n / 10) (n % 10) acc (omega arith) ∙ rw whole refl))
]

length-digits_fuel :
    (k f n : ℕ) (acc : List ℕ)
    → n < f
    → n < 10 ^ suc k
    → length (digits_fuel f n acc) ≤ suc k + length acc
unfolding digits_fuel
length-digits_fuel k zero n acc h b = absurd (omega arith)
length-digits_fuel zero (suc f) n acc h b =
    let small : ltb n 10 ≡ true = ground (arith, pow-suc 10 0) in rw small (omega arith)
length-digits_fuel (suc k) (suc f) n acc h b = elim (Bool-cases (ltb n 10)) [
  | inl e ↦ rw e (omega arith)
  | inr e ↦ rw e (
      omega (
        arith,
        length-digits_fuel k f (n / 10) ((n % 10 + b'0') ∷ acc) (ground arith)
            (omega (arith, pow-suc 10 (suc k))),
      ))
]

pub print_nat-AllDigits : (n : ℕ) → AllDigits (print_nat n)
unfolding print_nat
print_nat-AllDigits n = digits_fuel-AllDigits (suc n) n [] tt

pub read_digits-print : (n : ℕ) → read_digits 0 (print_nat n) ≡ n
unfolding print_nat
read_digits-print n = read_digits-digits (suc n) n [] (omega arith) ∙ unfold read_digits in refl

-- A number below 10 ^ (k + 1) prints in at most k + 1 digits.
pub length-print : (k n : ℕ) → n < 10 ^ suc k → length (print_nat n) ≤ suc k
unfolding print_nat
length-print k n h = omega (arith, length-digits_fuel k (suc n) n [] (omega arith) h)

atoi_digits : (s : List ℕ) → AllDigits s → atoi s ≡ pos (read_digits 0 s)
unfolding atoi
atoi_digits [] h = unfold read_digits in refl
atoi_digits (c ∷ s) h = ground arith

pub atoi-print : (n : ℕ) → atoi (print_int (pos n)) ≡ pos n
unfolding print_int
atoi-print n = atoi_digits (print_nat n) (print_nat-AllDigits n) ∙ ap pos (read_digits-print n)

pub AllDigits-Without : (c : ℕ) (s : List ℕ) → c < b'0' → AllDigits s → Without c s
AllDigits-Without c [] h d = tt
AllDigits-Without c (x ∷ s) h d =
    let e : x ≢ c = omega arith in ((e, omega arith), AllDigits-Without c s h d.1)

-- The two-digit form.
pub print_int2-AllDigits : (n : ℕ) → AllDigits (print_int2 (pos n))
unfolding print_int2
print_int2-AllDigits n = elim (Bool-cases (ltb n 10)) [
  | inl e ↦ rw e ((omega arith, omega arith), print_nat-AllDigits n)
  | inr e ↦ rw e (print_nat-AllDigits n)
]

read_digits-print2 : (n : ℕ) → read_digits 0 (print_int2 (pos n)) ≡ n
unfolding print_int2
read_digits-print2 n = elim (Bool-cases (ltb n 10)) [
  | inl e ↦ rw e (read_digits_digit 0 0 (print_nat n) (omega arith) ∙ read_digits-print n)
  | inr e ↦ rw e (read_digits-print n)
]

pub atoi-print2 : (n : ℕ) → atoi (print_int2 (pos n)) ≡ pos n
atoi-print2 n =
    atoi_digits (print_int2 (pos n)) (print_int2-AllDigits n) ∙ ap pos (read_digits-print2 n)

pub length-print2 : (k n : ℕ) → n < 10 ^ suc k → length (print_int2 (pos n)) ≤ suc (suc k)
unfolding print_int2
length-print2 k n h = ground (arith, length-print k n h)

pub split_at-none : (c : ℕ) (s : List ℕ) → Without c s → split_at c s ≡ none
unfolding split_at
split_at-none c [] h = refl
split_at-none c (d ∷ s) h = ground (arith, split_at-none c s h.1)

-- Digits in front of what is no digit are read to their end.
read_digits-append :
    (acc c : ℕ) (s rest : List ℕ)
    → is_digit c ≡ false
    → read_digits acc (s ++ (c ∷ rest)) ≡ read_digits acc s
unfolding read_digits
read_digits-append acc c [] rest h = rw h refl
read_digits-append acc c (d ∷ s) rest h =
    let more = read_digits-append (acc * 10 + (d - b'0')) c s rest h in rw more refl

atoi_digits_before :
    (s : List ℕ) (c : ℕ) (rest : List ℕ)
    → AllDigits s
    → 1 ≤ length s
    → is_digit c ≡ false
    → atoi (s ++ (c ∷ rest)) ≡ pos (read_digits 0 (s ++ (c ∷ rest)))
unfolding atoi
atoi_digits_before [] c rest h e k = absurd (omega arith)
atoi_digits_before (d ∷ s) c rest h e k = ground arith

digits_fuel-length :
    (f n : ℕ) (acc : List ℕ) → n < f → 1 + length acc ≤ length (digits_fuel f n acc)
unfolding digits_fuel
digits_fuel-length zero n acc h = absurd (omega arith)
digits_fuel-length (suc f) n acc h = elim (Bool-cases (ltb n 10)) [
  | inl e ↦ rw e (omega arith)
  | inr e ↦
      rw e (omega (arith, digits_fuel-length f (n / 10) ((n % 10 + b'0') ∷ acc) (ground arith)))
]

pub print_nat-length : (n : ℕ) → 1 ≤ length (print_nat n)
unfolding print_nat
print_nat-length n = omega (arith, digits_fuel-length (suc n) n [] (omega arith))

pub atoi-print_before :
    (n c : ℕ) (rest : List ℕ) → is_digit c ≡ false → atoi (print_nat n ++ (c ∷ rest)) ≡ pos n
atoi-print_before n c rest h =
    atoi_digits_before (print_nat n) c rest (print_nat-AllDigits n) (print_nat-length n) h
    ∙ ap pos (read_digits-append 0 c (print_nat n) rest h ∙ read_digits-print n)
