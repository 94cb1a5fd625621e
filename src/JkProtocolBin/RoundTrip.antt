-- ===== src/JkProtocolBin/RoundTrip.antt =====
-- A message that was generated comes back, but for its code.
use jklibs.Common.{ℕ, ◌^◌, ◌<◌, ◌≡◌, refl, false, List, [], ◌∷◌, ◌++◌, arith, leb, length, drop}
use jklibs.Common.Int.{ℤ, pos}
use jklibs.Common.Decimal.{
  print_int, print_int2, print_nat, split_at-append, split_at-none, Without, AllDigits-Without,
  atoi-print, atoi-print2, length-print, length-print2, print_nat-AllDigits, print_int2-AllDigits,
}
use jklibs.Common.Outcome.{done}
use jklibs.Common.Text.{NoNul}
use jklibs.JkProtocolBin.State.{Header}
use jklibs.JkProtocolBin.Text.{
  dash, ◌-then-◌, header_text, field, text_field, number, last_number, parse_header,
}

field-then : (s rest : List ℕ) → Without dash s → field (s -then- rest) ≡ done (s, rest)
unfolding field
field-then s rest w = rw (split_at-append dash s rest w, field) refl

text_field-then :
    (k : ℕ) (s rest : List ℕ)
    → Without dash s
    → length s < k
    → text_field k (s -then- rest) ≡ done (s, rest)
unfolding text_field
text_field-then k s rest w h =
    let fits : leb k (length s) ≡ false = ground arith in rw (field-then s rest w, fits) refl

print_int-Without : (n : ℕ) → Without dash (print_int (pos n))
unfolding print_int
print_int-Without n = AllDigits-Without dash (print_nat n) (omega arith) (print_nat-AllDigits n)

number-print :
    (n : ℕ) (rest : List ℕ)
    → n < 10 ^ 15
    → number (print_int (pos n) -then- rest) ≡ done (pos n, rest)
unfolding number
number-print n rest h =
    rw (text_field-then 16 (print_int (pos n)) rest (print_int-Without n) short, atoi-print n) refl
  where
    short : length (print_int (pos n)) < 16
    short = unfold print_int in omega (arith, length-print 14 n h)

number-print2 :
    (n : ℕ) (rest : List ℕ)
    → n < 10 ^ 14
    → number (print_int2 (pos n) -then- rest) ≡ done (pos n, rest)
unfolding number
number-print2 n rest h =
    rw
      (
        text_field-then 16 (print_int2 (pos n)) rest
            (AllDigits-Without dash (print_int2 (pos n)) (omega arith) (print_int2-AllDigits n))
            (omega (arith, length-print2 13 n h)),
        atoi-print2 n,
      )
      refl

last_number-print : (old : ℤ) (n : ℕ) → last_number old (print_int (pos n)) ≡ done old
unfolding last_number
last_number-print old n =
    rw (split_at-none dash (print_int (pos n)) (print_int-Without n), last_number) refl

-- A header as it is sent: no number is negative, the texts hold no dash and no NUL, and every
-- field fits the array that it is read into.
pub record Sendable : Type 0 where
  pub version : ℕ
  pub direction : ℕ
  pub cmd : ℕ
  pub subcmd : ℕ
  pub id : List ℕ
  pub transaction : ℕ
  pub sequence : ℕ
  pub size : ℕ
  pub sign : List ℕ
  pub ret : ℕ
  pub ret_code : ℕ

pub record Fits (m : Sendable) : Type 0 where
  pub version_small : m.version < 10 ^ 14
  pub direction_small : m.direction < 10 ^ 15
  pub cmd_small : m.cmd < 10 ^ 15
  pub subcmd_small : m.subcmd < 10 ^ 15
  pub id_plain : Without dash m.id
  pub id_short : length m.id < 16
  pub transaction_small : m.transaction < 10 ^ 15
  pub sequence_small : m.sequence < 10 ^ 15
  pub size_small : m.size < 10 ^ 15
  pub sign_plain : Without dash m.sign
  pub sign_short : length m.sign < 34
  pub ret_small : m.ret < 10 ^ 15

abbrev pub header_of : Sendable → Header
header_of m = record {
  version = pos m.version;
  direction = pos m.direction;
  cmd = pos m.cmd;
  subcmd = pos m.subcmd;
  id = m.id;
  transaction = pos m.transaction;
  sequence = pos m.sequence;
  length = pos m.size;
  sign = m.sign;
  header_len = pos 120;
  ret = pos m.ret;
  ret_code = pos m.ret_code;
}

-- What the receiver's header is after the text of `m` was read into `old`.
abbrev pub received : Header → Sendable → Header
received old m =
    let h = header_of m in
    record h {
      sign = m.sign ++ drop (length m.sign) old.sign;
      header_len = old.header_len;
      ret_code = old.ret_code;
    }

-- Every field of the header but the code is read back from its text; the code stays what the
-- receiver had.
pub parse_header-text :
    (old : Header) (m : Sendable)
    → Fits m
    → parse_header old (header_text (header_of m)) ≡ done (received old m)
unfolding parse_header header_text
parse_header-text old m f =
    rw
      (
        number-print2 m.version _ f.version_small,
        text_field-then 16 m.id _ f.id_plain f.id_short,
        number-print m.direction _ f.direction_small,
        number-print m.cmd _ f.cmd_small,
        number-print m.subcmd _ f.subcmd_small,
        number-print m.transaction _ f.transaction_small,
        number-print m.sequence _ f.sequence_small,
        text_field-then 34 m.sign _ f.sign_plain f.sign_short,
        number-print m.size _ f.size_small,
        number-print m.ret _ f.ret_small,
        last_number-print old.ret_code m.ret_code,
      )
      refl

NoNul-append : (s t : List ℕ) → NoNul s → NoNul t → NoNul (s ++ t)
NoNul-append [] t hs ht = ht
NoNul-append (c ∷ s) t hs ht = (hs.0, NoNul-append s t (hs.1) ht)

Without-NoNul : (c : ℕ) (s : List ℕ) → Without c s → NoNul s
Without-NoNul c [] h = tt
Without-NoNul c (d ∷ s) h = ((h.0).1, Without-NoNul c s (h.1))

NoNul-then : (s rest : List ℕ) → Without dash s → NoNul rest → NoNul (s -then- rest)
NoNul-then s rest h r = NoNul-append s (dash ∷ rest) (Without-NoNul dash s h) (omega arith, r)

print_int2-Without : (n : ℕ) → Without dash (print_int2 (pos n))
print_int2-Without n =
    AllDigits-Without dash (print_int2 (pos n)) (omega arith) (print_int2-AllDigits n)

pub header_text-NoNul : (m : Sendable) → Fits m → NoNul (header_text (header_of m))
unfolding header_text
header_text-NoNul m f = NoNul-then _ _ (print_int2-Without m.version) (
    NoNul-then _ _ f.id_plain (
      NoNul-then _ _ (print_int-Without m.direction) (
        NoNul-then _ _ (print_int-Without m.cmd) (
          NoNul-then _ _ (print_int-Without m.subcmd) (
            NoNul-then _ _ (print_int-Without m.transaction) (
              NoNul-then _ _ (print_int-Without m.sequence) (
                NoNul-then _ _ f.sign_plain (
                  NoNul-then _ _ (print_int-Without m.size) (
                    NoNul-then _ _ (print_int-Without m.ret)
                      (Without-NoNul dash _ (print_int-Without m.ret_code)))))))))))
