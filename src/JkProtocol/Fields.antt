-- ===== src/JkProtocol/Fields.antt =====
-- The fields of a message are read off its text.
use jklibs.Common.{
  ℕ, suc, ◌+◌, ◌^◌, ◌<◌, ◌≡◌, ◌≢◌, refl, ap, ◌∙◌, false, List, [], ◌∷◌, none, some, arith, leb,
  ◌==◌, length, length-append,
}
use jklibs.Common.Int.{pos}
use jklibs.Common.Decimal.{
  print_int, print_nat, atoi-print, length-print, print_nat-AllDigits, AllDigits,
}
use jklibs.Common.Outcome.{done}
use jklibs.Common.Text.{Lacks}
use jklibs.JkProtocol.{Head, split_line, cons_before, fill, read_field, read_head, ◌-line-◌}

split_line-cons : (c : ℕ) (s : List ℕ) → c ≢ 13 → split_line (c ∷ s) ≡ cons_before c (split_line s)
unfolding split_line
split_line-cons c [] h = refl
split_line-cons c (d ∷ s) h = let other : (c == 13) ≡ false = ground arith in rw other refl

-- A field without a carriage return ends at the first separator.
pub split_line-line : (a b : List ℕ) → Lacks 13 a → split_line (a -line- b) ≡ some (a, b)
split_line-line [] b h = unfold split_line in refl
split_line-line (c ∷ a) b h =
    split_line-cons c (a -line- b) (h.0) ∙ ap (cons_before c) (split_line-line a b (h.1))

pub split_line-none : (s : List ℕ) → Lacks 13 s → split_line s ≡ none
split_line-none [] h = unfold split_line in refl
split_line-none (c ∷ s) h = split_line-cons c s (h.0) ∙ ap (cons_before c) (split_line-none s (h.1))

pub read_field-line :
    (n : ℕ) (a b : List ℕ)
    → Lacks 13 a
    → length a < n
    → read_field n (a -line- b) ≡ done (record { text = a; rest = b; step = length a + 2 })
unfolding read_field
read_field-line n a b h fits =
    let small : leb n (length a) ≡ false = ground arith in
    ap (fill n (a -line- b)) (split_line-line a b h) ∙ rw small refl

pub AllDigits-Lacks : (s : List ℕ) → AllDigits s → Lacks 13 s
AllDigits-Lacks [] h = tt
AllDigits-Lacks (c ∷ s) h = (omega arith, AllDigits-Lacks s (h.1))

-- A number of fewer than `n` digits.
pub number-line :
    (k n : ℕ) (b : List ℕ)
    → n < 10 ^ suc k
    → let text = print_int (pos n) in
      read_field (suc (suc k)) (text -line- b)
      ≡ done (record { text = text; rest = b; step = length text + 2 })
unfolding print_int
number-line k n b h =
    read_field-line (suc (suc k)) (print_nat n) b (AllDigits-Lacks _ (print_nat-AllDigits n))
      (omega (arith, length-print k n h))

-- A head with numbers that are not negative, and what lets its text be read back.
pub record Message : Type 0 where
  pub version : List ℕ
  pub id : List ℕ
  pub cmd : ℕ
  pub sub_cmd : ℕ
  pub tm : ℕ
  pub sign : List ℕ

pub record Fits (m : Message) : Type 0 where
  pub version_plain : Lacks 13 m.version
  pub version_short : length m.version < 8
  pub id_plain : Lacks 13 m.id
  pub id_short : length m.id < 16
  pub cmd_small : m.cmd < 1000
  pub sub_cmd_small : m.sub_cmd < 1000
  pub tm_small : m.tm < 2 ^ 31
  pub sign_plain : Lacks 13 m.sign
  pub sign_short : length m.sign < 40

abbrev pub head_of : Message → Head
head_of m = record {
  version = m.version;
  id = m.id;
  cmd = pos m.cmd;
  sub_cmd = pos m.sub_cmd;
  tm = pos m.tm;
  sign = m.sign;
}

-- The text of a head and of what is behind it.
abbrev pub lines : Message → List ℕ → List ℕ
lines m rest =
    m.version
    -line- m.id
    -line- print_int (pos m.cmd)
    -line- print_int (pos m.sub_cmd)
    -line- print_int (pos m.tm)
    -line- m.sign
    -line- rest

abbrev pub head_length : Message → ℕ
head_length m =
    (length m.version + 2)
    + (length m.id + 2)
    + (length (print_int (pos m.cmd)) + 2)
    + (length (print_int (pos m.sub_cmd)) + 2)
    + (length (print_int (pos m.tm)) + 2)
    + (length m.sign + 2)

length-line : (a b : List ℕ) → length (a -line- b) ≡ length a + 2 + length b
length-line a b = omega (arith, length-append a (13 ∷ (10 ∷ b)))

pub length-lines :
    (m : Message) (rest : List ℕ) → length (lines m rest) ≡ head_length m + length rest
length-lines m rest =
    rw
      (
        length-line m.version,
        length-line m.id,
        length-line (print_int (pos m.cmd)),
        length-line (print_int (pos m.sub_cmd)),
        length-line (print_int (pos m.tm)),
        length-line m.sign,
      )
      (omega arith)

-- Every field of the head is read back from its text, and `headlen` is where the rest begins.
pub read_head-lines :
    (m : Message) (rest : List ℕ)
    → Fits m
    → read_head (lines m rest) ≡ done (head_of m, rest, head_length m)
unfolding read_head
read_head-lines m rest f =
    rw
      (
        read_field-line 8 m.version _ f.version_plain f.version_short,
        read_field-line 16 m.id _ f.id_plain f.id_short,
        number-line 2 m.cmd _ (omega (arith, f.cmd_small)),
        number-line 2 m.sub_cmd _ (omega (arith, f.sub_cmd_small)),
        number-line 14 m.tm _ (omega (arith, f.tm_small)),
        read_field-line 40 m.sign rest f.sign_plain f.sign_short,
        atoi-print m.cmd,
        atoi-print m.sub_cmd,
        atoi-print m.tm,
      )
      refl
