-- ===== src/BusServer/Parts.antt =====
-- A part that was sent is read by one round of the parser.
use jklibs.Common.{
  ℕ, zero, suc, ◌+◌, ◌-◌, ◌≤◌, ◌<◌, ◌≡◌, refl, sym, ap, ap₂, ◌∙◌, true, false, List, [], ◌∷◌, ◌++◌,
  some, arith, ltb, ◌==◌, length, drop, length-append, append_assoc, drop_append_n, drop-drop,
}
use jklibs.Common.Int.{pos}
use jklibs.Common.Decimal.{print_nat, AllDigits, print_nat-AllDigits, atoi-print_before}
use jklibs.Common.Outcome.{done}
use jklibs.BusServer.Parse.{
  BcStr, crlf, find_in_str, crlf_at, next_part, part_at, part_bytes, multipart_bytes,
}

pub find_in_str-digits :
    (s rest : List ℕ) → AllDigits s → find_in_str (s ++ (13 ∷ (10 ∷ rest))) ≡ done (pos (length s))
unfolding find_in_str
find_in_str-digits [] rest h = refl
find_in_str-digits (c ∷ s) rest h =
    let c_digit : (c == 0) ≡ false = ground arith in
    let other : (13 == c) ≡ false = ground arith in
    rw (c_digit, other, find_in_str-digits s rest (h.1)) refl

pub drop-lt : (n c : ℕ) (mem s : List ℕ) → drop n mem ≡ c ∷ s → n < length mem
drop-lt zero c [] s h = ground arith
drop-lt zero c (x ∷ mem) s h = omega arith
drop-lt (suc n) c [] s h = ground arith
drop-lt (suc n) c (x ∷ mem) s h = omega (arith, drop-lt n c mem s h)

pub crlf_at-drop :
    (n : ℕ) (mem s : List ℕ) → drop n mem ≡ 13 ∷ (10 ∷ s) → crlf_at mem (pos n) ≡ done true
unfolding crlf_at
crlf_at-drop n mem s h =
    let inside : ltb n (length mem) ≡ true = ground (arith, drop-lt n 13 mem (10 ∷ s) h) in
    rw (inside, h) refl

-- The memory behind the first `k` bytes of what stands at the offset `n`.
pub drop_at :
    (n k : ℕ) (mem a b : List ℕ) → drop n mem ≡ a ++ b → length a ≡ k → drop (n + k) mem ≡ b
drop_at n k mem a b h e = sym (drop-drop n k mem) ∙ (ap (drop k) h ∙ drop_append_n k a b e)

-- A part in memory, with `rest` behind it.
abbrev pub part_in : List ℕ → List ℕ → BcStr
part_in part rest = record { len = pos (length part); text = part ++ (crlf ++ rest) }

abbrev pub parts_in : List (List ℕ) → List ℕ → List BcStr
parts_in [] rest = []
parts_in (part ∷ parts) rest = part_in part (multipart_bytes parts ++ rest) ∷ parts_in parts rest

pub length-part_bytes :
    (part : List ℕ) → length (part_bytes part) ≡ length (print_nat (length part)) + length part + 4
unfolding part_bytes
length-part_bytes part = omega (
  arith,
  length-append (print_nat (length part)) (crlf ++ (part ++ crlf)),
  length-append part crlf,
)

part_at-read :
    (mem : List ℕ) (size handled line n : ℕ) (text rest : List ℕ)
    → drop (handled + line) mem ≡ 13 ∷ (10 ∷ text)
    → drop (handled + line + 2 + n) mem ≡ 13 ∷ (10 ∷ rest)
    → line + 4 + n ≤ size - handled
    → part_at mem size handled (pos line) (pos n)
      ≡ done (
          some (
            record { len = pos n; text = drop (handled + line + 2) mem },
            handled + line + 2 + n + 2,
          ))
unfolding part_at
part_at-read mem size handled line n text rest a b h =
    let room : ltb (size - handled + 0) (line + 4 + n + 0) ≡ false = ground arith in
    rw
      (
        room,
        crlf_at-drop (handled + line) mem text a,
        crlf_at-drop (handled + line + 2 + n) mem rest b,
      )
      refl

pub part_bytes-append :
    (part rest : List ℕ)
    → part_bytes part ++ rest
      ≡ print_nat (length part) ++ (13 ∷ (10 ∷ (part ++ (13 ∷ (10 ∷ rest)))))
unfolding part_bytes
part_bytes-append part rest =
    append_assoc (print_nat (length part)) (crlf ++ (part ++ crlf)) rest
    ∙ ap (λ t. print_nat (length part) ++ (13 ∷ (10 ∷ t))) (append_assoc part crlf rest)

pub next_part-read :
    (mem : List ℕ) (size handled : ℕ) (part rest : List ℕ)
    → drop handled mem ≡ part_bytes part ++ rest
    → handled + length (part_bytes part) ≤ size
    → next_part mem size handled
      ≡ done (some (part_in part rest, handled + length (part_bytes part)))
unfolding next_part
next_part-read mem size handled part rest e h =
    let digits = print_nat (length part) in
    let line = length digits in
    let behind = part ++ (13 ∷ (10 ∷ rest)) in
    let whole = e ∙ part_bytes-append part rest in
    let at_line = drop_at handled line mem digits (13 ∷ (10 ∷ behind)) whole refl in
    let at_data = drop_at (handled + line) 2 mem crlf behind at_line refl in
    let at_stop =
      drop_at (handled + line + 2) (length part) mem part (13 ∷ (10 ∷ rest)) at_data refl in
    let size_of = length-part_bytes part in
    let total : handled + line + 2 + length part + 2 ≡ handled + length (part_bytes part) =
      omega (arith, size_of) in
    rw
      (
        whole,
        find_in_str-digits digits behind (print_nat-AllDigits (length part)),
        atoi-print_before (length part) 13 (10 ∷ behind) refl,
      )
      (part_at-read mem size handled line (length part) behind rest at_line at_stop
          (omega (arith, size_of))
        ∙ ap₂ (λ t n. done (some (record { len = pos (length part); text = t }, n))) at_data total)
