-- ===== src/CmConf/File.antt =====
-- A table that was written is read back.
use jklibs.Common.{
  ℕ, zero, suc, ◌+◌, ◌≤◌, ◌<◌, ◌≡◌, refl, sym, ap, ◌∙◌, true, false, List, [], ◌∷◌, ◌++◌, arith,
  ltb, length, set, drop, length-append, append_assoc,
}
use jklibs.Common.Outcome.{Outcome, done, ◌>>=◌}
use jklibs.Common.Text.{codes, Lacks, append-Lacks, lacks-Lacks}
use jklibs.Common.Decimal.{split_at}
use jklibs.Common.Stream.{fgets, fgets-line}
use jklibs.CmConf.{
  Config, scan_line, is_comment, read_line, read_from, config_read, entry_lines, config_write,
}
use jklibs.CmConf.Lines.{Storable, scan_line-entry, entry_text, entry_text-Lacks}

read_from-step :
    (fuel max i : ℕ) (conf : List Config) (text line rest : List ℕ)
    → 1 ≤ length text
    → i ≤ max
    → fgets 127 text ≡ (line, rest)
    → read_from (suc fuel) max (i, conf) text
      ≡ (read_line conf i line >>= λ r. read_from fuel max r rest)
unfolding read_from
read_from-step fuel max i conf [] line rest h m e = absurd (omega arith)
read_from-step fuel max i conf (c ∷ s) line rest h m e =
    let going : ltb max i ≡ false = ground arith in rw (going, e) refl

read_from-end : (fuel max : ℕ) (p : ℕ × List Config) → read_from fuel max p [] ≡ done p
unfolding read_from
read_from-end zero max p = refl
read_from-end (suc fuel) max p = refl

abbrev pub AllStorable : List Config → Type 0
AllStorable [] = Unit {0}
AllStorable (c ∷ conf) = Storable c × AllStorable conf

no_comment-append :
    (a b : List ℕ) → 1 ≤ length a → is_comment a ≡ false → is_comment (a ++ b) ≡ false
no_comment-append [] b h n = absurd (omega arith)
no_comment-append (c ∷ a) b h n = n

-- The line of an entry is stored at the index `i`.
read_line-entry :
    (conf : List Config) (i : ℕ) (c : Config)
    → Storable c
    → i < length conf
    → read_line conf i (entry_text c ++ (10 ∷ [])) ≡ done (i + 1, set conf i c)
read_line-entry conf i c s h =
    let line : entry_text c ++ (10 ∷ []) ≡ c.key ++ (b'=' ∷ (c.value ++ (10 ∷ []))) =
      append_assoc c.key (b'=' ∷ c.value) (10 ∷ []) in
    let plain = no_comment-append c.key (b'=' ∷ (c.value ++ (10 ∷ []))) s.key_full s.no_comment in
    let room : ltb i (length conf) ≡ true = ground arith in
    rw (line, plain, scan_line-entry c s, room) refl

set-append :
    (pre : List Config) (old c : Config) (rest : List Config)
    → set (pre ++ (old ∷ rest)) (length pre) c ≡ (pre ++ (c ∷ [])) ++ rest
set-append [] old c rest = refl
set-append (p ∷ pre) old c rest = ap (λ l. p ∷ l) (set-append pre old c rest)

place :
    (pre : List Config) (o c : Config) (old : List Config)
    → ◌≡◌ {A = ℕ × List Config}
        (length pre + 1, set (pre ++ (o ∷ old)) (length pre) c)
        (length (pre ++ (c ∷ [])), (pre ++ (c ∷ [])) ++ old)
place pre o c old = rw (length-append pre (c ∷ []), set-append pre o c old) refl

shape :
    (pre : List Config) (c : Config) (xs old : List Config)
    → ◌≡◌ {A = Outcome (ℕ × List Config)}
        (done (length (pre ++ (c ∷ [])) + length xs, (pre ++ (c ∷ [])) ++ (xs ++ old)))
        (done (length pre + suc (length xs), pre ++ (c ∷ (xs ++ old))))
shape pre c xs old =
    let number : length (pre ++ (c ∷ [])) + length xs ≡ length pre + suc (length xs) =
      omega (arith, length-append pre (c ∷ [])) in
    rw (number, append_assoc pre (c ∷ []) (xs ++ old)) refl

fgets-entry :
    (c : Config) (rest : List ℕ)
    → Storable c
    → fgets 127 (c.key ++ (b'=' ∷ (c.value ++ (10 ∷ rest)))) ≡ (entry_text c ++ (10 ∷ []), rest)
fgets-entry c rest s =
    let short = s.line_short in
    ap (fgets 127) (sym (append_assoc c.key (b'=' ∷ c.value) (10 ∷ rest)))
    ∙ fgets-line 127 (entry_text c) rest (entry_text-Lacks c s)
        (omega (arith, length-append c.key (b'=' ∷ c.value)))

-- The entries `xs` take the places of as many old entries behind those of `pre`.
read_entries :
    (fuel max : ℕ) (pre old xs : List Config)
    → AllStorable xs
    → length xs ≤ length old
    → length pre + length xs ≤ max + 1
    → length xs ≤ fuel
    → read_from fuel max (length pre, pre ++ old) (entry_lines xs)
      ≡ done (length pre + length xs, pre ++ (xs ++ drop (length xs) old))
unfolding entry_lines
read_entries fuel max pre old [] s h m f =
    read_from-end fuel max (length pre, pre ++ old) ∙ ap (λ n. done (n, pre ++ old)) (omega arith)
read_entries zero max pre old (c ∷ xs) s h m f = absurd (omega arith)
read_entries (suc fuel) max pre [] (c ∷ xs) s h m f = absurd (omega arith)
read_entries (suc fuel) max pre (o ∷ old) (c ∷ xs) s h m f =
    let key_full = s.0.key_full in
    let snoc : length (pre ++ (c ∷ [])) ≡ length pre + 1 = length-append pre (c ∷ []) in
    let rest =
      read_entries fuel max (pre ++ (c ∷ [])) old xs (s.1) (omega arith) (omega arith)
        (omega arith) in
    read_from-step fuel max (length pre) (pre ++ (o ∷ old)) _ _ _
      (omega (arith, length-append c.key (b'=' ∷ (c.value ++ (10 ∷ entry_lines xs))))) (omega arith)
      (fgets-entry c (entry_lines xs) (s.0))
    ∙ (ap (λ r. r >>= λ r. read_from fuel max r (entry_lines xs))
          (read_line-entry (pre ++ (o ∷ old)) (length pre) c (s.0)
            (omega (arith, length-append pre (o ∷ old))))
        ∙ (ap (λ p. read_from fuel max p (entry_lines xs)) (place pre o c old)
            ∙ (rest ∙ shape pre c xs (drop (length xs) old))))

-- The header of the file, as far as its line end.
abbrev head_line : List ℕ → List ℕ
head_line t = codes "# Generated by program. @ " ++ t

head_line-Lacks : (t : List ℕ) → Lacks 10 t → Lacks 10 (head_line t)
head_line-Lacks t h =
    append-Lacks 10 (codes "# Generated by program. @ ") t
      (lacks-Lacks 10 (codes "# Generated by program. @ ") refl) h

empty_line : (arr : List Config) → read_line arr 0 (10 ∷ []) ≡ done (0, arr)
unfolding scan_line split_at
empty_line arr = refl

-- The lines of the header leave the table alone: `ctime` ends in a line end, so the second is empty.
read_from-header :
    (fuel max : ℕ) (arr : List Config) (t rest : List ℕ)
    → Lacks 10 t
    → length t ≤ 90
    → read_from (suc (suc fuel)) max (0, arr) (head_line t ++ (10 ∷ (10 ∷ rest)))
      ≡ read_from fuel max (0, arr) rest
read_from-header fuel max arr t rest h k =
    read_from-step (suc fuel) max 0 arr _ _ _ (omega arith) (omega arith)
      (fgets-line 127 (head_line t) (10 ∷ rest) (head_line-Lacks t h) (omega arith))
    ∙ read_from-step fuel max 0 arr _ _ _ (omega arith) (omega arith)
        (fgets-line 127 [] rest tt (omega arith))
    ∙ ap (λ r. r >>= λ r. read_from fuel max r rest) (empty_line arr)

length-entries : (xs : List Config) → length xs ≤ length (entry_lines xs)
unfolding entry_lines
length-entries [] = omega arith
length-entries (c ∷ xs) = omega (
  arith,
  length-entries xs,
  length-append c.key (b'=' ∷ (c.value ++ (10 ∷ entry_lines xs))),
  length-append c.value (10 ∷ entry_lines xs),
)

-- cm_config_read gives back the entries that cm_config_write was given, in their order, in front of
-- what the array held behind them: entries whose lines can be read (`Storable`), no more than the
-- array has room for and than `max + 1`, under a `time` text of one line of at most 90 bytes.
pub config_read-write :
    (arr xs : List Config) (max : ℕ) (t : List ℕ)
    → AllStorable xs
    → length xs ≤ length arr
    → length xs ≤ max + 1
    → Lacks 10 t
    → length t ≤ 90
    → config_read arr max (config_write (t ++ (10 ∷ [])) xs)
      ≡ done (length xs, xs ++ drop (length xs) arr)
unfolding config_read config_write
config_read-write arr xs max t s room m h k =
    let text : config_write (t ++ (10 ∷ [])) xs ≡ head_line t ++ (10 ∷ (10 ∷ entry_lines xs)) =
      ap (λ l. codes "# Generated by program. @ " ++ l)
        (append_assoc t (10 ∷ []) (10 ∷ entry_lines xs)) in
    let enough = length-entries xs in
    let fuel = length t + 26 + length (entry_lines xs) in
    let size : length (head_line t ++ (10 ∷ (10 ∷ entry_lines xs))) ≡ suc (suc fuel) =
      omega (arith, length-append t (10 ∷ (10 ∷ entry_lines xs))) in
    ap (config_read arr max) text
    ∙ (ap (λ n. read_from n max (0, arr) (head_line t ++ (10 ∷ (10 ∷ entry_lines xs)))) size
        ∙ (read_from-header fuel max arr t (entry_lines xs) h k
            ∙ (read_entries fuel max [] arr xs s room (omega arith) (omega arith)
                ∙ ap (λ n. done (n, xs ++ drop (length xs) arr)) (omega arith))))
