-- ===== src/CmConf/Lines.antt =====
-- A line of the file that cm_config_write printed is read back.
use jklibs.Common.{
  ℕ, ◌+◌, ◌≤◌, ◌<◌, ◌≡◌, refl, false, List, [], ◌∷◌, ◌++◌, some, arith, leb, length,
}
use jklibs.Common.Decimal.{split_at-append, Without}
use jklibs.Common.Outcome.{done}
use jklibs.Common.Text.{Lacks, append-Lacks}
use jklibs.CmConf.{Config, is_space, skip_spaces, word, entry, scan_line, is_comment}

-- A value that `%s` reads as a whole: no spaces, tabs or line ends.
abbrev pub NoSpace : List ℕ → Type 0
NoSpace [] = Unit {0}
NoSpace (c ∷ s) = (is_space c ≡ false) × NoSpace s

-- An entry that its line gives back: a key without `=` and line ends that does not begin as a
-- comment, a value without spaces, both with a byte at least, and a line of at most 127 bytes.
pub record Storable (c : Config) : Type 0 where
  pub key_plain : Without b'=' c.key
  pub key_one_line : Lacks 10 c.key
  pub key_full : 1 ≤ length c.key
  pub key_short : length c.key < 32
  pub no_comment : is_comment c.key ≡ false
  pub value_plain : NoSpace c.value
  pub value_full : 1 ≤ length c.value
  pub line_short : length c.key + length c.value < 126

word-line : (v : List ℕ) → NoSpace v → word (v ++ (10 ∷ [])) ≡ v
unfolding word
word-line [] h = refl
word-line (c ∷ v) h = rw (h.0, word-line v (h.1)) refl

value-line : (v : List ℕ) → NoSpace v → word (skip_spaces (v ++ (10 ∷ []))) ≡ v
unfolding skip_spaces
value-line [] h = unfold word in refl
value-line (c ∷ v) h = rw (h.0) (word-line (c ∷ v) h)

entry_full :
    (k v : List ℕ) → 1 ≤ length k → 1 ≤ length v → entry k v ≡ some (record { key = k; value = v })
entry_full [] v hk hv = absurd (omega arith)
entry_full (c ∷ k) [] hk hv = absurd (omega arith)
entry_full (c ∷ k) (d ∷ v) hk hv = refl

pub scan_line-entry :
    (c : Config) → Storable c → scan_line (c.key ++ (b'=' ∷ (c.value ++ (10 ∷ [])))) ≡ done (some c)
unfolding scan_line
scan_line-entry c s =
    let fits : leb 32 (length c.key) ≡ false = let k = s.key_short in ground arith in
    rw
      (
        split_at-append b'=' c.key (c.value ++ (10 ∷ [])) s.key_plain,
        scan_line,
        fits,
        value-line c.value s.value_plain,
        entry_full c.key c.value s.key_full s.value_full,
      )
      refl

NoSpace-Lacks : (v : List ℕ) → NoSpace v → Lacks 10 v
NoSpace-Lacks [] h = tt
NoSpace-Lacks (c ∷ v) h = (ground (arith, h.0), NoSpace-Lacks v (h.1))

-- The line without its end.
abbrev pub entry_text : Config → List ℕ
entry_text c = c.key ++ (b'=' ∷ c.value)

pub entry_text-Lacks : (c : Config) → Storable c → Lacks 10 (entry_text c)
entry_text-Lacks c s =
    append-Lacks 10 c.key (b'=' ∷ c.value) s.key_one_line
      (omega arith, NoSpace-Lacks c.value s.value_plain)
