-- ===== src/CmHttpDownload/Lines.antt =====
-- A line that is read into the buffer.
use jklibs.Common.{
  ℕ, ◌+◌, ◌≤◌, ◌<◌, ◌≡◌, refl, true, false, List, [], ◌∷◌, ◌++◌, arith, ◌==◌, length, drop,
  length-append,
}
use jklibs.Common.Stream.{fgets-line}
use jklibs.Common.Text.{Lacks, NoNul, until_nul}
use jklibs.CmHttpDownload.{Http}
use jklibs.CmHttpDownload.Header.{read_line, fill_buffer}

pub until_nul-text : (a b : List ℕ) → NoNul a → until_nul (a ++ (0 ∷ b)) ≡ a
until_nul-text [] b h = refl
until_nul-text (c ∷ a) b h =
    let e : (c == 0) ≡ false = let k = h.0 in ground arith in rw (e, until_nul-text a b (h.1)) refl

-- The object behind a line.
abbrev pub behind_line : Http → List ℕ → List ℕ → Http
behind_line info line rest = record info {
  input = rest;
  buffer = line ++ (0 ∷ drop (length line + 1) info.buffer);
}

fill_buffer-line :
    (info : Http) (line rest : List ℕ)
    → 1 ≤ length line
    → fill_buffer info (line, rest) ≡ (behind_line info line rest, true)
fill_buffer-line info [] rest h = absurd (omega arith)
fill_buffer-line info (c ∷ line) rest h = refl

-- A line that fits the buffer is read whole.
pub read_line-text :
    (info : Http) (line rest : List ℕ)
    → Lacks 10 line
    → length line < 8191
    → read_line (record info { input = line ++ (10 ∷ rest) })
      ≡ (behind_line info (line ++ (10 ∷ [])) rest, true)
read_line-text info line rest plain short =
    let fits : 1 ≤ length (line ++ (10 ∷ [])) = omega (arith, length-append line (10 ∷ [])) in
    rw (fgets-line 8191 line rest plain short)
      (fill_buffer-line (record info { input = line ++ (10 ∷ rest) }) (line ++ (10 ∷ [])) rest fits)
