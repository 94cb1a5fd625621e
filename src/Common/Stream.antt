-- ===== src/Common/Stream.antt =====
-- Files and connections that are read: the list of the bytes still to come.
use jklibs.Common.{
  ℕ, zero, suc, ◌<◌, ◌≡◌, refl, false, List, [], ◌∷◌, ◌++◌, arith, ◌==◌, if◌then◌else◌, length,
}
use jklibs.Common.Text.{Lacks}

-- fgets, of at most `n` bytes: the line, and the rest of the file.
unfoldable pub fgets : ℕ → List ℕ → List ℕ × List ℕ
fgets zero s = ([], s)
fgets (suc n) [] = ([], [])
fgets (suc n) (c ∷ s) = let r = fgets n s in if c == 10 then (10 ∷ [], s) else (c ∷ (r.0), r.1)

-- fgets takes a line of at most `n` bytes with its end.
pub fgets-line :
    (n : ℕ) (a rest : List ℕ)
    → Lacks 10 a
    → length a < n
    → fgets n (a ++ (10 ∷ rest)) ≡ (a ++ (10 ∷ []), rest)
unfolding fgets
fgets-line zero a rest l h = absurd (omega arith)
fgets-line (suc n) [] rest l h = refl
fgets-line (suc n) (c ∷ a) rest l h =
    let other : (c == 10) ≡ false = ground arith in
    rw (other, fgets-line n a rest (l.1) (omega arith)) refl
