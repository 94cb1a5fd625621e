-- ===== src/Common/Text.antt =====
-- C strings as lists of bytes with no NUL.
use Prim.Native.Char.{code}
use Prim.Native.String.{String}
use jklibs.Common.{
  not, ℕ, ◌≤◌, ◌≡◌, ◌≢◌, refl, Bool, true, false, ◌&&◌, List, [], ◌∷◌, ◌++◌, arith, ◌==◌,
  if◌then◌else◌,
}

-- The bytes of a literal (all are ASCII here).
abbrev pub codes : (text : String) → List ℕ
codes String.[] = []
codes (String.◌∷◌ c s) = code c ∷ codes s

-- !strncmp(name, text, strlen(name))
abbrev pub starts_with : List ℕ → List ℕ → Bool
starts_with [] text = true
starts_with (c ∷ name) [] = false
starts_with (c ∷ name) (d ∷ text) = (c == d) && starts_with name text

-- !strcmp(a, b)
abbrev pub same_text : List ℕ → List ℕ → Bool
same_text [] [] = true
same_text [] (d ∷ b) = false
same_text (c ∷ a) [] = false
same_text (c ∷ a) (d ∷ b) = (c == d) && same_text a b

-- What "%s" reads from a buffer: the bytes before the first NUL.
abbrev pub until_nul : List ℕ → List ℕ
until_nul [] = []
until_nul (c ∷ s) = if c == 0 then [] else c ∷ until_nul s

abbrev pub NoNul : List ℕ → Type 0
NoNul [] = Unit {0}
NoNul (c ∷ s) = (1 ≤ c) × NoNul s

-- No `c` in the text.
abbrev pub Lacks : ℕ → List ℕ → Type 0
Lacks c [] = Unit {0}
Lacks c (d ∷ s) = (d ≢ c) × Lacks c s

pub same_text_refl : (a : List ℕ) → same_text a a ≡ true
same_text_refl [] = refl
same_text_refl (c ∷ a) = ground (arith, same_text_refl a)

pub same_text-eq : (a b : List ℕ) → same_text a b ≡ true → a ≡ b
same_text-eq [] [] h = refl
same_text-eq [] (d ∷ b) h = ground arith
same_text-eq (c ∷ a) [] h = ground arith
same_text-eq (c ∷ a) (d ∷ b) h = ground (arith, same_text-eq a b)

pub until_nul-append : (s t : List ℕ) → NoNul s → until_nul (s ++ (0 ∷ t)) ≡ s
until_nul-append [] t h = refl
until_nul-append (c ∷ s) t h = ground (arith, until_nul-append s t h.1)

pub until_nul_self : (s : List ℕ) → NoNul s → until_nul s ≡ s
until_nul_self [] h = refl
until_nul_self (c ∷ s) h = ground (arith, until_nul_self s h.1)

pub append-Lacks : (c : ℕ) (a b : List ℕ) → Lacks c a → Lacks c b → Lacks c (a ++ b)
append-Lacks c [] b h k = k
append-Lacks c (d ∷ a) b h k = (h.0, append-Lacks c a b (h.1) k)

pub append-NoNul : (a b : List ℕ) → NoNul a → NoNul b → NoNul (a ++ b)
append-NoNul [] b h k = k
append-NoNul (c ∷ a) b h k = (h.0, append-NoNul a b (h.1) k)

-- The test for a text that is given.
abbrev pub lacks : ℕ → List ℕ → Bool
lacks c [] = true
lacks c (d ∷ s) = not (d == c) && lacks c s

pub lacks-Lacks : (c : ℕ) (s : List ℕ) → lacks c s ≡ true → Lacks c s
lacks-Lacks c [] e = tt
lacks-Lacks c (d ∷ s) e = (ground arith, lacks-Lacks c s (ground arith))
