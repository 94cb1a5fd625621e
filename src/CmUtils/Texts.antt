-- ===== src/CmUtils/Texts.antt =====
-- What the routines on texts do, and which undo one another.
use jklibs.Common.{
  ℕ, ◌+◌, ◌%◌, ◌≡◌, ◌↔◌, refl, ap, ◌∙◌, true, false, ◌&&◌, List, [], ◌∷◌, ◌++◌, none, some, arith,
  ◌≢◌, ◌⊎◌, ==_iff, ltb, ◌==◌, length, inl, inr, Bool-cases,
}
use jklibs.Common.Int.{pos}
use jklibs.Common.Decimal.{Without}
use jklibs.Common.Text.{Lacks}
use jklibs.FlashCfg.{check_mac}
use jklibs.CmUtils.{
  clear_string_char, mac_from, generate_mac_with_char, rindex, seperate_filename, check_mac_valid,
  last_of,
}

clear-mac_from :
    (c len i : ℕ) (s : List ℕ) → Without c s → clear_string_char c (mac_from c len i s) ≡ s
unfolding clear_string_char mac_from
clear-mac_from c len i [] w = refl
clear-mac_from c len i (d ∷ s) w =
    let keep : (d == c) ≡ false = ground arith in
    let self : (c == c) ≡ true = ground arith in
    let rest = clear-mac_from c len (i + 1) s (w.1) in
    elim (Bool-cases ((i % 2 == 0) && ltb i len)) [
      | inl e ↦ rw (keep, e, self, rest) refl
      | inr e ↦ rw (keep, e, rest) refl
    ]

-- Clearing the separator out of a MAC that cm_generate_mac_with_char made gives the MAC back.
pub clear-generate_mac :
    (mac : List ℕ) (c : ℕ)
    → Without c mac
    → clear_string_char c (generate_mac_with_char mac c) ≡ mac
unfolding generate_mac_with_char
clear-generate_mac mac c w = clear-mac_from c (length mac) 1 mac w

-- `cm_check_mac_valid` accepts what the settings tool's `check_mac` accepts.
pub check_mac_valid_iff : (s : List ℕ) → (check_mac_valid s ≡ pos 1) ↔ (check_mac s ≡ true)
unfolding check_mac_valid check_mac
check_mac_valid_iff s = ground arith

-- What `rindex` finds: nothing, or the place behind which there is no `c` any more.
abbrev Found : ℕ → List ℕ → Type 0
Found c s =
    ((rindex c s ≡ none) × Lacks c s)
    ⊎ ((a : List ℕ) × (b : List ℕ) × (rindex c s ≡ some (a, b)) × (s ≡ a ++ (c ∷ b)) × Lacks c b)

rindex-cases : (c : ℕ) (s : List ℕ) → Found c s
unfolding rindex
rindex-cases c [] = inl (refl, tt)
rindex-cases c (d ∷ s) = elim (rindex-cases c s) [
  | inr (a, b, e, whole, lacks) ↦ inr (d ∷ a, b, ap (last_of c d s) e, ap (λ t. d ∷ t) whole, lacks)
  | inl (e, lacks) ↦ elim (Bool-cases (d == c)) [
    | inl here ↦
        let same : d ≡ c = (==_iff d c).0 here in
        inr ([], s, ap (last_of c d s) e ∙ rw here refl, ap (λ x. x ∷ s) same, lacks)
    | inr there ↦
        let other : d ≢ c = ground arith in
        inl (ap (last_of c d s) e ∙ rw there refl, (other, lacks))
  ]
]

-- The path and the name, with a slash between them, are the file's name; the name has no slash.
-- Where there is no slash, there is no path and the name is the whole.
pub seperate_filename_lem :
    (orig : List ℕ)
    → let (path, name) = seperate_filename orig in
      Lacks b'/' name
      × (((path ≡ none) × (name ≡ orig))
          ⊎ ((p : List ℕ) × (path ≡ some p) × (orig ≡ p ++ (b'/' ∷ name))))
unfolding seperate_filename
seperate_filename_lem orig = elim (rindex-cases b'/' orig) [
  | inl (e, lacks) ↦ rw e (lacks, inl (refl, refl))
  | inr (a, b, e, whole, lacks) ↦ rw e (lacks, inr (a, refl, whole))
]
