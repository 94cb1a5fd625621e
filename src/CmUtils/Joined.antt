-- ===== src/CmUtils/Joined.antt =====
-- Fields that were joined are taken apart by cm_parse_data_string.
use jklibs.Common.{
  ℕ, zero, suc, ◌+◌, ◌≤◌, ◌<◌, ◌≡◌, refl, ap, ◌∙◌, true, false, ◌||◌, List, [], ◌∷◌, ◌++◌, some,
  arith, ◌==◌, length, min,
}
use jklibs.Common.Decimal.{split_at}
use jklibs.Common.Outcome.{done}
use jklibs.Common.Text.{Lacks}
use jklibs.CmUtils.Fields.{count_sign, copy_field, fields_from, parse_data_string}

-- Fields with the sign between them.
abbrev pub join : ℕ → List ℕ → List (List ℕ) → List ℕ
join sign f [] = f
join sign f (g ∷ fs) = f ++ (sign ∷ join sign g fs)

abbrev pub AllShort : ℕ → ℕ → List (List ℕ) → Type 0
AllShort sign arrsize [] = Unit {0}
AllShort sign arrsize (f ∷ fs) = (Lacks sign f × (length f < arrsize)) × AllShort sign arrsize fs

count-Lacks : (sign : ℕ) (f : List ℕ) → Lacks sign f → count_sign sign f ≡ 0
unfolding count_sign
count-Lacks sign [] h = refl
count-Lacks sign (c ∷ f) h =
    let other : (c == sign) ≡ false = ground (arith, h.0) in rw other (count-Lacks sign f (h.1))

count-field :
    (sign : ℕ) (f s : List ℕ)
    → Lacks sign f
    → count_sign sign (f ++ (sign ∷ s)) ≡ suc (count_sign sign s)
unfolding count_sign
count-field sign [] s h = let it : (sign == sign) ≡ true = ground arith in rw it refl
count-field sign (c ∷ f) s h =
    let other : (c == sign) ≡ false = ground (arith, h.0) in rw other (count-field sign f s (h.1))

count-join :
    (sign arrsize : ℕ) (f : List ℕ) (fs : List (List ℕ))
    → AllShort sign arrsize (f ∷ fs)
    → count_sign sign (join sign f fs) ≡ length fs
count-join sign arrsize f [] h = count-Lacks sign f (h.0.0)
count-join sign arrsize f (g ∷ fs) h =
    count-field sign f (join sign g fs) (h.0.0) ∙ ap suc (count-join sign arrsize g fs (h.1))

copy_field-field :
    (n sign : ℕ) (f s : List ℕ)
    → Lacks sign f
    → length f < n
    → copy_field n sign (f ++ (sign ∷ s)) ≡ (f, sign ∷ s)
unfolding copy_field
copy_field-field zero sign f s h k = absurd (omega arith)
copy_field-field (suc n) sign [] s h k =
    let stop : ((n == 0) || (sign == sign)) ≡ true = ground arith in rw stop refl
copy_field-field (suc n) sign (c ∷ f) s h k =
    let go : ((n == 0) || (c == sign)) ≡ false = ground (arith, h.0) in
    rw (go, copy_field-field n sign f s (h.1) (omega arith)) refl

copy_field-last :
    (n sign : ℕ) (f : List ℕ) → Lacks sign f → length f < n → copy_field n sign f ≡ (f, [])
unfolding copy_field
copy_field-last zero sign f h k = absurd (omega arith)
copy_field-last (suc n) sign [] h k = refl
copy_field-last (suc n) sign (c ∷ f) h k =
    let go : ((n == 0) || (c == sign)) ≡ false = ground (arith, h.0) in
    rw (go, copy_field-last n sign f (h.1) (omega arith)) refl

fields_from-join :
    (arrsize sign : ℕ) (f : List ℕ) (fs : List (List ℕ))
    → AllShort sign arrsize (f ∷ fs)
    → fields_from (suc (length fs)) arrsize sign (some (join sign f fs)) ≡ done (f ∷ fs)
unfolding fields_from split_at
fields_from-join arrsize sign f [] h = rw (copy_field-last arrsize sign f (h.0.0) (h.0.1)) refl
fields_from-join arrsize sign f (g ∷ fs) h =
    let some_bytes : (arrsize == 0) ≡ false = ground (arith, h.0.1) in
    let it : (sign == sign) ≡ true = ground arith in
    let later = fields_from-join arrsize sign g fs (h.1) in
    rw (copy_field-field arrsize sign f (join sign g fs) (h.0.0) (h.0.1), some_bytes, it, later)
      refl

-- Two fields or more with the sign between them are given back, for fields without the sign that fit
-- their arrays, and no more than `maxlen` of them.
pub parse_data_string-join :
    (arrsize maxlen sign : ℕ) (f g : List ℕ) (fs : List (List ℕ))
    → AllShort sign arrsize (f ∷ (g ∷ fs))
    → length fs + 2 ≤ maxlen
    → parse_data_string (join sign f (g ∷ fs)) arrsize maxlen sign ≡ done (f ∷ (g ∷ fs))
unfolding parse_data_string
parse_data_string-join arrsize maxlen sign f g fs h few =
    let signs = count-join sign arrsize f (g ∷ fs) h in
    let rounds : min maxlen (length (g ∷ fs) + 1) ≡ suc (length (g ∷ fs)) = omega arith in
    let some_signs : (length (g ∷ fs) == 0) ≡ false = ground arith in
    rw (signs, some_signs, rounds) (fields_from-join arrsize sign f (g ∷ fs) h)
