-- ===== src/Walltime/Daily.antt =====
-- What the conditions mean as numbers.
use jklibs.Common.{
  ℕ, suc, ◌+◌, ◌-◌, ◌*◌, ◌^◌, ◌≤◌, ◌<◌, ◌≡◌, ◌↔◌, ◌⊎◌, inl, inr, refl, sym, ap, ◌∙◌, true, ◌&&◌,
  List, [], ◌∷◌, ◌++◌, arith, leb, ◌==◌, length, length-append,
}
use jklibs.Common.Int.{pos}
use jklibs.Common.Decimal.{AllDigits, read_digits}
use jklibs.Walltime.{
  WallTime, Condition, Tm, pad, strcmp_le, everyday, monthday, yearday, walltime_in, as_int,
}
use jklibs.Walltime.Padded.{
  AllDigits-append, pad-AllDigits, length-pad, read_digits-pad, strcmp_le-read,
}

-- Three fields as one number.
abbrev pub joined : ℕ → ℕ → ℕ → ℕ
joined a b c = (a * 100 + b) * 100 + c

read_digits-append :
    (n : ℕ) (a b : List ℕ) → AllDigits a → read_digits n (a ++ b) ≡ read_digits (read_digits n a) b
unfolding read_digits
read_digits-append n [] b h = refl
read_digits-append n (c ∷ a) b h = ground (arith, read_digits-append (n * 10 + (c - b'0')) a b)

read_two :
    (n : ℕ) (a : List ℕ) → AllDigits a → length a ≡ 2 → read_digits n a ≡ n * 100 + read_digits 0 a
unfolding read_digits
read_two n [] h l = absurd (omega arith)
read_two n (c ∷ []) h l = absurd (omega arith)
read_two n (c ∷ (d ∷ [])) h l = ground arith
read_two n (c ∷ (d ∷ (e ∷ a))) h l = absurd (omega arith)

read_pad2 : (n m : ℕ) → m < 100 → read_digits n (pad 2 m) ≡ n * 100 + m
read_pad2 n m h =
    read_two n (pad 2 m) (pad-AllDigits 2 m) (length-pad 1 m (omega arith))
    ∙ ap (λ r. n * 100 + r) (read_digits-pad 2 m)

module _ (w : ℕ) where
  -- Three fields, the first in w + 1 digits.
  abbrev three : ℕ → ℕ → ℕ → List ℕ
  three a b c = pad (suc w) a ++ (pad 2 b ++ pad 2 c)

  three-AllDigits : (a b c : ℕ) → AllDigits (three a b c)
  three-AllDigits a b c =
      AllDigits-append (pad (suc w) a) _ (pad-AllDigits (suc w) a)
        (AllDigits-append (pad 2 b) (pad 2 c) (pad-AllDigits 2 b) (pad-AllDigits 2 c))

  length-three : (a b c : ℕ) → a < 10 ^ suc w → b < 100 → c < 100 → length (three a b c) ≡ suc w + 4
  length-three a b c ha hb hc = omega (
    arith,
    length-append (pad (suc w) a) (pad 2 b ++ pad 2 c),
    length-append (pad 2 b) (pad 2 c),
    length-pad w a ha,
    length-pad 1 b (omega arith),
    length-pad 1 c (omega arith),
  )

  read_three : (a b c : ℕ) → b < 100 → c < 100 → read_digits 0 (three a b c) ≡ joined a b c
  read_three a b c hb hc =
      read_digits-append 0 (pad (suc w) a) _ (pad-AllDigits (suc w) a)
      ∙ (ap (λ n. read_digits n (pad 2 b ++ pad 2 c)) (read_digits-pad (suc w) a)
          ∙ (read_digits-append a (pad 2 b) (pad 2 c) (pad-AllDigits 2 b)
              ∙ (ap (λ n. read_digits n (pad 2 c)) (read_pad2 a b hb)
                  ∙ read_pad2 (a * 100 + b) c hc)))

  pub strcmp_le-three :
      (a b c x y z : ℕ)
      → (a < 10 ^ suc w) × (b < 100) × (c < 100)
      → (x < 10 ^ suc w) × (y < 100) × (z < 100)
      → strcmp_le (three a b c) (three x y z) ≡ leb (joined a b c) (joined x y z)
  strcmp_le-three a b c x y z h k =
      strcmp_le-read 0 (three a b c) (three x y z) (three-AllDigits a b c) (three-AllDigits x y z)
        (length-three a b c h.0 h.1 h.2 ∙ sym (length-three x y z k.0 k.1 k.2))
      ∙ (ap (λ n. leb n (read_digits 0 (three x y z))) (read_three a b c h.1 h.2)
          ∙ ap (λ n. leb (joined a b c) n) (read_three x y z k.1 k.2))

-- The fields of a condition's time, and those of `localtime`, before the year 10000.
abbrev pub Fits : WallTime → Type 0
Fits t =
    ((t.year < 10000) × (t.mon < 100) × (t.day < 100))
    × ((t.hour < 100) × (t.minute < 100) × (t.second < 100))

abbrev pub IsTime : Tm → Type 0
IsTime tm =
    ((tm.tm_year + 1900 < 10000) × (tm.tm_mon + 1 < 100) × (tm.tm_mday < 100))
    × ((tm.tm_hour < 100) × (tm.tm_min < 100) × (tm.tm_sec < 100))

abbrev pub date_number : WallTime → ℕ
date_number t = joined t.year t.mon t.day

abbrev pub time_number : WallTime → ℕ
time_number t = joined t.hour t.minute t.second

abbrev pub today : Tm → ℕ
today tm = joined (tm.tm_year + 1900) (tm.tm_mon + 1) tm.tm_mday

abbrev pub time_of_day : Tm → ℕ
time_of_day tm = joined tm.tm_hour tm.tm_min tm.tm_sec

abbrev pub Within : Tm → Condition → Type 0
Within tm cond =
    ((date_number cond.start_time ≤ today tm) × (today tm ≤ date_number cond.end_time))
    × ((time_number cond.start_time ≤ time_of_day tm)
        × (time_of_day tm ≤ time_number cond.end_time))

everyday-number :
    (tm : Tm) (cond : Condition)
    → IsTime tm
    → Fits cond.start_time
    → Fits cond.end_time
    → everyday tm cond ≡ (
        (leb (date_number cond.start_time) (today tm) && leb (today tm) (date_number cond.end_time))
        && (leb (time_number cond.start_time) (time_of_day tm)
            && leb (time_of_day tm) (time_number cond.end_time)))
unfolding everyday
everyday-number tm cond t f g =
    rw
      (
        strcmp_le-three 3 _ _ _ _ _ _ f.0 t.0,
        strcmp_le-three 3 _ _ _ _ _ _ t.0 g.0,
        strcmp_le-three 1 _ _ _ _ _ _ f.1 t.1,
        strcmp_le-three 1 _ _ _ _ _ _ t.1 g.1,
      )
      refl

walltime_in-daily :
    (tm : Tm) (cond : Condition)
    → (cond.time_type ≡ 1) ⊎ ((cond.time_type ≡ 4) × (tm.tm_wday ≡ cond.week_day))
    → walltime_in tm cond ≡ as_int (everyday tm cond)
unfolding walltime_in
walltime_in-daily tm cond (inl e) = rw e refl
walltime_in-daily tm cond (inr (e, day)) =
    let same : (tm.tm_wday == cond.week_day) ≡ true = ground arith in rw (e, same) refl

-- A daily condition is met exactly between its dates and between its times of day. A weekly one
-- is met exactly then, on its day of the week.
pub walltime_in_iff :
    (tm : Tm) (cond : Condition)
    → IsTime tm
    → Fits cond.start_time
    → Fits cond.end_time
    → (cond.time_type ≡ 1) ⊎ ((cond.time_type ≡ 4) × (tm.tm_wday ≡ cond.week_day))
    → (walltime_in tm cond ≡ pos 1) ↔ Within tm cond
walltime_in_iff tm cond t f g ty =
    let value = walltime_in-daily tm cond ty ∙ ap as_int (everyday-number tm cond t f g) in
    (λ e. met (sym value ∙ e), λ w. value ∙ ap as_int (all_true w))
  where
    met :
        as_int (
            (leb (date_number cond.start_time) (today tm)
              && leb (today tm) (date_number cond.end_time))
            && (leb (time_number cond.start_time) (time_of_day tm)
                && leb (time_of_day tm) (time_number cond.end_time)))
          ≡ pos 1
        → Within tm cond
    met e = ground arith

    all_true :
        Within tm cond
        → ((leb (date_number cond.start_time) (today tm)
              && leb (today tm) (date_number cond.end_time))
            && (leb (time_number cond.start_time) (time_of_day tm)
                && leb (time_of_day tm) (time_number cond.end_time)))
          ≡ true
    all_true w = ground arith

-- Conditions by month or by year whose first year is written in full are not met before the year
-- 3800.
pub years-never :
    (tm : Tm) (cond : Condition)
    → (cond.time_type ≡ 2) ⊎ (cond.time_type ≡ 3)
    → 1900 ≤ cond.start_time.year
    → tm.tm_year < 1900
    → walltime_in tm cond ≡ pos 0
unfolding walltime_in monthday yearday
years-never tm cond ty y h = ground arith
