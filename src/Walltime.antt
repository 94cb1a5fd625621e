-- ===== src/Walltime.antt =====
-- The wall clock conditions of common/cm_utils.c, cm_walltime_set and cm_walltime_in. `localtime`
-- is outside: the time is an argument. Dates are compared as text, printed with leading zeros; the
-- texts are taken to fit their buffers of 64 bytes, and the fields of a condition to be no less
-- than 0.
pub mod Padded
pub mod Daily
mod Tests
use jklibs.Common.{
  ℕ, ◌+◌, ◌-◌, Bool, true, false, ◌&&◌, ◌||◌, List, [], ◌∷◌, ◌++◌, ltb, leb, ◌==◌, if◌then◌else◌,
  length, replicate,
}
use jklibs.Common.Int.{ℤ, pos, negsuc}
use jklibs.Common.Decimal.{print_nat}

-- CMWallTime
pub record WallTime : Type 0 where
  pub year : ℕ
  pub mon : ℕ
  pub day : ℕ
  pub hour : ℕ
  pub minute : ℕ
  pub second : ℕ

-- CMWallTimeCondition without its `iType`, which no code reads.
pub record Condition : Type 0 where
  pub time_type : ℕ
  pub week_day : ℕ
  pub start_time : WallTime
  pub end_time : WallTime

-- struct tm: years from 1900, months from 0.
pub record Tm : Type 0 where
  pub tm_year : ℕ
  pub tm_mon : ℕ
  pub tm_mday : ℕ
  pub tm_hour : ℕ
  pub tm_min : ℕ
  pub tm_sec : ℕ
  pub tm_wday : ℕ

-- cm_walltime_set
unfoldable pub walltime_set : ℕ → ℕ → ℕ → ℕ → ℕ → ℕ → WallTime
walltime_set year month day hour minute second = record {
  year = year;
  mon = month;
  day = day;
  hour = hour;
  minute = minute;
  second = second;
}

-- "%0wd" of a number that is not negative.
unfoldable pub pad : ℕ → ℕ → List ℕ
pad w n = let s = print_nat n in replicate (w - length s) b'0' ++ s

-- strcmp(a, b) <= 0
unfoldable pub strcmp_le : List ℕ → List ℕ → Bool
strcmp_le [] b = true
strcmp_le (c ∷ a) [] = false
strcmp_le (c ∷ a) (d ∷ b) = ltb c d || ((c == d) && strcmp_le a b)

-- "%04d%02d%02d"
abbrev pub date_text : ℕ → ℕ → ℕ → List ℕ
date_text y m d = pad 4 y ++ (pad 2 m ++ pad 2 d)

-- "%02d%02d%02d"
abbrev pub time_text : ℕ → ℕ → ℕ → List ℕ
time_text h m s = pad 2 h ++ (pad 2 m ++ pad 2 s)

abbrev pub nowd : Tm → List ℕ
nowd tm = date_text (tm.tm_year + 1900) (tm.tm_mon + 1) tm.tm_mday

abbrev pub nowt : Tm → List ℕ
nowt tm = time_text tm.tm_hour tm.tm_min tm.tm_sec

abbrev pub nowtime : Tm → List ℕ
nowtime tm = nowd tm ++ nowt tm

abbrev pub date_of : WallTime → List ℕ
date_of t = date_text t.year t.mon t.day

abbrev pub time_of : WallTime → List ℕ
time_of t = time_text t.hour t.minute t.second

-- strcmp(a, x) <= 0 && strcmp(x, b) <= 0
abbrev pub between : List ℕ → List ℕ → List ℕ → Bool
between a x b = strcmp_le a x && strcmp_le x b

abbrev pub as_int : Bool → ℤ
as_int true = pos 1
as_int false = pos 0

-- CM_WALLTIME_TIMETYPE_EVERYDAY, and the end of CM_WALLTIME_TIMETYPE_WEEK.
unfoldable pub everyday : Tm → Condition → Bool
everyday tm cond =
    between (date_of cond.start_time) (nowd tm) (date_of cond.end_time)
    && between (time_of cond.start_time) (nowt tm) (time_of cond.end_time)

-- CM_WALLTIME_TIMETYPE_MONTHDAY
unfoldable pub monthday : Tm → Condition → Bool
monthday tm cond =
    let from = cond.start_time in
    let to = cond.end_time in
    (leb from.year tm.tm_year
      && (leb tm.tm_year to.year
          && (leb from.mon tm.tm_mon && (leb tm.tm_mon to.mon && (from.day == tm.tm_mday)))))
    && between (time_of from) (nowt tm) (time_of to)

-- CM_WALLTIME_TIMETYPE_YEARDAY: times of day are compared with the date and time.
unfoldable pub yearday : Tm → Condition → Bool
yearday tm cond =
    let from = cond.start_time in
    let to = cond.end_time in
    (leb from.year tm.tm_year
      && (leb tm.tm_year to.year && ((tm.tm_mon == from.mon) && (tm.tm_mday == from.day))))
    && between (time_of from) (nowtime tm) (time_of to)

-- CM_WALLTIME_TIMETYPE_ONCE
unfoldable pub once : Tm → Condition → Bool
once tm cond =
    let from = cond.start_time in
    let to = cond.end_time in
    let start = date_of from ++ time_of from in
    let now = nowtime tm in
    let end = date_of to ++ time_of to in
    (strcmp_le start now && strcmp_le now start) && (strcmp_le now end && strcmp_le end now)

-- cm_walltime_in at the time `tm`.
unfoldable pub walltime_in : Tm → Condition → ℤ
walltime_in tm cond =
    let t = cond.time_type in
    if t == 1
    then as_int (everyday tm cond)
    else if t == 3
    then as_int (monthday tm cond)
    else if t == 4
    then if tm.tm_wday == cond.week_day then as_int (everyday tm cond) else negsuc 0
    else if t == 2
    then as_int (yearday tm cond)
    else if t == 5
    then as_int (once tm cond)
    else negsuc 0
