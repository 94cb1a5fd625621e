-- ===== src/Walltime/Tests.antt =====
-- Conditions at noon of 2016-01-07, a Thursday.
use jklibs.Common.{ℕ, ◌≡◌, ◌↔◌, refl, arith, inr}
use jklibs.Common.Int.{pos}
use jklibs.Common.Decimal.{print_nat, digits_fuel}
use jklibs.Walltime.{WallTime, Condition, Tm, walltime_set, walltime_in, everyday, pad, strcmp_le}
use jklibs.Walltime.Daily.{Within, walltime_in_iff}

abbrev noon : Tm
noon = record {
  tm_year = 116;
  tm_mon = 0;
  tm_mday = 7;
  tm_hour = 12;
  tm_min = 0;
  tm_sec = 0;
  tm_wday = 4;
}

abbrev at : ℕ → ℕ → ℕ → WallTime
at day hour minute = record {
  year = 2016;
  mon = 1;
  day = day;
  hour = hour;
  minute = minute;
  second = 0;
}

abbrev condition : ℕ → Condition
condition type = record {
  time_type = type;
  week_day = 4;
  start_time = at 1 9 30;
  end_time = at 31 18 0;
}

set_at : walltime_set 2016 1 7 9 30 0 ≡ at 7 9 30
unfolding walltime_set
set_at = refl

met_daily : walltime_in noon (condition 1) ≡ pos 1
unfolding walltime_in everyday pad strcmp_le print_nat digits_fuel
met_daily = refl

walltime_in_iff_example : (walltime_in noon (condition 4) ≡ pos 1) ↔ Within noon (condition 4)
walltime_in_iff_example =
    walltime_in_iff noon (condition 4) (omega arith) (omega arith) (omega arith) (inr (refl, refl))
