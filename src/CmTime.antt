-- ===== src/CmTime.antt =====
-- common/cm_time.c: a timer that is asked whether its time has passed. The clock is an argument;
-- times are 64 bits and wrap around.
pub mod Spacing
mod Tests
use jklibs.Common.{ℕ, ◌+◌, ◌-◌, ◌%◌, ◌^◌, Bool, true, false, List, [], ◌∷◌, ltb, if◌then◌else◌}
use jklibs.Common.Int.{ℤ, pos, negsuc}
use jklibs.Common.Outcome.{Outcome, done, err}

-- CM_TimeWait
pub record TimeWait : Type 0 where
  pub duration : ℕ
  pub last_time : ℕ
  pub started : Bool

-- cm_timewait_start at the time `now`
unfoldable pub timewait_start : ℤ → ℕ → Outcome TimeWait
timewait_start (pos duration) now =
    done (record { duration = duration; last_time = now; started = true })
timewait_start (negsuc n) now = err 2

-- cm_timewait_stop
unfoldable pub timewait_stop : TimeWait → TimeWait
timewait_stop tw = record tw { started = false; last_time = 0 }

-- cm_timewait_check at the time `now`: the timer afterwards and the value returned.
unfoldable pub timewait_check : TimeWait → ℕ → TimeWait × ℤ
timewait_check tw now =
    let passed = (now + 2 ^ 64 - tw.last_time) % 2 ^ 64 in
    if tw.started
    then if ltb tw.duration passed then (record tw { last_time = now }, pos 1) else (tw, pos 0)
    else (tw, negsuc 0)
