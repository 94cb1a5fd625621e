-- ===== src/CmTime/Tests.antt =====
-- A timer of 100 milliseconds, started at the time 1000.
use jklibs.Common.{◌≡◌, refl, arith, true, [], ◌∷◌}
use jklibs.Common.Int.{pos, negsuc}
use jklibs.Common.Outcome.{done, err}
use jklibs.CmTime.{TimeWait, timewait_start, timewait_stop, timewait_check}
use jklibs.CmTime.Spacing.{due_times, Spaced, due_times-Spaced}

abbrev running : TimeWait
running = record { duration = 100; last_time = 1000; started = true }

start_running : timewait_start (pos 100) 1000 ≡ done running
unfolding timewait_start
start_running = refl

start_negative : timewait_start (negsuc 0) 1000 ≡ err 2
unfolding timewait_start
start_negative = refl

stopped : (timewait_check (timewait_stop running) 5000).1 ≡ negsuc 0
unfolding timewait_check timewait_stop
stopped = refl

due_times-Spaced_example :
    Spaced 100 1000 (due_times running (1050 ∷ (1101 ∷ (1201 ∷ (1202 ∷ [])))))
due_times-Spaced_example =
    due_times-Spaced running (1050 ∷ (1101 ∷ (1201 ∷ (1202 ∷ [])))) refl (omega arith)
