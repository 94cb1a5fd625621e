-- ===== src/CmPrint/Levels.antt =====
-- Messages are switched on and off by their kind.
use jklibs.Common.{ℕ, ◌≡◌, Bool, true, false, not, ◌&&◌, arith, if◌then◌else◌, ap}
use jklibs.CmPrint.Log.{LogPrint, has_flag, level_none, level_debug}
use jklibs.CmPrint.Print.{
  Kind, error, warn, info, message, debug, cycle, passes_level, without_flag, change_level,
  start_debug, stop_debug, start_cycle, stop_cycle,
}

without-other : (level : ℕ) → has_flag (without_flag level 32) 4 ≡ has_flag level 4
without-other level = ground arith

abbrev pub is_debug : Kind → Bool
is_debug debug = true
is_debug _ = false

abbrev pub is_cycle : Kind → Bool
is_cycle cycle = true
is_cycle _ = false

-- After cm_print_stop_debug no debug message passes, and every other kind passes as before; after
-- cm_print_stacm_debug debug messages pass unless nothing does, and every other kind passes as before; and likewise
-- for the two functions of the cycle messages.
pub passes_level-switched :
    (kind : Kind) (cm : LogPrint)
    → (passes_level kind ((stop_debug cm).print_level)
        ≡ (not (is_debug kind) && passes_level kind (cm.print_level)))
      × (passes_level kind ((start_debug cm).print_level) ≡ (
          if is_debug kind
          then not (has_flag (cm.print_level) level_none)
          else passes_level kind (cm.print_level)))
      × (passes_level kind ((stop_cycle cm).print_level)
          ≡ (not (is_cycle kind) && passes_level kind (cm.print_level)))
      × (passes_level kind ((start_cycle cm).print_level) ≡ (
          if is_cycle kind
          then not (has_flag (cm.print_level) level_none)
          else passes_level kind (cm.print_level)))
unfolding passes_level stop_debug start_debug stop_cycle start_cycle change_level
passes_level-switched error cm = (ground arith, ground arith, ground arith, ground arith)
passes_level-switched warn cm = (ground arith, ground arith, ground arith, ground arith)
passes_level-switched info cm = (ground arith, ground arith, ground arith, ground arith)
passes_level-switched message cm = (ground arith, ground arith, ground arith, ground arith)
passes_level-switched debug cm = (ground arith, ground arith, ground arith, ground arith)
passes_level-switched cycle cm = (ground arith, ground arith, ground arith, ground arith)

-- Debug messages that are on are switched off and on again: the level is as it was.
start_debug-stop_debug :
    (cm : LogPrint)
    → has_flag (cm.print_level) level_debug ≡ true
    → start_debug (stop_debug cm) ≡ cm
unfolding stop_debug start_debug change_level
start_debug-stop_debug cm on = ap (λ l. record cm { print_level = l }) (ground arith)
