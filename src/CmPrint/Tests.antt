-- ===== src/CmPrint/Tests.antt =====
-- Log lines on concrete objects.
use jklibs.Common.{
  ◌+◌, ◌≤◌, ◌≡◌, refl, true, not, ◌&&◌, ◌||◌, ℕ, List, false, ◌++◌, [], none, some, if◌then◌else◌,
  length, replicate,
}
use jklibs.Common.Int.{pos, negsuc}
use jklibs.Common.Decimal.{print_nat, digits_fuel}
use jklibs.Common.Outcome.{done, fault}
use jklibs.Common.Text.{codes}
use jklibs.CmPrint.Log.{
  LogPrint, Env, level_none, level_error, has_flag, log, log_all, file_size_check,
}
use jklibs.CmPrint.Init.{init_simple, print_init, print_deinit}
use jklibs.CmPrint.Print.{
  Message, uses_closed, reads_args_twice, is_undefined, written, error, debug, cycle, flag_of,
  passes_level, checked_file, set_color, emit, print_kind, start_debug, stop_debug, start_cycle,
  stop_cycle,
}
use jklibs.CmPrint.Before.{
  Place, tips, all_texts, print_line, before_texts, before_style, print_before,
}
use jklibs.CmPrint.Sinks.{line_of, with_line, print_kind-line}
use jklibs.CmPrint.Bound.{size_of, emit-bounded, emit-unfound}
use jklibs.CmPrint.Levels.{is_debug, is_cycle, passes_level-switched}

abbrev env : Env
env = record { opens = true; finds = true; now = codes "[now]" }

abbrev place : Place
place = record { func = codes "f"; line = 7; file = codes "a.c" }

abbrev plain : List ℕ → Message
plain text = record { text = text; has_args = false }

abbrev lost : Env
lost = record { opens = true; finds = false; now = codes "[now]" }

unfoldable fresh : LogPrint
fresh = init_simple [] (codes "app")

error_line :
    print_kind env error (some fresh) place (plain (codes "no"))
    ≡ done
        (pos 0, some (record fresh { console = codes "[ERROR]**[app][now][f()@a.c:0007] ==> no" }))
unfolding fresh init_simple print_kind passes_level emit is_undefined uses_closed reads_args_twice
    written set_color checked_file file_size_check print_before before_texts before_style tips
    all_texts print_line print_nat digits_fuel log log_all
error_line = refl

-- The type -1, which should print nothing, is on both sinks.
nowhere :
    (log (record fresh { save_type = negsuc 0; file = some [] }) (codes "x")).file
    ≡ some (codes "x")
unfolding fresh init_simple log
nowhere = refl

-- An empty name stays empty.
no_name :
    print_init (record fresh { name = codes "old" }) 126 2 0 (some [])
    ≡ done (pos 0, record fresh { name = []; used = 1 })
unfolding fresh init_simple print_init
no_name = refl

null_name : print_init fresh 126 2 0 none ≡ fault
unfolding fresh init_simple print_init
null_name = refl

closed_twice : print_deinit (some (record fresh { file = some []; closed = true })) ≡ fault
unfolding print_deinit
closed_twice = refl

print_kind-line_example : print_kind env debug (some fresh) place (plain (codes "x")) ≡ (
    if passes_level debug (fresh.print_level)
    then (if uses_closed env fresh
          || reads_args_twice (set_color env fresh (flag_of debug)) (plain (codes "x"))
        then fault
        else done (
          pos 0,
          some (with_line env fresh (flag_of debug) (some (flag_of debug)) place (codes "x")),
        ))
    else done (negsuc 1, some fresh))
print_kind-line_example = print_kind-line env debug fresh place (plain (codes "x"))

emit-bounded_example :
    (next : LogPrint) × (emit env fresh level_error (some level_error) place (plain (codes "x"))
      ≡ done next)
    × (size_of (next.file)
        ≤ next.file_maxsize
          + length (line_of env fresh level_error (some level_error) place (codes "x")))
unfolding fresh init_simple reads_args_twice
emit-bounded_example =
    emit-bounded env fresh level_error (some level_error) place (plain (codes "x")) refl refl refl

-- A message with arguments that goes to both sinks, and one that goes to a file that was closed.
args_twice :
    print_kind env error
      (some (record fresh { save_type = pos 6; file = some [] }))
      place
      (record { text = codes "x"; has_args = true })
    ≡ fault
unfolding fresh init_simple print_kind passes_level emit is_undefined uses_closed reads_args_twice
    set_color checked_file file_size_check
args_twice = refl

closed_used :
    print_kind env error
      (some (record fresh { save_type = pos 4; file = some []; closed = true }))
      place
      (plain (codes "x"))
    ≡ fault
unfolding fresh init_simple print_kind passes_level emit is_undefined uses_closed file_size_check
closed_used = refl

abbrev grown : LogPrint
grown = record fresh { save_type = pos 6; file = some (replicate 20 97); file_maxsize = 10 }

passes_level-switched_example :
    (passes_level cycle ((stop_debug fresh).print_level)
      ≡ (not (is_debug cycle) && passes_level cycle (fresh.print_level)))
    × (passes_level cycle ((start_debug fresh).print_level) ≡ (
        if is_debug cycle
        then not (has_flag (fresh.print_level) level_none)
        else passes_level cycle (fresh.print_level)))
    × (passes_level cycle ((stop_cycle fresh).print_level)
        ≡ (not (is_cycle cycle) && passes_level cycle (fresh.print_level)))
    × (passes_level cycle ((start_cycle fresh).print_level) ≡ (
        if is_cycle cycle
        then not (has_flag (fresh.print_level) level_none)
        else passes_level cycle (fresh.print_level)))
passes_level-switched_example = passes_level-switched cycle fresh

abbrev renamed : LogPrint
renamed = record grown { closed = false }

emit-unfound_example :
    (next : LogPrint) × (emit lost renamed level_error (some level_error) place (plain (codes "x"))
      ≡ done next)
    × (next.file
        ≡ some (
            replicate 20 97
            ++ line_of lost renamed level_error (some level_error) place (codes "x")))
    × (next.file_maxsize ≡ 10)
unfolding fresh init_simple reads_args_twice
emit-unfound_example =
    emit-unfound lost renamed level_error (some level_error) place (plain (codes "x"))
      (replicate 20 97) refl refl refl refl refl
