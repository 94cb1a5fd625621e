-- ===== src/CmPrint/Print.antt =====
-- cm_print.c: what stands in front of a message, and the functions that print one.
use Prim.Native.Nat.{bit_and}
use jklibs.Common.{
  ℕ, zero, suc, ◌+◌, ◌-◌, Bool, true, false, not, ◌&&◌, ◌||◌, List, [], ◌∷◌, Option, none, some,
  ◌==◌, if◌then◌else◌,
}
use jklibs.Common.Int.{ℤ, pos, negsuc}
use jklibs.Common.Outcome.{Outcome, done, fault, ◌>>=◌}
use jklibs.CmPrint.Log.{
  LogPrint, Env, level_none, level_error, level_warn, level_info, level_message, level_debug,
  level_cycle, has_flag, color_text, color_none, log, log_all, file_size_check, reopen_file,
  console_on, file_on, is_open,
}
use jklibs.CmPrint.Before.{Place, print_before}

unfoldable pub color_of : ℕ → List ℕ
color_of level =
    if has_flag level level_none
    then color_none
    else if has_flag level level_error
    then color_text 0 31
    else if has_flag level level_warn
    then color_text 1 33
    else if has_flag level level_info
    then color_text 1 37
    else if has_flag level level_debug
    then color_text 0 32
    else if has_flag level level_cycle
    then color_text 1 36
    else if has_flag level level_message
    then color_text 0 37
    else color_text 0 36

-- if (check > 0) cm_print_reopen_file(cm_p)
abbrev pub after_check : Env → LogPrint → ℤ → LogPrint
after_check env cm (pos zero) = cm
after_check env cm (pos (suc n)) = reopen_file env cm
after_check env cm (negsuc n) = cm

-- The file is looked at first, whether colours are on or not.
unfoldable pub checked_file : Env → LogPrint → LogPrint
checked_file env cm = after_check env cm (file_size_check env cm (cm.file_maxsize))

unfoldable pub set_color : Env → LogPrint → ℕ → LogPrint
set_color env cm level =
    let cm = checked_file env cm in
    if cm.enable_color == 1 then record cm { color = color_of level } else cm

abbrev pub color_back : LogPrint → List (List ℕ)
color_back cm = if cm.enable_color == 1 then color_none ∷ [] else []

-- A message as it is formatted, and whether its format takes arguments.
pub record Message : Type 0 where
  pub text : List ℕ
  pub has_args : Bool

abbrev pub is_over : ℤ → Bool
is_over (pos (suc n)) = true
is_over _ = false

-- The pointer of a file that was closed is used, to close it once more or to write.
unfoldable pub uses_closed : Env → LogPrint → Bool
uses_closed env cm =
    cm.closed
    && (is_open (cm.file) && (is_over (file_size_check env cm (cm.file_maxsize)) || file_on cm))

-- JKLOGVPX hands the same va_list to two calls of vfprintf, which is not defined where the first takes
-- arguments from it.
unfoldable pub reads_args_twice : LogPrint → Message → Bool
reads_args_twice cm msg = msg.has_args && (console_on cm && (file_on cm && is_open (cm.file)))

unfoldable pub is_undefined : Env → LogPrint → ℕ → Message → Bool
is_undefined env cm color msg = uses_closed env cm || reads_args_twice (set_color env cm color) msg

-- What the body that cm_print_error and its kin share leaves.
unfoldable pub written : Env → LogPrint → ℕ → Option ℕ → Place → List ℕ → LogPrint
written env cm color type place text =
    let cm = print_before env (set_color env cm color) type place in
    log_all (log cm text) (color_back cm)

-- The body that cm_print_error and its kin share.
unfoldable pub emit : Env → LogPrint → ℕ → Option ℕ → Place → Message → Outcome LogPrint
emit env cm color type place msg =
    if is_undefined env cm color msg
    then fault
    else done (written env cm color type place (msg.text))

-- The return value 0
abbrev pub printed : Outcome LogPrint → Outcome (ℤ × Option LogPrint)
printed r = r >>= λ cm. done (pos 0, some cm)

-- cm_is_print_level_none
unfoldable pub is_level_none : Option LogPrint → ℕ → ℤ
is_level_none none level = negsuc 0
is_level_none (some cm) level = if has_flag level level_none then negsuc 1 else pos 0

-- The kinds of messages with functions of their own, besides the one without a style.
pub data Kind : Type 0 where
  error warn info message debug cycle : Kind

abbrev pub flag_of : Kind → ℕ
flag_of error = level_error
flag_of warn = level_warn
flag_of info = level_info
flag_of message = level_message
flag_of debug = level_debug
flag_of cycle = level_cycle

-- Errors and messages go through unless nothing does; the others have a flag.
unfoldable pub passes_level : Kind → ℕ → Bool
passes_level error level = not (has_flag level level_none)
passes_level message level = not (has_flag level level_none)
passes_level warn level = not (has_flag level level_none) && has_flag level level_warn
passes_level info level = not (has_flag level level_none) && has_flag level level_info
passes_level debug level = not (has_flag level level_none) && has_flag level level_debug
passes_level cycle level = not (has_flag level level_none) && has_flag level level_cycle

-- cm_print_error, _warn, _info, _message, _debug and _cycle
unfoldable pub print_kind :
    Env → Kind → Option LogPrint → Place → Message → Outcome (ℤ × Option LogPrint)
print_kind env kind none place msg = done (negsuc 0, none)
print_kind env kind (some cm) place msg =
    if passes_level kind (cm.print_level)
    then printed (emit env cm (flag_of kind) (some (flag_of kind)) place msg)
    else done (negsuc 1, some cm)

-- cm_print_style_none
unfoldable pub print_style_none :
    Env → Option LogPrint → Place → Message → Outcome (ℤ × Option LogPrint)
print_style_none env none place msg = done (negsuc 0, none)
print_style_none env (some cm) place msg = printed (emit env cm level_debug none place msg)

-- cm_print, which does not set the colour back
unfoldable pub print_type :
    Env → Option LogPrint → ℕ → Place → Message → Outcome (ℤ × Option LogPrint)
print_type env none type place msg = done (negsuc 0, none)
print_type env (some cm) type place msg =
    if has_flag (cm.print_level) level_none
    then done (negsuc 1, some cm)
    else if bit_and (cm.print_level) type == 0
    then done (negsuc 2, some cm)
    else if is_undefined env cm type msg
    then fault
    else done
        (pos 0, some (log (print_before env (set_color env cm type) (some type) place) (msg.text)))

-- level |= flag and level &= ~flag
abbrev pub with_flag : ℕ → ℕ → ℕ
with_flag level flag = if has_flag level flag then level else level + flag

abbrev pub without_flag : ℕ → ℕ → ℕ
without_flag level flag = if has_flag level flag then level - flag else level

unfoldable pub change_level : LogPrint → ℕ → LogPrint
change_level cm level = record cm { print_level = level }

-- cm_print_stacm_cycle
unfoldable pub start_cycle : LogPrint → LogPrint
start_cycle cm = change_level cm (with_flag (cm.print_level) level_cycle)

unfoldable pub stop_cycle : LogPrint → LogPrint
stop_cycle cm = change_level cm (without_flag (cm.print_level) level_cycle)

-- cm_print_stacm_debug
unfoldable pub start_debug : LogPrint → LogPrint
start_debug cm = change_level cm (with_flag (cm.print_level) level_debug)

unfoldable pub stop_debug : LogPrint → LogPrint
stop_debug cm = change_level cm (without_flag (cm.print_level) level_debug)
