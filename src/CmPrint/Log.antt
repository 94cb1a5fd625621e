-- ===== src/CmPrint/Log.antt =====
-- cm_print.c: the object, its two sinks, and its file, which starts anew when it has grown too large.
use jklibs.Common.{
  ℕ, ◌/◌, ◌%◌, Bool, true, false, not, ◌&&◌, List, [], ◌∷◌, ◌++◌, Option, none, some, ltb, ◌==◌,
  if◌then◌else◌, length,
}
use jklibs.Common.Int.{ℤ, pos, negsuc}
use jklibs.Common.Decimal.{print_nat}
use jklibs.Common.Outcome.{Outcome, done, fault}
use jklibs.Common.Text.{codes}

-- CMLogPrint, what stands on stderr, and what the open file holds (`file`); `closed` says that the
-- file was closed and the pointer kept. A text is what stands before the NUL.
pub record LogPrint : Type 0 where
  pub print_level : ℕ
  pub print_style : ℕ
  pub name : List ℕ
  pub style_text : List ℕ
  pub color : List ℕ
  pub enable_color : ℕ
  pub used : ℕ
  pub save_type : ℤ
  pub filepath : List ℕ
  pub file : Option (List ℕ)
  pub closed : Bool
  pub file_maxsize : ℕ
  pub console : List ℕ

-- Whether fopen gives a file, whether stat finds the open file under the path of the log, and the time
-- as RTTIME prints it.
pub record Env : Type 0 where
  pub opens : Bool
  pub finds : Bool
  pub now : List ℕ

-- CM_PRINT_*: the levels
abbrev pub level_none : ℕ
level_none = 1

abbrev pub level_error : ℕ
level_error = 2

abbrev pub level_warn : ℕ
level_warn = 4

abbrev pub level_info : ℕ
level_info = 8

abbrev pub level_message : ℕ
level_message = 16

abbrev pub level_debug : ℕ
level_debug = 32

abbrev pub level_cycle : ℕ
level_cycle = 64

abbrev pub level_all : ℕ
level_all = 126

-- CM_PRINT_STYLE_ALL and its kin
abbrev pub style_all : ℕ
style_all = 2

abbrev pub style_none : ℕ
style_none = 4

abbrev pub style_noname : ℕ
style_noname = 8

abbrev pub style_notime : ℕ
style_notime = 16

abbrev pub style_nofunc : ℕ
style_nofunc = 32

abbrev pub style_noline : ℕ
style_noline = 64

abbrev pub style_nofile : ℕ
style_nofile = 128

-- CM_PRINT_LOG_TYPE_*
abbrev pub type_console : ℤ
type_console = pos 2

abbrev pub type_ownfile : ℤ
type_ownfile = pos 4

-- flags & flag, where `flag` is a power of two
abbrev pub has_flag : ℕ → ℕ → Bool
has_flag flags flag = flags / flag % 2 == 1

-- The same for an int: a negative number has the bits that its complement has not.
abbrev pub int_flag : ℤ → ℕ → Bool
int_flag (pos n) flag = has_flag n flag
int_flag (negsuc n) flag = not (has_flag n flag)

-- CM_COLOR_*: `mode` and `code` in "\033[0;30m "
abbrev pub color_text : ℕ → ℕ → List ℕ
color_text mode code = 27 ∷ (91 ∷ (print_nat mode ++ (b';' ∷ (print_nat code ++ codes "m "))))

abbrev pub color_none : List ℕ
color_none = 27 ∷ codes "[0m "

abbrev pub console_on : LogPrint → Bool
console_on cm = int_flag (cm.save_type) 2

abbrev pub file_on : LogPrint → Bool
file_on cm = int_flag (cm.save_type) 4

abbrev pub add_text : Option (List ℕ) → List ℕ → Option (List ℕ)
add_text none text = none
add_text (some contents) text = some (contents ++ text)

abbrev pub is_open : Option (List ℕ) → Bool
is_open none = false
is_open (some contents) = true

-- A write goes to the pointer of a file that was closed, which is not defined.
abbrev pub writes_closed : LogPrint → Bool
writes_closed cm = cm.closed && (is_open (cm.file) && file_on cm)

-- JKLOGPX and JKLOGVPX, where `writes_closed` does not hold
unfoldable pub log : LogPrint → List ℕ → LogPrint
log cm text = record cm {
  console = if console_on cm then cm.console ++ text else cm.console;
  file = if file_on cm then add_text (cm.file) text else cm.file;
}

unfoldable pub log_all : LogPrint → List (List ℕ) → LogPrint
log_all cm [] = cm
log_all cm (text ∷ texts) = log_all (log cm text) texts

-- fopen(path, "w") and what follows; a file that is open is not closed.
unfoldable pub open_log : Env → LogPrint → List ℕ → ℤ × LogPrint
open_log env cm path =
    if env.opens
    then (
      pos 0,
      record cm {
        filepath = path;
        file = some [];
        closed = false;
        save_type = type_ownfile;
        file_maxsize = 1048576;
      },
    )
    else (negsuc 1, record cm { filepath = path; file = none })

-- The path goes into a buffer of 512 bytes.
unfoldable pub set_log_file : Env → Option LogPrint → List ℕ → Outcome (ℤ × Option LogPrint)
set_log_file env none path = done (negsuc 0, none)
set_log_file env (some cm) path =
    let (ret, cm) = open_log env cm path in
    if ltb (length path) 512 then done (ret, some cm) else fault

unfoldable pub set_file_maxsize : LogPrint → ℕ → LogPrint
set_file_maxsize cm size = record cm { file_maxsize = size }

-- What fflush wrote is what stat sees, if it finds the file.
abbrev pub check_size : Bool → Option (List ℕ) → ℕ → ℤ
check_size finds none size = negsuc 0
check_size false (some contents) size = negsuc 1
check_size true (some contents) size = if ltb size (length contents) then pos 1 else pos 0

unfoldable pub file_size_check : Env → LogPrint → ℕ → ℤ
file_size_check env cm size = check_size (env.finds) (cm.file) size

-- The path is read from the buffer it is written to.
unfoldable pub reopen_file : Env → LogPrint → LogPrint
reopen_file env cm = (open_log env (record cm { file = none }) (cm.filepath)).1

unfoldable pub set_save_type : Option LogPrint → ℤ → Option LogPrint
set_save_type none type = none
set_save_type (some cm) type = some (record cm { save_type = type })

unfoldable pub get_log_type : Option LogPrint → ℤ
get_log_type none = negsuc 0
get_log_type (some cm) = cm.save_type
