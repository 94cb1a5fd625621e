-- ===== src/CmPrint/Bound.antt =====
-- The file of a log does not grow far beyond its bound, and starts anew beyond it.
use jklibs.Common.{
  ℕ, ◌+◌, ◌≤◌, ◌<◌, ◌≡◌, refl, ◌∙◌, ap, ap₂, ◌||◌, ◌&&◌, Bool, true, false, List, [], ◌++◌, Option,
  none, some, arith, ltb, ◌==◌, if◌then◌else◌, length, length-append, Bool-cases, Option-cases, inl,
  inr,
}
use jklibs.Common.Int.{pos, negsuc}
use jklibs.Common.Outcome.{done, fault}
use jklibs.CmPrint.Log.{
  int_flag, is_open, check_size, LogPrint, Env, file_on, add_text, log, file_size_check, open_log,
  reopen_file, type_ownfile,
}
use jklibs.CmPrint.Before.{Place}
use jklibs.CmPrint.Print.{
  after_check, checked_file, Message, is_over, reads_args_twice, uses_closed, is_undefined,
  set_color, written, emit,
}
use jklibs.CmPrint.Sinks.{line_of, written-line}

abbrev pub size_of : Option (List ℕ) → ℕ
size_of none = 0
size_of (some contents) = length contents

size_of-add :
    (file : Option (List ℕ)) (text : List ℕ)
    → size_of (add_text file text) ≤ size_of file + length text
size_of-add none text = omega arith
size_of-add (some contents) text = omega (arith, length-append contents text)

size_of-if :
    (b : Bool) (file : Option (List ℕ)) (text : List ℕ)
    → size_of (if b then add_text file text else file) ≤ size_of file + length text
size_of-if true file text = size_of-add file text
size_of-if false file text = omega arith

-- The file that is looked at is not above its bound, or starts anew.
reopen_file-size :
    (env : Env) (cm : LogPrint)
    → size_of ((reopen_file env cm).file) ≤ (reopen_file env cm).file_maxsize
unfolding reopen_file open_log
reopen_file-size env cm = elim (Bool-cases (env.opens)) [
  | inl opens ↦ rw opens (omega arith)
  | inr fails ↦ rw fails (omega arith)
]

checked_file-size :
    (env : Env) (cm : LogPrint)
    → env.finds ≡ true
    → size_of ((checked_file env cm).file) ≤ (checked_file env cm).file_maxsize
unfolding checked_file file_size_check
checked_file-size env cm finds = elim (Option-cases (cm.file)) [
  | inl closed ↦ rw (finds, closed) (omega arith)
  | inr (contents, e) ↦ elim (Bool-cases (ltb (cm.file_maxsize) (length contents))) [
    | inl over ↦
        rw (finds, e)
          (rw over
            (reopen_file-size (record env { finds = true }) (record cm { file = some contents })))
    | inr fits ↦ rw (finds, e) (rw fits (ground arith))
  ]
]

set_color-size :
    (env : Env) (cm : LogPrint) (level : ℕ)
    → env.finds ≡ true
    → size_of ((set_color env cm level).file) ≤ (set_color env cm level).file_maxsize
unfolding set_color
set_color-size env cm level finds = elim (Bool-cases ((checked_file env cm).enable_color == 1)) [
  | inl on ↦ rw on (checked_file-size env cm finds)
  | inr off ↦ rw off (checked_file-size env cm finds)
]

log-size :
    (cm : LogPrint) (text : List ℕ)
    → size_of (cm.file) ≤ cm.file_maxsize
    → size_of ((log cm text).file) ≤ (log cm text).file_maxsize + length text
unfolding log
log-size cm text h = omega (arith, size_of-if (file_on cm) (cm.file) text)

checked_file-lost :
    (env : Env) (cm : LogPrint) (contents : List ℕ)
    → env.finds ≡ false
    → cm.file ≡ some contents
    → checked_file env cm ≡ cm
unfolding checked_file file_size_check
checked_file-lost env cm contents lost holds =
    let check : check_size (env.finds) (cm.file) (cm.file_maxsize) ≡ negsuc 1 =
      rw (lost, holds) refl in
    ap (after_check env cm) check

set_color-lost :
    (env : Env) (cm : LogPrint) (color : ℕ) (contents : List ℕ)
    → env.finds ≡ false
    → cm.file ≡ some contents
    → ((set_color env cm color).file ≡ some contents)
      × ((set_color env cm color).save_type ≡ cm.save_type)
      × ((set_color env cm color).file_maxsize ≡ cm.file_maxsize)
unfolding set_color
set_color-lost env cm color contents lost holds =
    let same = checked_file-lost env cm contents lost holds in
    elim (Bool-cases (cm.enable_color == 1)) [
      | inl on ↦ rw (same, on) (holds, refl, refl)
      | inr off ↦ rw (same, off) (holds, refl, refl)
    ]

log-file :
    (cm : LogPrint) (contents text : List ℕ)
    → file_on cm ≡ true
    → cm.file ≡ some contents
    → (log cm text).file ≡ some (contents ++ text)
unfolding log
log-file cm contents text on holds =
    ap (λ b. if b then add_text (cm.file) text else cm.file) on ∙ ap (λ f. add_text f text) holds

log-bound : (cm : LogPrint) (text : List ℕ) → (log cm text).file_maxsize ≡ cm.file_maxsize
unfolding log
log-bound cm text = refl

written-bounded :
    (env : Env) (cm : LogPrint) (color : ℕ) (type : Option ℕ) (place : Place) (msg : List ℕ)
    → env.finds ≡ true
    → size_of ((written env cm color type place msg).file)
      ≤ (written env cm color type place msg).file_maxsize
        + length (line_of env cm color type place msg)
written-bounded env cm color type place msg finds = rw (written-line env cm color type place msg) (
    log-size (set_color env cm color) (line_of env cm color type place msg)
      (set_color-size env cm color finds))

uses_closed-open : (env : Env) (cm : LogPrint) → cm.closed ≡ false → uses_closed env cm ≡ false
unfolding uses_closed
uses_closed-open env cm open_ =
    ap
      (λ b.
        b
        && (is_open (cm.file)
            && (is_over (file_size_check env cm (cm.file_maxsize)) || file_on cm)))
      open_

emit-done :
    (env : Env) (cm : LogPrint) (color : ℕ) (type : Option ℕ) (place : Place) (msg : Message)
    → cm.closed ≡ false
    → reads_args_twice (set_color env cm color) msg ≡ false
    → emit env cm color type place msg ≡ done (written env cm color type place (msg.text))
unfolding emit is_undefined
emit-done env cm color type place msg open_ once =
    ap (λ b. if b then fault else done (written env cm color type place (msg.text)))
      (ap₂ ◌||◌ (uses_closed-open env cm open_) once)

-- After a message the file holds no more than its bound and the one line just added, whatever it
-- held before and whether it could be opened again, if stat finds the file under the path of the
-- log, the file was not closed, and the message has no arguments or does not go to both sinks.
pub emit-bounded :
    (env : Env) (cm : LogPrint) (color : ℕ) (type : Option ℕ) (place : Place) (msg : Message)
    → env.finds ≡ true
    → cm.closed ≡ false
    → reads_args_twice (set_color env cm color) msg ≡ false
    → (next : LogPrint) × (emit env cm color type place msg ≡ done next)
      × (size_of (next.file)
          ≤ next.file_maxsize + length (line_of env cm color type place (msg.text)))
emit-bounded env cm color type place msg finds open_ once = (
  written env cm color type place (msg.text),
  emit-done env cm color type place msg open_ once,
  written-bounded env cm color type place (msg.text) finds,
)

-- Where stat does not find the open file, as when the log was removed or renamed, its size is not
-- looked at: the line is added however much the file holds, and the bound stays, if the sink of
-- the file is on, the file was not closed, and the message has no arguments or does not go to
-- both sinks.
pub emit-unfound :
    (env : Env) (cm : LogPrint) (color : ℕ) (type : Option ℕ) (place : Place) (msg : Message)
    (contents : List ℕ)
    → env.finds ≡ false
    → cm.closed ≡ false
    → cm.file ≡ some contents
    → file_on cm ≡ true
    → reads_args_twice (set_color env cm color) msg ≡ false
    → (next : LogPrint) × (emit env cm color type place msg ≡ done next)
      × (next.file ≡ some (contents ++ line_of env cm color type place (msg.text)))
      × (next.file_maxsize ≡ cm.file_maxsize)
emit-unfound env cm color type place msg contents lost open_ holds on once =
    let start = set_color env cm color in
    let (file, save, bound) = set_color-lost env cm color contents lost holds in
    let writes : file_on start ≡ true = ap (λ t. int_flag t 4) save ∙ on in
    (
      written env cm color type place (msg.text),
      emit-done env cm color type place msg open_ once,
      rw (written-line env cm color type place (msg.text))
          (log-file start contents (line_of env cm color type place (msg.text)) writes file),
      rw (written-line env cm color type place (msg.text))
          (log-bound start (line_of env cm color type place (msg.text)) ∙ bound),
    )

checked_file-over :
    (env : Env) (cm : LogPrint) (contents : List ℕ)
    → env.opens ≡ true
    → env.finds ≡ true
    → cm.file ≡ some contents
    → cm.file_maxsize < length contents
    → checked_file env cm ≡ record cm {
      file = some [];
      closed = false;
      save_type = type_ownfile;
      file_maxsize = 1048576;
    }
unfolding checked_file file_size_check reopen_file open_log
checked_file-over env cm contents opens finds open_ over =
    let large : ltb (cm.file_maxsize) (length contents) ≡ true = ground arith in
    let check : check_size (env.finds) (cm.file) (cm.file_maxsize) ≡ pos 1 =
      rw (finds, open_) (rw large refl) in
    ap (after_check env cm) check ∙ rw opens refl

-- The object that the line goes to, when the file is opened anew.
abbrev pub HasNewFile : LogPrint → LogPrint → Type 0
HasNewFile cm start =
    (start.file ≡ some [])
    × (start.save_type ≡ type_ownfile)
    × (start.file_maxsize ≡ 1048576)
    × (start.console ≡ cm.console)

set_color-HasNewFile :
    (env : Env) (cm : LogPrint) (color : ℕ)
    → checked_file env cm ≡ record cm {
      file = some [];
      closed = false;
      save_type = type_ownfile;
      file_maxsize = 1048576;
    }
    → HasNewFile cm (set_color env cm color)
unfolding set_color
set_color-HasNewFile env cm color e = elim (Bool-cases (cm.enable_color == 1)) [
  | inl on ↦ rw e (rw on (refl, refl, refl, refl))
  | inr off ↦ rw e (rw off (refl, refl, refl, refl))
]

log-new :
    (cm start : LogPrint) (text : List ℕ)
    → HasNewFile cm start
    → ((log start text).file ≡ some text)
      × ((log start text).file_maxsize ≡ 1048576)
      × ((log start text).save_type ≡ type_ownfile)
      × ((log start text).console ≡ cm.console)
unfolding log
log-new cm start text (file, save, bound, console) =
    (rw (save, file) refl, bound, save, rw (save) console)

-- A file that has grown beyond its bound, and can be opened again and is found by stat, is emptied before a message: it holds only the
-- line of that message, its bound is 1048576 whatever was set before, and from then on the console gets nothing.
pub written-rotates :
    (env : Env) (cm : LogPrint) (color : ℕ) (type : Option ℕ) (place : Place)
    (msg contents : List ℕ)
    → env.opens ≡ true
    → env.finds ≡ true
    → cm.file ≡ some contents
    → cm.file_maxsize < length contents
    → ((written env cm color type place msg).file ≡ some (line_of env cm color type place msg))
      × ((written env cm color type place msg).file_maxsize ≡ 1048576)
      × ((written env cm color type place msg).save_type ≡ type_ownfile)
      × ((written env cm color type place msg).console ≡ cm.console)
written-rotates env cm color type place msg contents opens finds open_ over =
    rw (written-line env cm color type place msg) (
      log-new cm (set_color env cm color) (line_of env cm color type place msg) (
        set_color-HasNewFile env cm color
          (checked_file-over env cm contents opens finds open_ over)))
