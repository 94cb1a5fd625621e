-- ===== src/CmPrint/Before.antt =====
-- cm_print.c: what stands in front of a message.
use jklibs.Common.{
  ℕ, ◌-◌, true, not, ◌&&◌, List, [], ◌∷◌, ◌++◌, Option, none, some, ltb, ◌==◌, if◌then◌else◌,
  length, replicate,
}
use jklibs.Common.Decimal.{print_nat}
use jklibs.Common.Text.{codes}
use jklibs.CmPrint.Log.{
  LogPrint, Env, level_error, level_warn, level_info, level_message, level_debug, level_cycle,
  style_all, style_none, style_noname, style_notime, style_nofunc, style_noline, style_nofile,
  has_flag, log_all,
}

-- __func__, __LINE__ and __FILE__ of the caller
pub record Place : Type 0 where
  pub func : List ℕ
  pub line : ℕ
  pub file : List ℕ

-- "%04d" of a line
unfoldable pub print_line : ℕ → List ℕ
print_line line = replicate (4 - length (print_nat line)) b'0' ++ print_nat line

unfoldable pub tips : ℕ → List ℕ
tips type =
    if type == level_error
    then codes "[ERROR]**"
    else if type == level_warn
    then codes "[WARN]*"
    else if type == level_info
    then codes "[INFO]"
    else if type == level_message
    then codes "[MSG]"
    else if type == level_debug
    then codes "[DEBUG]"
    else if type == level_cycle
    then codes "[CYCLE]"
    else []

abbrev pub name_text : LogPrint → List ℕ
name_text cm = b'[' ∷ (cm.name ++ codes "]")

-- RTALL
unfoldable pub all_texts : Env → LogPrint → Place → List (List ℕ)
all_texts env cm place =
    name_text cm
    ∷ (env.now
        ∷ (codes "["
            ∷ ((place.func ++ codes "()")
                ∷ (codes "@"
                    ∷ (place.file ∷ (codes ":" ∷ (print_line (place.line) ∷ (codes "]" ∷ []))))))))

-- The parts that the style leaves, each with what stands in front of it; the bracket opens before
-- the first of the last three, and closes if one of them was there.
unfoldable pub some_texts : Env → LogPrint → Place → List (List ℕ)
some_texts env cm place =
    let style = cm.print_style in
    let func = not (has_flag style style_nofunc) in
    let line = not (has_flag style style_noline) in
    let file = not (has_flag style style_nofile) in
    let name_part =
      if ltb 0 (length (cm.name)) && not (has_flag style style_noname)
      then name_text cm ∷ []
      else [] in
    let time_part = if not (has_flag style style_notime) then env.now ∷ [] else [] in
    let func_part = if func then codes "[" ∷ ((place.func ++ codes "()") ∷ []) else [] in
    let line_part =
      if line
      then (if func then codes ":" else codes "[") ∷ (print_line (place.line) ∷ [])
      else [] in
    let before_file = if func then true else line in
    let file_part =
      if file then (if before_file then codes "@" else codes "[") ∷ (place.file ∷ []) else [] in
    let close = if (if before_file then true else file) then codes "]" ∷ [] else [] in
    name_part ++ (time_part ++ (func_part ++ (line_part ++ (file_part ++ close))))

abbrev pub color_part : LogPrint → List (List ℕ)
color_part cm = if cm.enable_color == 1 then cm.color ∷ [] else []

abbrev pub arrow : LogPrint → List (List ℕ)
arrow cm = if cm.print_style == style_none then [] else codes " ==> " ∷ []

abbrev pub tips_part : LogPrint → ℕ → List (List ℕ)
tips_part cm type = if cm.print_style == style_none then [] else tips type ∷ []

-- What the calls of JKLOGPX in cm_print_before print, one after the other; `none` is the type -1.
unfoldable pub before_texts : Env → LogPrint → Option ℕ → Place → List (List ℕ)
before_texts env cm none place = color_part cm ++ ([] ∷ [])
before_texts env cm (some type) place =
    color_part cm
    ++ (tips_part cm type
        ++ (if has_flag (cm.print_style) style_all
            then all_texts env cm place ++ (arrow cm ++ (cm.style_text ∷ []))
            else if has_flag (cm.print_style) style_none
            then [] ∷ []
            else some_texts env cm place ++ (arrow cm ++ (cm.style_text ∷ []))))

-- memset of the style text, where the function goes to `out`
unfoldable pub before_style : LogPrint → Option ℕ → List ℕ
before_style cm none = []
before_style cm (some type) =
    if has_flag (cm.print_style) style_all
    then cm.style_text
    else if has_flag (cm.print_style) style_none
    then []
    else cm.style_text

unfoldable pub print_before : Env → LogPrint → Option ℕ → Place → LogPrint
print_before env cm type place = record (log_all cm (before_texts env cm type place)) {
  style_text = before_style cm type;
}
