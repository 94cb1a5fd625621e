-- ===== src/CmPrint/Init.antt =====
-- cm_print.c: the object at its start and its end.
use jklibs.Common.{
  ℕ, true, false, List, [], ◌++◌, Option, none, some, ltb, ◌==◌, if◌then◌else◌, length, take,
}
use jklibs.Common.Int.{ℤ, pos, negsuc}
use jklibs.Common.Decimal.{print_nat}
use jklibs.Common.Outcome.{Outcome, done, fault}
use jklibs.Common.Text.{codes}
use jklibs.CmPrint.Log.{
  LogPrint, level_all, style_all, color_none, type_console, log, writes_closed,
}

-- cm_print_out
abbrev pub print_out : LogPrint
print_out = record {
  print_level = level_all;
  print_style = style_all;
  name = codes "cm_print";
  style_text = [];
  color = color_none;
  enable_color = 0;
  used = 0;
  save_type = pos 2;
  filepath = [];
  file = none;
  closed = false;
  file_maxsize = 0;
  console = [];
}

-- snprintf of the name into 33 bytes; `stderr_text` is what stands on stderr.
unfoldable pub init_simple : List ℕ → List ℕ → LogPrint
init_simple stderr_text name = record print_out { name = take 32 name; console = stderr_text }

long_name : ℕ → List ℕ
long_name len =
    codes "WARN: long name ["
    ++ (print_nat len ++ codes "] > [32] max support[64], will be trancated\n")

-- strncpy of 33 bytes; a name that fills them ends at the empty style text behind. NULL is read
-- through.
unfoldable pub print_init : LogPrint → ℕ → ℕ → ℕ → Option (List ℕ) → Outcome (ℤ × LogPrint)
unfolding long_name
print_init cm level style color name =
    let fresh : LogPrint = record cm {
      enable_color = color;
      color = color_none;
      print_level = level;
      print_style = style;
      save_type = type_console;
    } in
    if cm.used == 1
    then (if writes_closed cm
        then fault
        else done (negsuc 2, log cm (codes "Warn: you have inited a print, exit...\n")))
    else elim name [
      | none ↦ fault
      | some text ↦
          let warned =
            if ltb 32 (length text) then log fresh (long_name (length text)) else fresh in
          done (pos 0, record warned { name = take 33 text; style_text = []; used = 1 })
    ]

-- The file is closed, and the pointer to it stays; closing it again is not defined.
unfoldable pub print_deinit : Option LogPrint → Outcome (Option LogPrint)
print_deinit none = done none
print_deinit (some cm) =
    let ends = done (some (record cm { used = 0 })) in
    elim (cm.file) [
      | none ↦ ends
      | some contents ↦
          if cm.closed then fault else done (some (record cm { used = 0; closed = true }))
    ]
