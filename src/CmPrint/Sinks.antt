-- ===== src/CmPrint/Sinks.antt =====
-- A message is one line of text, which goes whole to each sink that is on.
use jklibs.Common.{
  ℕ, ◌≡◌, refl, ◌∙◌, ap, ap₂, sym, Bool, true, false, List, [], ◌∷◌, ◌++◌, Option, none, some,
  if◌then◌else◌, ◌||◌, Bool-cases, inl, inr, append_assoc, append-nil,
}
use jklibs.Common.Int.{pos, negsuc}
use jklibs.Common.Outcome.{done, fault}
use jklibs.CmPrint.Log.{LogPrint, Env, console_on, file_on, add_text, log, log_all}
use jklibs.CmPrint.Print.{
  Kind, flag_of, passes_level, Message, uses_closed, reads_args_twice, is_undefined, set_color,
  color_back, written, emit, print_kind,
}
use jklibs.CmPrint.Before.{Place, before_texts, before_style, print_before}

abbrev pub join_texts : List (List ℕ) → List ℕ
join_texts [] = []
join_texts (text ∷ texts) = text ++ join_texts texts

add_text-nil : (file : Option (List ℕ)) → file ≡ add_text file []
add_text-nil none = refl
add_text-nil (some contents) = ap some (sym (append-nil contents))

add_text-append :
    (file : Option (List ℕ)) (a b : List ℕ) → add_text (add_text file a) b ≡ add_text file (a ++ b)
add_text-append none a b = refl
add_text-append (some contents) a b = ap some (append_assoc contents a b)

if_same {ℓ} : {A : Type ℓ} (b : Bool) (x y : A) → x ≡ y → x ≡ (if b then y else x)
if_same true x y e = e
if_same false x y e = refl

if_if {ℓ} :
    {A : Type ℓ} (b : Bool) (f g h : A → A) (x : A)
    → g (f x) ≡ h x
    → (if b then g (if b then f x else x) else (if b then f x else x)) ≡ (if b then h x else x)
if_if true f g h x e = e
if_if false f g h x e = refl

log-nil : (cm : LogPrint) → cm ≡ log cm []
unfolding log
log-nil cm =
    ap₂ (λ c f. record cm { console = c; file = f })
      (if_same (console_on cm) (cm.console) (cm.console ++ []) (sym (append-nil (cm.console))))
      (if_same (file_on cm) (cm.file) (add_text (cm.file) []) (add_text-nil (cm.file)))

log-append : (cm : LogPrint) (a b : List ℕ) → log (log cm a) b ≡ log cm (a ++ b)
unfolding log
log-append cm a b =
    ap₂ (λ c f. record cm { console = c; file = f })
      (if_if (console_on cm) (λ c. c ++ a) (λ c. c ++ b) (λ c. c ++ (a ++ b)) (cm.console)
        (append_assoc (cm.console) a b))
      (if_if (file_on cm) (λ f. add_text f a) (λ f. add_text f b) (λ f. add_text f (a ++ b))
        (cm.file) (add_text-append (cm.file) a b))

log_all-join :
    (cm : LogPrint) (texts : List (List ℕ)) → log_all cm texts ≡ log cm (join_texts texts)
unfolding log_all
log_all-join cm [] = log-nil cm
log_all-join cm (text ∷ texts) =
    log_all-join (log cm text) texts ∙ log-append cm text (join_texts texts)

-- The text of a message of a kind, with what stands in front of it and behind it.
abbrev pub line_of : Env → LogPrint → ℕ → Option ℕ → Place → List ℕ → List ℕ
line_of env cm color type place msg =
    let cm = set_color env cm color in
    join_texts (before_texts env cm type place) ++ (msg ++ join_texts (color_back cm))

-- The object after a message: the file was looked at and the colour set, and the line was added.
abbrev pub with_line : Env → LogPrint → ℕ → Option ℕ → Place → List ℕ → LogPrint
with_line env cm color type place msg =
    let start = set_color env cm color in
    record (log start (line_of env cm color type place msg)) {
      style_text = before_style start type;
    }

pub written-line :
    (env : Env) (cm : LogPrint) (color : ℕ) (type : Option ℕ) (place : Place) (msg : List ℕ)
    → written env cm color type place msg ≡ with_line env cm color type place msg
unfolding written print_before log
written-line env cm color type place msg =
    let start = set_color env cm color in
    let before = join_texts (before_texts env start type place) in
    let back = color_back start in
    let styled : LogPrint → LogPrint = λ p. record p { style_text = before_style start type } in
    ap (λ p. log_all (log (styled p) msg) (color_back (styled p)))
      (log_all-join start (before_texts env start type place))
    ∙ (log_all-join (log (styled (log start before)) msg) back
        ∙ ap styled (
            log-append (log start before) msg (join_texts back)
            ∙ log-append start before (msg ++ join_texts back)))

-- A message of a kind that the level lets through is added as one line to the console, if that
-- sink is on, and to the file, if that sink is on and a file is open. The call is undefined if it
-- uses the pointer of a file that was closed, or if the message has arguments and goes to both
-- sinks. For a kind that the level holds back nothing changes, and the call returns -2.
pub print_kind-line :
    (env : Env) (kind : Kind) (cm : LogPrint) (place : Place) (msg : Message)
    → print_kind env kind (some cm) place msg ≡ (
        if passes_level kind (cm.print_level)
        then (if uses_closed env cm || reads_args_twice (set_color env cm (flag_of kind)) msg
            then fault
            else done (
              pos 0,
              some (with_line env cm (flag_of kind) (some (flag_of kind)) place (msg.text)),
            ))
        else done (negsuc 1, some cm))
unfolding print_kind emit is_undefined
print_kind-line env kind cm place msg =
    let line = written-line env cm (flag_of kind) (some (flag_of kind)) place (msg.text) in
    elim (Bool-cases
      (uses_closed env cm || reads_args_twice (set_color env cm (flag_of kind)) msg)) [
        | inl undefined_ ↦ rw undefined_ refl
        | inr defined ↦ rw (defined, line) refl
      ]
