-- ===== src/CmPrint/Errors.antt =====
-- cm_print.c and cm_print.h: the macros that choose between zlog and the functions, and the text of an
-- error number.
use jklibs.Common.{ℕ, true, List, ◌++◌, Option, ◌==◌, if◌then◌else◌}
use jklibs.Common.Int.{pos, eqb_ℤ}
use jklibs.Common.Decimal.{print_nat}
use jklibs.Common.Text.{codes}
use jklibs.CmPrint.Log.{LogPrint, Env, get_log_type}
use jklibs.CmPrint.Before.{Place}
use jklibs.CmPrint.Print.{Kind, Message, error, print_kind}
use jklibs.Common.Outcome.{Outcome, done, ◌>>=◌}

-- cmerrore and its kin: with the type 1 alone the message goes to zlog, which the build leaves out.
unfoldable pub print_macro :
    Env → Kind → Option LogPrint → Place → Message → Outcome (Option LogPrint)
print_macro env kind cm place msg =
    if eqb_ℤ (get_log_type cm) (pos 1)
    then done cm
    else (print_kind env kind cm place msg >>= λ r. done (r.1))

-- The numbers are those of Linux.
unfoldable pub error_text : (ℕ → List ℕ) → ℕ → List ℕ
error_text strerror errno =
    let middle = codes "(" ++ (print_nat errno ++ (codes "): [" ++ strerror errno)) in
    if errno == 5
    then codes "EIO" ++ (middle ++ codes "] io operation error\n")
    else if errno == 4
    then codes "EINTR" ++ (middle ++ codes "] interrupt\n")
    else if errno == 11
    then codes "EAGAIN" ++ (middle ++ codes "] deal again later\n")
    else if errno == 14
    then codes "EFAULT" ++ (middle ++ codes "] pointer param error\n")
    else if errno == 9
    then codes "EBADF" ++ (middle ++ codes "] bad file descriptor\n")
    else if errno == 12
    then codes "ENOMEM" ++ (middle ++ codes "] no memory\n")
    else if errno == 22
    then codes "EINVAL" ++ (middle ++ codes "] invalid param \n")
    else codes "(" ++ (print_nat errno ++ (codes "):[" ++ (strerror errno ++ codes "]")))

-- cm_print_error_string
unfoldable pub print_error_string :
    Env → (ℕ → List ℕ) → Option LogPrint → Place → ℕ → Outcome (Option LogPrint)
print_error_string env strerror cm place errno =
    print_macro env error cm place (record { text = error_text strerror errno; has_args = true })
