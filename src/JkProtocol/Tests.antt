-- ===== src/JkProtocol/Tests.antt =====
-- Runs of the signed messages.
use jklibs.Common.{ℕ, ◌≡◌, refl, arith, true, List, [], none, some}
use jklibs.Common.Int.{pos}
use jklibs.Common.Decimal.{print_int, print_nat, digits_fuel}
use jklibs.Common.Outcome.{err, done}
use jklibs.Common.Text.{codes}
use jklibs.JkProtocol.{
  JkProtocol, protocol_init, generate_string, generate_register, generate_notify_savefile,
  generate_control_savefile, protocol_parse, data_free, no_head,
}
use jklibs.JkProtocol.Fields.{lines, Message, Fits, head_of}
use jklibs.JkProtocol.RoundTrip.{parse-generate_string, parse_forged}

-- A stand-in for MD5: a constant.
abbrev no_hash : List ℕ → List ℕ
no_hash text = codes "0123456789abcdef0123456789abcdef"

abbrev notice : Message
notice = record {
  version = codes "0.0.1";
  id = codes "cam1";
  cmd = 2;
  sub_cmd = 1;
  tm = 1445336000;
  sign = codes "0123456789abcdef0123456789abcdef";
}

notice-Fits : Fits notice
notice-Fits = omega arith

abbrev forged : Message
forged = record notice { sign = codes "0" }

forged-Fits : Fits forged
forged-Fits = omega arith

abbrev old : JkProtocol
old = record {
  head = record no_head { version = codes "0.0.1"; id = codes "cam1" };
  filename = [];
  body_data = some [];
}

made : protocol_init (codes "cam1") ≡ done (data_free old)
unfolding protocol_init data_free
made = refl

notified :
    (generate_notify_savefile no_hash (pos 1445336000) old (codes "a.jpg")).head ≡ head_of notice
unfolding generate_notify_savefile
notified = refl

controlled : (generate_control_savefile no_hash (pos 7) old (codes "a.jpg")).head.cmd ≡ pos 4
unfolding generate_control_savefile
controlled = refl

registered : (generate_register no_hash (pos 7) old).head.cmd ≡ pos 1
unfolding generate_register
registered = refl

parse-generate_string_example :
    protocol_parse no_hash
      (λ n. true)
      (generate_string
        (record { head = head_of notice; filename = codes "a.jpg"; body_data = none })
        (codes "xyz"))
      (pos 200)
    ≡ done
        (record { head = head_of notice; filename = codes "a.jpg"; body_data = some (codes "xyz") })
parse-generate_string_example =
    parse-generate_string no_hash (λ n. true) notice none (codes "a.jpg") (codes "xyz") 200
      notice-Fits refl (omega arith) (omega arith)
      (unfold generate_string print_int print_nat digits_fuel in omega arith) refl

parse_forged_example :
    protocol_parse no_hash (λ n. true) (lines forged (codes "xyz")) (pos 200) ≡ err 2
parse_forged_example =
    parse_forged no_hash (λ n. true) forged (codes "xyz") (pos 200) forged-Fits (ground arith)
