-- ===== src/JkProtocolBin/Tests.antt =====
-- Runs of the text protocol.
use jklibs.Common.{
  ℕ, ◌+◌, ◌%◌, ◌<◌, ◌≡◌, refl, Bool, true, List, [], ◌∷◌, ◌++◌, none, some, arith, length, take,
}
use jklibs.Common.Int.{pos}
use jklibs.Common.Decimal.{print_int, print_int2, print_nat, digits_fuel}
use jklibs.Common.Outcome.{done}
use jklibs.Common.Text.{codes}
use jklibs.JkProtocolBin.State.{JkProtocolBin, init, set_args, set_data}
use jklibs.JkProtocolBin.Text.{header_text}
use jklibs.JkProtocolBin.Codec.{
  generate_data, parse_data, parse_data_text, generate_sign, save_text,
}
use jklibs.JkProtocolBin.RoundTrip.{Sendable, Fits, header_of, received}
use jklibs.JkProtocolBin.Exchange.{parse-save}
use jklibs.JkProtocolBin.Validity.{parse_data-sign}
use jklibs.JkProtocolBin.Sequence.{after_messages, sequence_after}

-- A stand-in for MD5: a constant.
abbrev no_hash : List ℕ → List ℕ
no_hash text = codes "0123456789abcdef0123456789abcdef"

abbrev granted : ℕ → Bool
granted n = true

-- A notification, with code 7.
abbrev alarm : Sendable
alarm = record {
  version = 1;
  direction = 1;
  cmd = 3;
  subcmd = 256;
  id = codes "cam1";
  transaction = 1452166191;
  sequence = 12;
  size = 2;
  sign = codes "0123456789abcdef0123456789abcdef";
  ret = 1;
  ret_code = 7;
}

alarm-Fits : Fits alarm
alarm-Fits = omega arith

abbrev sender : JkProtocolBin
sender = record {
  header = header_of alarm;
  body_length = pos 2;
  body_data = some (codes "hi!");
  curseq = pos 13;
}

abbrev receiver : JkProtocolBin
receiver = record {
  header = record {
    version = pos 1;
    direction = pos 0;
    cmd = pos 0;
    subcmd = pos 0;
    id = [];
    transaction = pos 0;
    sequence = pos 0;
    length = pos 0;
    sign = [];
    header_len = pos 120;
    ret = pos 0;
    ret_code = pos 0;
  };
  body_length = pos 0;
  body_data = none;
  curseq = pos 1;
}

alarm_text :
    header_text (header_of alarm)
    ≡ codes "01-cam1-1-3-256-1452166191-12-0123456789abcdef0123456789abcdef-2-1-7"
unfolding header_text print_int print_int2 print_nat digits_fuel
alarm_text = refl

-- The code 7 does not arrive.
code_lost :
    received receiver.header alarm ≡ (let h = header_of alarm in record h { ret_code = pos 0 })
code_lost = refl

generated :
    (generate_data no_hash (pos 1452166191) (
      set_data
        (set_args init (pos 2) (pos 1) (codes "a-very-long-identifier"))
        (pos 0)
        none)).0.header.id
    ≡ codes "a-very-long-ide"
unfolding generate_data generate_sign set_args set_data init print_int2 print_nat digits_fuel
generated = refl

alarm-short : length (header_text (header_of alarm)) < 120
unfolding header_text print_int print_int2 print_nat digits_fuel
alarm-short = omega arith

parse-save_example :
    (out : List ℕ) × (save_text sender ≡ done out)
    × (parse_data_text granted receiver out (pos (length out)) ≡ (
      record receiver {
        header = received receiver.header alarm;
        body_length = pos 2;
        body_data = some (take 2 (codes "hi!") ++ (0 ∷ []));
      },
      done tt,
    ))
parse-save_example =
    parse-save granted sender receiver alarm (codes "hi!") alarm-Fits alarm-short (omega arith)
      (omega arith) refl refl refl refl

parse_data-sign_example :
    parse_data no_hash granted receiver (codes "01-cam1") (pos 7)
    ≡ parse_data (λ text. text) granted receiver (codes "01-cam1") (pos 7)
parse_data-sign_example =
    parse_data-sign no_hash (λ text. text) granted receiver (codes "01-cam1") (pos 7)

sequence_after_example :
    (generate_data no_hash
      (pos 9)
      (after_messages no_hash (pos 7 ∷ pos 8 ∷ []) init)).0.header.sequence
    ≡ pos ((length (pos 7 ∷ pos 8 ∷ []) + 1) % 32769)
sequence_after_example = sequence_after no_hash (pos 7 ∷ pos 8 ∷ []) (pos 9)
