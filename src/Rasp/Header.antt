-- ===== src/Rasp/Header.antt =====
-- The header of a message: its sign, its way into a JSON document and out of it.
use jklibs.Common.{ℕ, Bool, List, ◌++◌, Option, none, some, ◌==◌, if◌then◌else◌, take}
use jklibs.Common.Int.{ℤ}
use jklibs.Common.Text.{codes, same_text}
use jklibs.Common.Decimal.{print_int, atoi}
use jklibs.Common.Outcome.{Outcome, done, err}
use jklibs.Rasp.Names.{
  rasp_key, m_head, m_cmd, m_subcmd, m_tm, m_sign, json_name, cmd_table, subcmd_table, int_str,
  str_int,
}

-- KFRaspHeader
pub record Header : Type 0 where
  pub cmd_number : ℕ
  pub subcmd_number : ℕ
  pub cmd : List ℕ
  pub subcmd : List ℕ
  pub id : List ℕ
  pub time : ℤ
  pub sign : List ℕ
  pub source : List ℕ

-- What the messages use of the JSON library: the text at a name below the section that is pushed,
-- and its replacement.
pub record Json {ℓ} (D : Type ℓ) : Type ℓ where
  pub get : D → List ℕ → List ℕ → Option (List ℕ)
  pub put : D → List ℕ → List ℕ → List ℕ → D

-- The text that a sign is computed from.
abbrev pub sign_text : Header → List ℕ
sign_text h =
    let dash = codes "-" in
    h.subcmd ++ (dash ++ (h.id ++ (dash ++ (print_int h.time ++ (dash ++ rasp_key)))))

-- snprintf with "%s" over a field, where the document has a text for it.
abbrev pub copied : ℕ → Option (List ℕ) → List ℕ → List ℕ
copied n none old = old
copied n (some s) old = take n s

-- `md5_text` is MD5 as text, `time_string` is jk_time_string, `same` tells whether
-- kf_string_compare gives 0.
module _ {ℓ} (md5_text : List ℕ → List ℕ) (time_string : ℤ → List ℕ) (same : List ℕ → List ℕ → Bool)
    {D : Type ℓ} (json : Json D) where
  -- The rest of kf_rasp_generate_header from the name of the subcommand on.
  abbrev pub with_subcmd : ℤ → ℕ → List ℕ → Header → Option (List ℕ) → Header × Outcome (Unit {0})
  with_subcmd now subcmd id h none = (h, err 3)
  with_subcmd now subcmd id h (some name) =
      let h2 : Header = record h {
        subcmd_number = subcmd;
        subcmd = take 31 name;
        id = take 7 id;
        time = now;
      } in
      (record h2 { sign = md5_text (sign_text h2); source = codes "router" }, done tt)

  -- The rest from the name of the command on.
  abbrev pub with_cmd : ℤ → ℕ → ℕ → List ℕ → Header → Option (List ℕ) → Header × Outcome (Unit {0})
  with_cmd now cmd subcmd id h none = (h, err 2)
  with_cmd now cmd subcmd id h (some name) =
      with_subcmd now subcmd id (record h { cmd_number = cmd; cmd = take 31 name })
        (int_str subcmd_table subcmd)

  -- kf_rasp_generate_header at the time `now`. A failed call may have set the command.
  unfoldable pub generate_header : ℤ → Header → ℕ → ℕ → List ℕ → Header × Outcome (Unit {0})
  generate_header now h cmd subcmd id =
      if cmd == 0 then (h, err 1) else with_cmd now cmd subcmd id h (int_str cmd_table cmd)

  -- kf_rasp_header_ready_data
  unfoldable pub header_ready_data : D → Header → D
  header_ready_data d h =
      let head = json_name m_head in
      let d = json.put d head (json_name m_cmd) h.subcmd in
      let d = json.put d head (json_name m_subcmd) h.id in
      let d = json.put d head (json_name m_sign) h.sign in
      json.put d head (json_name m_tm) (time_string h.time)

  -- kf_rasp_header_valid
  unfoldable pub header_valid : Header → Bool
  header_valid h = same_text (md5_text (sign_text h)) h.sign

  -- The fields of the header as far as the document has them.
  abbrev pub read_fields : D → Header → Header
  read_fields d h =
      let at : List ℕ → Option (List ℕ) = λ name. json.get d (json_name m_head) (json_name name) in
      record h {
        subcmd_number = elim (at m_cmd) [
          | none ↦ h.subcmd_number
          | some s ↦ str_int same subcmd_table s
        ];
        subcmd = copied 31 (at m_cmd) h.subcmd;
        id = copied 7 (at m_subcmd) h.id;
        sign = copied 33 (at m_sign) h.sign;
      }

  -- The end of kf_rasp_parse_data_header: the time, if there is one, and the check of the sign.
  unfoldable pub checked : Header → Option (List ℕ) → Header × Outcome (Unit {0})
  checked h none = (h, err 3)
  checked h (some s) =
      let stamped : Header = record h { time = atoi s } in
      (stamped, if header_valid stamped then done tt else err 4)

  -- kf_rasp_parse_data_header
  unfoldable pub parse_data_header : D → Header → Header × Outcome (Unit {0})
  parse_data_header d h = checked (read_fields d h) (json.get d (json_name m_head) (json_name m_tm))
