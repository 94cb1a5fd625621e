-- ===== src/Rasp/Receive.antt =====
-- kf_rasp_parse_data of protocol/rasp/kfrasp.c: a message that is received, its header first.
use jklibs.Common.{ℕ, Bool, List, Option, none, some, if◌then◌else◌, take}
use jklibs.Common.Int.{ℤ, pos, eqb_ℤ, ltb_ℤ}
use jklibs.Common.Outcome.{Outcome, done, err, fault, ◌>>=◌}
use jklibs.Common.Text.{codes}
use jklibs.Rasp.Names.{m_head, m_operation, m_ccmd, m_source, json_name, cmd_table, str_int}
use jklibs.Rasp.Header.{Header, parse_data_header}
use jklibs.Rasp.Commands.{
  Handle, device_info, common_result, bind_lists_result, generate_number, generate_handle,
}
use jklibs.Rasp.Document.{Sections, as_json}
use jklibs.Rasp.Body.{Body, Rasp}
use jklibs.Rasp.Process.{process_common_result, process_deviceinfo, process_bindlists_result}

module _ {ℓ} (md5_text : List ℕ → List ℕ) (time_string : ℤ → List ℕ) (same : List ℕ → List ℕ → Bool)
    (grants : ℕ → Bool) {S : Type ℓ} (j : Sections S) where
  -- The sections with the operation: those of a result if the message has no parameters.
  abbrev pub in_operation : S → S
  in_operation d =
      let params = codes ".MsgBody[0].PARAMS" in
      let outer =
        if eqb_ℤ (j.count d params) (pos 0) then codes ".MsgBody.result.resultData" else params in
      j.push (j.push d outer) (json_name m_operation)

  abbrev pub read_cmd : Option (List ℕ) → Header → Header
  read_cmd none h = h
  read_cmd (some s) h = record h { cmd_number = str_int same cmd_table s; cmd = take 31 s }

  abbrev pub read_source : Option (List ℕ) → Header → Header
  read_source none h = h
  read_source (some s) h = record h { source = take 15 s }

  -- The handle's routine, if there is one, and what it returns.
  abbrev pub process_with : Option Handle → S → Body → Outcome (S × Body × ℤ)
  process_with none d rb = done (d, rb, pos 0)
  process_with (some device_info) d rb = process_deviceinfo j same grants d rb
  process_with (some common_result) d rb = process_common_result j same grants d rb
  process_with (some bind_lists_result) d rb = process_bindlists_result j same grants d rb

  -- What is returned: a routine that fails sets its own `ret` to -2 and leaves over `errout`, where the
  -- outer `ret` is returned.
  abbrev pub body_ret : ℤ → ℤ → ℤ
  body_ret ret inner = if ltb_ℤ inner (pos 0) then ret else pos 0

  -- kf_rasp_parse_msgbody, whose outer `ret` is 0
  unfoldable pub parse_msgbody : Rasp S → Outcome (Rasp S × ℤ)
  parse_msgbody rasp =
      let d = in_operation rasp.json in
      let h = read_cmd (j.string d (json_name m_ccmd)) rasp.header in
      let h = read_source (j.string d (json_name m_source)) h in
      let num = generate_number h.cmd_number h.subcmd_number in
      let rb : Body = record rasp.body { number = num } in
      process_with (generate_handle num) (j.pop (j.pop d)) rb >>= λ r.
      done (record { header = h; body = r.1; json = r.0 }, body_ret (pos 0) (r.2))

  -- The end of kf_rasp_parse_data, behind the header.
  abbrev pub after_header : Rasp S → Outcome (Unit {0}) → Outcome (Rasp S)
  after_header rasp (done t) =
      parse_msgbody rasp >>= λ r. if ltb_ℤ (r.1) (pos 0) then err 6 else done (r.0)
  after_header rasp (err n) = err 5
  after_header rasp fault = fault

  abbrev pub parse_loaded : Rasp S → Option S → Outcome (Rasp S)
  parse_loaded rasp none = err 4
  parse_loaded rasp (some d) =
      let (h, ret) = parse_data_header md5_text time_string same (as_json j) d rasp.header in
      after_header (record rasp { header = h; json = j.pop (j.push d (json_name m_head)) }) ret

  -- kf_rasp_parse_data
  unfoldable pub parse_data : Rasp S → List ℕ → Outcome (Rasp S)
  parse_data rasp bytes = parse_loaded rasp (j.load rasp.json bytes)
