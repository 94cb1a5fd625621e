-- ===== src/Rasp/Generate.antt =====
-- kf_rasp_generate_data of protocol/rasp/kfrasp.c: the body of a message that is sent, written into
-- its document. A body whose number is not that of the member in use is the outcome `fault`.
use jklibs.Common.{ℕ, length, leb, Bool, List, [], Option, none, some, ◌==◌, if◌then◌else◌}
use jklibs.Common.Int.{ℤ}
use jklibs.Common.Decimal.{print_int}
use jklibs.Common.Outcome.{Outcome, done, err, fault, ◌>>=◌}
use jklibs.Common.Text.{codes}
use jklibs.Rasp.Names.{
  m_body, m_result, m_result_code, m_result_data, m_operation, m_ccmd, m_source, m_desc, json_name,
}
use jklibs.Rasp.Header.{Header, header_ready_data}
use jklibs.Rasp.Document.{Sections, as_json}
use jklibs.Rasp.Body.{Body, ConnectItemInfo, ConnectAuthority, Content, Rasp, no_item}

-- The member of the union that is read.
abbrev pub item_of : Content → Outcome ConnectItemInfo
item_of (Content.item cii) = done cii
item_of Content.zeroed = done no_item
item_of _ = fault

abbrev pub authority_of : Content → Outcome ConnectAuthority
authority_of (Content.authority ca) = done ca
authority_of _ = fault

module _ {ℓ} (md5_text : List ℕ → List ℕ) (time_string : ℤ → List ℕ) (same : List ℕ → List ℕ → Bool)
    {S : Type ℓ} (j : Sections S) where
  -- json_setstring(J, text, KF_JSON_STRING(name))
  abbrev set_named : S → List ℕ → List ℕ → S
  set_named d name text = j.set_string d (json_name name) text

  -- kf_rasp_generate_data_operation
  unfoldable pub generate_data_operation : S → List ℕ → Header → S
  generate_data_operation d place h =
      let d = j.push (j.push d (json_name place)) (json_name m_operation) in
      let d = set_named d m_ccmd h.cmd in let d = set_named d m_source h.source in j.pop (j.pop d)

  -- kf_rasp_generate_data_connectiteminfo
  unfoldable pub generate_data_connectiteminfo : S → ConnectItemInfo → S
  generate_data_connectiteminfo d cii =
      let d =
        j.push (j.push d (json_name (codes "MsgBody[0].PARAMS")))
          (json_name (codes "connectItemInfo")) in
      let d = j.set_string d (codes ".deviceMac") cii.device_mac in
      let d = j.set_string d (codes ".routerMac") cii.router_mac in j.pop (j.pop d)

  -- sprintf of an int to 8 bytes
  abbrev pub int_text : ℤ → Outcome (List ℕ)
  int_text n = if leb 8 (length (print_int n)) then fault else done (print_int n)

  -- The section connectAuthority, with the texts of its numbers.
  abbrev pub authority_data : S → ConnectAuthority → List ℕ → List ℕ → S
  authority_data d ca type status =
      let d =
        j.push (j.push d (json_name (codes "MsgBody[0].PARAMS")))
          (json_name (codes "connectAuthority")) in
      let d = set_named d (codes "addr") ca.addr in
      let d = set_named d (codes "userName") ca.user_name in
      let d = set_named d (codes "password") ca.password in
      let d = set_named d (codes "mac") ca.local_mac in
      let d = set_named d (codes "secretKey") ca.secret_key in
      let d = set_named d (codes "type") type in
      let d = set_named d (codes "status") status in j.pop (j.pop d)

  -- kf_rasp_generate_data_connectauthority
  unfoldable pub generate_data_connectauthority : S → ConnectAuthority → Outcome S
  generate_data_connectauthority d ca = do
    type ← int_text ca.type
    status ← int_text ca.status
    done (authority_data d ca type status)

  -- The data of a result: a description of the failure, or the item.
  abbrev pub failure_data : S → Body → S
  failure_data d rb = j.pop (set_named (j.push d (json_name m_result_data)) m_desc rb.result_data)

  abbrev pub success_data : S → ConnectItemInfo → S
  success_data d cii =
      let d = j.push (j.push d (json_name m_result_data)) (json_name (codes "connectItemInfo")) in
      let d = set_named d (codes "name") cii.name in
      let d = set_named d (codes "addr") cii.addr in
      let d = set_named d (codes "deviceMac") cii.device_mac in
      let d = set_named d (codes "routerMac") cii.router_mac in j.pop (j.pop d)

  -- kf_rasp_generate_data_connectiteminfo_result
  unfoldable pub generate_data_connectiteminfo_result : S → Body → Outcome S
  generate_data_connectiteminfo_result d rb =
      let d = j.push (j.push d (json_name m_body)) (json_name m_result) in
      let d = set_named d m_result_code rb.result_code in
      let filled =
        if same rb.result_code (codes "success")
        then (item_of rb.content >>= λ cii. done (success_data d cii))
        else done (failure_data d rb) in
      filled >>= λ d. done (j.pop (j.pop d))

  -- kf_rasp_generate_data_null_body
  unfoldable pub generate_data_null_body : S → S
  generate_data_null_body d =
      j.pop (j.set_string (j.push d (json_name (codes "MsgBody[0].PARAMS"))) [] [])

  -- The switch of kf_rasp_generate_data over the kind of the body.
  unfoldable pub generate_body : S → Header → Body → Outcome S
  generate_body d h rb =
      let params = generate_data_operation d (codes "MsgBody[0].PARAMS") h in
      let result = generate_data_operation d (codes "MsgBody.result.resultData") h in
      if rb.number == 8
      then (item_of rb.content >>= λ cii. done (generate_data_connectiteminfo params cii))
      else if rb.number == 9
      then generate_data_connectiteminfo_result result rb
      else if rb.number == 10
      then (authority_of rb.content >>= generate_data_connectauthority params)
      else if rb.number == 6
      then done (generate_data_null_body params)
      else done d

  abbrev pub print_end : Rasp S → S → Option (List ℕ × ℤ) → Outcome (Rasp S × List ℕ × ℤ)
  print_end rasp d none = err 5
  print_end rasp d (some r) = done (record rasp { json = d }, r.0, r.1)

  -- kf_rasp_generate_data, into a buffer of `len` bytes: what is saved, and the length returned.
  unfoldable pub generate_data : Rasp S → ℤ → Outcome (Rasp S × List ℕ × ℤ)
  generate_data rasp len =
      let d = j.set_null rasp.json (json_name m_body) in
      let d = header_ready_data md5_text time_string same (as_json j) d rasp.header in
      generate_body d rasp.header rasp.body >>= λ d. print_end rasp d (j.print d len)
