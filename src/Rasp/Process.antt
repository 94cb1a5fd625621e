-- ===== src/Rasp/Process.antt =====
-- protocol/rasp/kfrasp_parse_data.c: the body of a message that was received, read out of its
-- document. A `%s` of a text that is not there is the outcome `fault`.
use jklibs.Common.{
  ℕ, zero, suc, ◌+◌, ◌*◌, Bool, List, [], ◌∷◌, ◌++◌, Option, none, some, leb, if◌then◌else◌, length,
  take,
}
use jklibs.Common.Int.{ℤ, pos, negsuc}
use jklibs.Common.Decimal.{print_nat}
use jklibs.Common.Outcome.{Outcome, done, fault, ◌>>=◌}
use jklibs.Common.Text.{codes}
use jklibs.Rasp.Names.{m_body, m_result, m_result_code, m_result_data, m_desc, json_name}
use jklibs.Rasp.Document.{Sections}
use jklibs.Rasp.Body.{Body, ConnectItemInfo, no_item, mac_of, cii_of, Content}

-- snprintf(field, n + 1, "%s", json_string(...))
abbrev pub text_of : ℕ → Option (List ℕ) → Outcome (List ℕ)
text_of n none = fault
text_of n (some s) = done (take n s)

-- A result that is no success: its description, if there is one, and what is returned.
abbrev pub failed_with : Body → Option (List ℕ) → Body × ℤ
failed_with rb none = (record rb { number = 0 }, negsuc 1)
failed_with rb (some p) = (record rb { number = 0; result_data = take 264 p }, negsuc 2)

abbrev pub with_lists : Body → ℤ → Option (List ConnectItemInfo) → Body
with_lists rb counts cii = record rb {
  content = Content.lists (record { counts = counts; cii = cii });
}

abbrev pub with_device : Body → List ℕ → List ℕ → Body
with_device rb name addr = record rb {
  number = 2;
  content = Content.device (record { name = name; addr = addr; mac = mac_of rb.content });
}

-- The name of an entry of the bind lists, in 32 bytes.
abbrev pub index_name : ℕ → List ℕ → List ℕ
index_name i field = codes ".bindLists[" ++ (print_nat i ++ field)

-- `same` tells whether kf_string_compare gives 0; `grants` whether calloc of so many bytes does.
module _ {ℓ} {S : Type ℓ} (j : Sections S) (same : List ℕ → List ℕ → Bool) (grants : ℕ → Bool) where
  -- The section MsgBody.result
  abbrev pub in_result : S → S
  in_result d = j.push (j.push d (json_name m_body)) (json_name m_result)

  abbrev pub out_result : S → S
  out_result d = j.pop (j.pop d)

  abbrev pub common_fields : S → Body → Option (List ℕ) → Body × ℤ
  common_fields d rb none = (rb, negsuc 0)
  common_fields d rb (some s) =
      let rb : Body = record rb { result_code = take 31 s } in
      if same rb.result_code (codes "SUCCESS")
      then (rb, pos 0)
      else failed_with rb (j.string d (json_name m_result_data))

  -- kf_rasp_process_common_result
  unfoldable pub process_common_result : S → Body → Outcome (S × Body × ℤ)
  process_common_result d rb =
      let d = in_result d in
      let r = common_fields d rb (j.string d (json_name m_result_code)) in
      done (out_result d, r.0, r.1)

  abbrev pub device_fields : S → Body → Outcome Body
  device_fields d rb = do
    name ← text_of 255 (j.string d (codes ".name"))
    addr ← text_of 63 (j.string d (codes ".addr"))
    done (with_device rb name addr)

  -- kf_rasp_process_deviceinfo
  unfoldable pub process_deviceinfo : S → Body → Outcome (S × Body × ℤ)
  process_deviceinfo d rb =
      let params = j.push d (codes ".MsgBody[0].PARAMS") in
      let info = j.push params (codes ".deviceInfo") in
      let read =
        if j.push_fails params (codes ".deviceInfo")
        then done (record rb { number = 0 })
        else device_fields info rb in
      read >>= λ rb. done (j.pop (j.pop info), rb, pos 0)

  -- One entry of the bind lists. The longer of the two names must fit its 32 bytes.
  abbrev pub bind_entry : S → ℕ → Outcome ConnectItemInfo
  bind_entry d i = if leb 32 (length (index_name i (codes "].deviceMac"))) then fault else do
    device ← text_of 63 (j.string d (index_name i (codes "].deviceMac")))
    router ← text_of 63 (j.string d (index_name i (codes "].routerMac")))
    done (record no_item { device_mac = device; router_mac = router })

  -- The loop over the entries, `n` of them from `i` on.
  unfoldable pub bind_entries : S → ℕ → ℕ → Outcome (List ConnectItemInfo)
  bind_entries d zero i = done []
  bind_entries d (suc n) i = do
    ii ← bind_entry d i
    rest ← bind_entries d n (i + 1)
    done (ii ∷ rest)

  -- The memory for the entries, and the entries.
  abbrev pub bind_items : S → ℤ → Body → Outcome (Body × ℤ)
  bind_items d (pos (suc n)) rb =
      if grants (suc n * 448)
      then (bind_entries d (suc n) 0 >>= λ cii.
          done (with_lists rb (pos (suc n)) (some cii), pos 0))
      else done (with_lists rb (pos (suc n)) none, negsuc 3)
  bind_items d counts rb = done (with_lists rb counts (cii_of rb.content), negsuc 9)

  -- The result code, and then the entries or the description; the section resultData that is
  -- pushed for the entries is left on top.
  abbrev pub bind_fields : S → Body → Option (List ℕ) → Outcome (S × Body × ℤ)
  bind_fields d rb none = done (d, rb, negsuc 0)
  bind_fields d rb (some s) =
      let rb : Body = record rb { result_code = take 31 s } in
      if same rb.result_code (codes "SUCCESS")
      then (let rb : Body = record rb { number = 7 } in
          let d = j.push d (codes ".resultData") in
          bind_items d (j.count d (codes ".bindLists")) rb >>= λ r. done (d, r.0, r.1))
      else (let d = j.push d (json_name m_result_data) in
          let r = failed_with rb (j.string d (json_name m_desc)) in done (j.pop d, r.0, r.1))

  -- kf_rasp_process_bindlists_result
  unfoldable pub process_bindlists_result : S → Body → Outcome (S × Body × ℤ)
  process_bindlists_result d rb =
      let d = in_result d in
      bind_fields d rb (j.string d (json_name m_result_code)) >>= λ r.
      done (out_result (r.0), r.1, r.2)
