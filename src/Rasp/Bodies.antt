-- ===== src/Rasp/Bodies.antt =====
-- What is read of the bodies of messages that are received.
use jklibs.Common.{
  ℕ, zero, suc, ◌+◌, ◌^◌, ◌*◌, ◌≤◌, ◌<◌, ◌≡◌, ◌≢◌, refl, Bool, true, false, List, [], ◌∷◌, Option,
  none, some, arith, leb, if◌then◌else◌, length, take, length-append, Bool-cases, inl, inr, subst,
}
use jklibs.Common.Int.{ℤ, pos, negsuc, ltb_ℤ}
use jklibs.Common.Decimal.{print_nat, length-print}
use jklibs.Common.Outcome.{Outcome, done, err, fault, ◌>>=◌}
use jklibs.Common.Text.{codes}
use jklibs.Rasp.Names.{json_name, m_result_code, m_ccmd, m_source}
use jklibs.Rasp.Commands.{
  Handle, device_info, common_result, bind_lists_result, generate_handle, generate_number,
}
use jklibs.Rasp.Header.{Header}
use jklibs.Rasp.Document.{Sections}
use jklibs.Rasp.Body.{Body, Rasp, ConnectItemInfo, no_item}
use jklibs.Rasp.Process.{
  process_common_result, process_deviceinfo, process_bindlists_result, in_result, out_result,
  bind_items, bind_fields, bind_entry, bind_entries, device_fields, text_of, index_name, with_lists,
  with_device,
}
use jklibs.Rasp.Receive.{
  body_ret, process_with, in_operation, read_cmd, read_source, parse_msgbody, after_header,
  parse_loaded, parse_data,
}

-- No error code is returned.
abbrev NoErr {ℓ} : {A : Type ℓ} → Outcome A → Type 0
NoErr (done a) = Unit
NoErr (err n) = ⊥
NoErr fault = Unit

NoErr-bind {ℓ κ} :
    {A : Type ℓ} {B : Type κ} (f : A → Outcome B) (r : Outcome A)
    → NoErr r
    → ((a : A) → NoErr (f a))
    → NoErr (r >>= f)
NoErr-bind f (done a) h k = k a
NoErr-bind f (err n) h k = h
NoErr-bind f fault h k = tt

NoErr-two {ℓ κ} :
    {A : Type ℓ} {B : Type κ} (f : A → A → B) (r s : Outcome A)
    → NoErr r
    → NoErr s
    → NoErr (r >>= λ a. s >>= λ b. done (f a b))
NoErr-two f (done a) (done b) h k = tt
NoErr-two f (done a) (err n) h k = k
NoErr-two f (done a) fault h k = tt
NoErr-two f (err n) s h k = h
NoErr-two f fault s h k = tt

text_of-NoErr : (n : ℕ) (o : Option (List ℕ)) → NoErr (text_of n o)
text_of-NoErr n none = tt
text_of-NoErr n (some s) = tt

module _ {ℓ} (md5_text : List ℕ → List ℕ) (time_string : ℤ → List ℕ) (same : List ℕ → List ℕ → Bool)
    (grants : ℕ → Bool) {S : Type ℓ} (j : Sections S) where
  -- The entries of the bind lists from the `i`-th on.
  abbrev pub items : (ℕ → List ℕ) → (ℕ → List ℕ) → ℕ → ℕ → List ConnectItemInfo
  items device router zero i = []
  items device router (suc n) i =
      record no_item { device_mac = take 63 (device i); router_mac = take 63 (router i) }
      ∷ items device router n (i + 1)

  -- The document has the two addresses of every entry below `n`.
  abbrev pub HasEntries : S → (ℕ → List ℕ) → (ℕ → List ℕ) → ℕ → Type 0
  HasEntries d device router n =
      (i : ℕ)
      → i < n
      → (j.string d (index_name i (codes "].deviceMac")) ≡ some (device i))
        × (j.string d (index_name i (codes "].routerMac")) ≡ some (router i))

  entry_name : (i : ℕ) → i < 10 ^ 9 → length (index_name i (codes "].deviceMac")) < 32
  entry_name i h =
      omega (arith, length-print 8 i h, length-append (print_nat i) (codes "].deviceMac"))

  bind_entries-items :
      (d : S) (device router : ℕ → List ℕ) (m n i : ℕ)
      → HasEntries d device router m
      → i + n ≡ m
      → m ≤ 10 ^ 9
      → bind_entries j same grants d n i ≡ done (items device router n i)
  unfolding bind_entries
  bind_entries-items d device router m zero i has e h = refl
  bind_entries-items d device router m (suc n) i has e h =
      let fits : leb 32 (length (index_name i (codes "].deviceMac"))) ≡ false =
        let k = entry_name i (omega arith) in ground arith in
      let (dev, rout) = has i (omega arith) in
      let rest = bind_entries-items d device router m n (i + 1) has (omega arith) h in
      rw (fits, dev, rout, rest) refl

  -- The section of the bind lists.
  abbrev pub in_lists : S → S
  in_lists d = j.push (in_result j same grants d) (codes ".resultData")

  -- The entries of a success are read in their order, with the first 63 bytes of each address, if
  -- the document has an address for each, the memory is granted and there are at most 10 ^ 9.
  pub process_bindlists-items :
      (d : S) (rb : Body) (code : List ℕ) (device router : ℕ → List ℕ) (n : ℕ)
      → j.string (in_result j same grants d) (json_name m_result_code) ≡ some code
      → same (take 31 code) (codes "SUCCESS") ≡ true
      → j.count (in_lists d) (codes ".bindLists") ≡ pos (suc n)
      → suc n ≤ 10 ^ 9
      → grants (suc n * 448) ≡ true
      → HasEntries (in_lists d) device router (suc n)
      → process_bindlists_result j same grants d rb
        ≡ done (
          out_result j same grants (in_lists d),
          with_lists
              (record rb { number = 7; result_code = take 31 code })
              (pos (suc n))
              (some (items device router (suc n) 0)),
          pos 0,
        )
  unfolding process_bindlists_result
  process_bindlists-items d rb code device router n coded success counted few g has =
      let read =
        bind_entries-items (in_lists d) device router (suc n) (suc n) 0 has (omega arith) few in
      rw (coded, success, counted, g, read) refl

  entry-NoErr : (d : S) (i : ℕ) → NoErr (bind_entry j same grants d i)
  entry-NoErr d i = elim (Bool-cases (leb 32 (length (index_name i (codes "].deviceMac"))))) [
    | inl e ↦ rw e tt
    | inr e ↦ rw e (
        NoErr-two (λ dev rout. record no_item { device_mac = dev; router_mac = rout })
          (text_of 63 (j.string d (index_name i (codes "].deviceMac"))))
          (text_of 63 (j.string d (index_name i (codes "].routerMac")))) (text_of-NoErr 63 _)
          (text_of-NoErr 63 _))
  ]

  entries-NoErr : (d : S) (n i : ℕ) → NoErr (bind_entries j same grants d n i)
  unfolding bind_entries
  entries-NoErr d zero i = tt
  entries-NoErr d (suc n) i =
      NoErr-bind (λ ii. bind_entries j same grants d n (i + 1) >>= λ rest. done (ii ∷ rest))
        (bind_entry j same grants d i) (entry-NoErr d i)
        (λ ii.
          NoErr-bind (λ rest. done (ii ∷ rest)) (bind_entries j same grants d n (i + 1))
            (entries-NoErr d n (i + 1)) (λ rest. tt))

  items-NoErr : (d : S) (n : ℤ) (rb : Body) → NoErr (bind_items j same grants d n rb)
  items-NoErr d (pos zero) rb = tt
  items-NoErr d (pos (suc n)) rb = elim (Bool-cases (grants (suc n * 448))) [
    | inl e ↦ rw e (
        NoErr-bind (λ cii. done (with_lists rb (pos (suc n)) (some cii), pos 0))
          (bind_entries j same grants d (suc n) 0) (entries-NoErr d (suc n) 0) (λ cii. tt))
    | inr e ↦ rw e tt
  ]
  items-NoErr d (negsuc n) rb = tt

  fields-NoErr :
      (d : S) (rb : Body) (o : Option (List ℕ)) → NoErr (bind_fields j same grants d rb o)
  fields-NoErr d rb none = tt
  fields-NoErr d rb (some s) = elim (Bool-cases (same (take 31 s) (codes "SUCCESS"))) [
    | inl e ↦ rw e (
        NoErr-bind (λ r. done (j.push d (codes ".resultData"), r.0, r.1))
          (bind_items j same grants _ _ _)
          (items-NoErr (j.push d (codes ".resultData"))
            (j.count (j.push d (codes ".resultData")) (codes ".bindLists")) _)
          (λ r. tt))
    | inr e ↦ rw e tt
  ]

  device-NoErr : (d : S) (rb : Body) → NoErr (process_deviceinfo j same grants d rb)
  unfolding process_deviceinfo
  device-NoErr d rb =
      let params = j.push d (codes ".MsgBody[0].PARAMS") in
      let info = j.push params (codes ".deviceInfo") in
      elim (Bool-cases (j.push_fails params (codes ".deviceInfo"))) [
        | inl e ↦ rw e tt
        | inr e ↦ rw e (
            NoErr-bind (λ rb. done (j.pop (j.pop info), rb, pos 0))
              (device_fields j same grants info rb)
              (NoErr-two (λ name addr. with_device rb name addr)
                (text_of 255 (j.string info (codes ".name")))
                (text_of 63 (j.string info (codes ".addr"))) (text_of-NoErr 255 _)
                (text_of-NoErr 63 _))
              (λ rb. tt))
      ]

  process_with-NoErr :
      (o : Option Handle) (d : S) (rb : Body)
      → NoErr (process_with md5_text time_string same grants j o d rb)
  process_with-NoErr none d rb = tt
  process_with-NoErr (some device_info) d rb = device-NoErr d rb
  process_with-NoErr (some common_result) d rb = unfold process_common_result in tt
  process_with-NoErr (some bind_lists_result) d rb =
      unfold process_bindlists_result in
      (let inner = in_result j same grants d in
        let o = j.string inner (json_name m_result_code) in
        NoErr-bind (λ r. done (out_result j same grants (r.0), r.1, r.2))
          (bind_fields j same grants inner rb o) (fields-NoErr inner rb o) (λ r. tt))

  -- The routine returns 0, or leaves what C defines.
  abbrev Zero : Outcome (Rasp S × ℤ) → Type 0
  Zero (done r) = r.1 ≡ pos 0
  Zero (err n) = ⊥
  Zero fault = Unit

  abbrev returned : Header → S × Body × ℤ → Outcome (Rasp S × ℤ)
  returned h r = done (
    record { header = h; body = r.1; json = r.0 },
    body_ret md5_text time_string same grants j (pos 0) (r.2),
  )

  if_pos_0 : (b : Bool) → (if b then pos 0 else pos 0) ≡ pos 0
  if_pos_0 true = refl
  if_pos_0 false = refl

  returned-Zero : (h : Header) (r : Outcome (S × Body × ℤ)) → NoErr r → Zero (r >>= returned h)
  returned-Zero h (done r) k = if_pos_0 (ltb_ℤ (r.2) (pos 0))
  returned-Zero h (err n) k = k
  returned-Zero h fault k = tt

  parse_msgbody-Zero :
      (rasp : Rasp S) → Zero (parse_msgbody md5_text time_string same grants j rasp)
  unfolding parse_msgbody
  parse_msgbody-Zero rasp =
      let d = in_operation md5_text time_string same grants j rasp.json in
      let h =
        read_cmd md5_text time_string same grants j (j.string d (json_name m_ccmd)) rasp.header in
      let h = read_source md5_text time_string same grants j (j.string d (json_name m_source)) h in
      let num = generate_number h.cmd_number h.subcmd_number in
      let rb : Body = record rasp.body { number = num } in
      let out = j.pop (j.pop d) in
      returned-Zero h (process_with md5_text time_string same grants j (generate_handle num) out rb)
        (process_with-NoErr (generate_handle num) out rb)

  not_six :
      (r : Outcome (Rasp S × ℤ))
      → Zero r
      → (r >>= λ r. if ltb_ℤ (r.1) (pos 0) then err 6 else done (r.0)) ≢ err 6
  not_six (done r) k e =
      let accepted : Outcome.done (r.0) ≡ err 6 =
        subst (λ n. (if ltb_ℤ n (pos 0) then err 6 else done (r.0)) ≡ err 6) k e in
      ground (arith, accepted)
  not_six (err n) k e = k
  not_six fault k e = ground arith

  six_header :
      (rasp : Rasp S) (ret : Outcome (Unit {0}))
      → after_header md5_text time_string same grants j rasp ret ≢ err 6
  six_header rasp (done t) e =
      not_six (parse_msgbody md5_text time_string same grants j rasp) (parse_msgbody-Zero rasp) e
  six_header rasp (err n) e = ground arith
  six_header rasp fault e = ground arith

  six_loaded :
      (rasp : Rasp S) (o : Option S)
      → parse_loaded md5_text time_string same grants j rasp o ≢ err 6
  six_loaded rasp none e = ground arith
  six_loaded rasp (some d) e = six_header _ _ e

  -- A body that is not valid is never reported: kf_rasp_parse_data does not return -6.
  pub parse_data-never_six :
      (rasp : Rasp S) (bytes : List ℕ)
      → parse_data md5_text time_string same grants j rasp bytes ≢ err 6
  unfolding parse_data
  parse_data-never_six rasp bytes = six_loaded rasp (j.load rasp.json bytes)
