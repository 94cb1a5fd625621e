-- ===== src/Rasp/Balance.antt =====
-- Which routines leave the document at the section where they found it.
use jklibs.Common.{
  ℕ, suc, ◌+◌, ◌≡◌, refl, ◌∙◌, Bool, List, Option, none, some, arith, ◌==◌, if◌then◌else◌,
  Bool-cases, inl, inr, take,
}
use jklibs.Common.Int.{ℤ}
use jklibs.Common.Outcome.{Outcome, done, err, fault, ◌>>=◌}
use jklibs.Common.Text.{codes}
use jklibs.Rasp.Names.{json_name, m_body, m_result_code}
use jklibs.Rasp.Header.{Header, header_ready_data}
use jklibs.Rasp.Document.{Sections, Counts, as_json}
use jklibs.Rasp.Body.{Body, Rasp, ConnectItemInfo, ConnectAuthority}
use jklibs.Rasp.Process.{
  process_common_result, process_deviceinfo, process_bindlists_result, in_result, out_result,
  bind_fields, device_fields,
}
use jklibs.Rasp.Commands.{Handle, device_info, common_result, bind_lists_result}
use jklibs.Rasp.Receive.{process_with}
use jklibs.Rasp.Generate.{
  generate_data_operation, generate_data_connectiteminfo, generate_data_connectauthority,
  generate_data_connectiteminfo_result, generate_data_null_body, generate_body, generate_data,
  success_data, authority_data, int_text, print_end, item_of, authority_of,
}

-- What holds of a value that is returned.
abbrev pub Returns {ℓ κ} : {A : Type ℓ} → (A → Type κ) → Outcome A → Type κ
Returns P (done a) = P a
Returns P (err n) = Unit
Returns P fault = Unit

Returns-bind {ℓ ℓ2 κ} :
    {A : Type ℓ} {B : Type ℓ2} (P : B → Type κ) (f : A → Outcome B) (r : Outcome A)
    → ((a : A) → Returns P (f a))
    → Returns P (r >>= f)
Returns-bind P f (done a) h = h a
Returns-bind P f (err n) h = tt
Returns-bind P f fault h = tt

module _ {ℓ} (md5_text : List ℕ → List ℕ) (time_string : ℤ → List ℕ) (same : List ℕ → List ℕ → Bool)
    (grants : ℕ → Bool) {S : Type ℓ} (j : Sections S) (depth : S → ℕ) (c : Counts j depth) where
  abbrev Keeps : S → S → Type 0
  Keeps d e = depth e ≡ depth d

  operation-Keeps :
      (d : S) (place : List ℕ) (h : Header)
      → Keeps d (generate_data_operation md5_text time_string same j d place h)
  unfolding generate_data_operation
  operation-Keeps d place h = simp (c.depth-push, c.depth-pop, c.depth-set_string) (omega arith)

  item-Keeps :
      (d : S) (cii : ConnectItemInfo)
      → Keeps d (generate_data_connectiteminfo md5_text time_string same j d cii)
  unfolding generate_data_connectiteminfo
  item-Keeps d cii = simp (c.depth-push, c.depth-pop, c.depth-set_string) (omega arith)

  authority-Keeps :
      (d : S) (ca : ConnectAuthority)
      → Returns (Keeps d) (generate_data_connectauthority md5_text time_string same j d ca)
  unfolding generate_data_connectauthority
  authority-Keeps d ca =
      texts (int_text md5_text time_string same j ca.type)
        (int_text md5_text time_string same j ca.status)
    where
      texts :
          (r s : Outcome (List ℕ))
          → Returns
              (Keeps d)
              (r >>= λ a. s >>= λ b. done (authority_data md5_text time_string same j d ca a b))
      texts (done a) (done b) = simp (c.depth-push, c.depth-pop, c.depth-set_string) (omega arith)
      texts (done a) (err n) = tt
      texts (done a) fault = tt
      texts (err n) s = tt
      texts fault s = tt

  success-Keeps :
      (d e : S) (r : Outcome ConnectItemInfo)
      → depth e ≡ depth d + 2
      → Returns (Keeps d) (
          (r >>= λ cii. done (success_data md5_text time_string same j e cii)) >>= λ d.
          done (j.pop (j.pop d)))
  success-Keeps d e (done cii) k =
      simp (c.depth-push, c.depth-pop, c.depth-set_string, k) (omega arith)
  success-Keeps d e (err n) k = tt
  success-Keeps d e fault k = tt

  result-Keeps :
      (d : S) (rb : Body)
      → Returns (Keeps d) (generate_data_connectiteminfo_result md5_text time_string same j d rb)
  unfolding generate_data_connectiteminfo_result
  result-Keeps d rb = elim (Bool-cases (same rb.result_code (codes "success"))) [
    | inl e ↦ rw e (
        success-Keeps d _ (item_of rb.content)
          (simp (c.depth-push, c.depth-set_string) (omega arith)))
    | inr e ↦ rw e (simp (c.depth-push, c.depth-pop, c.depth-set_string) (omega arith))
  ]

  null_body-Keeps : (d : S) → Keeps d (generate_data_null_body md5_text time_string same j d)
  unfolding generate_data_null_body
  null_body-Keeps d = simp (c.depth-push, c.depth-pop, c.depth-set_string) (omega arith)

  header-Keeps :
      (d : S) (h : Header) → Keeps d (header_ready_data md5_text time_string same (as_json j) d h)
  unfolding header_ready_data
  header-Keeps d h = simp (c.depth-push, c.depth-pop, c.depth-set_string) (omega arith)

  -- A step that keeps the section, after others that do.
  Returns-Keeps : (d e : S) (r : Outcome S) → Keeps d e → Returns (Keeps e) r → Returns (Keeps d) r
  Returns-Keeps d e (done a) k h = h ∙ k
  Returns-Keeps d e (err n) k h = tt
  Returns-Keeps d e fault k h = tt

  body-Keeps :
      (d : S) (h : Header) (rb : Body)
      → Returns (Keeps d) (generate_body md5_text time_string same j d h rb)
  unfolding generate_body
  body-Keeps d h rb =
      let params = operation-Keeps d (codes "MsgBody[0].PARAMS") h in
      let result = operation-Keeps d (codes "MsgBody.result.resultData") h in
      elim (Bool-cases (rb.number == 8)) [
        | inl e ↦ rw e (
            Returns-bind (Keeps d)
              (λ cii. done (generate_data_connectiteminfo md5_text time_string same j _ cii))
              (item_of rb.content) (λ cii. item-Keeps _ cii ∙ params))
        | inr e ↦ rw e (elim (Bool-cases (rb.number == 9)) [
          | inl e ↦ rw e (Returns-Keeps d _ _ result (result-Keeps _ rb))
          | inr e ↦ rw e (elim (Bool-cases (rb.number == 10)) [
            | inl e ↦ rw e (
                Returns-bind (Keeps d)
                  (generate_data_connectauthority md5_text time_string same j _)
                  (authority_of rb.content)
                  (λ ca. Returns-Keeps d _ _ params (authority-Keeps _ ca)))
            | inr e ↦ rw e (elim (Bool-cases (rb.number == 6)) [
              | inl e ↦ rw e (null_body-Keeps _ ∙ params)
              | inr e ↦ rw e refl
            ])
          ])
        ])
      ]

  print-Keeps :
      (d e : S) (rasp : Rasp S) (r : Option (List ℕ × ℤ))
      → Keeps d e
      → Returns (λ r. Keeps d (r.0.json)) (print_end md5_text time_string same j rasp e r)
  print-Keeps d e rasp none k = tt
  print-Keeps d e rasp (some r) k = k

  printed :
      (d : S) (rasp : Rasp S) (len : ℤ) (r : Outcome S)
      → Returns (Keeps d) r
      → Returns
          (λ r. Keeps d (r.0.json))
          (r >>= λ e. print_end md5_text time_string same j rasp e (j.print e len))
  printed d rasp len (done e) k = print-Keeps d e rasp (j.print e len) k
  printed d rasp len (err n) k = tt
  printed d rasp len fault k = tt

  -- kf_rasp_generate_data leaves its document at the section where it found it, whatever the body,
  -- for a library that counts the sections as `Counts` states.
  pub generate_data-depth :
      (rasp : Rasp S) (len : ℤ)
      → Returns
          (λ r. depth (r.0.json) ≡ depth rasp.json)
          (generate_data md5_text time_string same j rasp len)
  unfolding generate_data
  generate_data-depth rasp len =
      let start : Keeps rasp.json (
          header_ready_data md5_text time_string same (as_json j)
            (j.set_null rasp.json (json_name m_body)) rasp.header) =
        header-Keeps _ rasp.header ∙ c.depth-set_null rasp.json (json_name m_body) in
      printed rasp.json rasp len _
        (Returns-Keeps rasp.json _ _ start (body-Keeps _ rasp.header rasp.body))

  -- How many sections a routine leaves open, by the result code in its document.
  abbrev pub left_open : Handle → Option (List ℕ) → ℕ
  left_open bind_lists_result (some s) = if same (take 31 s) (codes "SUCCESS") then 1 else 0
  left_open _ _ = 0

  device-depth :
      (d : S) (rb : Body)
      → Returns (λ r. depth (r.0) ≡ depth d + 0) (process_deviceinfo j same grants d rb)
  unfolding process_deviceinfo
  device-depth d rb = rw (c.made (j.push d (codes ".MsgBody[0].PARAMS")) (codes ".deviceInfo")) (
      Returns-bind _ _ (device_fields j same grants _ rb)
        (λ rb. simp (c.depth-push, c.depth-pop) (omega arith)))

  opened-depth :
      (n : ℕ) (e : S) (r : Outcome (Body × ℤ))
      → depth e ≡ n
      → Returns (λ (r : S × Body × ℤ). depth (r.0) ≡ n) (r >>= λ r. done (e, r.0, r.1))
  opened-depth n e (done r) k = k
  opened-depth n e (err m) k = tt
  opened-depth n e fault k = tt

  bind_fields-depth :
      (d : S) (rb : Body) (o : Option (List ℕ))
      → Returns
          (λ (r : S × Body × ℤ). depth (r.0) ≡ depth d + left_open bind_lists_result o)
          (bind_fields j same grants d rb o)
  bind_fields-depth d rb none = omega arith
  bind_fields-depth d rb (some s) = elim (Bool-cases (same (take 31 s) (codes "SUCCESS"))) [
    | inl e ↦ rw e (opened-depth (depth d + 1) _ _ (simp c.depth-push (omega arith)))
    | inr e ↦ rw e (simp (c.depth-push, c.depth-pop) (omega arith))
  ]

  closed-depth :
      (m n : ℕ) (r : Outcome (S × Body × ℤ))
      → m ≡ suc (suc n)
      → Returns (λ (r : S × Body × ℤ). depth (r.0) ≡ m) r
      → Returns
          (λ (r : S × Body × ℤ). depth (r.0) ≡ n)
          (r >>= λ r. done (out_result j same grants (r.0), r.1, r.2))
  closed-depth m n (done r) e k = simp (c.depth-pop, k, e) (omega arith)
  closed-depth m n (err x) e k = tt
  closed-depth m n fault e k = tt

  bind_lists-depth :
      (d : S) (rb : Body)
      → let o = j.string (in_result j same grants d) (json_name m_result_code) in
        Returns
          (λ (r : S × Body × ℤ). depth (r.0) ≡ depth d + left_open bind_lists_result o)
          (process_bindlists_result j same grants d rb)
  unfolding process_bindlists_result
  bind_lists-depth d rb =
      let inner = in_result j same grants d in
      let o = j.string inner (json_name m_result_code) in
      let deep : depth inner ≡ suc (suc (depth d)) = simp c.depth-push refl in
      closed-depth (depth inner + left_open bind_lists_result o)
        (depth d + left_open bind_lists_result o) (bind_fields j same grants inner rb o)
        (omega (arith, deep)) (bind_fields-depth inner rb o)

  -- The routines for the device and for common results leave the document at the section where they
  -- found it; the one for bind lists leaves one section more open after a success, for a library
  -- that counts the sections as `Counts` states.
  pub process_with-depth :
      (h : Handle) (d : S) (rb : Body)
      → Returns
          (λ (r : S × Body × ℤ).
            depth (r.0)
            ≡ depth d
              + left_open h (j.string (in_result j same grants d) (json_name m_result_code)))
          (process_with md5_text time_string same grants j (some h) d rb)
  process_with-depth device_info d rb = device-depth d rb
  process_with-depth common_result d rb =
      unfold process_common_result in simp (c.depth-push, c.depth-pop) (omega arith)
  process_with-depth bind_lists_result d rb = bind_lists-depth d rb
