-- ===== src/Rasp/Signing.antt =====
-- Headers that are sent are accepted, and only headers with the right sign are.
use jklibs.Common.{
  ℕ, ◌≤◌, ◌≡◌, ◌≢◌, refl, ap, ◌∙◌, Bool, true, false, List, [], ◌∷◌, Option, none, some, arith,
  ◌==◌, ◌&&◌, ◌||◌, leb, take, length, length-take, take_all, subst,
}
use jklibs.Common.Int.{ℤ}
use jklibs.Common.Text.{codes, same_text, same_text_refl, same_text-eq}
use jklibs.Common.Decimal.{atoi}
use jklibs.Common.Outcome.{done}
use jklibs.Rasp.Names.{
  m_head, m_cmd, m_subcmd, m_tm, m_sign, json_name, cmd_table, subcmd_table, int_str, str_int,
}
use jklibs.Rasp.Commands.{Compares, str_int-names, length-subcmd_name}
use jklibs.Rasp.Header.{
  Header, Json, sign_text, generate_header, header_ready_data, header_valid, read_fields,
  parse_data_header, checked, with_cmd, with_subcmd,
}

-- A path of one step: a point and a name of letters and digits. A longer path leads below another.
abbrev pub is_name_byte : ℕ → Bool
is_name_byte c =
    (leb b'0' c && leb c b'9') || ((leb b'A' c && leb c b'Z') || (leb b'a' c && leb c b'z'))

abbrev pub all_name_bytes : List ℕ → Bool
all_name_bytes [] = true
all_name_bytes (c ∷ s) = is_name_byte c && all_name_bytes s

abbrev pub is_step : List ℕ → Bool
is_step (dot ∷ (c ∷ s)) = (dot == b'.') && (is_name_byte c && all_name_bytes s)
is_step _ = false

-- A text that is put into a section of a document is found there, and the texts at the other names of
-- the section do not change; section and names are one step below what they stand in.
pub record Stores {ℓ} {D : Type ℓ} (json : Json D) : Type ℓ where
  pub same_name :
      (d : D) (section name text : List ℕ)
      → is_step section ≡ true
      → is_step name ≡ true
      → json.get (json.put d section name text) section name ≡ some text
  pub other_name :
      (d : D) (section name text other : List ℕ)
      → is_step section ≡ true
      → is_step name ≡ true
      → is_step other ≡ true
      → same_text name other ≡ false
      → json.get (json.put d section name text) section other ≡ json.get d section other

-- What a document that was printed and loaded has: the texts in the section of the header.
abbrev pub Carries {ℓ} : {D : Type ℓ} → Json D → D → D → Type 0
Carries json sent loaded =
    (name : List ℕ)
    → is_step name ≡ true
    → json.get loaded (json_name m_head) name ≡ json.get sent (json_name m_head) name

module _ {ℓ} (md5_text : List ℕ → List ℕ) (time_string : ℤ → List ℕ) (same : List ℕ → List ℕ → Bool)
    {D : Type ℓ} (json : Json D) (stores : Stores json) (compares : Compares same) where
  ready-name :
      (d : D) (h : Header)
      → let doc = header_ready_data md5_text time_string same json d h in
        (json.get doc (json_name m_head) (json_name m_cmd) ≡ some h.subcmd)
        × (json.get doc (json_name m_head) (json_name m_subcmd) ≡ some h.id)
        × (json.get doc (json_name m_head) (json_name m_sign) ≡ some h.sign)
        × (json.get doc (json_name m_head) (json_name m_tm) ≡ some (time_string h.time))
  unfolding header_ready_data
  ready-name d h = (
    stores.other_name _ _ _ _ _ refl refl refl refl
        ∙ (stores.other_name _ _ _ _ _ refl refl refl refl
            ∙ (stores.other_name _ _ _ _ _ refl refl refl refl
                ∙ stores.same_name _ _ _ _ refl refl)),
    stores.other_name _ _ _ _ _ refl refl refl refl
        ∙ (stores.other_name _ _ _ _ _ refl refl refl refl ∙ stores.same_name _ _ _ _ refl refl),
    stores.other_name _ _ _ _ _ refl refl refl refl ∙ stores.same_name _ _ _ _ refl refl,
    stores.same_name _ _ _ _ refl refl,
  )

  -- What a receiver with the header `old` has read when `h` was sent.
  abbrev pub received : Header → Header → Header
  received old h = record old {
    subcmd_number = str_int same subcmd_table h.subcmd;
    subcmd = h.subcmd;
    id = h.id;
    time = h.time;
    sign = h.sign;
  }

  parse-ready :
      (d loaded : D) (old h : Header)
      → Carries json (header_ready_data md5_text time_string same json d h) loaded
      → length h.subcmd ≤ 31
      → length h.id ≤ 7
      → length h.sign ≤ 33
      → md5_text (sign_text h) ≡ h.sign
      → atoi (time_string h.time) ≡ h.time
      → parse_data_header md5_text time_string same json loaded old ≡ (received old h, done tt)
  unfolding parse_data_header header_valid checked
  parse-ready d loaded old h carries a b c signed clock =
      let (cmd, subcmd, sign, tm) = ready-name d h in
      let valid : same_text (md5_text (sign_text h)) h.sign ≡ true =
        rw signed (same_text_refl h.sign) in
      rw
        (
          carries _ refl ∙ tm,
          carries _ refl ∙ cmd,
          carries _ refl ∙ subcmd,
          carries _ refl ∙ sign,
          clock,
          take_all h.subcmd 31 a,
          take_all h.id 7 b,
          take_all h.sign 33 c,
          valid,
          parse_data_header,
          checked,
          header_valid,
        )
        refl

  -- The header that a successful kf_rasp_generate_header leaves.
  abbrev generated : ℤ → Header → ℕ → ℕ → List ℕ → List ℕ → List ℕ → Header
  generated now h cmd subcmd id name subname =
      let h2 : Header = record h {
        cmd_number = cmd;
        cmd = take 31 name;
        subcmd_number = subcmd;
        subcmd = take 31 subname;
        id = take 7 id;
        time = now;
      } in
      record h2 { sign = md5_text (sign_text h2); source = codes "router" }

  generate_header-done :
      (h : Header) (now : ℤ) (cmd subcmd : ℕ) (id name subname : List ℕ)
      → cmd ≢ 0
      → int_str cmd_table cmd ≡ some name
      → int_str subcmd_table subcmd ≡ some subname
      → generate_header md5_text time_string same json now h cmd subcmd id
        ≡ (generated now h cmd subcmd id name subname, done tt)
  unfolding generate_header
  generate_header-done h now cmd subcmd id name subname nz c s =
      let zero_no : (cmd == 0) ≡ false = ground arith in
      let h1 : Header = record h { cmd_number = cmd; cmd = take 31 name } in
      rw zero_no (
        ap (with_cmd md5_text time_string same json now cmd subcmd id h) c
        ∙ ap (with_subcmd md5_text time_string same json now subcmd id h1) s)

  -- A message whose commands are in the tables is generated, and the receiver accepts the header
  -- of a document that has, after printing and loading, the texts of the one that was sent in the
  -- section of the header. It reads from it the subcommand, the first seven bytes of the
  -- identifier, the time and the sign. A text that is put at a name of one step in a section of
  -- one step is found there and leaves the other such names alone; kf_string_compare finds a text
  -- equal to itself and not to one of another length; MD5 gives at most 33 bytes of text, and the
  -- time printed is read back by atol.
  pub parse-generate :
      (d loaded : D) (old h : Header) (now : ℤ) (cmd subcmd : ℕ) (id name subname : List ℕ)
      → ((s : List ℕ) → length (md5_text s) ≤ 33)
      → atoi (time_string now) ≡ now
      → cmd ≢ 0
      → int_str cmd_table cmd ≡ some name
      → int_str subcmd_table subcmd ≡ some subname
      → let (sent, r) = generate_header md5_text time_string same json now h cmd subcmd id in
        Carries json (header_ready_data md5_text time_string same json d sent) loaded
        → (r ≡ done tt)
          × (parse_data_header md5_text time_string same json loaded old ≡ (
            record old {
              subcmd_number = subcmd;
              subcmd = subname;
              id = take 7 id;
              time = now;
              sign = sent.sign;
            },
            done tt,
          ))
  parse-generate d loaded old h now cmd subcmd id name subname digest clock nz c s carries =
      let sent = generated now h cmd subcmd id name subname in
      let made = generate_header-done h now cmd subcmd id name subname nz c s in
      let fits = length-subcmd_name subcmd subname s in
      let whole = take_all subname 31 fits in
      let number = (str_int-names same compares cmd subcmd name subname c s).1 in
      let parsed =
        parse-ready d loaded old sent (rw made at carries) (omega (arith, length-take 31 subname))
          (omega (arith, length-take 7 id)) (digest (sign_text sent)) refl clock in
      let read : received old sent ≡ (record old {
        subcmd_number = subcmd;
        subcmd = subname;
        id = take 7 id;
        time = now;
        sign = sent.sign;
      }) =
        rw (whole, number) refl in
      rw made (refl, parsed ∙ ap (λ r. (r, done tt)) read)

module _ {ℓ} (md5_text : List ℕ → List ℕ) (time_string : ℤ → List ℕ) (same : List ℕ → List ℕ → Bool)
    {D : Type ℓ} (json : Json D) where
  checked-sign :
      (h : Header) (o : Option (List ℕ))
      → (checked md5_text time_string same json h o).1 ≡ done tt
      → let read = (checked md5_text time_string same json h o).0 in
        md5_text (sign_text read) ≡ read.sign
  unfolding checked header_valid
  checked-sign h none e = absurd (ground arith)
  checked-sign h (some s) e =
      let stamped : Header = record h { time = atoi s } in
      same_text-eq (md5_text (sign_text stamped)) stamped.sign (ground arith)

  -- A header is accepted only if its sign is the one computed from what was read.
  pub parse_data_header-sign :
      (d : D) (old read : Header)
      → parse_data_header md5_text time_string same json d old ≡ (read, done tt)
      → md5_text (sign_text read) ≡ read.sign
  unfolding parse_data_header
  parse_data_header-sign d old read e =
      subst (λ h. md5_text (sign_text h) ≡ h.sign) (ap (λ p. p.0) e)
        (checked-sign (read_fields md5_text time_string same json d old)
          (json.get d (json_name m_head) (json_name m_tm)) (ap (λ p. p.1) e))
