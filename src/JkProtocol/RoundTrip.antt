-- ===== src/JkProtocol/RoundTrip.antt =====
-- What is sent is read back, with its sign checked.
use jklibs.Common.{
  ℕ, ◌+◌, ◌-◌, ◌≤◌, ◌<◌, ◌≡◌, ◌≢◌, refl, ap, ◌∙◌, Bool, true, false, List, [], Option, some, arith,
  leb, ◌==◌, if◌then◌else◌, length, Bool-cases, inl, inr,
}
use jklibs.Common.Int.{ℤ, pos, minus, to_size}
use jklibs.Common.Outcome.{done, err, fault, ◌>>=◌}
use jklibs.Common.Text.{Lacks, same_text, same_text_refl, same_text-eq}
use jklibs.JkProtocol.{
  Head, ◌-line-◌, sign_source, generate_string, take_filename, take_data, check_sign,
  protocol_parse,
}
use jklibs.JkProtocol.Fields.{
  Message, Fits, head_of, lines, head_length, length-lines, read_head-lines, split_line-line,
}

-- The rest of the text behind the head.
abbrev pub behind : Message → List ℕ → List ℕ → List ℕ
behind m filename bytes = if m.sub_cmd == 1 then filename -line- bytes else bytes

module _ (md5_text : List ℕ → List ℕ) (grants : ℕ → Bool) where
  parse-lines :
      (m : Message) (rest : List ℕ) (len : ℤ)
      → Fits m
      → protocol_parse md5_text grants (lines m rest) len
        ≡ check_sign md5_text grants len (head_of m, rest, head_length m)
  unfolding protocol_parse
  parse-lines m rest len f =
      ap (λ r. r >>= check_sign md5_text grants len) (read_head-lines m rest f)

  refused :
      (h : Head) (rest : List ℕ) (len : ℤ) (headlen : ℕ)
      → h.sign ≢ md5_text (sign_source h)
      → check_sign md5_text grants len (h, rest, headlen) ≡ err 2
  unfolding check_sign
  refused h rest len headlen forged =
      elim (Bool-cases (same_text h.sign (md5_text (sign_source h)))) [
        | inl e ↦ absurd (forged (same_text-eq _ _ e))
        | inr e ↦ rw e refl
      ]

  -- A message whose texts have no carriage return, the version below 8 bytes, the id below 16 and
  -- the sign below 40, whose commands are below 1000 and whose time is below 2^31, is refused
  -- with -2 if its sign is not the one of its head.
  pub parse_forged :
      (m : Message) (rest : List ℕ) (len : ℤ)
      → Fits m
      → m.sign ≢ md5_text (sign_source (head_of m))
      → protocol_parse md5_text grants (lines m rest) len ≡ err 2
  parse_forged m rest len f forged =
      parse-lines m rest len f ∙ refused (head_of m) rest len (head_length m) forged

  accepted :
      (m : Message) (rest : List ℕ) (len : ℤ)
      → md5_text (sign_source (head_of m)) ≡ m.sign
      → check_sign md5_text grants len (head_of m, rest, head_length m)
        ≡ take_data grants (minus len (head_length m + 2)) (head_of m) rest
  unfolding check_sign
  accepted m rest len signed =
      let same : same_text m.sign (md5_text (sign_source (head_of m))) ≡ true =
        rw signed (same_text_refl m.sign) in
      rw same (
        ap
          (λ s.
            take_data grants (minus len (head_length m + 2))
              (let h = head_of m in record h { sign = s }) rest)
          signed)

  taken :
      (m : Message) (filename bytes : List ℕ) (size : ℤ)
      → Lacks 13 filename
      → length filename < 256
      → length (behind m filename bytes) < to_size size
      → grants (to_size size) ≡ true
      → take_data grants size (head_of m) (behind m filename bytes)
        ≡ done (record {
          head = head_of m;
          filename = if m.sub_cmd == 1 then filename else [];
          body_data = some bytes;
        })
  unfolding take_data take_filename
  taken m filename bytes size plain short fits g =
      let room : leb (to_size size) (length (behind m filename bytes)) ≡ false = ground arith in
      let name_fits : leb 256 (length filename) ≡ false = ground arith in
      elim (Bool-cases (m.sub_cmd == 1)) [
        | inl e ↦
            (let line = split_line-line filename bytes plain in
              rw (room, g, e, line, name_fits) refl)
        | inr e ↦ rw (room, g, e) refl
      ]

  -- A signed message whose texts have no carriage return, the version below 8 bytes, the id below
  -- 16, the sign below 40 and the filename below 256, whose commands are below 1000 and whose
  -- time is below 2^31, is read back as it was sent, for a file with its name, if the caller
  -- gives a length at least three above that of the text and the memory is granted.
  pub parse-generate_string :
      (m : Message) (old : Option (List ℕ)) (filename bytes : List ℕ) (len : ℕ)
      → Fits m
      → md5_text (sign_source (head_of m)) ≡ m.sign
      → Lacks 13 filename
      → length filename < 256
      → let text =
          generate_string
            (record { head = head_of m; filename = filename; body_data = old })
            bytes in
        length text + 3 ≤ len
        → grants (len - (head_length m + 2)) ≡ true
        → protocol_parse md5_text grants text (pos len)
          ≡ done (record {
            head = head_of m;
            filename = if m.sub_cmd == 1 then filename else [];
            body_data = some bytes;
          })
  unfolding generate_string
  parse-generate_string m old filename bytes len f signed plain short room g =
      let rest = behind m filename bytes in
      let all : head_length m + length rest + 3 ≤ len = omega (arith, length-lines m rest) in
      let size : minus (pos len) (head_length m + 2) ≡ pos (len - (head_length m + 2)) =
        ground arith in
      parse-lines m rest (pos len) f
      ∙ (accepted m rest (pos len) signed
          ∙ (ap (λ n. take_data grants n (head_of m) rest) size
              ∙ taken m filename bytes (pos (len - (head_length m + 2))) plain short (omega arith)
                  g))

  -- With the length of the text itself, as its sender knows it, the memory asked for is too small
  -- for the data: the parser writes past it.
  pub parse_overflow_exact :
      (m : Message) (rest : List ℕ)
      → Fits m
      → md5_text (sign_source (head_of m)) ≡ m.sign
      → 2 ≤ length rest
      → grants (length rest - 2) ≡ true
      → protocol_parse md5_text grants (lines m rest) (pos (length (lines m rest))) ≡ fault
  unfolding take_data
  parse_overflow_exact m rest f signed some_data g =
      let size : minus (pos (length (lines m rest))) (head_length m + 2) ≡ pos (length rest - 2) =
        rw (length-lines m rest) (ground arith) in
      parse-lines m rest _ f
      ∙ (accepted m rest _ signed
          ∙ (ap (λ n. take_data grants n (head_of m) rest) size ∙ too_small (head_of m) rest g))
    where
      too_small :
          (h : Head) (rest : List ℕ)
          → grants (length rest - 2) ≡ true
          → take_data grants (pos (length rest - 2)) h rest ≡ fault
      too_small h rest g =
          let over : leb (length rest - 2) (length rest) ≡ true = ground arith in
          rw (g, over, take_data) refl
