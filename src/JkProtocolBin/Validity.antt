-- ===== src/JkProtocolBin/Validity.antt =====
-- Which headers pass the checks.
use jklibs.Common.{
  ℕ, ◌≡◌, refl, sym, ◌∙◌, ap, ◌⊎◌, ◌↔◌, Bool, List, arith, leb, if◌then◌else◌, length,
}
use jklibs.Common.Int.{ℤ, pos, ltb_ℤ, ◌≤ℤ◌, ◌<ℤ◌}
use jklibs.Common.Decimal.{print_int2}
use jklibs.Common.Outcome.{Outcome, done, err, fault}
use jklibs.JkProtocolBin.State.{Header, JkProtocolBin, check_valid, set_response}
use jklibs.JkProtocolBin.Codec.{
  check_header_valid, generate_sign, check_parsed, parse_data, parse_data_text, parsed,
}

-- The bounds that the check enforces: 8, 8, 2048, 32768 and 64. Nothing bounds a field from below
-- but the code.
pub record IsValid (h : Header) : Type 0 where
  pub version_le : h.version ≤ℤ pos 8
  pub cmd_le : h.cmd ≤ℤ pos 8
  pub subcmd_le : h.subcmd ≤ℤ pos 2048
  pub direction_bit : (h.direction ≡ pos 0) ⊎ (h.direction ≡ pos 1)
  pub length_le : h.length ≤ℤ pos 32768
  pub sequence_le : h.sequence ≤ℤ pos 32768
  pub header_len_fixed : h.header_len ≡ pos 120
  pub ret_bit : (h.ret ≡ pos 0) ⊎ (h.ret ≡ pos 1)
  pub code_nonneg : pos 0 ≤ℤ h.ret_code
  pub code_le : h.ret_code ≤ℤ pos 64

-- jk_protocol_bin_check_valid returns 1 exactly for the headers within its bounds.
pub check_valid_iff : (h : Header) → (check_valid h ≡ pos 1) ↔ IsValid h
unfolding check_valid
check_valid_iff h = (λ e. ground arith, λ v. ground arith)

-- The check returns 1 or a negative code.
pub check_valid_cases : (h : Header) → (check_valid h ≡ pos 1) ⊎ (check_valid h <ℤ pos 0)
unfolding check_valid
check_valid_cases h = ground arith

-- `jk_protocol_bin_set_response` takes codes from 0 to 64 and makes a response of it; any other
-- code leaves the object alone.
pub set_response_lem :
    (pbin : JkProtocolBin) (ret code : ℤ)
    → let (after, r) = set_response pbin ret code in
      ((r ≡ pos 0)
        × (after.header.ret_code ≡ code)
        × (after.header.direction ≡ pos 1)
        × (pos 0 ≤ℤ code)
        × (code ≤ℤ pos 64))
      ⊎ ((r <ℤ pos 0) × (after ≡ pbin) × ((code <ℤ pos 0) ⊎ (pos 64 <ℤ code)))
unfolding set_response
set_response_lem pbin ret code = ground arith

-- Whatever the sign is, the checks after parsing accept or reject by the other fields alone.
sign_ignored :
    (md5 : List ℕ → List ℕ) (h : Header)
    → check_parsed md5 h ≡ (
        if ltb_ℤ (check_valid h) (pos 0)
        then err 3
        else if leb 4 (length (print_int2 h.version))
        then fault
        else done tt)
unfolding check_parsed check_header_valid generate_sign
sign_ignored md5 h = ground arith

-- The sign authenticates nothing: parsing a message ends in the same way, with the same object,
-- whichever function stands for MD5, so a forged sign is accepted wherever a correct one is.
pub parse_data-sign :
    (md5 forged : List ℕ → List ℕ) (grants : ℕ → Bool) (pbin : JkProtocolBin) (bytes : List ℕ)
    (len : ℤ)
    → parse_data md5 grants pbin bytes len ≡ parse_data forged grants pbin bytes len
unfolding parse_data
parse_data-sign md5 forged grants pbin bytes len =
    let (after, r) = parse_data_text grants pbin bytes len in
    ap (λ c. if ltb_ℤ len pbin.header.header_len then (pbin, err 1) else (after, c)) (same after r)
  where
    same : (p : JkProtocolBin) (r : Outcome (Unit {0})) → parsed md5 p r ≡ parsed forged p r
    same p (done _) = sign_ignored md5 p.header ∙ sym (sign_ignored forged p.header)
    same p (err n) = refl
    same p fault = refl
