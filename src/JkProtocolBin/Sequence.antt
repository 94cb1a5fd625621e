-- ===== src/JkProtocolBin/Sequence.antt =====
-- The numbers of the generated messages.
use jklibs.Common.{ℕ, ◌+◌, ◌%◌, ◌≤◌, ◌≡◌, refl, ◌∙◌, ap, List, [], ◌∷◌, arith, length}
use jklibs.Common.Int.{ℤ, pos, suc_ℤ}
use jklibs.Common.Outcome.{Outcome, done, err, fault}
use jklibs.JkProtocolBin.State.{Header, JkProtocolBin, init}
use jklibs.JkProtocolBin.Codec.{generate_data, generate_sign, next_sequence, signed, stamped}

next_sequence-mod : (n : ℕ) → n ≤ 32769 → next_sequence (pos n) ≡ pos (n % 32769)
next_sequence-mod n h = ground arith

signed-sequence :
    (h : Header) (curseq : ℤ) (pbin : JkProtocolBin) (sign : Outcome (List ℕ))
    → let after = (signed h curseq pbin sign).0 in
      (after.header.sequence ≡ h.sequence) × (after.curseq ≡ curseq)
signed-sequence h curseq pbin (done sign) = (refl, refl)
signed-sequence h curseq pbin (err n) = (refl, refl)
signed-sequence h curseq pbin fault = (refl, refl)

module _ (md5 : List ℕ → List ℕ) where
  -- The object after messages at the given times.
  abbrev pub after_messages : List ℤ → JkProtocolBin → JkProtocolBin
  after_messages [] pbin = pbin
  after_messages (now ∷ times) pbin = after_messages times (generate_data md5 now pbin).0

  curseq-generate :
      (now : ℤ) (pbin : JkProtocolBin) (n : ℕ)
      → pbin.curseq ≡ pos n
      → n ≤ 32769
      → let after = (generate_data md5 now pbin).0 in
        (after.header.sequence ≡ pos (n % 32769)) × (after.curseq ≡ pos (n % 32769 + 1))
  unfolding generate_data
  curseq-generate now pbin n e h =
      let kept =
        signed-sequence (stamped now pbin) (suc_ℤ (next_sequence pbin.curseq)) pbin
          (generate_sign md5 (stamped now pbin)) in
      let next : next_sequence pbin.curseq ≡ pos (n % 32769) = rw e (next_sequence-mod n h) in
      (kept.0 ∙ next, kept.1 ∙ (ap suc_ℤ next ∙ ap pos (omega arith)))

  curseq-after :
      (times : List ℤ) (pbin : JkProtocolBin) (n : ℕ)
      → pbin.curseq ≡ pos (n % 32769 + 1)
      → (after_messages times pbin).curseq ≡ pos ((n + length times) % 32769 + 1)
  curseq-after [] pbin n e = e ∙ ap pos (omega arith)
  curseq-after (now ∷ times) pbin n e =
      let c = curseq-generate now pbin (n % 32769 + 1) e (omega arith) in
      curseq-after times (generate_data md5 now pbin).0 (n + 1) (c.1 ∙ ap pos (omega arith))
      ∙ ap pos (omega arith)

  -- The messages of a new object are numbered 1, 2, 3 and so on up to 32768, then from 0 again,
  -- whether they are valid or not.
  pub sequence_after :
      (times : List ℤ) (now : ℤ)
      → (generate_data md5 now (after_messages times init)).0.header.sequence
        ≡ pos ((length times + 1) % 32769)
  sequence_after times now =
      let c = curseq-after times init 0 (unfold init in refl) in
      (curseq-generate now (after_messages times init) ((0 + length times) % 32769 + 1) c
        (omega arith)).0
      ∙ ap pos (omega arith)
