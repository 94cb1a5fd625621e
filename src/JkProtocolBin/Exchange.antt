-- ===== src/JkProtocolBin/Exchange.antt =====
-- Whole messages: saved, then parsed.
use jklibs.Common.{
  ℕ, suc, ◌+◌, ◌^◌, ◌≤◌, ◌<◌, ◌≡◌, refl, Bool, true, false, List, [], ◌∷◌, ◌++◌, some, arith,
  ltb_of_le, ltb, length, take, drop, replicate, length-take, length-drop, take_append_n,
}
use jklibs.Common.Int.{pos, ltb_ℤ}
use jklibs.Common.Outcome.{done}
use jklibs.JkProtocolBin.State.{JkProtocolBin}
use jklibs.JkProtocolBin.Text.{header_text}
use jklibs.JkProtocolBin.RoundTrip.{
  Sendable, Fits, header_of, received, parse_header-text, header_text-NoNul,
}
use jklibs.JkProtocolBin.Memory.{buffer, until_nul-buffer, drop-buffer, length-buffer}
use jklibs.JkProtocolBin.Codec.{put, put_body, save_text, take_body, parse_data_text, receive}

module _ (grants : ℕ → Bool) (pbin receiver : JkProtocolBin) (m : Sendable) (bytes : List ℕ) where
  abbrev sent : List ℕ
  sent = buffer 120 m.size (header_text (header_of m)) (take m.size bytes)

  save_text-buffer :
      pbin.header ≡ header_of m
      → pbin.body_data ≡ some bytes
      → m.size ≤ length bytes
      → save_text pbin ≡ done sent
  unfolding save_text
  save_text-buffer h b fits =
      let enough : ltb (length bytes) m.size ≡ false = ground arith in
      rw (h, b, put_body-fits bytes enough) refl
    where
      put_body-fits :
          (bytes : List ℕ)
          → ltb (length bytes) m.size ≡ false
          → put_body
              (put (replicate (120 + m.size) 0) 0 (header_text (header_of m) ++ (0 ∷ [])))
              120
              (some bytes)
              m.size
            ≡ done (buffer 120 m.size (header_text (header_of m)) (take m.size bytes))
      put_body-fits bytes e = unfold put_body in rw e refl

  take_body-sent :
      length (header_text (header_of m)) < 120
      → m.size ≤ length bytes
      → grants (suc m.size) ≡ true
      → take_body grants (pos 120) (pos m.size) sent ≡ done (take m.size bytes ++ (0 ∷ []))
  unfolding take_body
  take_body-sent short fits g =
      let text = header_text (header_of m) in
      let body = take m.size bytes in
      let size : length body ≡ m.size = omega (arith, length-take m.size bytes) in
      let behind = drop-buffer 120 m.size text body short in
      let enough : ltb (length (drop 120 sent)) m.size ≡ false =
        ltb_of_le (length (drop 120 sent)) m.size
          (omega (arith, length-drop 120 sent, length-buffer 120 m.size text body short size)) in
      rw (g, enough, behind, take_append_n m.size body _ size) refl

  receive-sent :
      length (header_text (header_of m)) < 120
      → m.size ≤ length bytes
      → m.size ≤ 2 ^ 15
      → receiver.header.header_len ≡ pos 120
      → grants (suc m.size) ≡ true
      → receive grants sent receiver (done (received receiver.header m)) ≡ (
        record receiver {
          header = received receiver.header m;
          body_length = pos m.size;
          body_data = some (take m.size bytes ++ (0 ∷ []));
        },
        done tt,
      )
  receive-sent short fits small len g =
      let accepted : ltb_ℤ (pos (2 ^ 15)) (pos m.size) ≡ false = ground arith in
      rw (accepted, len, take_body-sent short fits g) refl

  -- A message that save_text writes is read back by parse_data_text, if its numbers are not
  -- negative, the version below 10^14 and the others but the code below 10^15, its id is below 16
  -- bytes and its sign below 34, both without dashes and NULs, its header text is below 120
  -- bytes, its size is at most 2^15 and no more than the body has, the receiver's header length
  -- is 120 and the memory is granted: every field of the header but the header length and the
  -- code, which stay the receiver's, and the body with a NUL behind it; behind the sign stands
  -- what is left of the receiver's old sign.
  pub parse-save :
      Fits m
      → length (header_text (header_of m)) < 120
      → m.size ≤ length bytes
      → m.size ≤ 2 ^ 15
      → pbin.header ≡ header_of m
      → pbin.body_data ≡ some bytes
      → receiver.header.header_len ≡ pos 120
      → grants (suc m.size) ≡ true
      → (out : List ℕ) × (save_text pbin ≡ done out)
        × (parse_data_text grants receiver out (pos (length out)) ≡ (
          record receiver {
            header = received receiver.header m;
            body_length = pos m.size;
            body_data = some (take m.size bytes ++ (0 ∷ []));
          },
          done tt,
        ))
  unfolding parse_data_text
  parse-save f short fits small h b len g =
      let text = header_text (header_of m) in
      let size : length (take m.size bytes) ≡ m.size = omega (arith, length-take m.size bytes) in
      let whole : ltb_ℤ (pos (length sent)) receiver.header.header_len ≡ false =
        rw (len, length-buffer 120 m.size text (take m.size bytes) short size) (ground arith) in
      (
        sent,
        save_text-buffer h b fits,
        rw
            (
              whole,
              until_nul-buffer 120 m.size text (take m.size bytes) (header_text-NoNul m f) short,
              parse_header-text receiver.header m f,
            )
            (receive-sent short fits small len g),
      )
