-- ===== src/BusServer/Loop.antt =====
-- The loop over received messages: it ends, and it goes from a message that was sent to the next.
use jklibs.Common.{
  ℕ, zero, suc, ◌-◌, ◌≤◌, ◌<◌, ◌≡◌, refl, sym, append-nil, ◌∙◌, ap, ap₂, ◌≢◌, ◌⊎◌, false,
  Bool-cases, inl, inr, List, [], ◌∷◌, ◌++◌, none, some, arith, ◌==◌, length, drop, length-drop,
  drop_append_n,
}
use jklibs.Common.Outcome.{Outcome, done, err, fault}
use jklibs.BusServer.Parse.{
  BcStr, Mbuf, Parsed, memory, next_part, ends_at, message_of, parse_parts, parse_multipart_msg,
  multipart_bytes, max_multipart_opt, type_of, crlf,
}
use jklibs.BusServer.Framing.{parse_multipart_msg-bytes}
use jklibs.BusServer.Parts.{parts_in}
use jklibs.BusServer.Receive.{recv_loop}
use jklibs.BusServer.Removal.{Removes, Moves, Moves-Removes, parse-nothing}
use jklibs.BusServer.Removal.{removed}

Outcome-cases {ℓ} :
    {A : Type ℓ} (r : Outcome A)
    → ((a : A) × (r ≡ done a)) ⊎ (((n : ℕ) × (r ≡ err n)) ⊎ (r ≡ fault))
Outcome-cases (done a) = inl (a, refl)
Outcome-cases (err n) = inr (inl (n, refl))
Outcome-cases fault = inr (inr refl)

-- The bytes that the parser returns are two or more, and were received.
parse_parts-size :
    (rounds : ℕ) (mem : List ℕ) (size handled : ℕ) (parts : List BcStr) (type : ℕ) (msg : Parsed)
    → parse_parts rounds mem size handled parts type ≡ done (some msg)
    → (2 ≤ msg.size) × (msg.size ≤ size)
unfolding parse_parts message_of
parse_parts-size zero mem size handled parts type msg e = ground arith
parse_parts-size (suc rounds) mem size handled parts type msg e =
    elim (Outcome-cases (next_part mem size handled)) [
      | inl (none, r) ↦ ground arith
      | inl (some (part, behind), r) ↦ elim (Bool-cases (ends_at mem size behind)) [
        | inl last ↦ ground arith
        | inr more ↦
            parse_parts-size rounds mem size behind (parts ++ (part ∷ [])) type msg (ground arith)
      ]
      | inr (inl (n, r)) ↦ ground arith
      | inr (inr r) ↦ ground arith
    ]

parse_multipart_msg-size :
    (io : Mbuf) (type : ℕ) (msg : Parsed)
    → parse_multipart_msg io type ≡ done (some msg)
    → (2 ≤ msg.size) × (msg.size ≤ length (io.bytes))
unfolding parse_multipart_msg
parse_multipart_msg-size io type msg e =
    parse_parts-size max_multipart_opt (memory io) (length (io.bytes)) 0 [] type msg e

module _ {ℓ} {S : Type ℓ} (mbuf_remove : ℕ → Mbuf → Mbuf)
    (handle : S → List BcStr → Outcome S) where
  -- The fuel does not run out within one round more than bytes were received.
  pub recv_loop_ends :
      Removes mbuf_remove
      → (fuel : ℕ) (io : Mbuf) (type : ℕ) (state : S) → length (io.bytes) < fuel
      → recv_loop mbuf_remove handle fuel io type state ≢ done none
  unfolding recv_loop
  recv_loop_ends removes zero io type state h = absurd (omega arith)
  recv_loop_ends removes (suc fuel) io type state h =
      elim (Outcome-cases (parse_multipart_msg io type)) [
        | inl (none, r) ↦ ground arith
        | inl (some msg, r) ↦ elim (Outcome-cases (handle state (msg.parts))) [
          | inl (next, q) ↦
              let sizes = parse_multipart_msg-size io type msg r in
              let left =
                ap length (removes (msg.size) io (omega arith))
                ∙ length-drop (msg.size) (io.bytes) in
              let ends =
                recv_loop_ends removes fuel (mbuf_remove (msg.size) io) (msg.type) next
                  (omega arith) in
              elim (Bool-cases (msg.type == 0)) [
                | inl stop ↦ ground arith
                | inr go ↦ ground (arith, ends)
              ]
          | inr (inl (n, q)) ↦ ground arith
          | inr (inr q) ↦ ground arith
        ]
        | inr (inl (n, r)) ↦ ground arith
        | inr (inr r) ↦ ground arith
      ]

  -- A message that was sent and stands in front is handled, and the loop goes on behind it.
  pub recv_loop-message :
      (fuel : ℕ) (part : List ℕ) (parts : List (List ℕ)) (io : Mbuf) (rest : List ℕ) (type : ℕ)
      (state next : S)
      → length (part ∷ parts) ≤ max_multipart_opt
      → io.bytes ≡ multipart_bytes (part ∷ parts) ++ rest
      → (type_of (part ++ (crlf ++ (multipart_bytes parts ++ (rest ++ io.behind)))) type == 0)
        ≡ false
      → handle state (parts_in (part ∷ parts) (rest ++ io.behind)) ≡ done next
      → recv_loop mbuf_remove handle (suc fuel) io type state
        ≡ recv_loop mbuf_remove handle fuel
            (mbuf_remove (length (multipart_bytes (part ∷ parts))) io)
            (type_of (part ++ (crlf ++ (multipart_bytes parts ++ (rest ++ io.behind)))) type)
            next
  unfolding recv_loop
  recv_loop-message fuel part parts io rest type state next h e known handled =
      let in_front : io
          ≡ record { bytes = multipart_bytes (part ∷ parts) ++ rest; behind = io.behind } =
        ap (λ b. record io { bytes = b }) e in
      let parsed =
        ap (λ i. parse_multipart_msg i type) in_front
        ∙ parse_multipart_msg-bytes part parts rest (io.behind) type h in
      rw parsed (rw known (rw handled refl))

  -- A message that the handler does not survive.
  pub recv_loop-fault :
      (fuel : ℕ) (part : List ℕ) (parts : List (List ℕ)) (io : Mbuf) (rest : List ℕ) (type : ℕ)
      (state : S)
      → length (part ∷ parts) ≤ max_multipart_opt
      → io.bytes ≡ multipart_bytes (part ∷ parts) ++ rest
      → (type_of (part ++ (crlf ++ (multipart_bytes parts ++ (rest ++ io.behind)))) type == 0)
        ≡ false
      → handle state (parts_in (part ∷ parts) (rest ++ io.behind)) ≡ fault
      → recv_loop mbuf_remove handle (suc fuel) io type state ≡ fault
  unfolding recv_loop
  recv_loop-fault fuel part parts io rest type state h e known crashed =
      let in_front : io
          ≡ record { bytes = multipart_bytes (part ∷ parts) ++ rest; behind = io.behind } =
        ap (λ b. record io { bytes = b }) e in
      let parsed =
        ap (λ i. parse_multipart_msg i type) in_front
        ∙ parse_multipart_msg-bytes part parts rest (io.behind) type h in
      rw parsed (rw known (rw crashed refl))

  recv_loop-none :
      (left : Mbuf) (part : List ℕ) (parts : List (List ℕ)) (behind : List ℕ)
      → length part < 1000
      → left ≡ record { bytes = []; behind = multipart_bytes (part ∷ parts) ++ behind }
      → (fuel type : ℕ) (state : S)
      → recv_loop mbuf_remove handle (suc fuel) left type state ≡ done (some (state, left))
  unfolding recv_loop
  recv_loop-none left part parts behind small e fuel type state =
      let nothing =
        ap (λ i. parse_multipart_msg i type) e ∙ parse-nothing part parts behind type small in
      rw nothing refl

  -- A message with nothing behind it is handled, and the loop returns.
  pub recv_loop-last :
      Moves mbuf_remove
      → (fuel : ℕ) (part : List ℕ) (parts : List (List ℕ)) (io : Mbuf) (type : ℕ) (state next : S)
      → length part < 1000
      → length (part ∷ parts) ≤ max_multipart_opt
      → io.bytes ≡ multipart_bytes (part ∷ parts)
      → (type_of (part ++ (crlf ++ (multipart_bytes parts ++ io.behind))) type == 0) ≡ false
      → handle state (parts_in (part ∷ parts) (io.behind)) ≡ done next
      → (left : Mbuf) × (left.bytes ≡ [])
        × (recv_loop mbuf_remove handle (suc (suc fuel)) io type state ≡ done (some (next, left)))
  recv_loop-last moves fuel part parts io type state next small few e known handled =
      let bytes = multipart_bytes (part ∷ parts) in
      let left = mbuf_remove (length bytes) io in
      let whole = e ∙ sym (append-nil bytes) in
      let room : length bytes ≤ length (io.bytes) = omega (arith, ap length e) in
      let all : length (io.bytes) - length bytes ≡ 0 = omega (arith, ap length e) in
      let moved =
        moves (length bytes) io room
        ∙ ap₂ (λ b m. record { bytes = b; behind = m })
            (ap (drop (length bytes)) whole ∙ drop_append_n (length bytes) bytes [] refl)
            (ap (λ n. drop n (memory io)) all ∙ ap (λ b. b ++ io.behind) e) in
      let step =
        recv_loop-message (suc fuel) part parts io [] type state next few whole known handled in
      (
        left,
        removed mbuf_remove (Moves-Removes moves) bytes [] io whole,
        step
            ∙ recv_loop-none left part parts (io.behind) small moved fuel
                (type_of (part ++ (crlf ++ (multipart_bytes parts ++ io.behind))) type) next,
      )
