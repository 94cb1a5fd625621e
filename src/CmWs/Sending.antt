-- ===== src/CmWs/Sending.antt =====
-- All the bytes of a request are sent, however few a call takes.
use jklibs.Common.{
  ℕ, zero, suc, ◌-◌, ◌≤◌, ◌≡◌, refl, sym, ap, ◌∙◌, false, Bool-cases, inl, inr, List, [], ◌∷◌, ◌++◌,
  some, arith, ◌==◌, ==_iff, if◌then◌else◌, length, take, drop, length-drop, take-drop, append-nil,
  append_assoc, min,
}
use jklibs.Common.Int.{ℤ, pos}
use jklibs.CmWs.Send.{send_rounds, tcp_send}

-- A call sends at least a byte, and no more than it was given.
abbrev pub Sends : (ℕ → ℕ → ℤ) → Type 0
Sends send = (t n : ℕ) → 1 ≤ n → (out : ℕ) × (send t n ≡ pos out) × (1 ≤ out) × (out ≤ n)

no_bytes : (data_ : List ℕ) → length data_ ≡ 0 → data_ ≡ []
no_bytes [] h = refl
no_bytes (b ∷ data_) h = absurd (omega (arith, h))

min-pos : (m n : ℕ) → 1 ≤ m → 1 ≤ n → (1 ≤ min m n) × (min m n ≤ m)
min-pos m n hm hn = (ground arith, ground arith)

send_rounds-round :
    (send : ℕ → ℕ → ℤ) (fuel calls size out : ℕ) (data_ wire : List ℕ)
    → send calls (min (length data_) size) ≡ pos out
    → send_rounds send (suc fuel) calls size data_ wire ≡ (
        if length (drop out data_) == 0
        then some (pos (length (wire ++ take out data_)), wire ++ take out data_)
        else send_rounds send fuel
            (suc calls)
            (min (length data_) size)
            (drop out data_)
            (wire ++ take out data_))
unfolding send_rounds
send_rounds-round send fuel calls size out data_ wire e = rw (send_rounds, e) refl

pub send_rounds-all :
    (send : ℕ → ℕ → ℤ)
    → Sends send
    → (fuel calls size : ℕ) (data_ wire : List ℕ) → 1 ≤ size
    → 1 ≤ length data_
    → length data_ ≤ fuel
    → send_rounds send fuel calls size data_ wire
      ≡ some (pos (length (wire ++ data_)), wire ++ data_)
send_rounds-all send sends zero calls size data_ wire s one h = absurd (omega arith)
send_rounds-all send sends (suc fuel) calls size data_ wire s one h =
    let n = min (length data_) size in
    let bounds = min-pos (length data_) size one s in
    let (out, e, low, high) = sends calls n (bounds.0) in
    let left : length (drop out data_) ≡ length data_ - out =
      omega (arith, length-drop out data_) in
    let whole : (wire ++ take out data_) ++ drop out data_ ≡ wire ++ data_ =
      append_assoc wire (take out data_) (drop out data_)
      ∙ ap (λ t. wire ++ t) (take-drop out data_) in
    send_rounds-round send fuel calls size out data_ wire e
    ∙ elim (Bool-cases (length (drop out data_) == 0)) [
      | inl last ↦
          let empty = no_bytes (drop out data_) ((==_iff (length (drop out data_)) 0).0 last) in
          let all : wire ++ take out data_ ≡ wire ++ data_ =
            sym (append-nil (wire ++ take out data_))
            ∙ (ap (λ t. (wire ++ take out data_) ++ t) (sym empty) ∙ whole) in
          rw last (ap (λ t. some (pos (length t), t)) all)
      | inr more ↦
          let some_left : 1 ≤ length (drop out data_) = ground arith in
          rw more (
            send_rounds-all send sends fuel (suc calls) n (drop out data_) (wire ++ take out data_)
              (bounds.0) some_left (omega (arith, left, low, h))
            ∙ ap (λ t. some (pos (length t), t)) whole)
    ]

pub tcp_send-all :
    (send : ℕ → ℕ → ℤ)
    → Sends send
    → (fuel : ℕ) (data_ : List ℕ) → 1 ≤ length data_
    → length data_ ≤ fuel
    → tcp_send send fuel data_ ≡ some (pos (length data_), data_)
unfolding tcp_send
tcp_send-all send sends fuel data_ one h =
    let more : (length data_ == 0) ≡ false = ground arith in
    rw more (send_rounds-all send sends fuel 0 20480 data_ [] (omega arith) one h)
