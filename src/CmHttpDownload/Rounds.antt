-- ===== src/CmHttpDownload/Rounds.antt =====
-- Reading a number of bytes, in rounds of the size of the buffer.
use jklibs.Common.{
  take-drop, ℕ, zero, suc, ◌+◌, ◌-◌, ◌≤◌, ◌<◌, ◌≡◌, refl, sym, ap, ◌∙◌, true, false, List, [], ◌∷◌,
  ◌++◌, Option, none, some, arith, leb→le, Bool-cases, inl, inr, length-take, length-drop, ltb, leb,
  length, take, drop, min, length-append, append_assoc, take_append_n, drop_append_n,
}
use jklibs.Common.Outcome.{Outcome, done}
use jklibs.CmHttpDownload.{Http, recv_buf}
use jklibs.CmHttpDownload.Receive.{save_data, save_to, read_rounds}

-- What a file that may not be open yet holds.
abbrev pub content : Option (List ℕ) → List ℕ
content none = []
content (some s) = s

save_to-opens :
    (info : Http) (bytes : List ℕ) (o : Option (List ℕ))
    → save_to true info bytes o ≡ done (record info { saved = some (content o ++ bytes) })
save_to-opens info bytes none = refl
save_to-opens info bytes (some old) = refl

save_data-opens :
    (info : Http) (bytes : List ℕ)
    → save_data true info bytes ≡ done (record info { saved = some (content info.saved ++ bytes) })
unfolding save_data
save_data-opens info bytes = save_to-opens info bytes info.saved

-- The object behind a full round.
abbrev after_round : Http → List ℕ → List ℕ → Http
after_round info x s = record info {
  buffer = x ++ drop (length x) info.buffer;
  input = s;
  saved = some (content info.saved ++ x);
  recv_data_len = info.recv_data_len + length x;
}

-- The object with its input written out.
pub with_input : (info : Http) (s : List ℕ) → info.input ≡ s → info ≡ record info { input = s }
with_input info s e = ap (λ i. record info { input = i }) e

one_round :
    (fuel t : ℕ) (info : Http) (x s : List ℕ)
    → length x ≡ min (suc t) recv_buf
    → read_rounds (suc fuel) true (record info { input = x ++ s }) (suc t)
      ≡ read_rounds fuel true (after_round info x s) (suc t - length x)
unfolding read_rounds
one_round fuel t info x s n =
    let room : ltb (length (x ++ s)) (length x) ≡ false = ground (arith, length-append x s) in
    let taken = take_append_n (length x) x s refl in
    let dropped = drop_append_n (length x) x s refl in
    let full : Http = record info { buffer = x ++ drop (length x) info.buffer; input = s } in
    rw (← n, room, taken, dropped, save_data-opens full x) refl

-- What a read has done: the bytes are saved behind what was saved before, and `s` is still to come.
abbrev pub Reads : List ℕ → List ℕ → List ℕ → Outcome Http → Type 0
Reads old bytes s r =
    (after : Http) × (r ≡ done after) × (after.saved ≡ some (old ++ bytes)) × (after.input ≡ s)

read_rounds-zero : (fuel : ℕ) (info : Http) → read_rounds fuel true info 0 ≡ done info
unfolding read_rounds
read_rounds-zero fuel info = refl

leb-false : (a b : ℕ) → leb a b ≡ false → b < a
leb-false a b e = ground arith

-- A read of bytes that are there saves them, if the file can be opened.
pub rounds-Reads :
    (fuel : ℕ) (info : Http) (bytes s : List ℕ)
    → 1 ≤ length bytes
    → length bytes ≤ fuel
    → Reads
        (content info.saved)
        bytes
        s
        (read_rounds fuel true (record info { input = bytes ++ s }) (length bytes))
rounds-Reads fuel info [] s some_bytes enough = absurd (omega arith)
rounds-Reads zero info (c ∷ bytes) s some_bytes enough = absurd (omega arith)
rounds-Reads (suc fuel) info (c ∷ bytes) s some_bytes enough =
    elim (Bool-cases (leb (length (c ∷ bytes)) recv_buf)) [
      | inl e ↦
          let small = leb→le (suc (length bytes)) recv_buf e in
          let one = one_round fuel (length bytes) info (c ∷ bytes) s (omega arith) in
          let last = after_round info (c ∷ bytes) s in
          let none_left : suc (length bytes) - length (c ∷ bytes) ≡ 0 = omega arith in
          (
            last,
            one ∙ ap (read_rounds fuel true last) none_left ∙ read_rounds-zero fuel last,
            refl,
            refl,
          )
      | inr e ↦
          let big = leb-false (suc (length bytes)) recv_buf e in
          let x = take recv_buf (c ∷ bytes) in
          let y = drop recv_buf (c ∷ bytes) in
          let whole : x ++ y ≡ c ∷ bytes = take-drop recv_buf (c ∷ bytes) in
          let size_x : length x ≡ recv_buf = omega (arith, length-take recv_buf (c ∷ bytes)) in
          let size_y : length y ≡ suc (length bytes) - recv_buf =
            length-drop recv_buf (c ∷ bytes) in
          let one = one_round fuel (length bytes) info x (y ++ s) (omega (arith, size_x)) in
          let (after, ends, saved, input) =
            rounds-Reads fuel (after_round info x (y ++ s)) y s (omega (arith, size_y))
              (omega (arith, size_y)) in
          let text : (c ∷ bytes) ++ s ≡ x ++ (y ++ s) =
            ap (λ l. l ++ s) (sym whole) ∙ append_assoc x y s in
          let left : suc (length bytes) - length x ≡ length y = omega (arith, size_x, size_y) in
          (
            after,
            ap (λ l. read_rounds (suc fuel) true (record info { input = l }) (suc (length bytes)))
                  text
                ∙ (one ∙ (ap (read_rounds fuel true (after_round info x (y ++ s))) left ∙ ends)),
            saved
                ∙ ap some (
                    append_assoc (content info.saved) x y
                    ∙ ap (λ l. content info.saved ++ l) whole),
            input,
          )
    ]
