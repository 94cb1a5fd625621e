-- ===== src/JkProtocolBin/Memory.antt =====
-- The buffer of a message: the header's text, a NUL, and the body from byte `at` on.
use jklibs.Common.{
  ℕ, zero, suc, ◌+◌, ◌<◌, ◌≡◌, refl, ap, List, [], ◌∷◌, ◌++◌, arith, ◌==◌, length, take, drop,
  replicate, length-append, length-take, length-drop, length-replicate, append_assoc, drop_append_n,
  false,
}
use jklibs.Common.Text.{NoNul, until_nul}
use jklibs.JkProtocolBin.Codec.{put}

abbrev pub buffer : ℕ → ℕ → List ℕ → List ℕ → List ℕ
buffer at n text body = put (put (replicate (at + n) 0) 0 (text ++ (0 ∷ []))) at body

-- The buffer before the body is copied.
abbrev first_part : ℕ → ℕ → List ℕ → List ℕ
first_part at n text = text ++ (0 ∷ drop (suc (length text)) (replicate {A = ℕ} (at + n) 0))

put-text :
    (at n : ℕ) (text : List ℕ)
    → put (replicate (at + n) 0) 0 (text ++ (0 ∷ [])) ≡ first_part at n text
unfolding put
put-text at n text =
    let len : 0 + length (text ++ (0 ∷ [])) ≡ suc (length text) =
      omega (arith, length-append text (0 ∷ [])) in
    rw (len, append_assoc) refl

length-first_part :
    (at n : ℕ) (text : List ℕ) → length text < at → length (first_part at n text) ≡ at + n
length-first_part at n text h = omega (
  arith,
  length-append text (0 ∷ drop (suc (length text)) (replicate {A = ℕ} (at + n) 0)),
  length-drop (suc (length text)) (replicate {A = ℕ} (at + n) 0),
  length-replicate {A = ℕ} (at + n) 0,
)

until_nul-take :
    (k : ℕ) (text r t : List ℕ)
    → NoNul text
    → length text < k
    → until_nul (take k (text ++ (0 ∷ r)) ++ t) ≡ text
until_nul-take zero text r t nn h = absurd (omega arith)
until_nul-take (suc k) [] r t nn h = refl
until_nul-take (suc k) (c ∷ text) r t nn h =
    let here : (c == 0) ≡ false = ground arith in
    rw here (ap (λ s. c ∷ s) (until_nul-take k text r t (nn.1) (omega arith)))

buffer-eq :
    (at n : ℕ) (text body : List ℕ)
    → buffer at n text body
      ≡ take at (first_part at n text) ++ (body ++ drop (at + length body) (first_part at n text))
buffer-eq at n text body = rw (put-text at n text) (unfold put in refl)

-- The header's text is read back from the buffer.
pub until_nul-buffer :
    (at n : ℕ) (text body : List ℕ)
    → NoNul text
    → length text < at
    → until_nul (buffer at n text body) ≡ text
until_nul-buffer at n text body nn h =
    rw (buffer-eq at n text body) (until_nul-take at text _ _ nn h)

-- The body stands from byte `at` on.
pub drop-buffer :
    (at n : ℕ) (text body : List ℕ)
    → length text < at
    → drop at (buffer at n text body) ≡ body ++ drop (at + length body) (first_part at n text)
drop-buffer at n text body h =
    let w = first_part at n text in
    let full : length (take at w) ≡ at =
      omega (arith, length-take at w, length-first_part at n text h) in
    rw (buffer-eq at n text body) (drop_append_n at (take at w) _ full)

pub length-buffer :
    (at n : ℕ) (text body : List ℕ)
    → length text < at
    → length body ≡ n
    → length (buffer at n text body) ≡ at + n
length-buffer at n text body h e =
    let w = first_part at n text in
    rw (buffer-eq at n text body) (
      omega (
        arith,
        length-append (take at w) (body ++ drop (at + length body) w),
        length-append body (drop (at + length body) w),
        length-take at w,
        length-drop (at + length body) w,
        length-first_part at n text h,
      ))
