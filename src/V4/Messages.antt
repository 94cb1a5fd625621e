-- ===== src/V4/Messages.antt =====
-- Whole messages of v4.c: `to_bytes`, then `parse`.
use jklibs.Common.{
  ℕ, zero, suc, ◌+◌, ◌-◌, ◌%◌, ◌^◌, ◌≤◌, ◌<◌, ◌≡◌, refl, Bool, true, false, ◌&&◌, ◌||◌, List, ◌∷◌,
  ◌++◌, some, arith, leb, ltb, length, take, drop, replicate, not, ltb→lt, drop_all, take_all,
  length-take, length-drop, length-replicate, append-nil,
}
use jklibs.Common.Outcome.{done, fault, ◌>>=◌}
use jklibs.Common.Bits.{passes, passes-lt}
use jklibs.V4.{
  Header, JkProV4, first_byte, second_byte, read_header, widen, size_of_int, memcpy, calloc,
  to_bytes, parse, store,
}
use jklibs.V4.Fields.{header, read_header-bytes}

size_of_int_small : (n : ℕ) → n < 2 ^ 31 → size_of_int n ≡ n
unfolding size_of_int
size_of_int_small n h = ground arith

memcpy-done :
    (dst src : List ℕ) (at n : ℕ)
    → n ≤ length src
    → at + n ≤ length dst
    → memcpy dst at (some src) n ≡ done (take at dst ++ (take n src ++ drop (at + n) dst))
unfolding memcpy
memcpy-done dst src at n hs hd = ground arith

memcpy_over :
    (dst src : List ℕ) (at n : ℕ) → length dst < at + n → memcpy dst at (some src) n ≡ fault
unfolding memcpy
memcpy_over dst src at n h = ground arith

pad_zeros : (n : ℕ) → n ≤ 4 → drop (0 + n) (replicate {A = ℕ} 4 0) ≡ replicate (4 - n) 0
pad_zeros zero h = refl
pad_zeros (suc zero) h = refl
pad_zeros (suc (suc zero)) h = refl
pad_zeros (suc (suc (suc zero))) h = refl
pad_zeros (suc (suc (suc (suc zero)))) h = refl
pad_zeros (suc (suc (suc (suc (suc n))))) h = absurd (omega arith)

-- Is the length of byte `b` past the check of the parser, and over 4 if `b` is?
abbrev unchecked : Bool → ℕ → Bool
unchecked signed b =
    let n = (read_header signed 0 b).length in
    not (leb (2 ^ 30) n && ltb n (2 ^ 31)) && (ltb b 5 || leb 5 (size_of_int n))

unchecked_table : (signed : Bool) → passes (unchecked signed) 256 ≡ true
unfolding passes read_header size_of_int widen
unchecked_table true = refl
unchecked_table false = refl

-- The length depends on the second byte alone.
length_of_second :
    (signed : Bool) (b0 b1 : ℕ)
    → (read_header signed b0 b1).length ≡ (read_header signed 0 b1).length
unfolding read_header
length_of_second signed b0 b1 = refl

never_checked :
    (signed : Bool) (b0 b1 : ℕ)
    → b1 < 256
    → let n = (read_header signed b0 b1).length in (leb (2 ^ 30) n && ltb n (2 ^ 31)) ≡ false
never_checked signed b0 b1 h =
    rw (length_of_second signed b0 b1) (ground (arith, passes-lt _ 256 (unchecked_table signed) h))

long_length :
    (signed : Bool) (b0 b1 : ℕ)
    → 5 ≤ b1
    → b1 < 256
    → 5 ≤ size_of_int (read_header signed b0 b1).length
long_length signed b0 b1 lo h =
    rw (length_of_second signed b0 b1) (ground (arith, passes-lt _ 256 (unchecked_table signed) h))

second_byte_table : passes (λ n. ltb (second_byte n) 256) 5 ≡ true
unfolding passes second_byte
second_byte_table = refl

second_byte-lt : (n : ℕ) → n ≤ 4 → second_byte n < 256
second_byte-lt n h = ltb→lt _ _ (passes-lt _ 5 second_byte_table (omega arith))

module _ (grants : ℕ → Bool) where
  calloc-done : (n code : ℕ) → grants n ≡ true → calloc grants n code ≡ done (replicate n 0)
  unfolding calloc
  calloc-done n code h = rw h

  -- A body of at least `length` bytes is sent behind the two header bytes, if `calloc` grants
  -- the memory.
  pub to_bytes-done :
      (h : Header) (text : List ℕ)
      → h.length + 2 < 2 ^ 31
      → h.length ≤ length text
      → grants (h.length + 2) ≡ true
      → to_bytes grants (record { header = h; body = some text })
        ≡ done (first_byte h ∷ second_byte h.length ∷ take h.length text)
  unfolding to_bytes
  to_bytes-done h text small fits g =
      let n = h.length in
      let room = replicate {A = ℕ} (n + 2) 0 in
      let fresh : length room ≡ n + 2 = length-replicate (n + 2) 0 in
      let bytes = first_byte h ∷ (second_byte n ∷ drop 2 room) in
      let size : length bytes ≡ 2 + n = omega (arith, length-drop 2 room) in
      let wrapped : (n + 2) % 2 ^ 32 ≡ n + 2 = omega arith in
      let enough : ltb (length room) 2 ≡ false = ground arith in
      rw
        (
          wrapped,
          size_of_int_small (n + 2) (omega arith),
          calloc-done (n + 2) 2 g,
          enough,
          size_of_int_small n (omega arith),
          memcpy-done bytes text 2 n fits (omega arith),
          drop_all bytes (2 + n) (omega arith),
          append-nil (take n text),
        )
        refl

  -- The parsed length, whatever its byte is, passes the check on it, and the body is copied.
  parse-unchecked :
      (signed : Bool) (v : JkProV4) (b0 b1 : ℕ) (rest : List ℕ)
      → b1 < 256
      → parse grants signed v (b0 ∷ (b1 ∷ rest)) ≡ (
          let h = read_header signed b0 b1 in
          store h
            (calloc grants 4 4 >>= λ fresh. memcpy fresh 0 (some rest) (size_of_int h.length)))
  unfolding parse
  parse-unchecked signed v b0 b1 rest hb = rw (never_checked signed b0 b1 hb)

  -- A length byte of 5 or more makes the parser write past the four bytes that it has allocated
  -- for the body, whatever follows.
  pub parse_overflow :
      (signed : Bool) (v : JkProV4) (b0 b1 : ℕ) (rest : List ℕ)
      → 5 ≤ b1
      → b1 < 256
      → grants 4 ≡ true
      → (parse grants signed v (b0 ∷ (b1 ∷ rest))).1 ≡ fault
  parse_overflow signed v b0 b1 rest lo hi g =
      let h = read_header signed b0 b1 in
      rw
        (
          parse-unchecked signed v b0 b1 rest hi,
          calloc-done 4 4 g,
          memcpy_over (replicate 4 0) rest 0 (size_of_int h.length)
              (omega (arith, long_length signed b0 b1 lo hi)),
        )
        refl

  -- A message with version below 16, crypt below 4, no acknowledgement and at most four body
  -- bytes comes back from its bytes as it was sent, the body padded with zeros to four bytes,
  -- whatever the receiver held before, if the memory is granted.
  pub parse-to_bytes :
      (signed : Bool) (old : JkProV4) (v c n : ℕ) (text : List ℕ)
      → v < 16
      → c < 4
      → n ≤ 4
      → n ≤ length text
      → grants (n + 2) ≡ true
      → grants 4 ≡ true
      → (out : List ℕ) × (to_bytes grants (record { header = header v c 0 n; body = some text })
          ≡ done out)
        × (parse grants signed old out ≡ (
          record { header = header v c 0 n; body = some (take n text ++ replicate (4 - n) 0) },
          done tt,
        ))
  parse-to_bytes signed old v c n text hv hc hn fits g2 g4 = (
    first_byte h ∷ (second_byte n ∷ take n text),
    to_bytes-done h text (omega arith) fits g2,
    rw
        (
          parse-unchecked signed old (first_byte h) (second_byte n) (take n text)
              (second_byte-lt n hn),
          read_header-bytes signed v c 0 n hv hc (omega arith),
          calloc-done 4 4 g4,
          size_of_int_small n (omega arith),
          memcpy-done (replicate 4 0) (take n text) 0 n (omega (arith, length-take n text))
              (omega arith),
          take_all (take n text) n (omega (arith, length-take n text)),
          pad_zeros n hn,
        )
        refl,
  )
    where
      h : Header
      h = header v c 0 n
