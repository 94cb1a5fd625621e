-- ===== src/CmWs/Heads.antt =====
-- The head of a frame is read as it was written.
use jklibs.Common.{
  ℕ, suc, ◌+◌, ◌*◌, ◌/◌, ◌%◌, ◌≤◌, ◌<◌, ◌≡◌, refl, sym, ap, ◌∙◌, Bool, true, false, Bool-cases, inl,
  inr, List, [], ◌∷◌, ◌++◌, arith, ltb, leb, ◌==◌, if◌then◌else◌, length, take_append_n,
  drop_append_n, append_assoc, take_all,
}
use jklibs.Common.Int.{pos}
use jklibs.CmWs.Frame.{FrameHeader, plain_head, generate_frame_head}
use jklibs.CmWs.Read.{
  Conn, HeadRead, recv_from, recv_simple, unless_read, read_mask, read_length, request_read,
}

-- `reads` reads from the number `t` on give all the bytes asked for, where these are at most four.
abbrev pub Whole : (ℕ → ℕ → ℕ) → ℕ → ℕ → Type 0
Whole grant t reads = (s n : ℕ) → t ≤ s → s < t + reads → 1 ≤ n → n ≤ 4 → grant s n ≡ n

-- The reads of a head behind its first two bytes: the long length, and the mask.
abbrev pub tail_reads : ℕ → Bool → ℕ
tail_reads len m = (if ltb len 126 then 0 else 1) + (if m then 1 else 0)

-- The connection after a read of all but `rest`.
abbrev pub behind : Conn → List ℕ → Conn
behind conn rest = record conn { input = rest; reads = suc (conn.reads) }

pub recv_simple-bytes :
    (grant : ℕ → ℕ → ℕ) (conn : Conn) (n : ℕ) (b : ℕ) (bytes rest : List ℕ)
    → grant (conn.reads) n ≡ n
    → conn.input ≡ (b ∷ bytes) ++ rest
    → length (b ∷ bytes) ≡ n
    → recv_simple grant conn n ≡ record { ret = pos n; got = b ∷ bytes; conn = behind conn rest }
unfolding recv_simple recv_from
recv_simple-bytes grant conn n b bytes rest g e l =
    let taken = take_append_n n (b ∷ bytes) rest l in
    let left = drop_append_n n (b ∷ bytes) rest l in
    ap (recv_from grant conn n) e
    ∙ rw g (
        rw (taken, left)
          (ap (λ k. record { ret = pos k; got = b ∷ bytes; conn = behind conn rest }) l))

abbrev pub short_len : ℕ → ℕ
short_len len = if ltb len 126 then len else 126

abbrev pub long_len : ℕ → List ℕ
long_len len = if ltb len 126 then [] else len / 256 % 256 ∷ (len % 256 ∷ [])

-- The head of a frame with a payload of less than 65536 bytes, as the protocol has it.
abbrev pub head_text : ℕ → Bool → ℕ → List ℕ → List ℕ
head_text b0 m len key =
    b0 ∷ ((short_len len + (if m then 128 else 0)) ∷ (long_len len ++ (if m then key else [])))

pub generate_frame_head-text :
    (header : FrameHeader) (fresh : List ℕ)
    → header.payload_length < 65535
    → length (header.masking_key) ≡ 4
    → generate_frame_head header fresh
      ≡ head_text 129 (header.mask) (header.payload_length) (header.masking_key)
unfolding generate_frame_head plain_head
generate_frame_head-text header fresh h four =
    let key = take_all (header.masking_key) 4 (omega (arith, four)) in
    let fits : ltb (header.payload_length) 65535 ≡ true = ground arith in
    elim (Bool-cases (header.mask)) [
      | inl m ↦ elim (Bool-cases (ltb (header.payload_length) 126)) [
        | inl small ↦ rw (m, small, key) refl
        | inr large ↦ rw (m, large, fits, key) refl
      ]
      | inr m ↦ elim (Bool-cases (ltb (header.payload_length) 126)) [
        | inl small ↦ rw (m, small) (ap (λ l. 129 ∷ (l ∷ [])) (omega arith))
        | inr large ↦ rw (m, large, fits) refl
      ]
    ]

top_bit : (m : Bool) (s : ℕ) → s < 127 → leb 128 (s + (if m then 128 else 0)) ≡ m
top_bit true s h = ground arith
top_bit false s h = ground arith

low_bits : (m : Bool) (s : ℕ) → s < 127 → (s + (if m then 128 else 0)) % 128 ≡ s
low_bits true s h = omega arith
low_bits false s h = omega arith

short_len-lt : (len : ℕ) → short_len len < 127
short_len-lt len = ground arith

-- What is left of a head's reading: the results of the last read, and the rest of the bytes.
abbrev pub Reads : HeadRead → FrameHeader → List ℕ → Type 0
Reads r head rest = (k : ℕ) × (r.ret ≡ pos (suc k)) × (r.head ≡ head) × (r.conn.input ≡ rest)

module _ (grant : ℕ → ℕ → ℕ) (fresh : List ℕ) where
  read_mask-Reads :
      (head : FrameHeader) (conn : Conn) (n : ℕ) (key rest : List ℕ)
      → Whole grant (conn.reads) (if head.mask then 1 else 0)
      → length key ≡ 4
      → conn.input ≡ (if head.mask then key else []) ++ rest
      → Reads (read_mask grant fresh head conn (suc n)) head rest
  unfolding read_mask unless_read
  read_mask-Reads head conn n [] rest whole four e = absurd (omega (arith, four))
  read_mask-Reads head conn n (b ∷ key) rest whole four e = elim (Bool-cases (head.mask)) [
    | inl m ↦
        let there : conn.input ≡ (b ∷ key) ++ rest = rw m at e in
        rw m (
          rw
            (recv_simple-bytes grant conn 4 b key rest
              (whole (conn.reads) 4 (omega arith) (ground (arith, m)) (omega arith) (omega arith))
              there four)
            (3, refl, refl, refl))
    | inr m ↦ let there : conn.input ≡ rest = rw m at e in rw m (n, refl, refl, there)
  ]

  read_length-Reads :
      (head : FrameHeader) (conn : Conn) (n len : ℕ) (key rest : List ℕ)
      → len < 65536
      → head.payload_length ≡ short_len len
      → Whole grant (conn.reads) (tail_reads len (head.mask))
      → length key ≡ 4
      → conn.input ≡ long_len len ++ ((if head.mask then key else []) ++ rest)
      → Reads
          (read_length grant fresh head conn (suc n))
          (record head { payload_length = len })
          rest
  unfolding read_length unless_read
  read_length-Reads head conn n len key rest h p whole four e = elim (Bool-cases (ltb len 126)) [
    | inl small ↦
        let length_is : head.payload_length ≡ len = ground arith in
        let there : conn.input ≡ (if head.mask then key else []) ++ rest = rw small at e in
        let other : (head.payload_length == 126) ≡ false = ground arith in
        let smaller : (head.payload_length == 127) ≡ false = ground arith in
        let (k, ret, same, left) =
          read_mask-Reads head conn n key rest
            (λ s n low high. whole s n low (ground (arith, small, high))) four there in
        rw (other, smaller)
          (k, ret, same ∙ ap (λ l. record head { payload_length = l }) length_is, left)
    | inr large ↦
        let length_is : head.payload_length ≡ 126 = ground arith in
        let two = len / 256 % 256 ∷ (len % 256 ∷ []) in
        let there : conn.input ≡ two ++ ((if head.mask then key else []) ++ rest) = rw large at e in
        let got =
          recv_simple-bytes grant conn 2 (len / 256 % 256) (len % 256 ∷ [])
            ((if head.mask then key else []) ++ rest)
            (whole (conn.reads) 2 (omega arith) (ground (arith, large)) (omega arith) (omega arith))
            there refl in
        let value : len / 256 % 256 * 256 + len % 256 ≡ len = omega arith in
        let is_two : (head.payload_length == 126) ≡ true = ground arith in
        let read : FrameHeader = record head {
          payload_length = len / 256 % 256 * 256 + len % 256;
        } in
        let after = behind conn ((if head.mask then key else []) ++ rest) in
        let (k, ret, same, left) =
          read_mask-Reads read after 1 key rest
            (λ s n low high. whole s n (omega (arith, low)) (ground (arith, large, high))) four
            refl in
        rw (is_two, got) (k, ret, same ∙ ap (λ l. record head { payload_length = l }) value, left)
  ]

  -- A head with a payload of less than 65536 bytes is read off the connection, and says what was written; the mask is
  -- read and not kept.
  pub request_read-head :
      (conn : Conn) (head : FrameHeader) (b0 len : ℕ) (m : Bool) (key rest : List ℕ)
      → Whole grant (conn.reads) (2 + tail_reads len m)
      → len < 65536
      → length key ≡ 4
      → conn.input ≡ head_text b0 m len key ++ rest
      → Reads
          (request_read grant fresh conn head)
          (record head { fin = leb 128 b0; opcode = b0 % 16; mask = m; payload_length = len })
          rest
  unfolding request_read unless_read
  request_read-head conn head b0 len m key rest whole h four e =
      let tail = long_len len ++ ((if m then key else []) ++ rest) in
      let b1 = short_len len + (if m then 128 else 0) in
      let there : conn.input ≡ (b0 ∷ []) ++ (b1 ∷ tail) =
        e ∙ ap (λ t. b0 ∷ (b1 ∷ t)) (append_assoc (long_len len) (if m then key else []) rest) in
      let first =
        recv_simple-bytes grant conn 1 b0 [] (b1 ∷ tail)
          (whole (conn.reads) 1 (omega arith) (omega arith) (omega arith) (omega arith)) there
          refl in
      let after = behind conn (b1 ∷ tail) in
      let second =
        recv_simple-bytes grant after 1 b1 [] tail
          (whole (suc (conn.reads)) 1 (omega arith) (omega arith) (omega arith) (omega arith)) refl
          refl in
      let masked : leb 128 b1 ≡ m = top_bit m (short_len len) (short_len-lt len) in
      let value : b1 % 128 ≡ short_len len = low_bits m (short_len len) (short_len-lt len) in
      let read : FrameHeader = record head {
        fin = leb 128 b0;
        opcode = b0 % 16;
        mask = leb 128 b1;
        payload_length = b1 % 128;
      } in
      let (k, ret, same, left) =
        read_length-Reads read (behind after tail) 0 len key rest h value
          (λ s n low high.
            whole s n (omega (arith, low)) (omega (arith, high, ap (tail_reads len) masked)))
          four (ap (λ m. long_len len ++ ((if m then key else []) ++ rest)) (sym masked)) in
      rw (first, second)
        (k, ret, same ∙ ap (λ m. record read { mask = m; payload_length = len }) masked, left)
