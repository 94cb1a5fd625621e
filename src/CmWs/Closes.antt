-- ===== src/CmWs/Closes.antt =====
-- Reading a head leaves open whether the peer closes.
use jklibs.Common.{
  ℕ, ◌≡◌, refl, ◌∙◌, Bool, true, false, List, [], ◌∷◌, ◌==◌, if◌then◌else◌, Bool-cases, inl, inr,
}
use jklibs.Common.Int.{ℤ, pos, negsuc}
use jklibs.CmWs.Frame.{FrameHeader}
use jklibs.CmWs.Read.{
  Conn, Recv, HeadRead, unless_read, read_mask, read_length, recv_from, recv_simple, request_read,
}

recv_from-closes :
    (grant : ℕ → ℕ → ℕ) (conn : Conn) (n : ℕ) (input : List ℕ)
    → (recv_from grant conn n input).conn.closes ≡ conn.closes
unfolding recv_from
recv_from-closes grant conn n [] = elim (Bool-cases (conn.closes)) [
  | inl c ↦ rw c refl
  | inr c ↦ rw c refl
]
recv_from-closes grant conn n (b ∷ input) = refl

recv_simple-closes :
    (grant : ℕ → ℕ → ℕ) (conn : Conn) (n : ℕ) → (recv_simple grant conn n).conn.closes ≡ conn.closes
unfolding recv_simple
recv_simple-closes grant conn n = recv_from-closes grant conn n (conn.input)

unless_read-closes :
    (r : Recv) (z code : ℤ) (head : FrameHeader) (next : ℕ → HeadRead) (c : Bool)
    → r.ret ≡ z
    → r.conn.closes ≡ c
    → ((n : ℕ) → (next n).conn.closes ≡ c)
    → (unless_read r code head next).conn.closes ≡ c
unfolding unless_read
unless_read-closes r (negsuc n) code head next c e here there = rw e here
unless_read-closes r (pos n) code head next c e here there = elim (Bool-cases (n == 0)) [
  | inl none_read ↦ rw (e, none_read) here
  | inr one ↦ rw (e, one) (there n)
]

either-closes :
    (b : Bool) (x y : HeadRead) (c : Bool)
    → x.conn.closes ≡ c
    → y.conn.closes ≡ c
    → (if b then x else y).conn.closes ≡ c
either-closes true x y c here there = here
either-closes false x y c here there = there

-- The reading of a head never closes the connection's input.
module _ (grant : ℕ → ℕ → ℕ) (fresh : List ℕ) where
  unless_recv-closes :
      (conn : Conn) (size : ℕ) (code : ℤ) (head : FrameHeader) (next : ℕ → HeadRead)
      → ((n : ℕ) → (next n).conn.closes ≡ conn.closes)
      → (unless_read (recv_simple grant conn size) code head next).conn.closes ≡ conn.closes
  unless_recv-closes conn size code head next there =
      unless_read-closes (recv_simple grant conn size) ((recv_simple grant conn size).ret) code head
        next (conn.closes) refl (recv_simple-closes grant conn size) there

  read_mask-closes :
      (head : FrameHeader) (conn : Conn) (n : ℕ)
      → (read_mask grant fresh head conn n).conn.closes ≡ conn.closes
  unfolding read_mask
  read_mask-closes head conn n =
      either-closes (head.mask) _ _ (conn.closes)
        (unless_recv-closes conn 4 (negsuc 4) head _ (λ n. recv_simple-closes grant conn 4)) refl

  read_length-closes :
      (head : FrameHeader) (conn : Conn) (n : ℕ)
      → (read_length grant fresh head conn n).conn.closes ≡ conn.closes
  unfolding read_length
  read_length-closes head conn n =
      let next = λ (size : ℕ) (h : FrameHeader) (n : ℕ).
        (read_mask-closes h ((recv_simple grant conn size).conn) n
          ∙ recv_simple-closes grant conn size) in
      elim (Bool-cases (head.payload_length == 126)) [
        | inl two ↦ rw two (unless_recv-closes conn 2 (negsuc 2) head _ (next 2 _))
        | inr other ↦ elim (Bool-cases (head.payload_length == 127)) [
          | inl eight ↦ rw (other, eight) (unless_recv-closes conn 8 (negsuc 3) head _ (next 8 _))
          | inr short ↦ rw (other, short) (read_mask-closes head conn n)
        ]
      ]

  pub request_read-closes :
      (conn : Conn) (head : FrameHeader)
      → (request_read grant fresh conn head).conn.closes ≡ conn.closes
  unfolding request_read
  request_read-closes conn head =
      let first = recv_simple grant conn 1 in
      let second = recv_simple grant (first.conn) 1 in
      let one = recv_simple-closes grant conn 1 in
      unless_recv-closes conn 1 (negsuc 0) head _ (λ n.
        unless_recv-closes (first.conn) 1 (negsuc 1) _ _
          (λ n. read_length-closes _ (second.conn) n ∙ recv_simple-closes grant (first.conn) 1)
        ∙ one)
