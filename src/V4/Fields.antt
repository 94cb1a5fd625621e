-- ===== src/V4/Fields.antt =====
-- What the two header bytes of v4.c keep, and what they lose.
use jklibs.Common.{
  ℕ, zero, suc, ◌<◌, ◌≡◌, ◌∙◌, refl, Bool, true, false, ◌&&◌, arith, ◌==◌, ==_iff, if◌then◌else◌,
}
use Prim.Native.Nat.{bit_or}
use jklibs.Common.Bits.{passes, passes-lt}
use jklibs.V4.{Header, first_byte, second_byte, read_header}

abbrev pub header : ℕ → ℕ → ℕ → ℕ → Header
header v c a n = record { version = v; crypt = c; ack = a; length = n }

abbrev crypt_read : ℕ → ℕ → ℕ
crypt_read c a = if a == 0 then c else bit_or c 1

-- Do version and crypt come back from the first byte, with no acknowledgement?
abbrev first_reads : Bool → ℕ → ℕ → ℕ → Bool
first_reads signed a v c =
    let h = read_header signed (first_byte (header v c a 0)) 0 in
    (h.version == v) && ((h.crypt == crypt_read c a) && (h.ack == 0))

first_table : (signed : Bool) → passes (λ v. passes (first_reads signed 0 v) 4) 16 ≡ true
unfolding passes read_header first_byte
first_table true = refl
first_table false = refl

first_table_ack : (signed : Bool) → passes (λ v. passes (first_reads signed 1 v) 4) 16 ≡ true
unfolding passes read_header first_byte
first_table_ack true = refl
first_table_ack false = refl

second_table :
    (signed : Bool) → passes (λ n. (read_header signed 0 (second_byte n)).length == n) 128 ≡ true
unfolding passes read_header second_byte
second_table true = refl
second_table false = refl

Header_ext :
    (g h : Header)
    → g.version ≡ h.version
    → g.crypt ≡ h.crypt
    → g.ack ≡ h.ack
    → g.length ≡ h.length
    → g ≡ h
Header_ext g h p q r s = λ i. record { version = p i; crypt = q i; ack = r i; length = s i }

-- The three parts of the check, at the first byte `b`.
first_parts :
    (signed : Bool) (a v c : ℕ)
    → first_reads signed a v c ≡ true
    → let h = read_header signed (first_byte (header v c a 0)) 0 in
      (h.version ≡ v) × (h.crypt ≡ crypt_read c a) × (h.ack ≡ 0)
first_parts signed a v c e = ground arith

length_part : (signed : Bool) (n : ℕ) → n < 128 → (read_header signed 0 (second_byte n)).length ≡ n
length_part signed n h = (==_iff _ n).0 (passes-lt _ 128 (second_table signed) h)

-- The first byte and the header read from it look at one byte each.
parts_meet :
    (signed : Bool) (b0 b1 : ℕ)
    → let h = read_header signed b0 b1 in
      let g = read_header signed b0 0 in
      (h.version ≡ g.version)
      × (h.crypt ≡ g.crypt)
      × (h.ack ≡ g.ack)
      × (h.length ≡ (read_header signed 0 b1).length)
unfolding read_header
parts_meet signed b0 b1 = (refl, refl, refl, refl)

read_clear :
    (signed : Bool) (v c n : ℕ)
    → v < 16
    → c < 4
    → n < 128
    → read_header signed (first_byte (header v c 0 0)) (second_byte n) ≡ header v c 0 n
read_clear signed v c n hv hc hn =
    let b0 = first_byte (header v c 0 0) in
    let m = parts_meet signed b0 (second_byte n) in
    let f = first_parts signed 0 v c (passes-lt _ 4 (passes-lt _ 16 (first_table signed) hv) hc) in
    Header_ext _ _ (m.0 ∙ f.0) (m.1 ∙ f.1) (m.2 ∙ f.2) (m.3 ∙ length_part signed n hn)

read_acked :
    (signed : Bool) (v c n : ℕ)
    → v < 16
    → c < 4
    → n < 128
    → read_header signed (first_byte (header v c 1 0)) (second_byte n) ≡ header v (bit_or c 1) 0 n
read_acked signed v c n hv hc hn =
    let b0 = first_byte (header v c 1 0) in
    let m = parts_meet signed b0 (second_byte n) in
    let f =
      first_parts signed 1 v c (passes-lt _ 4 (passes-lt _ 16 (first_table_ack signed) hv) hc) in
    Header_ext _ _ (m.0 ∙ f.0) (m.1 ∙ f.1) (m.2 ∙ f.2) (m.3 ∙ length_part signed n hn)

first_byte-ack : (v c a n : ℕ) → first_byte (header v c (suc a) n) ≡ first_byte (header v c 1 0)
unfolding first_byte
first_byte-ack v c a n = rw (ack_set a)
  where
    ack_set : (a : ℕ) → (suc a == 0) ≡ false
    ack_set a = ground arith

first_byte-no_ack : (v c n : ℕ) → first_byte (header v c 0 n) ≡ first_byte (header v c 0 0)
unfolding first_byte
first_byte-no_ack v c n = refl

-- Version, crypt and a length below 128 come back from the two bytes; the acknowledgement comes
-- back as 0 whatever was set, and if it was set the lowest bit of crypt comes back as 1.
pub read_header-bytes :
    (signed : Bool) (v c a n : ℕ)
    → v < 16
    → c < 4
    → n < 128
    → read_header signed (first_byte (header v c a n)) (second_byte n)
      ≡ header v (if a == 0 then c else bit_or c 1) 0 n
read_header-bytes signed v c zero n hv hc hn =
    rw (first_byte-no_ack v c n) (read_clear signed v c n hv hc hn)
read_header-bytes signed v c (suc a) n hv hc hn =
    rw (first_byte-ack v c a n) (ground (arith, read_acked signed v c n hv hc hn))
