-- ===== src/FlashCfg/Memory.antt =====
-- Reads of the flash after a write.
use jklibs.Common.{
  ℕ, zero, suc, ◌+◌, ◌-◌, ◌≤◌, ◌<◌, ◌≡◌, refl, ◌∙◌, ap, ap₂, ◌⊎◌, inl, inr, List, [], ◌∷◌, ◌++◌,
  arith, ◌==◌, if◌then◌else◌, length, take, replicate, take_all,
}
use jklibs.Common.Text.{NoNul, until_nul}
use jklibs.FlashCfg.{read_bytes, write_bytes, value_buffer, cfg_data_len_max}

pub write_bytes_other :
    (flash : ℕ → ℕ) (at : ℕ) (bs : List ℕ) (a : ℕ)
    → (a < at) ⊎ (at + length bs ≤ a)
    → write_bytes flash at bs a ≡ flash a
unfolding write_bytes
write_bytes_other flash at [] a h = refl
write_bytes_other flash at (b ∷ bs) a h =
    ground (arith, write_bytes_other (λ x. if x == at then b else flash x) (at + 1) bs a)

pub read-write :
    (flash : ℕ → ℕ) (at : ℕ) (bs : List ℕ)
    → read_bytes (write_bytes flash at bs) at (length bs) ≡ bs
unfolding read_bytes write_bytes
read-write flash at [] = refl
read-write flash at (b ∷ bs) =
    let put = λ (x : ℕ). if x == at then b else flash x in
    ap₂ ◌∷◌ (write_bytes_other put (at + 1) bs at (inl (omega arith)) ∙ ground arith)
      (read-write put (at + 1) bs)

pub read_bytes_ext :
    (f g : ℕ → ℕ) (at n : ℕ)
    → ((a : ℕ) → at ≤ a → a < at + n → f a ≡ g a)
    → read_bytes f at n ≡ read_bytes g at n
unfolding read_bytes
read_bytes_ext f g at zero h = refl
read_bytes_ext f g at (suc n) h =
    ap₂ ◌∷◌ (h at (omega arith) (omega arith))
      (read_bytes_ext f g (at + 1) n (λ a p q. h a (omega arith) (omega arith)))

-- A write leaves the bytes before it and behind it alone.
pub read-write_apart :
    (flash : ℕ → ℕ) (at : ℕ) (bs : List ℕ) (from n : ℕ)
    → (from + n ≤ at) ⊎ (at + length bs ≤ from)
    → read_bytes (write_bytes flash at bs) from n ≡ read_bytes flash from n
read-write_apart flash at bs from n h =
    read_bytes_ext _ _ from n (λ a p q. write_bytes_other flash at bs a (side a p q h))
  where
    side :
        (a : ℕ)
        → from ≤ a
        → a < from + n
        → (from + n ≤ at) ⊎ (at + length bs ≤ from)
        → (a < at) ⊎ (at + length bs ≤ a)
    side a p q (inl h) = inl (omega arith)
    side a p q (inr h) = inr (omega arith)

pub until_nul-field : (s : List ℕ) (k : ℕ) → NoNul s → until_nul (s ++ replicate k 0) ≡ s
until_nul-field [] zero h = refl
until_nul-field [] (suc k) h = refl
until_nul-field (c ∷ s) k h = ground (arith, until_nul-field s k h.1)

take-replicate : (n k : ℕ) → n ≤ k → take n (replicate {A = ℕ} k 0) ≡ replicate n 0
take-replicate zero k h = refl
take-replicate (suc n) zero h = absurd (omega arith)
take-replicate (suc n) (suc k) h = ap (λ s. 0 ∷ s) (take-replicate n k (omega arith))

take_padded :
    (s : List ℕ) (n k r : ℕ)
    → n ≡ length s + r
    → r ≤ k
    → take n (s ++ replicate k 0) ≡ s ++ replicate r 0
take_padded [] n k r e h = let e' : n ≡ r = omega arith in rw e' (take-replicate r k h)
take_padded (c ∷ s) zero k r e h = absurd (omega arith)
take_padded (c ∷ s) (suc n) k r e h = ap (λ t. c ∷ t) (take_padded s n k r (omega arith) h)

-- The bytes of a field that are written for a text that fits it.
pub field_bytes :
    (s : List ℕ) (n : ℕ)
    → length s ≤ n
    → n ≤ cfg_data_len_max
    → take n (value_buffer s) ≡ s ++ replicate (n - length s) 0
unfolding value_buffer
field_bytes s n h m =
    rw (take_all s cfg_data_len_max (omega arith))
      (take_padded s n _ (n - length s) (omega arith) (omega arith))

pub read_back :
    (flash : ℕ → ℕ) (at n : ℕ) (bs : List ℕ)
    → length bs ≡ n
    → read_bytes (write_bytes flash at bs) at n ≡ bs
read_back flash at n bs e = rw (← e) (read-write flash at bs)
