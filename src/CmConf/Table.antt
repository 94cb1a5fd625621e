-- ===== src/CmConf/Table.antt =====
-- The table as a map from keys to values.
use jklibs.Common.{
  ℕ, zero, suc, ◌+◌, ◌≤◌, ◌<◌, ◌≡◌, refl, sym, ap, ◌∙◌, false, List, [], ◌∷◌, some, arith, leb,
  ◌==◌, if◌then◌else◌, length, Bool-cases, inl, inr,
}
use jklibs.Common.Outcome.{Outcome, done}
use jklibs.Common.Text.{same_text, same_text-eq}
use jklibs.CmConf.{Config, config_value, config_set_value}

-- The number of entries after `cm_config_set_value` has returned the index `i`.
abbrev pub count_after : ℕ → ℕ → ℕ
count_after max i = if i == max then max + 1 else max

-- What a call of cm_config_set_value has done to the table, whichever key is looked up.
abbrev pub Sets : List Config → ℕ → List ℕ → List ℕ → Outcome (ℕ × List Config) → Type 0
Sets conf max key value r =
    (i : ℕ) × (after : List Config) × (r ≡ done (i, after))
    × (i ≤ max)
    × ((other : List ℕ)
        → config_value after (count_after max i) other
          ≡ (if same_text key other then done (some value) else config_value conf max other))

count_after-suc : (max i : ℕ) → count_after (suc max) (suc i) ≡ suc (count_after max i)
count_after-suc max i = ground arith

count_after-zero : (max : ℕ) → count_after (suc max) 0 ≡ suc max
count_after-zero max = ground arith

-- Behind an entry with another key.
value-behind :
    (c : Config) (conf after : List Config) (max n : ℕ) (key value other : List ℕ)
    → same_text c.key key ≡ false
    → config_value after n other
      ≡ (if same_text key other then done (some value) else config_value conf max other)
    → config_value (c ∷ after) (suc n) other
      ≡ (if same_text key other then done (some value) else config_value (c ∷ conf) (suc max) other)
unfolding config_value
value-behind c conf after max n key value other e found = elim (Bool-cases (same_text key other)) [
  | inl t ↦
      let same = same_text-eq key other t in
      let differ : same_text c.key other ≡ false = rw (sym same) e in
      rw (t, differ) (found ∙ rw t refl)
  | inr t ↦ elim (Bool-cases (same_text c.key other)) [
    | inl u ↦ rw (t, u) refl
    | inr u ↦ rw (t, u) (found ∙ rw t refl)
  ]
]

-- At the entry that is overwritten.
value-over :
    (c : Config) (conf : List Config) (max : ℕ) (key value other : List ℕ)
    → c.key ≡ key
    → config_value (record c { value = value } ∷ conf) (suc max) other
      ≡ (if same_text key other then done (some value) else config_value (c ∷ conf) (suc max) other)
unfolding config_value
value-over c conf max key value other same =
    rw same (elim (Bool-cases (same_text key other)) [ inl t ↦ rw t refl | inr t ↦ rw t refl ])

-- A value is found under the key it was set for, every other key has what it had before, and a new
-- key takes one more entry; the array must have room for that, and the texts fit their arrays.
pub config_value-set :
    (conf : List Config) (max : ℕ) (key value : List ℕ)
    → max < length conf
    → length key < 32
    → length value < 256
    → Sets conf max key value (config_set_value conf max key value)
unfolding config_value config_set_value
config_value-set [] max key value r k v = absurd (omega arith)
config_value-set (c ∷ conf) zero key value r k v =
    let key_fits : leb 32 (length key) ≡ false = ground arith in
    let value_fits : leb 256 (length value) ≡ false = ground arith in
    (
      0,
      record { key = key; value = value } ∷ conf,
      rw (key_fits, value_fits) refl,
      omega arith,
      λ other. refl,
    )
config_value-set (c ∷ conf) (suc max) key value r k v =
    let value_fits : leb 256 (length value) ≡ false = ground arith in
    elim (Bool-cases (same_text c.key key)) [
      | inl e ↦
          let same = same_text-eq c.key key e in
          (
            0,
            record c { value = value } ∷ conf,
            rw (e, value_fits) refl,
            omega arith,
            λ other.
                ap (λ n. config_value (record c { value = value } ∷ conf) n other)
                  (count_after-zero max)
                ∙ value-over c conf max key value other same,
          )
      | inr e ↦
          let (i, after, ends, small, found) =
            config_value-set conf max key value (omega arith) k v in
          (
            suc i,
            c ∷ after,
            rw (e, ends) refl,
            omega arith,
            λ other.
                ap (λ n. config_value (c ∷ after) n other) (count_after-suc max i)
                ∙ value-behind c conf after max (count_after max i) key value other e (found other),
          )
    ]
