-- ===== src/FlashCfg/Layout.antt =====
-- Where the fields lie.
use jklibs.Common.{
  ℕ, ◌+◌, ◌≤◌, ◌<◌, ◌≡◌, refl, Bool, true, ◌&&◌, List, [], ◌∷◌, leb, ltb, arith, if◌then◌else◌,
}
use jklibs.FlashCfg.{offset_index, max_space}
use jklibs.FlashCfg.Params.{Param, all_params, data_len, index, mac}

all_of : (Param → Bool) → List Param → Bool
all_of test [] = true
all_of test (p ∷ ps) = test p && all_of test ps

-- A test that every entry of the table passes holds for every parameter.
all_of-index : (test : Param → Bool) (p : Param) → all_of test all_params ≡ true → test p ≡ true
unfolding all_of
all_of-index test mac h = ground arith
all_of-index test p h = ground arith

-- The address of a parameter's field.
abbrev pub field_start : Param → ℕ
field_start p = offset_index (index p)

abbrev apart : Param → Param → Bool
apart p q =
    (if ltb (index p) (index q) then leb (field_start p + data_len p) (field_start q) else true)
    && leb (field_start p + data_len p) max_space

apart_table : all_of (λ p. all_of (apart p) all_params) all_params ≡ true
unfolding all_of offset_index
apart_table = refl

apart_all : (p q : Param) → apart p q ≡ true
apart_all p q =
    all_of-index (apart p) q (all_of-index (λ p. all_of (apart p) all_params) p apart_table)

pub fields_apart :
    (p q : Param)
    → (index p < index q → field_start p + data_len p ≤ field_start q)
      × (field_start p + data_len p ≤ max_space)
fields_apart p q = (λ h. ground (arith, apart_all p q), ground (arith, apart_all p q))

-- The fields follow one another without overlap in the order of the enumeration, and end below
-- MAX_SPACE.
pub fields_in_order :
    (p q : Param)
    → index p < index q
    → (field_start p + data_len p ≤ field_start q) × (field_start q + data_len q ≤ max_space)
fields_in_order p q h = ((fields_apart p q).0 h, (fields_apart q p).1)
