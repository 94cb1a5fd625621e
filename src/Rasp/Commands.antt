-- ===== src/Rasp/Commands.antt =====
-- The tables of commands are one-to-one, and which commands are handled.
use jklibs.Common.{
  ℕ, ◌≡◌, ◌≢◌, ◌⊎◌, inl, inr, refl, Bool, true, false, List, [], ◌∷◌, Option, none, some, arith,
  leb, ◌≤◌, ◌==◌, if◌then◌else◌, length, not, ◌&&◌, Bool-cases, sym, ap, subst,
}
use jklibs.Rasp.Names.{cmd_table, subcmd_table, int_str, str_int}

-- KFRASP_PARSE_DATA_*, as far as messages are parsed into them.
pub data Handle : Type 0 where
  device_info common_result bind_lists_result : Handle

-- kf_rasp_generate_number, of the numbers of the command and of the subcommand.
unfoldable pub generate_number : ℕ → ℕ → ℕ
generate_number cmd subcmd =
    if cmd == 1
    then if subcmd == 1 then 3 else if subcmd == 5 then 7 else 0
    else if cmd == 2
    then if subcmd == 1 then 2 else if subcmd == 2 then 7 else 0
    else 0

-- kf_rasp_generate_handle
unfoldable pub generate_handle : ℕ → Option Handle
generate_handle num =
    if num == 2
    then some device_info
    else if (num == 5)
    then some common_result
    else if (num == 3)
    then some common_result
    else if num == 7
    then some bind_lists_result
    else none

-- What `kf_string_compare` is relied on for: it tells a text to be itself, and no two texts of
-- different lengths to be the same.
pub record Compares (same : List ℕ → List ℕ → Bool) : Type 0 where
  pub itself : (s : List ℕ) → same s s ≡ true
  pub lengths : (s t : List ℕ) → length s ≢ length t → same s t ≡ false

-- No name of the table has `k` bytes; no two names have the same number of bytes.
abbrev no_length : ℕ → List (ℕ × List ℕ) → Bool
no_length k [] = true
no_length k ((m, name) ∷ table) = not (length name == k) && no_length k table

abbrev spread : List (ℕ × List ℕ) → Bool
spread [] = true
spread ((m, name) ∷ table) = no_length (length name) table && spread table

length-int_str :
    (table : List (ℕ × List ℕ)) (k n : ℕ) (name : List ℕ)
    → no_length k table ≡ true
    → int_str table n ≡ some name
    → length name ≢ k
unfolding int_str
length-int_str [] k n name a h = absurd (ground arith)
length-int_str ((m, first) ∷ table) k n name a h = ground (arith, h, length-int_str table k n name)

-- Every name of the table fits its field.
abbrev short : List (ℕ × List ℕ) → Bool
short [] = true
short ((m, name) ∷ table) = leb (length name) 31 && short table

short-int_str :
    (table : List (ℕ × List ℕ)) (n : ℕ) (name : List ℕ)
    → short table ≡ true
    → int_str table n ≡ some name
    → length name ≤ 31
unfolding int_str
short-int_str [] n name a h = absurd (ground arith)
short-int_str ((m, first) ∷ table) n name a h = ground (arith, h, short-int_str table n name)

pub length-subcmd_name :
    (n : ℕ) (name : List ℕ) → int_str subcmd_table n ≡ some name → length name ≤ 31
length-subcmd_name n name h = short-int_str subcmd_table n name refl h

module _ (same : List ℕ → List ℕ → Bool) (compares : Compares same) where
  str_int-int_str :
      (table : List (ℕ × List ℕ)) (n : ℕ) (name : List ℕ)
      → spread table ≡ true
      → int_str table n ≡ some name
      → str_int same table name ≡ n
  unfolding int_str str_int
  str_int-int_str [] n name a h = absurd (ground arith)
  str_int-int_str ((m, first) ∷ table) n name a h = elim (Bool-cases (n == m)) [
    | inl e ↦
        let found : first ≡ name = ground arith in
        let it : same name first ≡ true =
          subst (λ t. same t first ≡ true) found (compares.itself first) in
        rw it (ground arith)
    | inr e ↦
        let later : int_str table n ≡ some name = rw (sym h, e) refl in
        let apart = length-int_str table (length first) n name (ground arith) later in
        rw (compares.lengths name first apart) (str_int-int_str table n name (ground arith) later)
  ]

  -- The number that is read from the name of a command, or of a subcommand, is its number.
  pub str_int-names :
      (n m : ℕ) (name subname : List ℕ)
      → int_str cmd_table n ≡ some name
      → int_str subcmd_table m ≡ some subname
      → (str_int same cmd_table name ≡ n) × (str_int same subcmd_table subname ≡ m)
  str_int-names n m name subname h k =
      (str_int-int_str cmd_table n name refl h, str_int-int_str subcmd_table m subname refl k)

number-cases :
    (cmd subcmd : ℕ)
    → let n = generate_number cmd subcmd in (n ≡ 0) ⊎ ((n ≡ 2) ⊎ ((n ≡ 3) ⊎ (n ≡ 7)))
unfolding generate_number
number-cases cmd subcmd = ground arith

-- Whatever number a message is given, it is 0 or has a handle.
pub handled :
    (cmd subcmd : ℕ)
    → (generate_number cmd subcmd ≡ 0)
      ⊎ ((h : Handle) × (generate_handle (generate_number cmd subcmd) ≡ some h))
unfolding generate_handle
handled cmd subcmd = elim (number-cases cmd subcmd) [
  | inl e ↦ inl e
  | inr (inl e) ↦ inr (device_info, ap generate_handle e)
  | inr (inr (inl e)) ↦ inr (common_result, ap generate_handle e)
  | inr (inr (inr e)) ↦ inr (bind_lists_result, ap generate_handle e)
]
