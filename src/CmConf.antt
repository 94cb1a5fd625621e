-- ===== src/CmConf.antt =====
-- common/cm_conf.c: a table of keys and values, and its file. The file is the list of its bytes,
-- none of them NUL; opening it is taken to succeed, and the text that `ctime` gives is an argument.
-- An entry that fills its array has no NUL behind it: the outcome `fault`.
pub mod Table
pub mod Lines
pub mod File
mod Tests
use jklibs.Common.{
  ℕ, zero, suc, ◌+◌, Bool, true, false, ◌&&◌, ◌||◌, List, [], ◌∷◌, ◌++◌, Option, none, some, ltb,
  leb, ◌==◌, if◌then◌else◌, length, set,
}
use jklibs.Common.Decimal.{split_at}
use jklibs.Common.Outcome.{Outcome, done, err, fault, ◌>>=◌}
use jklibs.Common.Stream.{fgets}
use jklibs.Common.Text.{codes, same_text}

-- CMConfig
pub record Config : Type 0 where
  pub key : List ℕ
  pub value : List ℕ

-- cm_config_value, of an array with the entries given: NULL is `none`.
unfoldable pub config_value : List Config → ℕ → List ℕ → Outcome (Option (List ℕ))
config_value conf zero key = done none
config_value [] (suc max) key = fault
config_value (c ∷ conf) (suc max) key =
    let rest = config_value conf max key in
    if same_text c.key key then done (some c.value) else rest

abbrev pub keep_entry : Config → Outcome (ℕ × List Config) → Outcome (ℕ × List Config)
keep_entry c r = r >>= λ p. done (suc (p.0), c ∷ (p.1))

-- cm_config_set_value: the index returned, and the array. A new entry is written at index `max`.
unfoldable pub config_set_value : List Config → ℕ → List ℕ → List ℕ → Outcome (ℕ × List Config)
config_set_value [] max key value = fault
config_set_value (c ∷ conf) zero key value =
    if leb 32 (length key) || leb 256 (length value)
    then fault
    else done (0, record { key = key; value = value } ∷ conf)
config_set_value (c ∷ conf) (suc max) key value =
    let rest = keep_entry c (config_set_value conf max key value) in
    if same_text c.key key
    then if leb 256 (length value) then fault else done (0, record c { value = value } ∷ conf)
    else rest

abbrev pub is_space : ℕ → Bool
is_space c = (c == 32) || (leb 9 c && leb c 13)

unfoldable pub skip_spaces : List ℕ → List ℕ
skip_spaces [] = []
skip_spaces (c ∷ s) = let rest = skip_spaces s in if is_space c then rest else c ∷ s

unfoldable pub word : List ℕ → List ℕ
word [] = []
word (c ∷ s) = let rest = word s in if is_space c then [] else c ∷ rest

-- The entry, if both the key and the value have a byte.
abbrev pub entry : List ℕ → List ℕ → Option Config
entry [] value = none
entry (c ∷ k) [] = none
entry (c ∷ k) (d ∷ v) = some (record { key = c ∷ k; value = d ∷ v })

-- sscanf(line, "%[^=]=%s", key, value) with a key of 32 bytes: the entry, if it returns 2.
unfoldable pub scan_line : List ℕ → Outcome (Option Config)
scan_line line = elim (split_at b'=' line) [
  | none ↦ if leb 32 (length line) then fault else done none
  | some r ↦ if leb 32 (length (r.0)) then fault else done (entry (r.0) (word (skip_spaces (r.1))))
]

abbrev pub is_comment : List ℕ → Bool
is_comment [] = true
is_comment (c ∷ line) = c == b'#'

-- strncpy to conf[i]
abbrev pub store_entry : List Config → ℕ → Option Config → Outcome (ℕ × List Config)
store_entry conf i none = done (i, conf)
store_entry conf i (some c) = if ltb i (length conf) then done (i + 1, set conf i c) else fault

-- A line of the file: the number of entries afterwards, and the array.
abbrev pub read_line : List Config → ℕ → List ℕ → Outcome (ℕ × List Config)
read_line conf i line =
    if is_comment line then done (i, conf) else scan_line line >>= store_entry conf i

-- The loop of cm_config_read over the rest of the file.
unfoldable pub read_from : ℕ → ℕ → ℕ × List Config → List ℕ → Outcome (ℕ × List Config)
read_from fuel max (i, conf) [] = done (i, conf)
read_from zero max (i, conf) (c ∷ s) = fault
read_from (suc fuel) max (i, conf) (c ∷ s) =
    let (line, rest) = fgets 127 (c ∷ s) in
    let next = read_line conf i line >>= λ r. read_from fuel max r rest in
    if ltb max i then done (i, conf) else next

-- cm_config_read, into an array that holds `conf`.
unfoldable pub config_read : List Config → ℕ → List ℕ → Outcome (ℕ × List Config)
config_read conf max file = read_from (length file) max (0, conf) file

-- The entries as cm_config_write prints them.
unfoldable pub entry_lines : List Config → List ℕ
entry_lines [] = []
entry_lines (c ∷ conf) = c.key ++ (b'=' ∷ (c.value ++ (10 ∷ entry_lines conf)))

-- cm_config_write of all the entries given, with the text of `ctime`.
unfoldable pub config_write : List ℕ → List Config → List ℕ
config_write time conf = codes "# Generated by program. @ " ++ (time ++ (10 ∷ entry_lines conf))
