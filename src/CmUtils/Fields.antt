-- ===== src/CmUtils/Fields.antt =====
-- Texts taken apart by common/cm_utils.c: cm_parse_data_string, cm_clear_parenthesis,
-- cm_remove_space and cm_remove_last_break. Lengths are not negative and pointers not NULL.
use jklibs.Common.{
  ℕ, zero, suc, ◌+◌, ◌-◌, not, ◌&&◌, ◌||◌, List, [], ◌∷◌, ◌++◌, Option, none, some, ◌==◌,
  if◌then◌else◌, length, take, drop, min,
}
use jklibs.Common.Decimal.{split_at}
use jklibs.Common.Outcome.{Outcome, done, err, fault, ◌>>=◌}

-- How often the sign stands in the text.
unfoldable pub count_sign : ℕ → List ℕ → ℕ
count_sign sign [] = 0
count_sign sign (c ∷ s) = let rest = count_sign sign s in if c == sign then suc rest else rest

-- The inner loop of cm_parse_data_string, with `n` bytes left in the field: the field, and the place
-- where it stops.
unfoldable pub copy_field : ℕ → ℕ → List ℕ → List ℕ × List ℕ
copy_field zero sign s = ([], s)
copy_field (suc n) sign [] = ([], [])
copy_field (suc n) sign (c ∷ s) =
    let r = copy_field n sign s in if (n == 0) || (c == sign) then ([], c ∷ s) else (c ∷ (r.0), r.1)

-- The place behind the next sign, or NULL.
abbrev pub behind_sign : ℕ → List ℕ → Option (List ℕ)
behind_sign sign s = elim (split_at sign s) [ none ↦ none | some r ↦ some (r.1) ]

-- The outer loop, of `n` rounds from the place `pos`: fields of no bytes leave it where it is.
unfoldable pub fields_from : ℕ → ℕ → ℕ → Option (List ℕ) → Outcome (List (List ℕ))
fields_from zero arrsize sign pos = done []
fields_from (suc n) arrsize sign none = fault
fields_from (suc n) arrsize sign (some s) =
    let (field, stop) = copy_field arrsize sign s in
    fields_from n arrsize sign (if arrsize == 0 then some s else behind_sign sign stop) >>= λ rest.
    done (field ∷ rest)

-- cm_parse_data_string: the fields, the number of which is returned.
unfoldable pub parse_data_string : List ℕ → ℕ → ℕ → ℕ → Outcome (List (List ℕ))
parse_data_string string arrsize maxlen sign =
    let signs = count_sign sign string in
    let fields = fields_from (min maxlen (signs + 1)) arrsize sign (some string) in
    if signs == 0 then err 2 else fields

-- cm_clear_parenthesis: what is copied to `save`, whose bytes behind it stay. The loop ends at the
-- first ")", or after as many bytes as the text has; it starts behind an opening "(".
unfoldable pub copy_inner : ℕ → List ℕ → List ℕ → List ℕ
copy_inner zero test s = []
copy_inner (suc n) [] s = []
copy_inner (suc n) (c ∷ test) s =
    let rest = copy_inner n test (drop 1 s) in if c == b')' then [] else take 1 s ++ rest

abbrev pub last_byte : List ℕ → ℕ
last_byte [] = 0
last_byte (c ∷ []) = c
last_byte (c ∷ (d ∷ s)) = last_byte (d ∷ s)

unfoldable pub clear_parenthesis : List ℕ → Outcome (List ℕ)
clear_parenthesis [] = fault
clear_parenthesis (c ∷ s) =
    if not (c == b'(') && not (last_byte (c ∷ s) == b')')
    then err 2
    else done (copy_inner (length (c ∷ s)) (c ∷ s) (if c == b'(' then s else c ∷ s))

-- The end of the text without the spaces and line ends behind it.
unfoldable pub trim_end : List ℕ → List ℕ
trim_end [] = []
trim_end (c ∷ s) = elim (trim_end s) [
  | [] ↦ if (c == 32) || (c == 10) then [] else c ∷ []
  | d ∷ t ↦ c ∷ (d ∷ t)
]

unfoldable pub leading_spaces : List ℕ → ℕ
leading_spaces [] = 0
leading_spaces (c ∷ s) = let rest = leading_spaces s in if c == 32 then suc rest else 0

-- cm_remove_space. A text of spaces only is read in front of its start. The loop that moves the
-- bytes to the front ends where the untrimmed text had its last byte.
unfoldable pub remove_space : List ℕ → Outcome (List ℕ)
remove_space s =
    let t = trim_end s in
    let n = leading_spaces t in
    if length t == 0
    then fault
    else if n == 0
    then done t
    else done (take (length s - 1 - n) (drop n t))

-- cm_remove_last_break
unfoldable pub remove_last_break : List ℕ → Outcome (List ℕ)
remove_last_break [] = fault
remove_last_break (c ∷ s) =
    if last_byte (c ∷ s) == 10 then done (take (length s) (c ∷ s)) else done (c ∷ s)
