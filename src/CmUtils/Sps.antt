-- ===== src/CmUtils/Sps.antt =====
-- cm_codec_parse and cm_codec_parse_pps of common/cm_utils.c: the parameter sets of a video stream,
-- split at their start codes. A buffer is the list of all the bytes in its memory, of which the
-- lengths given are the first; reading or writing behind them is the outcome `fault`.
use jklibs.Common.{
  ℕ, zero, suc, ◌+◌, ◌-◌, Bool, false, ◌||◌, List, [], ◌∷◌, ◌++◌, Option, none, some, ltb, leb,
  ◌==◌, if◌then◌else◌, length, take, drop,
}
use jklibs.Common.Int.{ℤ, pos, negsuc}
use jklibs.Common.Outcome.{Outcome, done, fault, ◌>>=◌}

-- *p == 0x0 && *(p+1) == 0x0 && *(p+2) == 0x0 && *(p+3) == 0x01
abbrev pub start_code_from : ℕ → List ℕ → Outcome Bool
start_code_from n [] = fault
start_code_from zero (c ∷ s) = done (c == 1)
start_code_from (suc n) (c ∷ s) =
    let rest = start_code_from n s in if c == 0 then rest else done false

abbrev pub start_code : List ℕ → Outcome Bool
start_code s = start_code_from 3 s

-- The inner loop of cm_codec_parse with `n` rounds until `donelen + 3 >= len`, at the place `pn`
-- with the memory `s` from there on: where it finds a start code.
unfoldable pub find_start : ℕ → List ℕ → ℕ → Outcome (Option ℕ)
find_start zero s pn = done none
find_start (suc n) s pn =
    let rest = find_start n (drop 1 s) (pn + 1) in
    start_code s >>= λ found. if found then done (some pn) else rest

-- The loop of cm_codec_parse_pps, which steps by two.
unfoldable pub find_pps : ℕ → List ℕ → ℕ → Outcome ℕ
find_pps zero s pn = done 0
find_pps (suc n) s pn =
    let rest = find_pps n (drop 2 s) (pn + 2) in
    start_code s >>= λ found. if found then done pn else rest

-- cm_codec_parse_pps: the bytes stay where they are.
unfoldable pub codec_parse_pps : List ℕ → ℕ → Outcome ℕ
codec_parse_pps pps lenpps = find_pps (lenpps - 3) (drop 1 pps) 1

-- memcpy of `n` bytes.
unfoldable pub copy : List ℕ → List ℕ → ℕ → Outcome (List ℕ)
copy to from n =
    if ltb (length to) n || ltb (length from) n then fault else done (take n from ++ drop n to)

-- The two buffers with their lengths.
pub record Sets : Type 0 where
  pub sps : List ℕ
  pub lensps : ℕ
  pub pps : List ℕ
  pub lenpps : ℕ

-- The sets when a second start code is found at `pns`.
abbrev pub save_sets : List ℕ → ℕ → ℕ → ℕ → Sets → Outcome Sets
save_sets bytes len ps pns s = do
  sps ← copy s.sps (drop ps bytes) (pns - ps)
  pps ← copy s.pps (drop pns bytes) (len - (pns - ps))
  done (record { sps = sps; lensps = pns - ps; pps = pps; lenpps = len - (pns - ps) })

-- The outer loop, with the place `p` and as many rounds as `len` at most; `donelen` at the start of
-- a round, and the start of the sps so far. After a round without a second start code, `donelen`
-- has passed `len - 3`, so there is no other.
unfoldable pub split_sets : ℕ → List ℕ → ℕ → ℕ → ℕ → ℕ → Sets → Outcome Sets
split_sets zero bytes len p ps donelen s = done s
split_sets (suc n) bytes len p ps donelen s =
    let round =
      (start_code (drop p bytes) >>= λ starts.
      find_start (len - 3 - donelen) (drop (p + 4) bytes) (p + 4) >>= λ o. elim o [
        | none ↦ split_sets n bytes len (p + 1) (if starts then p else ps) (len - 3 + 1) s
        | some pns ↦ save_sets bytes len (if starts then p else ps) pns s
      ]) in
    if leb len (donelen + 3) then done s else round

-- cm_codec_parse of pointers that are not NULL: the sets, and what is returned.
unfoldable pub codec_parse : List ℕ → ℕ → Sets → Outcome (Sets × ℤ)
codec_parse bytes len s =
    if len == 0
    then done (s, negsuc 0)
    else (split_sets len bytes len 0 0 0 s >>= λ s.
        codec_parse_pps s.pps s.lenpps >>= λ n. done (record s { lenpps = n }, pos 0))
