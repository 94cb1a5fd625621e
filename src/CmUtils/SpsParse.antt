-- ===== src/CmUtils/SpsParse.antt =====
-- The parameter sets that cm_codec_parse finds.
use jklibs.Common.{
  ℕ, zero, suc, ◌+◌, ◌-◌, ◌*◌, ◌≤◌, ◌<◌, ◌≡◌, refl, sym, ap, ◌∙◌, false, List, [], ◌∷◌, ◌++◌, some,
  arith, ltb, leb, ◌==◌, length, take, drop, length-append, take_append_n, drop_append_n,
  append_assoc, append-nil,
}
use jklibs.Common.Int.{pos}
use jklibs.Common.Outcome.{done}
use jklibs.Common.Text.{NoNul}
use jklibs.CmUtils.Sps.{
  Sets, start_code, find_start, find_pps, codec_parse_pps, copy, save_sets, split_sets, codec_parse,
}

-- A set behind its start code.
abbrev pub coded : List ℕ → List ℕ → List ℕ
coded a rest = 0 ∷ (0 ∷ (0 ∷ (1 ∷ (a ++ rest))))

no_start : (c : ℕ) (s : List ℕ) → 1 ≤ c → start_code (c ∷ s) ≡ done false
no_start c s h = let e : (c == 0) ≡ false = ground arith in rw e refl

find_start-coded :
    (a rest : List ℕ) (n pn : ℕ)
    → NoNul a
    → length a < n
    → find_start n (a ++ coded [] rest) pn ≡ done (some (pn + length a))
unfolding find_start
find_start-coded a rest zero pn nn h = absurd (omega arith)
find_start-coded [] rest (suc n) pn nn h = ap (λ m. done (some m)) (omega arith)
find_start-coded (c ∷ a) rest (suc n) pn nn h =
    let later = find_start-coded a rest n (pn + 1) (nn.1) (omega arith) in
    rw (no_start c (a ++ coded [] rest) (nn.0), later) (ap (λ m. done (some m)) (omega arith))

find_pps-coded :
    (k n pn : ℕ) (b rest : List ℕ)
    → NoNul b
    → length b ≡ 2 * k
    → k < n
    → find_pps n (b ++ coded [] rest) pn ≡ done (pn + 2 * k)
unfolding find_pps
find_pps-coded k zero pn b rest nn l h = absurd (omega arith)
find_pps-coded zero (suc n) pn [] rest nn l h = ap done (omega arith)
find_pps-coded (suc k) (suc n) pn [] rest nn l h = absurd (omega arith)
find_pps-coded zero (suc n) pn (c ∷ b) rest nn l h = absurd (omega arith)
find_pps-coded (suc k) (suc n) pn (c ∷ []) rest nn l h = absurd (omega arith)
find_pps-coded (suc k) (suc n) pn (c ∷ (d ∷ b)) rest nn l h =
    let later = find_pps-coded k n (pn + 2) b rest (nn.1.1) (omega arith) (omega arith) in
    rw (no_start c (d ∷ (b ++ coded [] rest)) (nn.0), later) (ap done (omega arith))

parse_pps-coded :
    (k : ℕ) (b rest : List ℕ) (lenpps : ℕ)
    → NoNul b
    → length b ≡ 2 * k + 1
    → length b + 8 ≤ lenpps
    → codec_parse_pps (coded b (coded [] rest)) lenpps ≡ done (length b + 4)
unfolding codec_parse_pps
parse_pps-coded k [] rest lenpps nn l h = absurd (omega arith)
parse_pps-coded k (c ∷ b) rest lenpps nn l h =
    let rounds : lenpps - 3 ≡ suc (suc (lenpps - 5)) = omega arith in
    let later = find_pps-coded k (lenpps - 5) 5 b rest (nn.1) (omega arith) (omega arith) in
    rw rounds (unfold find_pps in later ∙ ap done (omega arith))

-- memcpy of the bytes `from` out of memory that goes on with `behind`.
copy-prefix :
    (to from behind : List ℕ) (n : ℕ)
    → length from ≡ n
    → n ≤ length to
    → copy to (from ++ behind) n ≡ done (from ++ drop n to)
unfolding copy
copy-prefix to from behind n e h =
    let room : ltb (length to) n ≡ false = ground arith in
    let there : ltb (length (from ++ behind)) n ≡ false =
      ground (arith, length-append from behind) in
    rw (room, there, take_append_n n from behind e) refl

length-coded : (a rest : List ℕ) → length (coded a rest) ≡ length a + 4 + length rest
length-coded a rest = omega (arith, length-append a rest)

-- The first set, for the memory that both buffers need.
abbrev first_split : List ℕ → List ℕ → Sets → Sets
first_split a rest s = record {
  sps = coded a (drop (length a + 4) s.sps);
  lensps = length a + 4;
  pps = rest ++ drop (length rest) s.pps;
  lenpps = length rest;
}

save_sets-coded :
    (a rest : List ℕ) (len : ℕ) (s : Sets)
    → len ≡ length a + 4 + length rest
    → length a + 4 ≤ length s.sps
    → length rest ≤ length s.pps
    → save_sets (coded a rest) len 0 (4 + length a) s ≡ done (first_split a rest s)
save_sets-coded a rest len s l room_sps room_pps =
    let n : 4 + length a - 0 ≡ length a + 4 = omega arith in
    let m : len - (length a + 4) ≡ length rest = omega arith in
    let head = 0 ∷ (0 ∷ (0 ∷ (1 ∷ a))) in
    let front = copy-prefix s.sps head rest (length a + 4) (omega arith) (omega arith) in
    let tail : drop (4 + length a) (coded a rest) ≡ rest =
      drop_append_n (4 + length a) head rest (omega arith) in
    let back : copy s.pps rest (length rest) ≡ done (rest ++ drop (length rest) s.pps) =
      ap (λ l. copy s.pps l (length rest)) (sym (append-nil rest))
      ∙ copy-prefix s.pps rest [] (length rest) refl room_pps in
    rw (n, m, front, tail, back) refl

split_sets-coded :
    (a rest : List ℕ) (len : ℕ) (s : Sets)
    → NoNul a
    → len ≡ length a + 8 + length rest
    → length a + 4 ≤ length s.sps
    → length rest + 4 ≤ length s.pps
    → split_sets len (coded a (coded [] rest)) len 0 0 0 s ≡ done (first_split a (coded [] rest) s)
unfolding split_sets
split_sets-coded a rest zero s nn l room_sps room_pps = absurd (omega arith)
split_sets-coded a rest (suc m) s nn l room_sps room_pps =
    let long : leb (suc m) 3 ≡ false = ground arith in
    let found = find_start-coded a rest (suc m - 3 - 0) 4 nn (omega arith) in
    rw (long, found)
      (save_sets-coded a (coded [] rest) (suc m) s (omega arith) room_sps (omega arith))

-- Two sets behind start codes, and a third start code behind them, are found at a place that is odd
-- in the second: for sets without zeros, the second of an odd length, in buffers that hold what is
-- copied to them, the first buffer begins with the first set, the second with the second set, and
-- the lengths are theirs.
pub codec_parse-sets :
    (k : ℕ) (a b rest : List ℕ) (s : Sets)
    → NoNul a
    → NoNul b
    → length b ≡ 2 * k + 1
    → length a + 4 ≤ length s.sps
    → length b + 8 + length rest ≤ length s.pps
    → let bytes = coded a (coded b (coded [] rest)) in
      (after : Sets) × (codec_parse bytes (length bytes) s ≡ done (after, pos 0))
      × (take after.lensps after.sps ≡ coded a [])
      × (take after.lenpps after.pps ≡ coded b [])
unfolding codec_parse
codec_parse-sets k a b rest s na nb odd room_sps room_pps =
    let second = b ++ coded [] rest in
    let first = first_split a (coded [] second) s in
    let behind = drop (length (coded [] second)) s.pps in
    let size : length second ≡ length b + 4 + length rest =
      omega (arith, length-append b (coded [] rest)) in
    let split =
      split_sets-coded a second (length (coded a (coded [] second))) s na
        (omega (arith, length-append a (coded [] second))) room_sps (omega arith) in
    let pps : first.pps ≡ coded b (coded [] (rest ++ behind)) =
      ap (λ l. coded [] l) (append_assoc b (coded [] rest) behind) in
    let found =
      parse_pps-coded k b (rest ++ behind) (length (coded [] second)) nb odd (omega arith) in
    let parsed : codec_parse_pps first.pps first.lenpps ≡ done (length b + 4) =
      ap (λ l. codec_parse_pps l first.lenpps) pps ∙ found in
    let some_bytes : (length (coded a (coded [] second)) == 0) ≡ false = ground arith in
    let head = 0 ∷ (0 ∷ (0 ∷ (1 ∷ a))) in
    let head2 = 0 ∷ (0 ∷ (0 ∷ (1 ∷ b))) in
    (
      record first { lenpps = length b + 4 },
      rw (split, parsed, some_bytes) refl,
      take_append_n (length a + 4) head (drop (length a + 4) s.sps) (omega arith)
          ∙ sym (append-nil head),
      ap (take (length b + 4)) pps
          ∙ (take_append_n (length b + 4) head2 (coded [] (rest ++ behind)) (omega arith)
              ∙ sym (append-nil head2)),
    )
