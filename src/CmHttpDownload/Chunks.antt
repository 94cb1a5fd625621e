-- ===== src/CmHttpDownload/Chunks.antt =====
-- An answer in parts is put together.
use jklibs.Common.{
  ℕ, zero, suc, ◌≤◌, ◌<◌, ◌^◌, ◌≡◌, refl, sym, ap, ◌∙◌, true, false, List, [], ◌∷◌, ◌++◌, some,
  arith, ltb, ◌==◌, length, length-append, append_assoc, append-nil,
}
use jklibs.Common.Int.{pos}
use jklibs.Common.Outcome.{done}
use jklibs.Common.Text.{append-NoNul, append-Lacks, Lacks, NoNul}
use jklibs.CmHttpDownload.Lines.{until_nul-text, behind_line, read_line-text}
use jklibs.CmHttpDownload.Rounds.{content, rounds-Reads, with_input}
use jklibs.CmHttpDownload.{Http}
use jklibs.CmHttpDownload.Header.{read_line, text_in}
use jklibs.CmHttpDownload.Receive.{
  read_full, read_rounds, read_data, read_two, strtol16, long_int, recv_parts,
  recv_chunked_response,
}

-- A part of an answer: the line with its length, without the line end, and its bytes.
pub record Part : Type 0 where
  pub size_line : List ℕ
  pub bytes : List ℕ

-- The line is one that fgets reads whole, and gives the number of the bytes, which is one of int.
pub record Announces (p : Part) : Type 0 where
  pub one_line : Lacks 10 p.size_line
  pub no_nul : NoNul p.size_line
  pub short : length p.size_line < 8190
  pub small : length p.bytes < 2 ^ 31
  pub value : strtol16 (p.size_line ++ (13 ∷ (10 ∷ []))) ≡ pos (length p.bytes)

-- A part as it is sent, with `rest` behind it.
abbrev pub part_text : Part → List ℕ → List ℕ
part_text p rest = p.size_line ++ (13 ∷ (10 ∷ (p.bytes ++ (13 ∷ (10 ∷ rest)))))

read_line-size :
    (info : Http) (p : Part) (rest : List ℕ)
    → Announces p
    → (read_line (record info { input = p.size_line ++ (13 ∷ (10 ∷ rest)) })).0
      ≡ behind_line info (p.size_line ++ (13 ∷ (10 ∷ []))) rest
read_line-size info p rest a =
    let line = p.size_line ++ (13 ∷ []) in
    let text : p.size_line ++ (13 ∷ (10 ∷ rest)) ≡ line ++ (10 ∷ rest) =
      sym (append_assoc p.size_line (13 ∷ []) (10 ∷ rest)) in
    let whole : line ++ (10 ∷ []) ≡ p.size_line ++ (13 ∷ (10 ∷ [])) =
      append_assoc p.size_line (13 ∷ []) (10 ∷ []) in
    let short = a.short in
    let reads =
      read_line-text info line rest
        (append-Lacks 10 p.size_line (13 ∷ []) a.one_line (omega arith, tt))
        (omega (arith, length-append p.size_line (13 ∷ []))) in
    ap (λ l. (read_line (record info { input = l })).0) text
    ∙ (ap (λ r. r.0) reads ∙ ap (λ l. behind_line info l rest) whole)

read_two-input :
    (info : Http) (rest : List ℕ)
    → info.input ≡ 13 ∷ (10 ∷ rest)
    → (next : Http) × (read_two info ≡ done next) × (next.saved ≡ info.saved) × (next.input ≡ rest)
read_two-input info rest e =
    let two : ltb (suc (suc (length rest))) 2 ≡ false = ground arith in
    (
      read_full (record info { input = 13 ∷ (10 ∷ rest) }) 2,
      ap read_two (with_input info _ e) ∙ rw two refl,
      refl,
      refl,
    )

text_in-size :
    (info : Http) (p : Part) (rest : List ℕ)
    → Announces p
    → strtol16 (text_in (behind_line info (p.size_line ++ (13 ∷ (10 ∷ []))) rest))
      ≡ pos (length p.bytes)
text_in-size info p rest a =
    let nn = append-NoNul p.size_line (13 ∷ (10 ∷ [])) a.no_nul (omega arith, (omega arith, tt)) in
    ap strtol16 (until_nul-text (p.size_line ++ (13 ∷ (10 ∷ []))) _ nn) ∙ a.value

long_int-pos : (n : ℕ) → n < 2 ^ 31 → long_int (pos n) ≡ pos n
long_int-pos n h = ground arith

-- A part that is not the last is saved, and the loop goes on.
recv_parts-part :
    (n : ℕ) (info : Http) (p : Part) (rest : List ℕ)
    → Announces p
    → 1 ≤ length p.bytes
    → (next : Http) × (recv_parts (suc n) true (record info { input = part_text p rest })
        ≡ recv_parts n true next)
      × (next.saved ≡ some (content info.saved ++ p.bytes))
      × (next.input ≡ rest)
unfolding recv_parts read_data
recv_parts-part n info p rest a full =
    let line = p.size_line ++ (13 ∷ (10 ∷ [])) in
    let behind = behind_line info line (p.bytes ++ (13 ∷ (10 ∷ rest))) in
    let (after, reads, saved, input) =
      rounds-Reads (length p.bytes) behind p.bytes (13 ∷ (10 ∷ rest)) full (omega arith) in
    let (next, two, kept, left) = read_two-input after rest input in
    let more : (length p.bytes == 0) ≡ false = ground arith in
    (
      next,
      rw
          (
            read_line-size info p (p.bytes ++ (13 ∷ (10 ∷ rest))) a,
            text_in-size info p (p.bytes ++ (13 ∷ (10 ∷ rest))) a,
            long_int-pos (length p.bytes) a.small,
            reads,
            two,
            more,
          )
          refl,
      kept ∙ saved,
      left,
    )

-- A part without bytes is the last.
recv_parts-last :
    (n : ℕ) (info : Http) (p : Part) (rest : List ℕ)
    → Announces p
    → p.bytes ≡ []
    → (next : Http) × (recv_parts (suc n) true (record info { input = part_text p rest })
        ≡ done next)
      × (next.saved ≡ info.saved)
      × (next.input ≡ rest)
unfolding recv_parts read_data read_rounds
recv_parts-last n info p rest a none_left =
    let line = p.size_line ++ (13 ∷ (10 ∷ [])) in
    let (next, two, kept, left) =
      read_two-input (behind_line info line (13 ∷ (10 ∷ rest))) rest refl in
    (
      next,
      rw
          (
            read_line-size info p (p.bytes ++ (13 ∷ (10 ∷ rest))) a,
            text_in-size info p (p.bytes ++ (13 ∷ (10 ∷ rest))) a,
            none_left,
            two,
          )
          refl,
      kept,
      left,
    )

-- The parts before the last, each with a byte at least.
abbrev pub AllAnnounce : List Part → Type 0
AllAnnounce [] = Unit {0}
AllAnnounce (p ∷ ps) = (Announces p × (1 ≤ length p.bytes)) × AllAnnounce ps

abbrev pub parts_text : List Part → List ℕ → List ℕ
parts_text [] rest = rest
parts_text (p ∷ ps) rest = part_text p (parts_text ps rest)

abbrev pub contents : List Part → List ℕ
contents [] = []
contents (p ∷ ps) = p.bytes ++ contents ps

recv_parts-all :
    (n : ℕ) (info : Http) (ps : List Part) (last : Part) (rest : List ℕ)
    → AllAnnounce ps
    → Announces last
    → last.bytes ≡ []
    → length ps < n
    → (after : Http) × (recv_parts n true
          (record info { input = parts_text ps (part_text last rest) })
        ≡ done after)
      × (content after.saved ≡ content info.saved ++ contents ps)
      × (after.input ≡ rest)
recv_parts-all zero info ps last rest all a none_left enough = absurd (omega arith)
recv_parts-all (suc n) info [] last rest all a none_left enough =
    let (next, ends, saved, left) = recv_parts-last n info last rest a none_left in
    (next, ends, ap content saved ∙ sym (append-nil (content info.saved)), left)
recv_parts-all (suc n) info (p ∷ ps) last rest all a none_left enough =
    let behind = parts_text ps (part_text last rest) in
    let (next, goes, saved, left) = recv_parts-part n info p behind (all.0.0) (all.0.1) in
    let (after, ends, more, end) =
      recv_parts-all n next ps last rest (all.1) a none_left (omega arith) in
    (
      after,
      goes ∙ (ap (recv_parts n true) (with_input next behind left) ∙ ends),
      more
          ∙ (ap (λ o. content o ++ contents ps) saved
              ∙ append_assoc (content info.saved) p.bytes (contents ps)),
      end,
    )

length-parts : (ps : List Part) (rest : List ℕ) → length ps ≤ length (parts_text ps rest)
length-parts [] rest = omega arith
length-parts (p ∷ ps) rest = omega (
  arith,
  length-parts ps rest,
  length-append p.size_line (13 ∷ (10 ∷ (p.bytes ++ (13 ∷ (10 ∷ parts_text ps rest))))),
  length-append p.bytes (13 ∷ (10 ∷ parts_text ps rest)),
)

-- An answer in parts of less than 2^31 bytes, each behind a line of less than 8190 bytes from
-- which strtol reads its length in base 16, ended by a part without bytes, is received whole: the
-- parts are saved in their order, and what follows them is left; the file can be opened.
pub recv_chunked-parts :
    (info : Http) (ps : List Part) (last : Part) (rest : List ℕ)
    → AllAnnounce ps
    → Announces last
    → last.bytes ≡ []
    → info.input ≡ parts_text ps (part_text last rest)
    → (after : Http) × (recv_chunked_response true info ≡ done after)
      × (content after.saved ≡ content info.saved ++ contents ps)
      × (after.input ≡ rest)
unfolding recv_chunked_response
recv_chunked-parts info ps last rest all a none_left text =
    let enough = length-parts ps (part_text last rest) in
    let (after, ends, saved, left) =
      recv_parts-all (suc (length info.input)) info ps last rest all a none_left
        (omega (arith, ap length text)) in
    (
      after,
      ap (recv_parts (suc (length info.input)) true) (with_input info _ text) ∙ ends,
      saved,
      left,
    )
