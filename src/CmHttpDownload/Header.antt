-- ===== src/CmHttpDownload/Header.antt =====
-- parse_http_header of common/cm_http_download.c.
use jklibs.Common.{
  ℕ, zero, suc, ◌+◌, Bool, true, false, List, [], ◌∷◌, ◌++◌, Option, none, some, if◌then◌else◌,
  length, take, drop,
}
use jklibs.Common.Decimal.{atoi, split_at}
use jklibs.Common.Outcome.{Outcome, done, err, fault, ◌>>=◌}
use jklibs.Common.Stream.{fgets}
use jklibs.Common.Text.{codes, same_text, until_nul}
use jklibs.CmHttpDownload.{Http, strncasestr}

-- fgets into the buffer: at the end of the input it is left alone, and the result is NULL.
abbrev pub fill_buffer : Http → List ℕ × List ℕ → Http × Bool
fill_buffer info ([], rest) = (info, false)
fill_buffer info (c ∷ line, rest) = (
  record info {
    input = rest;
    buffer = (c ∷ line) ++ (0 ∷ drop (length (c ∷ line) + 1) info.buffer);
  },
  true,
)

abbrev pub read_line : Http → Http × Bool
read_line info = fill_buffer info (fgets 8191 info.input)

-- What the buffer holds as a text.
abbrev pub text_in : Http → List ℕ
text_in info = until_nul info.buffer

-- p = strchr(p, ':') + 2, which must not lie behind the end of the text.
abbrev pub field_value : List ℕ → Outcome (List ℕ)
field_value p = elim (split_at b':' p) [
  | none ↦ fault
  | some r ↦ elim (r.1) [ [] ↦ fault | c ∷ s ↦ done s ]
]

-- A line of the header: the object, or -1 for an encoding that is not supported.
unfoldable pub parse_field : Http → List ℕ → Outcome Http
parse_field info line = elim (strncasestr line (codes "Content-length")) [
  | some p ↦ field_value p >>= λ v. done (record info { len = atoi v })
  | none ↦ elim (strncasestr line (codes "Transfer-Encoding")) [
    | some p ↦ elim (strncasestr line (codes "chunked")) [
      | some q ↦ done (record info { chunked_flag = true })
      | none ↦ err 1
    ]
    | none ↦ elim (strncasestr line (codes "Location")) [
      | some p ↦ field_value p >>= λ v. done (record info { location = take 2047 v })
      | none ↦ done info
    ]
  ]
]

-- The loop over the lines, each of which takes a byte at least of the input.
unfoldable pub parse_fields : ℕ → Http → Outcome Http
parse_fields zero info = err 1
parse_fields (suc n) info =
    let (next, read) = read_line info in
    let rest = parse_field next (text_in next) >>= parse_fields n in
    if read then if same_text (text_in next) (13 ∷ (10 ∷ [])) then done next else rest else err 1

-- The first line: its status.
abbrev pub parse_status : Http → Option (List ℕ × List ℕ) → Option (List ℕ) → Outcome Http
parse_status info (some r) (some p) = done (record info { status_code = atoi (r.1) })
parse_status info _ _ = err 1

-- parse_http_header. If the input is empty, the buffer still holds the request.
unfoldable pub parse_http_header : Http → Outcome Http
parse_http_header info =
    let first = (read_line info).0 in
    let line = text_in first in
    parse_status first (split_at b' ' line) (strncasestr line (codes "HTTP"))
    >>= parse_fields (suc (length info.input))
