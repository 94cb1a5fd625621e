-- ===== src/CmHttpDownload/Tests.antt =====
-- A file fetched from a server that sends it in parts.
use jklibs.Common.{ℕ, ◌≡◌, refl, true, List, [], ◌∷◌, Option, some, arith}
use jklibs.Common.Int.{ℤ}
use jklibs.Common.Decimal.{atoi, read_digits, split_at}
use jklibs.Common.Outcome.{done}
use jklibs.Common.Stream.{fgets}
use jklibs.Common.Text.{codes}
use jklibs.CmHttpDownload.{pos, Http, no_http, strncasestr, parser_url}
use jklibs.CmHttpDownload.Header.{parse_field, parse_fields, parse_http_header}
use jklibs.CmHttpDownload.Receive.{
  save_data, read_rounds, read_data, hex_digits, strtol16, long_int, recv_chunked_response,
  recv_response,
}
use jklibs.CmHttpDownload.Download.{request, http_download}
use jklibs.CmHttpDownload.Rounds.{content}
use jklibs.CmHttpDownload.Chunks.{Part, Announces, parts_text, part_text, recv_chunked-parts}
use jklibs.CmHttpDownload.Whole.{chunked_answer}

abbrev three : Part
three = record { size_line = codes "3"; bytes = codes "abc" }

abbrev last : Part
last = record { size_line = codes "0"; bytes = [] }

three-Announces : Announces three
unfolding strtol16 hex_digits
three-Announces = record {
  one_line = (omega arith, tt);
  no_nul = (omega arith, tt);
  short = omega arith;
  small = omega arith;
  value = refl;
}

last-Announces : Announces last
unfolding strtol16 hex_digits
last-Announces = record {
  one_line = (omega arith, tt);
  no_nul = (omega arith, tt);
  short = omega arith;
  small = omega arith;
  value = refl;
}

-- The prefix of base 16, and a length that is no int.
prefixed : strtol16 (codes "0x1f\r\n") ≡ pos 31
unfolding strtol16 hex_digits
prefixed = refl

wrapped : long_int (strtol16 (codes "100000003\r\n")) ≡ pos 3
unfolding strtol16 hex_digits
wrapped = refl

abbrev waiting : Http
waiting = record no_http { input = parts_text (three ∷ []) (part_text last []) }

recv_chunked-parts_example :
    (after : Http) × (recv_chunked_response true waiting ≡ done after)
    × (content after.saved ≡ codes "abc")
    × (after.input ≡ [])
recv_chunked-parts_example =
    recv_chunked-parts waiting (three ∷ []) last [] ((three-Announces, omega arith), tt)
      last-Announces refl refl

abbrev server : List ℕ → ℤ → List ℕ → Option (List ℕ)
server host port text = some (codes "HTTP/1.1 200 OK\r\nContent-Length: 2\r\n\r\nok")

downloaded : http_download server true 1 (codes "http://a/b") ≡ done (some (codes "ok"))
unfolding http_download parser_url strncasestr split_at request parse_http_header parse_fields
    parse_field fgets atoi read_digits recv_response read_data read_rounds save_data
downloaded = refl

abbrev parts_server : List ℕ → ℤ → List ℕ → Option (List ℕ)
parts_server host port text = some (chunked_answer (parts_text (three ∷ []) (part_text last [])))
