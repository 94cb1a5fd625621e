-- ===== src/CmHttpDownload.antt =====
-- common/cm_http_download.c: a file fetched from a server. What the server sends until it closes is
-- the list of its bytes; a connection that times out or is interrupted is not modelled, nor a write
-- that fails. The routines that end without a return statement are taken to return something other
-- than -1. Numbers that do not fit an int are not modelled.
pub mod Header
pub mod Receive
pub mod Download
pub mod Lines
pub mod Rounds
pub mod Chunks
pub mod Url
pub mod Whole
mod Tests
use jklibs.Common.{
  ℕ, zero, suc, ◌+◌, ◌≤◌, Bool, true, false, ◌&&◌, ◌||◌, List, [], ◌∷◌, ◌++◌, Option, none, some,
  leb, ltb, ◌==◌, if◌then◌else◌, length, take, drop,
}
use jklibs.Common.Int.{ℤ, pos, negsuc, ltb_ℤ}
use jklibs.Common.Decimal.{atoi, split_at}
use jklibs.Common.Outcome.{Outcome, done, err, fault, ◌>>=◌}
use jklibs.Common.Text.{codes}

-- http_t, without the handles. `input` is what is still to come from the server, `saved` the
-- content of the file once it is open.
pub record Http : Type 0 where
  pub host_name : List ℕ
  pub port : ℤ
  pub uri : List ℕ
  pub buffer : List ℕ
  pub status_code : ℤ
  pub chunked_flag : Bool
  pub len : ℤ
  pub location : List ℕ
  pub recv_data_len : ℕ
  pub input : List ℕ
  pub saved : Option (List ℕ)

-- HOST_NAME_LEN, URI_MAX_LEN and RECV_BUF
abbrev pub host_name_len : ℕ
host_name_len = 256

abbrev pub uri_max_len : ℕ
uri_max_len = 2048

abbrev pub recv_buf : ℕ
recv_buf = 8192

-- The object of http_download after memset.
abbrev pub no_http : Http
no_http = record {
  host_name = [];
  port = pos 0;
  uri = [];
  buffer = [];
  status_code = pos 0;
  chunked_flag = false;
  len = pos 0;
  location = [];
  recv_data_len = 0;
  input = [];
  saved = none;
}

-- tolower
abbrev pub to_lower : ℕ → ℕ
to_lower c = if leb b'A' c && leb c b'Z' then c + 32 else c

-- !strncasecmp(text, sub, strlen(sub))
abbrev pub same_case : List ℕ → List ℕ → Bool
same_case [] text = true
same_case (c ∷ sub) [] = false
same_case (c ∷ sub) (d ∷ text) = (to_lower c == to_lower d) && same_case sub text

-- strncasestr of a `sub` that is not empty: the text from where it is found.
unfoldable pub strncasestr : List ℕ → List ℕ → Option (List ℕ)
strncasestr [] sub = none
strncasestr (c ∷ str) sub =
    let later = strncasestr str sub in if same_case sub (c ∷ str) then some (c ∷ str) else later

-- The start behind "http://", wherever that is found in the text.
abbrev pub skip_scheme : Option (List ℕ) → List ℕ → List ℕ
skip_scheme none url = url
skip_scheme (some p) url = drop 7 url

-- The port of "host:port", if there is one.
abbrev pub port_of : Http → List ℕ → Option (List ℕ × List ℕ) → Http × ℤ
port_of info host none = (record info { host_name = take 255 host; port = pos 80 }, pos 0)
port_of info host (some r) =
    let port = atoi (r.1) in
    if ltb_ℤ (pos 0) port && ltb_ℤ port (pos 65535)
    then (record info { host_name = take 255 (r.0); port = port }, pos 0)
    else (record info { host_name = take 255 host; port = port }, negsuc 0)

-- The path is stored if the port is good.
abbrev pub uri_of : List ℕ → Http × ℤ → Http × ℤ
uri_of uri (info, pos n) = (record info { uri = take 2047 uri }, pos n)
uri_of uri (info, negsuc n) = (info, negsuc n)

-- parser_URL, behind the scheme.
abbrev pub parse_host : Http → Option (List ℕ × List ℕ) → Http × ℤ
parse_host info none = (info, negsuc 0)
parse_host info (some r) = uri_of (b'/' ∷ (r.1)) (port_of info (r.0) (split_at b':' (r.0)))

unfoldable pub parser_url : List ℕ → Http → Http × ℤ
parser_url url info =
    parse_host info (split_at b'/' (skip_scheme (strncasestr url (codes "http://")) url))
