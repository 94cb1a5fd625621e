-- ===== src/CmHttpDownload/Url.antt =====
-- The address of a file is taken apart.
use jklibs.Common.{
  ℕ, ◌+◌, ◌≤◌, ◌<◌, ◌≡◌, refl, ap, ◌∙◌, true, List, [], ◌∷◌, ◌++◌, arith, ltb, length, take_all,
}
use jklibs.Common.Int.{pos}
use jklibs.Common.Decimal.{
  atoi, split_at, split_at-append, Without, print_nat, print_int, print_nat-AllDigits,
  AllDigits-Without, atoi-print,
}
use jklibs.Common.Text.{codes}
use jklibs.CmHttpDownload.{Http, strncasestr, skip_scheme, parse_host, parser_url}

append-Without : (c : ℕ) (a b : List ℕ) → Without c a → Without c b → Without c (a ++ b)
append-Without c [] b h k = k
append-Without c (d ∷ a) b h k = (h.0, append-Without c a b (h.1) k)

-- An address with a port and a path.
abbrev pub address : List ℕ → ℕ → List ℕ → List ℕ
address host port path = codes "http://" ++ ((host ++ (b':' ∷ print_nat port)) ++ (b'/' ∷ path))

abbrev pub with_address : Http → List ℕ → ℕ → List ℕ → Http
with_address info host port path = record info {
  host_name = host;
  port = pos port;
  uri = b'/' ∷ path;
}

scheme :
    (s : List ℕ)
    → skip_scheme (strncasestr (codes "http://" ++ s) (codes "http://")) (codes "http://" ++ s) ≡ s
unfolding strncasestr
scheme s = refl

-- The host, the port and the path of an address "http://host:port/path" are read, for a host without
-- colons and slashes of at most 255 bytes, a port from 1 to 65534, and a path that fits.
pub parser_url-address :
    (host path : List ℕ) (port : ℕ) (info : Http)
    → Without b'/' host
    → Without b':' host
    → length host ≤ 255
    → 1 ≤ port
    → port < 65535
    → length path ≤ 2046
    → parser_url (address host port path) info ≡ (with_address info host port path, pos 0)
unfolding parser_url
parser_url-address host path port info no_slash no_colon fits low high path_fits =
    let digits = print_nat port in
    let plain = append-Without b'/' host (b':' ∷ digits) no_slash (
      (omega arith, omega arith),
      AllDigits-Without b'/' digits (omega arith) (print_nat-AllDigits port),
    ) in
    let outer = split_at-append b'/' (host ++ (b':' ∷ digits)) path plain in
    let inner = split_at-append b':' host digits no_colon in
    let number : atoi digits ≡ pos port = unfold print_int in atoi-print port in
    let positive : ltb 0 (port + 0) ≡ true = ground arith in
    let small : ltb (port + 0) 65535 ≡ true = ground arith in
    let text = (host ++ (b':' ∷ digits)) ++ (b'/' ∷ path) in
    ap (λ s. parse_host info (split_at b'/' s)) (scheme text)
    ∙ rw
        (
          outer,
          inner,
          number,
          positive,
          small,
          take_all host 255 fits,
          take_all path 2046 path_fits,
        )
        refl
