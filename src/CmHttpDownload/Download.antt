-- ===== src/CmHttpDownload/Download.antt =====
-- http_download of common/cm_http_download.c. The server is a parameter: what it sends for a host,
-- a port and a request, if the connection can be made.
use jklibs.Common.{ℕ, zero, suc, Bool, List, [], ◌∷◌, ◌++◌, Option, none, some, if◌then◌else◌, take}
use jklibs.Common.Int.{ℤ, pos, negsuc, eqb_ℤ}
use jklibs.Common.Outcome.{Outcome, done, err, fault, ◌>>=◌}
use jklibs.Common.Text.{codes}
use jklibs.CmHttpDownload.{Http, no_http, parser_url}
use jklibs.CmHttpDownload.Header.{parse_http_header}
use jklibs.CmHttpDownload.Receive.{recv_response}

-- The request of send_request, in the buffer.
unfoldable pub request : Http → List ℕ
request info =
    let line = codes "\r\n" in
    take 8190 (
      codes "GET "
      ++ (info.uri
          ++ (codes " HTTP/1.1"
              ++ (line
                  ++ (codes "Accept: */*"
                      ++ (line
                          ++ (codes
                                "User-Agent: Mozilla/5.0 (compatible; MSIE 5.01; Windows NT 5.0)"
                              ++ (line
                                  ++ (codes "Host: "
                                      ++ (info.host_name
                                          ++ (line
                                              ++ (codes "Connection: Close"
                                                  ++ (line ++ line)))))))))))))

module _ (serve : List ℕ → ℤ → List ℕ → Option (List ℕ)) (opens : Bool) where
  abbrev pub connected : Http → Option (List ℕ) → Outcome Http
  connected info none = err 1
  connected info (some input) =
      parse_http_header (record info { input = input; buffer = request info ++ (0 ∷ []) })

  -- The object after the header of the answer; -1 for an address that is not good.
  abbrev pub answered : Http × ℤ → Outcome Http
  answered (info, negsuc n) = err 1
  answered (info, pos n) = connected info (serve info.host_name info.port (request info))

  -- http_download, with at most `redirects` calls of itself: the content of the file.
  unfoldable pub http_download : ℕ → List ℕ → Outcome (Option (List ℕ))
  http_download zero url = fault
  http_download (suc redirects) url = answered (parser_url url no_http) >>= λ info.
      (let again = http_download redirects info.location in
        if eqb_ℤ info.status_code (pos 200)
        then (recv_response opens info >>= λ info. done info.saved)
        else if eqb_ℤ info.status_code (pos 302)
        then again
        else err 1)
