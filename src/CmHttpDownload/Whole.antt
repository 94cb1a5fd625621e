-- ===== src/CmHttpDownload/Whole.antt =====
-- A download from its address to the file.
use jklibs.Common.{ℕ, List, ◌∷◌, ◌++◌}
use jklibs.Common.Text.{codes}

-- The lines of the header of an answer in parts, without their last byte.
abbrev status_line : List ℕ
status_line = codes "HTTP/1.1 200 OK\r"

abbrev encoding_line : List ℕ
encoding_line = codes "Transfer-Encoding: chunked\r"

-- The header of an answer in parts: three lines.
abbrev pub chunked_answer : List ℕ → List ℕ
chunked_answer s = status_line ++ (10 ∷ (encoding_line ++ (10 ∷ (13 ∷ (10 ∷ s)))))
