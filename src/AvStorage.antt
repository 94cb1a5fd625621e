-- ===== src/AvStorage.antt =====
-- storage/avstorage.c: a recording in files that follow one another in time. Opening a file is a
-- parameter, the time an argument, and the writes are a list of file names and data. The name of a
-- file is taken to fit its 512 bytes.
pub mod Rotation
mod Tests
use jklibs.Common.{
  ℕ, ◌+◌, Bool, true, false, ◌&&◌, ◌||◌, List, [], ◌∷◌, ◌++◌, Option, none, some, leb, ◌==◌,
  if◌then◌else◌, length,
}
use jklibs.Common.Text.{codes}
use jklibs.Common.Outcome.{Outcome, done, err, fault}
use jklibs.Walltime.{Tm, nowd, nowt}

-- struct tagAVStorage, with what was written so far.
pub record AvStorage : Type 0 where
  pub save_path : List ℕ
  pub time_per_file : ℕ
  pub size_per_file : ℕ
  pub file_prefix : List ℕ
  pub current_file_name : List ℕ
  pub ext : List ℕ
  pub write : Option (List ℕ)
  pub last_open : ℕ
  pub written : List (List ℕ × List ℕ)

-- cm_avstorage_init
unfoldable pub avstorage_init : List ℕ → ℕ → ℕ → AvStorage
avstorage_init path time_per_file size_per_file = record {
  save_path = path;
  time_per_file = time_per_file;
  size_per_file = size_per_file;
  file_prefix = codes "jk-avstorage";
  current_file_name = [];
  ext = codes "h265";
  write = none;
  last_open = 0;
  written = [];
}

-- cm_avstorage_generate_filename
unfoldable pub file_name : AvStorage → Tm → List ℕ
file_name s tm =
    s.save_path
    ++ (codes "/"
        ++ (s.file_prefix
            ++ (codes "-" ++ (nowd tm ++ (codes "-" ++ (nowt tm ++ (codes "." ++ s.ext)))))))

module _ (opens : List ℕ → Bool) where
  -- cm_avstorage_reopen: whether it returns 0 is whether the file is open afterwards.
  unfoldable pub reopen : AvStorage → Tm → AvStorage
  reopen s tm =
      let name = file_name s tm in
      record s { current_file_name = name; write = if opens name then some name else none }

  -- fwrite; through NULL it is undefined.
  unfoldable pub write_data : AvStorage → List ℕ → AvStorage × Outcome ℕ
  write_data s bytes = elim s.write [
    | none ↦ (s, fault)
    | some name ↦ (record s { written = s.written ++ ((name, bytes) ∷ []) }, done (length bytes))
  ]

  -- The write after the new file was opened at the time `now`, or was not.
  abbrev pub write_new : AvStorage → ℕ → List ℕ → Option (List ℕ) → AvStorage × Outcome ℕ
  write_new s now bytes none = (s, err 2)
  write_new s now bytes (some name) = write_data (record s { last_open = now }) bytes

  -- cm_avstorage_v_push at the time `now`, which `localtime` gives as `tm`.
  unfoldable pub v_push : AvStorage → ℕ → Tm → List ℕ → Bool → AvStorage × Outcome ℕ
  v_push s now tm bytes force_new =
      let first = s.last_open == 0 in
      let due = if first then false else leb (s.last_open + s.time_per_file) now in
      let s2 = if first then record s { last_open = now } else s in
      let s3 = reopen s2 tm in
      if length bytes == 0
      then (s, err 1)
      else if force_new || ((length s.current_file_name == 0) || due)
      then write_new s3 now bytes s3.write
      else write_data s2 bytes
