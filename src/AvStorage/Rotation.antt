-- ===== src/AvStorage/Rotation.antt =====
-- When a recording goes on in a new file.
use jklibs.Common.{
  ℕ, ◌+◌, ◌≤◌, ◌<◌, ◌≡◌, refl, Bool, true, false, ◌||◌, List, [], ◌∷◌, ◌++◌, none, some, arith, leb,
  ◌==◌, if◌then◌else◌, length,
}
use jklibs.Common.Outcome.{done, err, fault}
use jklibs.Walltime.{Tm}
use jklibs.AvStorage.{AvStorage, file_name, reopen, write_data, v_push}

module _ (opens : List ℕ → Bool) where
  push-first :
      (s : AvStorage) (now : ℕ) (tm : Tm) (bytes : List ℕ)
      → s.last_open ≡ 0
      → s.current_file_name ≡ []
      → 1 ≤ length bytes
      → opens (file_name s tm) ≡ false
      → v_push opens s now tm bytes false
        ≡ (record s { last_open = now; current_file_name = file_name s tm; write = none }, err 2)
  unfolding v_push reopen file_name
  push-first s now tm bytes o n b shut =
      let full : (length bytes == 0) ≡ false = ground arith in rw (o, n, full, shut) refl

  push-next :
      (s : AvStorage) (now : ℕ) (tm : Tm) (bytes : List ℕ)
      → 1 ≤ s.last_open
      → 1 ≤ length s.current_file_name
      → s.write ≡ none
      → 1 ≤ length bytes
      → now < s.last_open + s.time_per_file
      → (v_push opens s now tm bytes false).1 ≡ fault
  unfolding v_push write_data
  push-next s now tm bytes o n w b early =
      let full : (length bytes == 0) ≡ false = ground arith in
      let named : (length s.current_file_name == 0) ≡ false = ground arith in
      let opened : (s.last_open == 0) ≡ false = ground arith in
      let not_due : leb (s.last_open + s.time_per_file) now ≡ false = ground arith in
      rw (full, named, opened, not_due, w) refl

  -- A file that cannot be opened fails the first push of a new recording, at a time that is not
  -- 0, with -2, and the next push, if it is not forced and comes before the time of the file is
  -- over, writes through NULL; the data of both is not empty.
  pub push-unopened :
      (s : AvStorage) (now later : ℕ) (tm tm2 : Tm) (bytes more : List ℕ)
      → s.last_open ≡ 0
      → s.current_file_name ≡ []
      → 1 ≤ length bytes
      → 1 ≤ length more
      → 1 ≤ now
      → later < now + s.time_per_file
      → 1 ≤ length (file_name s tm)
      → opens (file_name s tm) ≡ false
      → let (after, r) = v_push opens s now tm bytes false in
        (r ≡ err 2) × ((v_push opens after later tm2 more false).1 ≡ fault)
  push-unopened s now later tm tm2 bytes more o n b m t early named shut =
      rw (push-first s now tm bytes o n b shut) (
        refl,
        push-next (record s { last_open = now; current_file_name = file_name s tm; write = none })
            later tm2 more t named refl m early,
      )

  -- While a file is open, a push that is forced, or comes when the time of the file is over, opens
  -- a new file and writes there; any other push writes to the open file. The data comes last.
  pub push-open :
      (s : AvStorage) (now : ℕ) (tm : Tm) (bytes f : List ℕ) (force_new : Bool)
      → s.write ≡ some f
      → 1 ≤ s.last_open
      → 1 ≤ length s.current_file_name
      → 1 ≤ length bytes
      → opens (file_name s tm) ≡ true
      → v_push opens s now tm bytes force_new ≡ (
          if force_new || leb (s.last_open + s.time_per_file) now
          then (
            record s {
              current_file_name = file_name s tm;
              write = some (file_name s tm);
              last_open = now;
              written = s.written ++ ((file_name s tm, bytes) ∷ []);
            },
            done (length bytes),
          )
          else (record s { written = s.written ++ ((f, bytes) ∷ []) }, done (length bytes)))
  unfolding v_push reopen write_data
  push-open s now tm bytes f force_new w o n b grants =
      let full : (length bytes == 0) ≡ false = ground arith in
      let named : (length s.current_file_name == 0) ≡ false = ground arith in
      let opened : (s.last_open == 0) ≡ false = ground arith in
      rw (full, named, opened, grants, w) refl
