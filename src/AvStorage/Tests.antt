-- ===== src/AvStorage/Tests.antt =====
-- Recordings that begin at noon of 2016-01-07.
use jklibs.Common.{◌≡◌, refl, arith, false, [], ◌∷◌, some, none}
use jklibs.Common.Text.{codes}
use jklibs.Common.Outcome.{err, fault}
use jklibs.Common.Decimal.{print_nat, digits_fuel}
use jklibs.Walltime.{Tm, pad}
use jklibs.AvStorage.{AvStorage, avstorage_init, file_name, v_push}
use jklibs.AvStorage.Rotation.{push-unopened}

abbrev noon : Tm
noon = record {
  tm_year = 116;
  tm_mon = 0;
  tm_mday = 7;
  tm_hour = 12;
  tm_min = 0;
  tm_sec = 0;
  tm_wday = 4;
}

abbrev empty : AvStorage
empty = record {
  save_path = codes "/sd";
  time_per_file = 60;
  size_per_file = 0;
  file_prefix = codes "jk-avstorage";
  current_file_name = [];
  ext = codes "h265";
  write = none;
  last_open = 0;
  written = [];
}

abbrev recording : AvStorage
recording = record empty {
  current_file_name = codes "a";
  write = some (codes "a");
  last_open = 1000;
}

new_storage : avstorage_init (codes "/sd") 60 0 ≡ empty
unfolding avstorage_init
new_storage = refl

noon_name : file_name empty noon ≡ codes "/sd/jk-avstorage-20160107-120000.h265"
unfolding file_name pad print_nat digits_fuel
noon_name = refl

push-unopened_example :
    ((v_push (λ f. false) empty 1000 noon (1 ∷ []) false).1 ≡ err 2)
    × ((v_push
          (λ f. false)
          (v_push (λ f. false) empty 1000 noon (1 ∷ []) false).0
          1001
          noon
          (2 ∷ [])
          false).1
        ≡ fault)
push-unopened_example =
    push-unopened (λ f. false) empty 1000 1001 noon noon (1 ∷ []) (2 ∷ []) refl refl (omega arith)
      (omega arith) (omega arith) (omega arith) (unfold file_name in omega arith) refl
