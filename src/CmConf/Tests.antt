-- ===== src/CmConf/Tests.antt =====
-- Configuration files on concrete tables.
use jklibs.Common.{◌≡◌, refl, List, [], ◌∷◌, ◌++◌, arith}
use jklibs.Common.Outcome.{done}
use jklibs.Common.Text.{codes}
use jklibs.CmConf.{Config, config_read, config_write}
use jklibs.CmConf.Lines.{Storable}
use jklibs.CmConf.File.{config_read-write}

abbrev ip : Config
ip = record { key = codes "ip"; value = codes "10.0.0.1" }

abbrev port : Config
port = record { key = codes "port"; value = codes "80" }

abbrev empty : Config
empty = record { key = []; value = [] }

abbrev table : List Config
table = ip ∷ (port ∷ (empty ∷ []))

ip-Storable : Storable ip
ip-Storable = record {
  key_plain = ((omega arith, omega arith), ((omega arith, omega arith), tt));
  key_one_line = (omega arith, (omega arith, tt));
  key_full = omega arith;
  key_short = omega arith;
  no_comment = refl;
  value_plain = (refl, (refl, (refl, (refl, (refl, (refl, (refl, (refl, tt))))))));
  value_full = omega arith;
  line_short = omega arith;
}

config_read-write_example :
    config_read table 3 (config_write (codes "T1" ++ (10 ∷ [])) (ip ∷ []))
    ≡ done (1, ip ∷ (port ∷ (empty ∷ [])))
config_read-write_example =
    config_read-write table (ip ∷ []) 3 (codes "T1") (ip-Storable, tt) (omega arith) (omega arith)
      (omega arith, (omega arith, tt)) (omega arith)
