-- ===== src/FlashCfg/Find.antt =====
-- Which entry of the table `cfg_set` and `cm_flash_cfg_get` find.
use jklibs.Common.{ℕ, ◌≡◌, refl, List, ◌∷◌, ◌++◌, some}
use jklibs.Common.Text.{starts_with, same_text}
use jklibs.FlashCfg.{find_param}
use jklibs.FlashCfg.Params.{
  Param, all_params, parameter_name, index, mac, license_res, license_res2,
}

-- The parameters whose name is not an extension of another's.
abbrev pub Settable : Param → Type 0
Settable license_res = ⊥
Settable license_res2 = ⊥
Settable p = Unit {0}

-- The argument "name=text" of `cfg_set`.
abbrev pub assignment : Param → List ℕ → List ℕ
assignment p text = parameter_name p ++ (b'=' ∷ text)

pub find-assignment :
    (p : Param) (text : List ℕ)
    → Settable p
    → find_param (λ q. starts_with (parameter_name q) (assignment p text)) all_params 0
      ≡ some (index p, p)
unfolding find_param
find-assignment mac text s = refl
find-assignment license_res text s = absurd s
find-assignment license_res2 text s = absurd s
find-assignment p text s = refl

pub find_by_name :
    (p : Param)
    → find_param (λ q. same_text (parameter_name p) (parameter_name q)) all_params 0
      ≡ some (index p, p)
unfolding find_param
find_by_name mac = refl
find_by_name p = refl
