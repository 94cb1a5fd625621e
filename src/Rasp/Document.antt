-- ===== src/Rasp/Document.antt =====
-- The JSON document of protocol/rasp/kfrasp.c as the messages use it: a parameter.
use jklibs.Common.{ℕ, suc, ◌-◌, ◌≡◌, Bool, false, List, Option}
use jklibs.Common.Int.{ℤ}
use jklibs.Rasp.Header.{Json}

-- A document with the sections that are pushed: json_push and whether it fails, json_pop,
-- json_string and json_count below the section on top, json_setstring with the name before the
-- value, json_setnull, json_loadstring, and json_printstring with a length, which gives what it
-- saves and its return value.
pub record Sections {ℓ} (S : Type ℓ) : Type ℓ where
  pub push : S → List ℕ → S
  pub push_fails : S → List ℕ → Bool
  pub pop : S → S
  pub string : S → List ℕ → Option (List ℕ)
  pub count : S → List ℕ → ℤ
  pub set_string : S → List ℕ → List ℕ → S
  pub set_null : S → List ℕ → S
  pub load : S → List ℕ → Option S
  pub print : S → ℤ → Option (List ℕ × ℤ)

-- The document as headers use it, one name at a time.
abbrev pub as_json {ℓ} : {S : Type ℓ} → Sections S → Json S
as_json j = record {
  get = λ d section name. j.string (j.push d section) name;
  put = λ d section name text. j.pop (j.set_string (j.push d section) name text);
}

-- What the library promises of the sections: how many are pushed. Documents are opened with
-- JSON_F_NONE, so a section that is missing is made.
pub record Counts {ℓ} {S : Type ℓ} (j : Sections S) (depth : S → ℕ) : Type ℓ where
  pub made : (d : S) (name : List ℕ) → j.push_fails d name ≡ false
  pub depth-push : (d : S) (name : List ℕ) → depth (j.push d name) ≡ suc (depth d)
  pub depth-pop : (d : S) → depth (j.pop d) ≡ depth d - 1
  pub depth-set_string : (d : S) (name text : List ℕ) → depth (j.set_string d name text) ≡ depth d
  pub depth-set_null : (d : S) (name : List ℕ) → depth (j.set_null d name) ≡ depth d
