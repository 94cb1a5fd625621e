-- ===== src/V4/Tests.antt =====
-- Runs of the v4 codec.
use jklibs.Common.{ℕ, ◌≡◌, refl, Bool, true, List, [], ◌∷◌, some, arith}
use jklibs.Common.Outcome.{done}
use jklibs.V4.{
  JkProV4, Header, no_state, to_bytes, parse, first_byte, second_byte, calloc, memcpy, size_of_int,
  init, set_header, set_body,
}
use jklibs.V4.Messages.{parse-to_bytes}

abbrev sample : Header
sample = record { version = 9; crypt = 2; ack = 0; length = 3 }

abbrev all_granted : ℕ → Bool
all_granted n = true

abbrev message : JkProV4
message = record { header = sample; body = some (1 ∷ 2 ∷ 3 ∷ 4 ∷ []) }

sent : to_bytes all_granted message ≡ done (0x98 ∷ 3 ∷ 1 ∷ 2 ∷ 3 ∷ [])
unfolding to_bytes first_byte second_byte calloc memcpy size_of_int
sent = refl

built :
    (set_body all_granted (set_header (init 9 2) 0 3) (1 ∷ 2 ∷ 3 ∷ [])).0.body
    ≡ some (1 ∷ 2 ∷ 3 ∷ [])
unfolding set_body set_header init calloc memcpy size_of_int
built = refl

parse-to_bytes_example :
    (out : List ℕ) × (to_bytes all_granted message ≡ done out)
    × (parse all_granted true no_state out
        ≡ (record { header = sample; body = some (1 ∷ 2 ∷ 3 ∷ 0 ∷ []) }, done tt))
parse-to_bytes_example =
    parse-to_bytes all_granted true no_state 9 2 3 (1 ∷ 2 ∷ 3 ∷ 4 ∷ []) (omega arith) (omega arith)
      (omega arith) (omega arith) refl refl
