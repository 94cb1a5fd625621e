-- ===== src/CmWs/Payload.antt =====
-- The payload of a frame is read whole, however few bytes a read gives.
use jklibs.Common.{
  ℕ, zero, suc, ◌-◌, ◌≤◌, ◌≡◌, refl, sym, ap, ◌∙◌, Bool, true, false, List, [], ◌∷◌, ◌++◌, some,
  arith, ◌==◌, length, take, drop, length-take, length-drop, take-append, drop-append, take-drop,
  append-nil, append_assoc,
}
use jklibs.Common.Int.{ℤ, pos}
use jklibs.CmWs.Read.{Conn, recv_from, recv_simple, read_body}
use jklibs.CmWs.Heads.{behind}

-- A read gives at least a byte, and no more than it was asked for.
abbrev pub Gives : (ℕ → ℕ → ℕ) → Type 0
Gives grant = (t n : ℕ) → 1 ≤ n → (1 ≤ grant t n) × (grant t n ≤ n)

-- A read of a payload that is not empty.
recv_simple-part :
    (grant : ℕ → ℕ → ℕ) (conn : Conn) (n : ℕ) (payload rest : List ℕ)
    → 1 ≤ length payload
    → grant (conn.reads) n ≤ length payload
    → conn.input ≡ payload ++ rest
    → recv_simple grant conn n ≡ record {
      ret = pos (grant (conn.reads) n);
      got = take (grant (conn.reads) n) payload;
      conn = behind conn (drop (grant (conn.reads) n) payload ++ rest);
    }
unfolding recv_simple recv_from
recv_simple-part grant conn n [] rest one h e = absurd (omega arith)
recv_simple-part grant conn n (b ∷ payload) rest one h e =
    let g = grant (conn.reads) n in
    let taken = take-append g (b ∷ payload) rest h in
    let left = drop-append g (b ∷ payload) rest h in
    let count : length (take g (b ∷ payload)) ≡ g = omega (arith, length-take g (b ∷ payload)) in
    ap (recv_from grant conn n) e
    ∙ rw (taken, left)
        (ap
          (λ k. record {
            ret = pos k;
            got = take g (b ∷ payload);
            conn = behind conn (drop g (b ∷ payload) ++ rest);
          })
          count)

module _ (grant : ℕ → ℕ → ℕ) (fresh : List ℕ) (fails : ℤ → Bool) where
  read_body-round :
      (fuel : ℕ) (conn : Conn) (need g : ℕ) (got part : List ℕ) (next : Conn)
      → (need == 0) ≡ false
      → fails (pos g) ≡ false
      → length part ≡ g
      → recv_simple grant conn need ≡ record { ret = pos g; got = part; conn = next }
      → read_body grant fresh fails (suc fuel) conn need got
        ≡ read_body grant fresh fails fuel next (need - g) (got ++ part)
  unfolding read_body
  read_body-round fuel conn need g got part next more passes count r = rw more (
      rw r (
        rw passes (ap (λ n. read_body grant fresh fails fuel next (need - n) (got ++ part)) count)))

  pub read_body-all :
      Gives grant
      → ((n : ℕ) → fails (pos n) ≡ false)
      → (fuel : ℕ) (conn : Conn) (need : ℕ) (got payload rest : List ℕ) → length payload ≡ need
      → need ≤ fuel
      → conn.input ≡ payload ++ rest
      → (next : Conn) × (read_body grant fresh fails fuel conn need got
          ≡ some (some (got ++ payload), next))
        × (next.input ≡ rest)
  unfolding read_body
  read_body-all gives passes zero conn need got [] rest l h e =
      let none_left : (need == 0) ≡ true = ground arith in
      (conn, rw none_left (ap (λ t. some (some t, conn)) (sym (append-nil got))), e)
  read_body-all gives passes (suc fuel) conn need got [] rest l h e =
      let none_left : (need == 0) ≡ true = ground arith in
      (conn, rw none_left (ap (λ t. some (some t, conn)) (sym (append-nil got))), e)
  read_body-all gives passes zero conn need got (b ∷ payload) rest l h e = absurd (omega (arith, l))
  read_body-all gives passes (suc fuel) conn need got (b ∷ payload) rest l h e =
      let g = grant (conn.reads) need in
      let given = gives (conn.reads) need (omega (arith, l)) in
      let r =
        recv_simple-part grant conn need (b ∷ payload) rest (omega arith) (omega (arith, l, given))
          e in
      let left : length (drop g (b ∷ payload)) ≡ need - g =
        omega (arith, l, length-drop g (b ∷ payload)) in
      let part : length (take g (b ∷ payload)) ≡ g =
        omega (arith, l, given, length-take g (b ∷ payload)) in
      let more : (need == 0) ≡ false = ground (arith, l) in
      let (next, all, ends) =
        read_body-all gives passes fuel (behind conn (drop g (b ∷ payload) ++ rest)) (need - g)
          (got ++ take g (b ∷ payload)) (drop g (b ∷ payload)) rest left (omega (arith, given))
          refl in
      let joined : (got ++ take g (b ∷ payload)) ++ drop g (b ∷ payload) ≡ got ++ (b ∷ payload) =
        append_assoc got (take g (b ∷ payload)) (drop g (b ∷ payload))
        ∙ ap (λ t. got ++ t) (take-drop g (b ∷ payload)) in
      (
        next,
        read_body-round fuel conn need g got (take g (b ∷ payload))
              (behind conn (drop g (b ∷ payload) ++ rest)) more (passes g) part r
            ∙ (all ∙ ap (λ t. some (some t, next)) joined),
        ends,
      )
