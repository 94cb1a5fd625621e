-- ===== src/BusServer/Names.antt =====
-- busserver_ex.c: a client is reached under the name it joined with, until its connection closes.
use jklibs.Common.{
  ℕ, ◌<◌, ◌≡◌, refl, ◌∙◌, ap, subst, Bool, true, false, List, [], ◌∷◌, none, some, arith,
  Bool-cases, inl, inr, ◌||◌, Option-cases, length, take, take_all,
}
use mathlib.Core.Option.{some-injective}
use jklibs.Common.Text.{starts_with}
use jklibs.BusServer.Registry.{
  Place, Server, take_place, is_free, join_again, join_free, set_conn_named, conn_to,
}

-- Some place has no name, or a name that begins with this one.
abbrev pub has_room : List Place → List ℕ → Bool
has_room [] name = false
has_room (place ∷ places) name =
    (is_free place || starts_with name (place.name)) || has_room places name

starts_with_refl : (a : List ℕ) → starts_with a a ≡ true
starts_with_refl [] = refl
starts_with_refl (c ∷ a) = ground (arith, starts_with_refl a)

-- A free place is under no name.
free-other :
    (place : Place) (c : ℕ) (name : List ℕ)
    → is_free place ≡ true
    → starts_with (c ∷ name) (place.name) ≡ false
free-other place c name e = by_name (place.name) e
  where
    by_name : (text : List ℕ) → starts_with text [] ≡ true → starts_with (c ∷ name) text ≡ false
    by_name [] e = refl
    by_name (d ∷ text) e = ground arith

conn_to-first :
    (place : Place) (places : List Place) (name : List ℕ) (nc : ℕ)
    → length name < 32
    → conn_to (take_place place name nc ∷ places) name ≡ some nc
unfolding conn_to
conn_to-first place places name nc h =
    let whole : take 31 name ≡ name = take_all name 31 (omega arith) in
    let self = ap (starts_with name) whole ∙ starts_with_refl name in rw self refl

conn_to-skip :
    (place : Place) (places : List Place) (name : List ℕ)
    → starts_with name (place.name) ≡ false
    → conn_to (place ∷ places) name ≡ conn_to places name
unfolding conn_to
conn_to-skip place places name e = rw e refl

-- The place that is found again is the one that is looked up.
conn_to-join_again :
    (places joined : List Place) (name : List ℕ) (nc : ℕ)
    → length name < 32
    → join_again places name nc ≡ some joined
    → conn_to joined name ≡ some nc
unfolding join_again
conn_to-join_again [] joined name nc h e = ground arith
conn_to-join_again (place ∷ places) joined name nc h e =
    elim (Bool-cases (starts_with name (place.name))) [
      | inl hit ↦
          let same : some (take_place place name nc ∷ places) ≡ some joined = rw (hit) at e in
          subst (λ j. conn_to j name ≡ some nc) (some-injective _ _ same)
            (conn_to-first place places name nc h)
      | inr miss ↦ elim (Option-cases (join_again places name nc)) [
        | inl nowhere ↦ ground arith
        | inr (rest, found) ↦
            let same : some (place ∷ rest) ≡ some joined = rw (miss, found) at e in
            subst (λ j. conn_to j name ≡ some nc) (some-injective _ _ same)
              (conn_to-skip place rest name miss ∙ conn_to-join_again places rest name nc h found)
      ]
    ]

conn_to-join_free :
    (places : List Place) (c : ℕ) (name : List ℕ) (nc : ℕ)
    → length (c ∷ name) < 32
    → join_again places (c ∷ name) nc ≡ none
    → has_room places (c ∷ name) ≡ true
    → conn_to (join_free places (c ∷ name) nc) (c ∷ name) ≡ some nc
unfolding join_again join_free
conn_to-join_free [] c name nc h no_one room = ground arith
conn_to-join_free (place ∷ places) c name nc h no_one room =
    elim (Bool-cases (starts_with (c ∷ name) (place.name))) [
      | inl hit ↦ ground arith
      | inr miss ↦
          let nowhere : join_again places (c ∷ name) nc ≡ none = ground arith in
          elim (Bool-cases (is_free place)) [
            | inl free ↦ rw free (conn_to-first place places (c ∷ name) nc h)
            | inr taken ↦
                let later : has_room places (c ∷ name) ≡ true = ground arith in
                rw taken (
                  conn_to-skip place (join_free places (c ∷ name) nc) (c ∷ name) miss
                  ∙ conn_to-join_free places c name nc h nowhere later)
          ]
    ]

-- Who joins under a name that is not empty and fits its place is reached under that name, when a place is
-- free or is under a name that begins with it.
pub conn_to-set_conn :
    (ss : Server) (c : ℕ) (name : List ℕ) (nc : ℕ)
    → length (c ∷ name) < 32
    → has_room (ss.clients) (c ∷ name) ≡ true
    → conn_to ((set_conn_named ss (c ∷ name) nc).clients) (c ∷ name) ≡ some nc
unfolding set_conn_named
conn_to-set_conn ss c name nc h room = elim (Option-cases (join_again (ss.clients) (c ∷ name) nc)) [
  | inl no_one ↦ rw no_one (conn_to-join_free (ss.clients) c name nc h no_one room)
  | inr (places, found) ↦ rw found (conn_to-join_again (ss.clients) places (c ∷ name) nc h found)
]
