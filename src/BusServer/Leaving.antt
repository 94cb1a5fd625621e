-- ===== src/BusServer/Leaving.antt =====
-- busserver_ex.c: a client whose connection closes leaves the table as it was before it joined.
use mathlib.Core.Option
use jklibs.Common.{
  ℕ, ◌≡◌, refl, ap, ap₂, Bool, true, false, not, ◌&&◌, List, [], ◌∷◌, Option, none, some, arith,
  ◌==◌, if◌then◌else◌, Bool-cases, inl, inr,
}
use jklibs.Common.Text.{starts_with}
use jklibs.BusServer.Registry.{
  Place, Server, is_free, join_again, join_free, set_conn_named, eq_conn, leave, close_conn,
}

abbrev pub is_none : Option ℕ → Bool
is_none none = true
is_none (some nc) = false

-- A place without a name has no connection, no place has this connection, and no name begins with
-- this name.
abbrev pub is_new : List Place → List ℕ → ℕ → Bool
is_new [] name nc = true
is_new (place ∷ places) name nc =
    (if is_free place then is_none (place.conn) else true)
    && (not (eq_conn (place.conn) nc)
        && (not (starts_with name (place.name)) && is_new places name nc))

join_again-none :
    (places : List Place) (name : List ℕ) (nc : ℕ)
    → is_new places name nc ≡ true
    → join_again places name nc ≡ none
unfolding join_again
join_again-none [] name nc new = refl
join_again-none (place ∷ places) name nc new =
    let miss : starts_with name (place.name) ≡ false = ground arith in
    rw miss (ap (Option.map (◌∷◌ place)) (join_again-none places name nc (ground arith)))

no_name : (text : List ℕ) → starts_with text [] ≡ true → [] ≡ text
no_name [] e = refl
no_name (c ∷ text) e = ground arith

no_conn : (conn : Option ℕ) → is_none conn ≡ true → none ≡ conn
no_conn none e = refl
no_conn (some c) e = ground arith

leave-join_free :
    (places : List Place) (name : List ℕ) (nc : ℕ)
    → is_new places name nc ≡ true
    → leave (join_free places name nc) nc ≡ places
unfolding leave join_free
leave-join_free [] name nc new = refl
leave-join_free (place ∷ places) name nc new = elim (Bool-cases (is_free place)) [
  | inl free ↦
      let self : (nc == nc) ≡ true = ground arith in
      let unused : is_none (place.conn) ≡ true = ground arith in
      rw (free, self)
        (ap₂ (λ n c. record { name = n; conn = c } ∷ places) (no_name (place.name) free)
          (no_conn (place.conn) unused))
  | inr taken ↦
      let other : eq_conn (place.conn) nc ≡ false = ground arith in
      rw (taken, other) (ap (◌∷◌ place) (leave-join_free places name nc (ground arith)))
]

-- A client joins under a name that no name in the table begins with, over a connection that is not in the table, and its
-- connection closes: the server is as it was before.
pub close_conn-join :
    (ss : Server) (name : List ℕ) (nc : ℕ)
    → is_new (ss.clients) name nc ≡ true
    → close_conn (set_conn_named ss name nc) nc ≡ ss
unfolding close_conn set_conn_named
close_conn-join ss name nc new =
    let nobody = join_again-none (ss.clients) name nc new in
    rw nobody (ap (λ c. record ss { clients = c }) (leave-join_free (ss.clients) name nc new))
