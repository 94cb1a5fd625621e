-- ===== src/BusServer/Registry.antt =====
-- busserver_ex.c: the server that keeps its clients under the names they join with. (The parser, the
-- sending of parts and the loop are those of busserver.c.)
use jklibs.Common.{
  ℕ, Bool, false, List, [], ◌∷◌, ◌++◌, Option, none, some, ltb, ◌==◌, if◌then◌else◌, take, length,
  ◌&&◌,
}
use mathlib.Core.Option
use jklibs.Common.Int.{to_size}
use jklibs.Common.Outcome.{Outcome, done, err, fault, ◌>>=◌}
use jklibs.Common.Text.{codes, starts_with, until_nul}
use jklibs.BusServer.Parse.{BcStr, Mbuf, part_is, bytes_of, multipart_bytes}
use jklibs.BusServer.Receive.{Event, sent, called, part_of, topic_text, recv_loop}
use jklibs.BusServer.Server.{response, published}

-- struct bus_clients: the name is the text in its buffer of 32 bytes.
pub record Place : Type 0 where
  pub name : List ℕ
  pub conn : Option ℕ

-- struct _CMBusserver, and what was done to the outside.
pub record Server : Type 0 where
  pub port : ℕ
  pub clients : List Place
  pub cb : Bool
  pub events : List Event

-- strncpy(place.name, name, 31) into a buffer whose last byte is 0
abbrev pub take_place : Place → List ℕ → ℕ → Place
take_place place name nc = record place { name = take 31 name; conn = some nc }

-- The first loop: the first place whose name begins with the name.
unfoldable pub join_again : List Place → List ℕ → ℕ → Option (List Place)
join_again [] name nc = none
join_again (place ∷ places) name nc =
    let rest = Option.map (◌∷◌ place) (join_again places name nc) in
    if starts_with name (place.name) then some (take_place place name nc ∷ places) else rest

abbrev pub is_free : Place → Bool
is_free place = starts_with (place.name) []

-- The second loop: the first place without a name.
unfoldable pub join_free : List Place → List ℕ → ℕ → List Place
join_free [] name nc = []
join_free (place ∷ places) name nc =
    let rest = place ∷ join_free places name nc in
    if is_free place then take_place place name nc ∷ places else rest

abbrev pub first_of : Option (List Place) → List Place → List Place
first_of (some places) free = places
first_of none free = free

-- bus_client_set_conn
unfoldable pub set_conn_named : Server → List ℕ → ℕ → Server
set_conn_named ss name nc = record ss {
  clients = first_of (join_again (ss.clients) name nc) (join_free (ss.clients) name nc);
}

-- char name[32] = {0}; strncpy of the part: at most 31 bytes, but 32 of a part of 32 bytes, and then
-- the name runs on behind the buffer. The comparison with sizeof is one of unsigned numbers.
unfoldable pub joined_name : BcStr → Outcome (List ℕ)
joined_name part =
    let n = to_size (part.len) in
    let count = if ltb 32 n then 31 else n in
    let text = until_nul (take count (part.text)) in
    if (count == 32) && (length text == 32) then fault else done text

abbrev pub answer : Server → ℕ → Server
answer ss nc = record ss { events = ss.events ++ (sent nc (multipart_bytes response) ∷ []) }

unfoldable pub handle_request_named : Server → ℕ → List BcStr → Outcome Server
handle_request_named ss nc parts = part_of parts 1 >>= λ what.
    if part_is what (codes "/bus/join")
    then (part_of parts 2 >>= λ part.
        joined_name part >>= λ name. done (answer (set_conn_named ss name nc) nc))
    else done (if part_is what (codes "/bus/subscribe") then answer ss nc else ss)

unfoldable pub handle_publish_named : Server → List BcStr → Outcome Server
handle_publish_named ss parts = part_of parts 1 >>= λ topic. topic_text topic >>= λ text.
    if ss.cb
    then (part_of parts 2 >>= λ data_.
        done (record ss { events = ss.events ++ (called text (bytes_of data_) (data_.len) ∷ []) }))
    else done ss

-- handle_multipart_msg
unfoldable pub handle_msg_named : ℕ → Server → List BcStr → Outcome Server
handle_msg_named nc ss parts = part_of parts 0 >>= λ what.
    if part_is what (codes "request")
    then handle_request_named ss nc parts
    else if part_is what (codes "publish")
    then handle_publish_named ss parts
    else done ss

abbrev pub eq_conn : Option ℕ → ℕ → Bool
eq_conn none nc = false
eq_conn (some c) nc = c == nc

-- ev_handler with MG_EV_CLOSE: the first place with the connection
unfoldable pub leave : List Place → ℕ → List Place
leave [] nc = []
leave (place ∷ places) nc =
    let rest = place ∷ leave places nc in
    if eq_conn (place.conn) nc then record place { name = []; conn = none } ∷ places else rest

unfoldable pub close_conn : Server → ℕ → Server
close_conn ss nc = record ss { clients = leave (ss.clients) nc }

-- ev_handler with MG_EV_RECV
unfoldable pub receive_named :
    (ℕ → Mbuf → Mbuf) → ℕ → Server → ℕ → Mbuf → Outcome (Option (Server × Mbuf))
receive_named mbuf_remove fuel ss nc io = recv_loop mbuf_remove (handle_msg_named nc) fuel io 0 ss

-- cm_busserver_init: `fresh` is what malloc gives, which nothing clears, and `bound` whether mg_bind
-- gives a connection.
unfoldable pub busserver_init : Option Server → ℕ → Bool → Bool → Outcome Server
busserver_init none port cb bound = err 1
busserver_init (some fresh) port cb bound = if bound then done (record fresh { cb = cb }) else err 1

send_place : Server → Option ℕ → List (List ℕ) → Server
send_place ss none parts = ss
send_place ss (some c) parts = record ss {
  events = ss.events ++ (sent c (multipart_bytes parts) ∷ []);
}

-- strncmp(to, name, strlen(to)) == 0, at the first place where it holds
unfoldable pub conn_to : List Place → List ℕ → Option ℕ
conn_to [] to = none
conn_to (place ∷ places) to =
    let rest = conn_to places to in if starts_with to (place.name) then place.conn else rest

-- cm_busserver_send_msg, with a server
unfoldable pub send_named : Server → List ℕ → Option (List ℕ) → Option (List ℕ) → Outcome Server
unfolding send_place
send_named ss to topic data_ =
    published topic data_ >>= λ parts. done (send_place ss (conn_to (ss.clients) to) parts)

send_places : Server → List Place → List (List ℕ) → Server
unfolding send_place
send_places ss [] parts = ss
send_places ss (place ∷ places) parts = send_places (send_place ss (place.conn) parts) places parts

-- cm_busserver_broadcast, with a server
unfoldable pub broadcast_named : Server → Option (List ℕ) → Option (List ℕ) → Outcome Server
unfolding send_places
broadcast_named ss topic data_ =
    published topic data_ >>= λ parts. done (send_places ss (ss.clients) parts)
