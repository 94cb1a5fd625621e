-- ===== src/BusServer/Server.antt =====
-- busserver.c: the server with its five known programs.
use jklibs.Common.{
  ℕ, zero, suc, ◌+◌, Bool, List, [], ◌∷◌, ◌++◌, Option, none, some, ltb, if◌then◌else◌,
}
use jklibs.Common.Int.{ℤ, pos, negsuc}
use jklibs.Common.Outcome.{Outcome, done, err, fault, ◌>>=◌}
use jklibs.Common.Text.{codes, starts_with, same_text}
use jklibs.BusServer.Parse.{BcStr, Mbuf, part_is, bytes_of, multipart_bytes}
use jklibs.BusServer.Receive.{Event, sent, called, part_of, topic_text, recv_loop}

-- struct bus_clients; a connection is its address.
pub record BusClient : Type 0 where
  pub type : ℕ
  pub port : ℕ
  pub conn : Option ℕ

-- The variables of the file, whether a callback is set, and what was done to the outside.
pub record Bus : Type 0 where
  pub bus_clients : List BusClient
  pub conn : Option ℕ
  pub user_cb : Bool
  pub events : List Event

abbrev pub type_sctek : ℕ
type_sctek = 0

abbrev pub type_dlna : ℕ
type_dlna = 1

abbrev pub type_bt : ℕ
type_bt = 2

abbrev pub type_btavk : ℕ
type_btavk = 3

abbrev pub type_aispeech : ℕ
type_aispeech = 4

abbrev pub type_max : ℕ
type_max = 5

client_from : ℕ → ℕ → List BusClient
client_from zero i = []
client_from (suc n) i = record { type = i; port = 50001 + i; conn = none } ∷ client_from n (suc i)

-- All of g_bus_clients is written.
unfoldable pub bus_client_init : Bus → Bus
unfolding client_from
bus_client_init bus = record bus { bus_clients = client_from type_max 0 }

-- g_bus_clients[i].conn = conn
abbrev pub set_client : List BusClient → ℕ → Option ℕ → List BusClient
set_client [] i conn = []
set_client (client ∷ clients) zero conn = record client { conn = conn } ∷ clients
set_client (client ∷ clients) (suc i) conn = client ∷ set_client clients i conn

unfoldable pub bus_client_set_conn : Bus → ℕ → Option ℕ → ℤ × Bus
bus_client_set_conn bus type conn =
    if ltb type type_max
    then (pos 0, record bus { bus_clients = set_client (bus.bus_clients) type conn })
    else (negsuc 0, bus)

-- ev_handler with MG_EV_TIMER: busclient_multipart_send of the parts
unfoldable pub multipart_send : Bus → ℕ → List (List ℕ) → Bus
multipart_send bus nc parts = record bus {
  events = bus.events ++ (sent nc (multipart_bytes parts) ∷ []);
}

-- The program that a name in a join belongs to.
unfoldable pub joins_as : BcStr → Option ℕ
joins_as name =
    if part_is name (codes "sctek")
    then some type_sctek
    else if part_is name (codes "dlna")
    then some type_dlna
    else if part_is name (codes "bt")
    then some type_bt
    else if part_is name (codes "btavk")
    then some type_btavk
    else if part_is name (codes "aispeech")
    then some type_aispeech
    else none

abbrev pub join_as : Bus → ℕ → Option ℕ → Bus
join_as bus nc none = bus
join_as bus nc (some type) = (bus_client_set_conn bus type (some nc)).1

unfoldable pub join : Bus → ℕ → BcStr → Bus
join bus nc name = join_as bus nc (joins_as name)

abbrev pub response : List (List ℕ)
response = codes "response" ∷ []

-- "/bus/join" and "/bus/subscribe"
unfoldable pub handle_request : Bus → ℕ → List BcStr → Outcome Bus
handle_request bus nc parts = part_of parts 1 >>= λ what.
    if part_is what (codes "/bus/join")
    then (part_of parts 2 >>= λ name. done (multipart_send (join bus nc name) nc response))
    else done
        (if part_is what (codes "/bus/subscribe") then multipart_send bus nc response else bus)

unfoldable pub call_user : Bus → List ℕ → List BcStr → Outcome Bus
call_user bus topic parts =
    if bus.user_cb
    then (part_of parts 2 >>= λ data_.
        done
          (record bus { events = bus.events ++ (called topic (bytes_of data_) (data_.len) ∷ []) }))
    else done bus

unfoldable pub handle_publish : Bus → List BcStr → Outcome Bus
handle_publish bus parts =
    part_of parts 1 >>= λ topic. topic_text topic >>= λ text. call_user bus text parts

unfoldable pub handle_multipart_msg : ℕ → Bus → List BcStr → Outcome Bus
handle_multipart_msg nc bus parts = part_of parts 0 >>= λ what.
    if part_is what (codes "request")
    then handle_request bus nc parts
    else if part_is what (codes "publish")
    then handle_publish bus parts
    else done bus

-- ev_handler with MG_EV_RECV
unfoldable pub receive : (ℕ → Mbuf → Mbuf) → ℕ → Bus → ℕ → Mbuf → Outcome (Option (Bus × Mbuf))
receive mbuf_remove fuel bus nc io =
    recv_loop mbuf_remove (handle_multipart_msg nc) fuel io 0 (record bus { conn = some nc })

abbrev pub publish : List ℕ → List ℕ → List (List ℕ)
publish topic data_ = codes "publish" ∷ (topic ∷ (data_ ∷ []))

-- strlen of both texts; NULL as the data is read through.
abbrev pub published : Option (List ℕ) → Option (List ℕ) → Outcome (List (List ℕ))
published none data_ = err 1
published (some topic) none = fault
published (some topic) (some data_) = done (publish topic data_)

unfoldable pub send_to : Bus → Option ℕ → List (List ℕ) → Bus
send_to bus none parts = bus
send_to bus (some c) parts = multipart_send bus c parts

unfoldable pub send_each : Bus → List BusClient → List (List ℕ) → Bus
send_each bus [] parts = bus
send_each bus (client ∷ clients) parts = send_each (send_to bus (client.conn) parts) clients parts

unfoldable pub broadcast : Bus → Option (List ℕ) → Option (List ℕ) → Outcome Bus
broadcast bus topic data_ =
    published topic data_ >>= λ parts. done (send_each bus (bus.bus_clients) parts)

-- busserver_send_msg
unfoldable pub send_msg : Bus → Option (List ℕ) → Option (List ℕ) → Outcome Bus
send_msg bus topic data_ = published topic data_ >>= λ parts. done (send_to bus (bus.conn) parts)

-- g_bus_clients[i].conn
abbrev pub conn_at : List BusClient → ℕ → Option ℕ
conn_at [] i = none
conn_at (client ∷ clients) zero = client.conn
conn_at (client ∷ clients) (suc i) = conn_at clients i

abbrev pub conn_of : Bus → ℕ → Option ℕ
conn_of bus type = conn_at (bus.bus_clients) type

unfoldable pub conn_named : Bus → List ℕ → Option ℕ
conn_named bus to =
    if same_text to (codes "aispeech")
    then conn_of bus type_aispeech
    else if same_text to (codes "sctek")
    then conn_of bus type_sctek
    else if same_text to (codes "dlna")
    then conn_of bus type_dlna
    else if starts_with (codes "btavk") to
    then conn_of bus type_btavk
    else if starts_with (codes "bt") to
    then conn_of bus type_bt
    else none

unfoldable pub send_msg_to : Bus → List ℕ → Option (List ℕ) → Option (List ℕ) → Outcome Bus
send_msg_to bus to topic data_ =
    published topic data_ >>= λ parts. done (send_to bus (conn_named bus to) parts)
