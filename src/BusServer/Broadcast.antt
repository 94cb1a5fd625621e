-- ===== src/BusServer/Broadcast.antt =====
-- A broadcast reaches what has joined.
use jklibs.Common.{
  ℕ, ◌≡◌, refl, ◌∙◌, ap, sym, List, [], ◌∷◌, ◌++◌, Option, none, some, map, append_assoc,
  append-nil,
}
use jklibs.Common.Outcome.{done, err, fault}
use jklibs.BusServer.Parse.{multipart_bytes}
use jklibs.BusServer.Receive.{Event, sent}
use jklibs.BusServer.Server.{BusClient, Bus, publish, multipart_send, send_each, send_to, broadcast}

-- The connections among the places of the table, in their order.
abbrev pub connections : List (Option ℕ) → List ℕ
connections [] = []
connections (none ∷ places) = connections places
connections (some c ∷ places) = c ∷ connections places

abbrev pub places : Bus → List (Option ℕ)
places bus = map (λ c. c.conn) (bus.bus_clients)

abbrev pub sent_all : List ℕ → List (List ℕ) → List Event
sent_all conns parts = map (λ c. sent c (multipart_bytes parts)) conns

abbrev pub with_events : Bus → List Event → Bus
with_events bus more = record bus { events = bus.events ++ more }

send_to-connections :
    (place : Option ℕ) (rest : List (Option ℕ)) (bus : Bus) (parts : List (List ℕ)) (go : Bus → Bus)
    → ((bus : Bus) → go bus ≡ with_events bus (sent_all (connections rest) parts))
    → go (send_to bus place parts) ≡ with_events bus (sent_all (connections (place ∷ rest)) parts)
unfolding send_to multipart_send
send_to-connections none rest bus parts go later = later bus
send_to-connections (some c) rest bus parts go later =
    later (multipart_send bus c parts)
    ∙ ap (λ e. record bus { events = e })
        (append_assoc (bus.events) (sent c (multipart_bytes parts) ∷ [])
          (sent_all (connections rest) parts))

send_each-connections :
    (clients : List BusClient) (bus : Bus) (parts : List (List ℕ))
    → send_each bus clients parts
      ≡ with_events bus (sent_all (connections (map (λ c. c.conn) clients)) parts)
unfolding send_each
send_each-connections [] bus parts =
    ap (λ e. record bus { events = e }) (sym (append-nil (bus.events)))
send_each-connections (client ∷ clients) bus parts =
    send_to-connections (client.conn) (map (λ c. c.conn) clients) bus parts
      (λ b. send_each b clients parts) (λ b. send_each-connections clients b parts)

-- A broadcast writes the message once to the connection of every place of the table that has one, in
-- the order of the table, and nothing else; without a topic it is refused, and without data it reads
-- through a NULL pointer.
pub broadcast-connections :
    (bus : Bus) (topic data_ : List ℕ) (any : Option (List ℕ))
    → (broadcast bus (some topic) (some data_)
        ≡ done (with_events bus (sent_all (connections (places bus)) (publish topic data_))))
      × (broadcast bus none any ≡ err 1)
      × (broadcast bus (some topic) none ≡ fault)
unfolding broadcast
broadcast-connections bus topic data_ any =
    (ap done (send_each-connections (bus.bus_clients) bus (publish topic data_)), refl, refl)
