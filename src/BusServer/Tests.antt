-- ===== src/BusServer/Tests.antt =====
-- Messages between a server and its clients on concrete bytes: the theorems at examples.
use jklibs.Common.{
  ℕ, ◌+◌, ◌≡◌, ◌≢◌, refl, true, List, [], ◌∷◌, ◌++◌, none, some, arith, length, replicate,
  length-replicate,
}
use jklibs.Common.Int.{negsuc}
use jklibs.Common.Outcome.{done, err, fault}
use jklibs.Common.Text.{codes}
use jklibs.BusServer.Parse.{Mbuf, type_of, parse_multipart_msg, multipart_bytes, crlf}
use jklibs.BusServer.Framing.{parse_multipart_msg-bytes}
use jklibs.BusServer.Parts.{parts_in}
use jklibs.BusServer.Receive.{sent}
use jklibs.BusServer.Server.{
  Bus, publish, response, multipart_send, bus_client_init, receive, broadcast, conn_named,
  send_msg_to,
}
use jklibs.BusServer.Client.{Client, request, ev_recv, ev_connect, ev_close, ev_handler_client}
use jklibs.BusServer.Deliver.{deliver_notes}
use jklibs.BusServer.Routes.{Program, btavk, name_of, receive-join}
use jklibs.BusServer.Broadcast.{places, connections, sent_all, with_events, broadcast-connections}
use jklibs.BusServer.Relay.{written, send_notes, after_notes, relay}
use jklibs.BusServer.Registry.{Server, set_conn_named, close_conn, conn_to, receive_named}
use jklibs.BusServer.Leaving.{close_conn-join}
use jklibs.BusServer.Named.{NamedClient, connect_named}
use jklibs.BusServer.Sessions.{session}
use jklibs.BusServer.Notes.{notes_bytes}
use jklibs.BusServer.Answers.{take_notes, ev_handler_client-notes}
use jklibs.BusServer.Overflow.{receive-overflow}
use jklibs.BusServer.Runs.{mbuf_remove, mbuf_remove-Moves, quiet, bus, note, holding}

parse_multipart_msg-bytes_example :
    parse_multipart_msg
      (record {
        bytes = multipart_bytes (codes "publish" ∷ ([] ∷ [])) ++ (55 ∷ []);
        behind = 0 ∷ [];
      })
      0
    ≡ done (
        some (record {
          parts = parts_in (codes "publish" ∷ ([] ∷ [])) (55 ∷ (0 ∷ []));
          type =
              type_of
                (codes "publish" ++ (crlf ++ (multipart_bytes ([] ∷ []) ++ (55 ∷ (0 ∷ [])))))
                0;
          size = length (multipart_bytes (codes "publish" ∷ ([] ∷ [])));
        }))
parse_multipart_msg-bytes_example =
    parse_multipart_msg-bytes (codes "publish") ([] ∷ []) (55 ∷ []) (0 ∷ []) 0 (omega arith)

abbrev client : Client
client = record {
  conn_client = some 8;
  i_client_exit = 0;
  client_cb = true;
  bus_client_id = codes "bt";
  events = [];
}

relay_example :
    (send_notes client (note ∷ []) ≡ done (after_notes client 8 (note ∷ [])))
    × (left : Mbuf) × (left.bytes ≡ [])
    × (receive mbuf_remove
          (length (note ∷ []) + 1)
          quiet
          3
          (holding (written 8 ((after_notes client 8 (note ∷ [])).events)))
        ≡ done (some (deliver_notes (record quiet { conn = some 3 }) (note ∷ []), left)))
relay_example =
    relay mbuf_remove 0 client 8 quiet 3 note []
      (holding (written 8 ((after_notes client 8 (note ∷ [])).events))) mbuf_remove-Moves refl refl
      refl
      (
        (
          (omega arith, (omega arith, (omega arith, (omega arith, (omega arith, tt))))),
          omega arith,
        ),
        tt,
      )
      refl

receive-join_example :
    (after : Bus) × (left : Mbuf) × (receive mbuf_remove 2 bus 3
        (holding (multipart_bytes (request (codes "/bus/join") (name_of btavk))))
      ≡ done (some (after, left)))
    × (after.events ≡ bus.events ++ (sent 3 (multipart_bytes response) ∷ []))
    × (send_msg_to after (name_of btavk) (some (codes "/t")) (some (codes "d"))
        ≡ done (multipart_send after 3 (publish (codes "/t") (codes "d"))))
    × ((other : Program)
        → other ≢ btavk
        → conn_named after (name_of other) ≡ conn_named bus (name_of other))
unfolding bus bus_client_init
receive-join_example =
    receive-join mbuf_remove 0 bus 3 btavk
      (holding (multipart_bytes (request (codes "/bus/join") (name_of btavk)))) (codes "/t")
      (codes "d") mbuf_remove-Moves refl refl

abbrev two_places : Bus
two_places = record quiet {
  bus_clients =
      record { type = 0; port = 50001; conn = some 4 }
      ∷ (record { type = 1; port = 50002; conn = none } ∷ []);
}

broadcast-connections_example :
    (broadcast two_places (some (codes "/t")) (some [])
      ≡ done (
          with_events two_places
            (sent_all (connections (places two_places)) (publish (codes "/t") []))))
    × (broadcast two_places none none ≡ err 1)
    × (broadcast two_places (some (codes "/t")) none ≡ fault)
broadcast-connections_example = broadcast-connections two_places (codes "/t") [] none

abbrev registry : Server
registry = record {
  port = 0;
  clients =
      record { name = codes "demo"; conn = some 4 } ∷ (record { name = []; conn = none } ∷ []);
  cb = true;
  events = [];
}

close_conn-join_example : close_conn (set_conn_named registry (codes "other") 7) 7 ≡ registry
close_conn-join_example = close_conn-join registry (codes "other") 7 refl

abbrev named : NamedClient
named = record {
  name = codes "x";
  addr = codes "0.0.0.0";
  port = 50001;
  conn = none;
  exit = 0;
  cb = true;
  events = [];
}

session_example :
    (connect_named mbuf_remove 0 named (some 8) (ev_connect 8 ∷ (ev_close ∷ []))
      ≡ done (
          some (
            negsuc 1,
            record named {
              conn = some 8;
              exit = 0;
              events =
                  named.events
                  ++ (sent 8 (multipart_bytes (request (codes "/bus/join") (codes "x"))) ∷ []);
            },
          )))
    × (after : Server) × (left : Mbuf) × (receive_named mbuf_remove 2 registry 7
          (holding (multipart_bytes (request (codes "/bus/join") (codes "x"))))
        ≡ done (some (after, left)))
    × (after.events ≡ registry.events ++ (sent 7 (multipart_bytes response) ∷ []))
    × (conn_to (after.clients) (codes "x") ≡ some 7)
session_example =
    session mbuf_remove 0 named 8 registry 7 120 []
      (holding (multipart_bytes (request (codes "/bus/join") (codes "x")))) mbuf_remove-Moves refl
      refl (omega arith, tt) (omega arith) refl refl

abbrev long_topic : List ℕ
long_topic = replicate 2000 97

receive-overflow_example :
    receive mbuf_remove 1 quiet 3 (holding (multipart_bytes (publish long_topic []) ++ [])) ≡ fault
receive-overflow_example =
    receive-overflow mbuf_remove 0 quiet 3 long_topic [] []
      (holding (multipart_bytes (publish long_topic []) ++ []))
      (omega (arith, length-replicate {A = ℕ} 2000 97)) refl

ev_handler_client-notes_example :
    ev_handler_client mbuf_remove
      (length (note ∷ []) + 1)
      client
      (ev_recv (holding (notes_bytes (note ∷ []))))
    ≡ done (some (take_notes client (note ∷ [])))
ev_handler_client-notes_example =
    ev_handler_client-notes mbuf_remove 0 client note [] (holding (notes_bytes (note ∷ [])))
      mbuf_remove-Moves refl
      (
        (
          (omega arith, (omega arith, (omega arith, (omega arith, (omega arith, tt))))),
          omega arith,
        ),
        tt,
      )
      refl
