-- ===== src/BusServer/Client.antt =====
-- busserver.c: the client of one process.
use jklibs.Common.{
  ℕ, Bool, List, [], ◌∷◌, ◌++◌, Option, none, some, ◌==◌, if◌then◌else◌, length, take,
}
use jklibs.Common.Int.{ℤ, pos, negsuc}
use jklibs.Common.Outcome.{Outcome, done, err, fault, ◌>>=◌}
use jklibs.Common.Text.{codes}
use jklibs.BusServer.Parse.{BcStr, Mbuf, part_is, bytes_of, multipart_bytes}
use jklibs.BusServer.Receive.{Event, sent, called, part_of, topic_text, recv_loop}
use jklibs.BusServer.Server.{publish}

-- The variables of the file, whether a callback is set, and what was done to the outside.
pub record Client : Type 0 where
  pub conn_client : Option ℕ
  pub i_client_exit : ℕ
  pub client_cb : Bool
  pub bus_client_id : List ℕ
  pub events : List Event

unfoldable pub handle_publish_client : Client → List BcStr → Outcome Client
handle_publish_client client parts =
    if client.client_cb
    then (part_of parts 1 >>= λ topic. topic_text topic >>= λ text. part_of parts 2 >>= λ data_.
        done (record client {
          events = client.events ++ (called text (bytes_of data_) (data_.len) ∷ []);
        }))
    else done client

unfoldable pub handle_multipart_msg_client : Client → List BcStr → Outcome Client
handle_multipart_msg_client client parts = part_of parts 0 >>= λ what.
    if part_is what (codes "request")
    then done client
    else if part_is what (codes "publish")
    then handle_publish_client client parts
    else done client

abbrev pub request : List ℕ → List ℕ → List (List ℕ)
request topic data_ = codes "request" ∷ (topic ∷ (data_ ∷ []))

-- Without a connection nothing is sent.
unfoldable pub send_on : Client → Option ℕ → List (List ℕ) → Client
send_on client none parts = client
send_on client (some c) parts = record client {
  events = client.events ++ (sent c (multipart_bytes parts) ∷ []);
}

-- Both texts go through strlen.
unfoldable pub busclient_send_request : Client → Option (List ℕ) → Option (List ℕ) → Outcome Client
busclient_send_request client (some topic) (some data_) =
    done (send_on client (client.conn_client) (request topic data_))
busclient_send_request client _ _ = fault

unfoldable pub busclient_send_msg : Client → Option (List ℕ) → Option (List ℕ) → Outcome Client
busclient_send_msg client (some topic) (some data_) =
    done (send_on client (client.conn_client) (publish topic data_))
busclient_send_msg client _ _ = fault

-- What the library reports of a connection.
pub data ClientEv : Type 0 where
  ev_connect : ℕ → ClientEv
  ev_recv : Mbuf → ClientEv
  ev_close : ClientEv
  ev_other : ClientEv

-- A name that fills its buffer has no NUL behind it.
abbrev pub id_text : List ℕ → Outcome (List ℕ)
id_text id = if length id == 64 then fault else done id

unfoldable pub received : Outcome (Option (Client × Mbuf)) → Outcome (Option Client)
received (done none) = done none
received (done (some (client, io))) = done (some client)
received (err n) = err n
received fault = fault

-- `none` means that the fuel of the loop over the received messages ran out.
unfoldable pub ev_handler_client :
    (ℕ → Mbuf → Mbuf) → ℕ → Client → ClientEv → Outcome (Option Client)
ev_handler_client mbuf_remove fuel client (ev_connect nc) = id_text (client.bus_client_id) >>= λ id.
    busclient_send_request (record client { conn_client = some nc }) (some (codes "/bus/join"))
      (some id)
    >>= λ next. done (some next)
ev_handler_client mbuf_remove fuel client (ev_recv io) =
    received (recv_loop mbuf_remove handle_multipart_msg_client fuel io 0 client)
ev_handler_client mbuf_remove fuel client ev_close =
    done (some (record client { i_client_exit = 2 }))
ev_handler_client mbuf_remove fuel client ev_other = done (some client)

-- while (!iClientExit), over what the polls report; `none` while the loop still waits.
unfoldable pub poll_client :
    (ℕ → Mbuf → Mbuf) → ℕ → Client → List ClientEv → Outcome (Option (ℤ × Client))
poll_client mbuf_remove fuel client [] = done (
    if client.i_client_exit == 0
    then none
    else some (if client.i_client_exit == 2 then pos 1 else negsuc 0, client))
poll_client mbuf_remove fuel client (ev ∷ evs) =
    let more = ev_handler_client mbuf_remove fuel client ev >>= λ next. elim next [
      | none ↦ done none
      | some client ↦ poll_client mbuf_remove fuel client evs
    ] in
    if client.i_client_exit == 0
    then more
    else done (some (if client.i_client_exit == 2 then pos 1 else negsuc 0, client))

-- `connection` is what mg_connect returns.
unfoldable pub busclient_connect :
    (ℕ → Mbuf → Mbuf)
    → ℕ
    → Client
    → List ℕ
    → Option ℕ
    → Bool
    → List ClientEv
    → Outcome (Option (ℤ × Client))
busclient_connect mbuf_remove fuel client id none cb evs =
    done (some (negsuc 0, record client { bus_client_id = take 64 id; conn_client = none }))
busclient_connect mbuf_remove fuel client id (some nc) cb evs =
    poll_client mbuf_remove fuel
      (record client {
        bus_client_id = take 64 id;
        conn_client = some nc;
        client_cb = cb;
        i_client_exit = 0;
      })
      evs
