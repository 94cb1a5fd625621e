-- ===== src/BusServer/Sessions.antt =====
-- busserver_ex.c: the client's session with the server, from the connection to its end.
use jklibs.Common.{
  ℕ, suc, ◌≡◌, refl, ◌∙◌, ap, true, false, List, [], ◌∷◌, ◌++◌, some, arith, ◌==◌, ltb, length, ◌<◌,
  take_append_n,
}
use jklibs.Common.Int.{negsuc}
use jklibs.Common.Outcome.{done}
use jklibs.Common.Text.{codes, NoNul, until_nul, until_nul_self}
use jklibs.BusServer.Parse.{Mbuf, multipart_bytes, part_is, eq_within, type_of}
use jklibs.BusServer.Parts.{part_in, parts_in}
use jklibs.BusServer.Receive.{sent}
use jklibs.BusServer.Loop.{recv_loop-last}
use jklibs.BusServer.Removal.{Moves}
use jklibs.BusServer.Server.{response}
use jklibs.BusServer.Client.{request, ev_connect, ev_close}
use jklibs.BusServer.Registry.{
  Server, answer, joined_name, set_conn_named, handle_msg_named, handle_request_named,
  receive_named, conn_to,
}
use jklibs.BusServer.Names.{has_room, conn_to-set_conn}
use jklibs.BusServer.Named.{
  NamedClient, connect_named, poll_named, ev_handler_named, send_request_named, send_over,
}

joined_name-part :
    (name rest : List ℕ)
    → NoNul name
    → length name < 32
    → joined_name (part_in name rest) ≡ done name
unfolding joined_name
joined_name-part name rest n h =
    let whole = take_append_n (length name) name (13 ∷ (10 ∷ rest)) refl in
    let text = ap until_nul whole ∙ until_nul_self name n in
    let few : ltb 32 (length name) ≡ false = ground arith in
    let other : (length name == 32) ≡ false = ground arith in rw (few, other, text) refl

handle_msg_named-join :
    (ss : Server) (nc : ℕ) (name rest : List ℕ)
    → NoNul name
    → length name < 32
    → handle_msg_named nc ss (parts_in (request (codes "/bus/join") name) rest)
      ≡ done (answer (set_conn_named ss name nc) nc)
unfolding handle_msg_named handle_request_named part_is eq_within
handle_msg_named-join ss nc name rest n h =
    rw (joined_name-part name (multipart_bytes [] ++ rest) n h) refl

-- A client of busserver_ex.c whose iExit is 0, which cm_busclient_init leaves to what the memory
-- held, connects, and the connection closes later: it has sent a request to join under its name,
-- it returns -2, and is ready to connect again; the server that receives the request answers it,
-- and reaches the client under its name. The name is not empty and below 32 bytes, and a place is
-- free or is under a name that begins with it.
pub session :
    (mbuf_remove : ℕ → Mbuf → Mbuf) (fuel : ℕ) (cc : NamedClient) (out : ℕ) (ss : Server) (nc c : ℕ)
    (text : List ℕ) (io : Mbuf)
    → Moves mbuf_remove
    → cc.exit ≡ 0
    → cc.name ≡ c ∷ text
    → NoNul (c ∷ text)
    → length (c ∷ text) < 32
    → has_room (ss.clients) (c ∷ text) ≡ true
    → io.bytes ≡ multipart_bytes (request (codes "/bus/join") (c ∷ text))
    → (connect_named mbuf_remove fuel cc (some out) (ev_connect out ∷ (ev_close ∷ []))
        ≡ done (
            some (
              negsuc 1,
              record cc {
                conn = some out;
                exit = 0;
                events =
                    cc.events
                    ++ (sent out (multipart_bytes (request (codes "/bus/join") (c ∷ text))) ∷ []);
              },
            )))
      × (after : Server) × (left : Mbuf) × (receive_named mbuf_remove (suc (suc fuel)) ss nc io
          ≡ done (some (after, left)))
      × (after.events ≡ ss.events ++ (sent nc (multipart_bytes response) ∷ []))
      × (conn_to (after.clients) (c ∷ text) ≡ some nc)
unfolding receive_named connect_named poll_named ev_handler_named send_request_named send_over
    type_of set_conn_named
session mbuf_remove fuel cc out ss nc c text io moves ready named n h room e =
    let after = answer (set_conn_named ss (c ∷ text) nc) nc in
    let (left, _, ends) =
      recv_loop-last mbuf_remove (handle_msg_named nc) moves fuel (codes "request")
        (codes "/bus/join" ∷ ((c ∷ text) ∷ [])) io 0 ss after (omega arith) (omega arith) e refl
        (handle_msg_named-join ss nc (c ∷ text) (io.behind) n h) in
    (simp (ready, named), after, left, ends, refl, conn_to-set_conn ss c text nc h room)
