-- ===== src/BusServer/Named.antt =====
-- busserver_ex.c: the client, which joins under its name. (The parser, the sending of parts and the
-- loop are those of busserver.c.)
use jklibs.Common.{ℕ, Bool, List, [], ◌∷◌, ◌++◌, Option, none, some, ◌==◌, if◌then◌else◌, take}
use jklibs.Common.Int.{ℤ, pos, negsuc}
use jklibs.Common.Outcome.{Outcome, done, err, fault, ◌>>=◌}
use jklibs.Common.Text.{codes}
use jklibs.BusServer.Parse.{BcStr, Mbuf, part_is, bytes_of, multipart_bytes}
use jklibs.BusServer.Receive.{Event, sent, called, part_of, topic_text, recv_loop}
use jklibs.BusServer.Server.{publish}
use jklibs.BusServer.Client.{request, ClientEv, ev_connect, ev_recv, ev_close, ev_other}

-- struct _CMBusclient, and what was done to the outside. The texts end in their buffers of 32 and of
-- 64 bytes.
pub record NamedClient : Type 0 where
  pub name : List ℕ
  pub addr : List ℕ
  pub port : ℕ
  pub conn : Option ℕ
  pub exit : ℕ
  pub cb : Bool
  pub events : List Event

-- cm_busclient_init: `fresh` is what malloc gives; nothing writes the last byte of a text, the
-- connection and the exit flag.
unfoldable pub busclient_init :
    Option NamedClient → List ℕ → List ℕ → ℕ → Bool → Outcome NamedClient
busclient_init none from addr port cb = err 1
busclient_init (some fresh) from addr port cb =
    done (record fresh { name = take 31 from; addr = take 63 addr; port = port; cb = cb })

unfoldable pub handle_publish_to : NamedClient → List BcStr → Outcome NamedClient
handle_publish_to cc parts =
    if cc.cb
    then (part_of parts 1 >>= λ topic. topic_text topic >>= λ text. part_of parts 2 >>= λ data_.
        done (record cc { events = cc.events ++ (called text (bytes_of data_) (data_.len) ∷ []) }))
    else done cc

-- handle_multipart_msg_client
unfoldable pub handle_msg_client : NamedClient → List BcStr → Outcome NamedClient
handle_msg_client cc parts = part_of parts 0 >>= λ what.
    if part_is what (codes "request")
    then done cc
    else if part_is what (codes "publish")
    then handle_publish_to cc parts
    else done cc

unfoldable pub send_over : NamedClient → Option ℕ → List (List ℕ) → NamedClient
send_over cc none parts = cc
send_over cc (some c) parts = record cc {
  events = cc.events ++ (sent c (multipart_bytes parts) ∷ []);
}

-- cm_busclient_send_request and cm_busclient_send_msg; without a client they return -1, and both texts
-- go through strlen.
unfoldable pub send_request_named :
    Option NamedClient → Option (List ℕ) → Option (List ℕ) → Outcome NamedClient
send_request_named none topic data_ = err 1
send_request_named (some cc) (some topic) (some data_) =
    done (send_over cc (cc.conn) (request topic data_))
send_request_named (some cc) _ _ = fault

unfoldable pub send_msg_named :
    Option NamedClient → Option (List ℕ) → Option (List ℕ) → Outcome NamedClient
send_msg_named none topic data_ = err 1
send_msg_named (some cc) (some topic) (some data_) =
    done (send_over cc (cc.conn) (publish topic data_))
send_msg_named (some cc) _ _ = fault

handled : Outcome (Option (NamedClient × Mbuf)) → Outcome (Option NamedClient)
handled (done none) = done none
handled (done (some (cc, io))) = done (some cc)
handled (err n) = err n
handled fault = fault

-- ev_handler_client; `none` means that the fuel of the loop over the received messages ran out.
unfoldable pub ev_handler_named :
    (ℕ → Mbuf → Mbuf) → ℕ → NamedClient → ClientEv → Outcome (Option NamedClient)
unfolding handled
ev_handler_named mbuf_remove fuel cc (ev_connect nc) =
    send_request_named (some (record cc { conn = some nc })) (some (codes "/bus/join"))
      (some (cc.name))
    >>= λ next. done (some next)
ev_handler_named mbuf_remove fuel cc (ev_recv io) =
    handled (recv_loop mbuf_remove handle_msg_client fuel io 0 cc)
ev_handler_named mbuf_remove fuel cc ev_close = done (some (record cc { exit = 2 }))
ev_handler_named mbuf_remove fuel cc ev_other = done (some cc)

-- The end of cm_busclient_connect.
abbrev pub connect_ends : NamedClient → ℤ × NamedClient
connect_ends cc = (if cc.exit == 2 then negsuc 1 else pos 0, record cc { exit = 0 })

-- while (!cc->iExit), over what the polls report; `none` while the loop still waits.
unfoldable pub poll_named :
    (ℕ → Mbuf → Mbuf) → ℕ → NamedClient → List ClientEv → Outcome (Option (ℤ × NamedClient))
poll_named mbuf_remove fuel cc [] = done (if cc.exit == 0 then none else some (connect_ends cc))
poll_named mbuf_remove fuel cc (ev ∷ evs) =
    let more = ev_handler_named mbuf_remove fuel cc ev >>= λ next. elim next [
      | none ↦ done none
      | some cc ↦ poll_named mbuf_remove fuel cc evs
    ] in
    if cc.exit == 0 then more else done (some (connect_ends cc))

-- cm_busclient_connect; `connection` is what mg_connect returns.
unfoldable pub connect_named :
    (ℕ → Mbuf → Mbuf)
    → ℕ
    → NamedClient
    → Option ℕ
    → List ClientEv
    → Outcome (Option (ℤ × NamedClient))
connect_named mbuf_remove fuel cc none evs = done (some (negsuc 0, record cc { conn = none }))
connect_named mbuf_remove fuel cc (some nc) evs =
    poll_named mbuf_remove fuel (record cc { conn = some nc }) evs
