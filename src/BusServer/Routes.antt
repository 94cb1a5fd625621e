-- ===== src/BusServer/Routes.antt =====
-- A program that joins the server is reached under its name.
use jklibs.Common.{
  ℕ, zero, suc, ◌<◌, ◌≡◌, refl, ◌≢◌, ◌∙◌, ap, sym, List, [], ◌∷◌, ◌++◌, Option, some, arith, length,
}
use jklibs.Common.Outcome.{done}
use jklibs.Common.Text.{codes}
use jklibs.BusServer.Parse.{Mbuf, part_is, eq_within, multipart_bytes, type_of}
use jklibs.BusServer.Parts.{part_in, parts_in}
use jklibs.BusServer.Receive.{sent}
use jklibs.BusServer.Loop.{recv_loop-last}
use jklibs.BusServer.Removal.{Moves}
use jklibs.BusServer.Server.{
  BusClient, Bus, publish, response, multipart_send, joins_as, join, join_as, bus_client_set_conn,
  set_client, conn_at, conn_of, conn_named, send_msg_to, send_to, handle_request,
  handle_multipart_msg, receive, type_sctek, type_dlna, type_bt, type_btavk, type_aispeech,
}
use jklibs.BusServer.Client.{request}

-- The programs that the server knows.
pub data Program : Type 0 where
  sctek dlna bt btavk aispeech : Program

abbrev pub name_of : Program → List ℕ
name_of sctek = codes "sctek"
name_of dlna = codes "dlna"
name_of bt = codes "bt"
name_of btavk = codes "btavk"
name_of aispeech = codes "aispeech"

abbrev pub place_of : Program → ℕ
place_of sctek = type_sctek
place_of dlna = type_dlna
place_of bt = type_bt
place_of btavk = type_btavk
place_of aispeech = type_aispeech

joins_as-name :
    (who : Program) (rest : List ℕ) → joins_as (part_in (name_of who) rest) ≡ some (place_of who)
unfolding joins_as part_is eq_within
joins_as-name sctek rest = refl
joins_as-name dlna rest = refl
joins_as-name bt rest = refl
joins_as-name btavk rest = refl
joins_as-name aispeech rest = refl

conn_named-name :
    (who : Program) (bus : Bus) → conn_named bus (name_of who) ≡ conn_of bus (place_of who)
unfolding conn_named
conn_named-name sctek bus = refl
conn_named-name dlna bus = refl
conn_named-name bt bus = refl
conn_named-name btavk bus = refl
conn_named-name aispeech bus = refl

conn_at-set_client :
    (clients : List BusClient) (i : ℕ) (conn : Option ℕ)
    → i < length clients
    → conn_at (set_client clients i conn) i ≡ conn
conn_at-set_client [] i conn h = absurd (omega arith)
conn_at-set_client (c ∷ clients) zero conn h = refl
conn_at-set_client (c ∷ clients) (suc i) conn h = conn_at-set_client clients i conn (omega arith)

conn_at_other :
    (clients : List BusClient) (i j : ℕ) (conn : Option ℕ)
    → i ≢ j
    → conn_at (set_client clients i conn) j ≡ conn_at clients j
conn_at_other [] i j conn h = refl
conn_at_other (c ∷ clients) zero zero conn h = absurd (h refl)
conn_at_other (c ∷ clients) zero (suc j) conn h = refl
conn_at_other (c ∷ clients) (suc i) zero conn h = refl
conn_at_other (c ∷ clients) (suc i) (suc j) conn h = conn_at_other clients i j conn (omega arith)

place_of-lt : (who : Program) → place_of who < 5
place_of-lt sctek = omega arith
place_of-lt dlna = omega arith
place_of-lt bt = omega arith
place_of-lt btavk = omega arith
place_of-lt aispeech = omega arith

-- The server's table with a program's connection in its place.
abbrev pub joined : Bus → Program → ℕ → Bus
joined bus who nc = record bus {
  bus_clients = set_client (bus.bus_clients) (place_of who) (some nc);
}

join_as-place :
    (who : Program) (bus : Bus) (nc : ℕ) → join_as bus nc (some (place_of who)) ≡ joined bus who nc
unfolding bus_client_set_conn
join_as-place sctek bus nc = refl
join_as-place dlna bus nc = refl
join_as-place bt bus nc = refl
join_as-place btavk bus nc = refl
join_as-place aispeech bus nc = refl

join-name :
    (who : Program) (bus : Bus) (nc : ℕ) (rest : List ℕ)
    → join bus nc (part_in (name_of who) rest) ≡ joined bus who nc
unfolding join
join-name who bus nc rest = ap (join_as bus nc) (joins_as-name who rest) ∙ join_as-place who bus nc

place_of-injective : (a b : Program) → place_of a ≡ place_of b → a ≡ b
place_of-injective sctek sctek e = refl
place_of-injective sctek dlna e = absurd (omega arith)
place_of-injective sctek bt e = absurd (omega arith)
place_of-injective sctek btavk e = absurd (omega arith)
place_of-injective sctek aispeech e = absurd (omega arith)
place_of-injective dlna sctek e = absurd (omega arith)
place_of-injective dlna dlna e = refl
place_of-injective dlna bt e = absurd (omega arith)
place_of-injective dlna btavk e = absurd (omega arith)
place_of-injective dlna aispeech e = absurd (omega arith)
place_of-injective bt sctek e = absurd (omega arith)
place_of-injective bt dlna e = absurd (omega arith)
place_of-injective bt bt e = refl
place_of-injective bt btavk e = absurd (omega arith)
place_of-injective bt aispeech e = absurd (omega arith)
place_of-injective btavk sctek e = absurd (omega arith)
place_of-injective btavk dlna e = absurd (omega arith)
place_of-injective btavk bt e = absurd (omega arith)
place_of-injective btavk btavk e = refl
place_of-injective btavk aispeech e = absurd (omega arith)
place_of-injective aispeech sctek e = absurd (omega arith)
place_of-injective aispeech dlna e = absurd (omega arith)
place_of-injective aispeech bt e = absurd (omega arith)
place_of-injective aispeech btavk e = absurd (omega arith)
place_of-injective aispeech aispeech e = refl

handle_multipart_msg-join :
    (who : Program) (bus : Bus) (nc : ℕ) (rest : List ℕ)
    → handle_multipart_msg nc bus (parts_in (request (codes "/bus/join") (name_of who)) rest)
      ≡ done (multipart_send (joined bus who nc) nc response)
unfolding handle_multipart_msg handle_request part_is eq_within
handle_multipart_msg-join who bus nc rest =
    ap (λ b. done (multipart_send b nc response))
      (join-name who bus nc (multipart_bytes [] ++ rest))

-- What joins under a program's name gets an answer, and then every message to that name, and the messages to the other
-- names go where they went.
pub receive-join :
    (mbuf_remove : ℕ → Mbuf → Mbuf) (fuel : ℕ) (bus : Bus) (nc : ℕ) (who : Program) (io : Mbuf)
    (topic data_ : List ℕ)
    → Moves mbuf_remove
    → length (bus.bus_clients) ≡ 5
    → io.bytes ≡ multipart_bytes (request (codes "/bus/join") (name_of who))
    → (after : Bus) × (left : Mbuf) × (receive mbuf_remove (suc (suc fuel)) bus nc io
        ≡ done (some (after, left)))
      × (after.events ≡ bus.events ++ (sent nc (multipart_bytes response) ∷ []))
      × (send_msg_to after (name_of who) (some topic) (some data_)
          ≡ done (multipart_send after nc (publish topic data_)))
      × ((other : Program)
          → other ≢ who
          → conn_named after (name_of other) ≡ conn_named bus (name_of other))
unfolding receive send_msg_to multipart_send type_of send_to
receive-join mbuf_remove fuel bus nc who io topic data_ moves five e =
    let start : Bus = record bus { conn = some nc } in
    let after = multipart_send (joined start who nc) nc response in
    let (left, _, ends) =
      recv_loop-last mbuf_remove (handle_multipart_msg nc) moves fuel (codes "request")
        (codes "/bus/join" ∷ (name_of who ∷ [])) io 0 start after (omega arith) (omega arith) e refl
        (handle_multipart_msg-join who start nc (io.behind)) in
    let reached =
      conn_named-name who after
      ∙ conn_at-set_client (bus.bus_clients) (place_of who) (some nc)
          (omega (arith, place_of-lt who)) in
    (
      after,
      left,
      ends,
      refl,
      ap (λ c. done (send_to after c (publish topic data_))) reached,
      λ other different.
          conn_named-name other after
          ∙ (conn_at_other (bus.bus_clients) (place_of who) (place_of other) (some nc)
                (λ same. different (sym (place_of-injective who other same)))
              ∙ sym (conn_named-name other bus)),
    )
