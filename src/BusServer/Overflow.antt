-- ===== src/BusServer/Overflow.antt =====
-- busserver.c: the buffer of 1024 bytes that a topic is copied to.
use jklibs.Common.{ℕ, suc, ◌<◌, ◌≡◌, refl, some, true, List, [], ◌∷◌, ◌++◌, ltb, arith, length}
use jklibs.Common.Outcome.{fault}
use jklibs.Common.Text.{codes}
use jklibs.BusServer.Parse.{Mbuf, part_is, eq_within, multipart_bytes, type_of}
use jklibs.BusServer.Parts.{part_in, parts_in}
use jklibs.BusServer.Receive.{topic_text}
use jklibs.BusServer.Loop.{recv_loop-fault}
use jklibs.BusServer.Server.{Bus, publish, handle_publish, handle_multipart_msg, receive}

topic_text-long :
    (topic rest : List ℕ) → 1024 < length topic → topic_text (part_in topic rest) ≡ fault
unfolding topic_text
topic_text-long topic rest h =
    let long : ltb 1024 (length topic) ≡ true = ground arith in rw long refl

handle_publish-long :
    (bus : Bus) (topic data_ rest : List ℕ)
    → 1024 < length topic
    → handle_publish bus (parts_in (publish topic data_) rest) ≡ fault
unfolding handle_publish
handle_publish-long bus topic data_ rest h =
    rw (topic_text-long topic (multipart_bytes (data_ ∷ []) ++ rest) h) refl

-- A message that publishes a topic of more than 1024 bytes, from any peer and whether a callback is
-- set or not, makes the server write behind a buffer of its stack.
pub receive-overflow :
    (mbuf_remove : ℕ → Mbuf → Mbuf) (fuel : ℕ) (bus : Bus) (nc : ℕ) (topic data_ rest : List ℕ)
    (io : Mbuf)
    → 1024 < length topic
    → io.bytes ≡ multipart_bytes (publish topic data_) ++ rest
    → receive mbuf_remove (suc fuel) bus nc io ≡ fault
unfolding receive handle_multipart_msg part_is eq_within type_of
receive-overflow mbuf_remove fuel bus nc topic data_ rest io long e =
    recv_loop-fault mbuf_remove (handle_multipart_msg nc) fuel (codes "publish")
      (topic ∷ (data_ ∷ [])) io rest 0 (record bus { conn = some nc }) (omega arith) e refl
      (handle_publish-long (record bus { conn = some nc }) topic data_ (rest ++ io.behind) long)
