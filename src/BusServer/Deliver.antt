-- ===== src/BusServer/Deliver.antt =====
-- What is published reaches the user's callback: the topic and the data of every message, in the
-- order of sending.
use jklibs.Common.{
  ℕ, suc, ◌+◌, ◌<◌, ◌≡◌, ◌∙◌, ap, sym, true, List, [], ◌∷◌, ◌++◌, some, length, map, append_assoc,
  append-nil,
}
use jklibs.Common.Outcome.{done}
use jklibs.Common.Text.{NoNul}
use jklibs.BusServer.Parse.{Mbuf, part_is, eq_within, multipart_bytes}
use jklibs.BusServer.Parts.{parts_in}
use jklibs.BusServer.Removal.{Moves}
use jklibs.BusServer.Server.{Bus, handle_multipart_msg, handle_publish, call_user, receive}
use jklibs.BusServer.Notes.{
  Note, note_parts, notes_bytes, Fits, call_of, topic_text-part, bytes_of-part, delivered, Handles,
  recv_loop-all,
}

abbrev pub deliver_note : Bus → Note → Bus
deliver_note bus note = record bus { events = bus.events ++ (call_of note ∷ []) }

handle_publish-note :
    (bus : Bus) (note : Note) (rest : List ℕ)
    → bus.user_cb ≡ true
    → NoNul (note.topic)
    → length (note.topic) < 1024
    → handle_publish bus (parts_in (note_parts note) rest) ≡ done (deliver_note bus note)
unfolding handle_publish call_user
handle_publish-note bus note rest set n h =
    let topic = topic_text-part (note.topic) (multipart_bytes (note.content ∷ []) ++ rest) n h in
    let content = bytes_of-part (note.content) (multipart_bytes [] ++ rest) in
    simp (topic, set, content)

handle_multipart_msg-note :
    (nc : ℕ) (bus : Bus) (note : Note) (rest : List ℕ)
    → bus.user_cb ≡ true
    → NoNul (note.topic)
    → length (note.topic) < 1024
    → handle_multipart_msg nc bus (parts_in (note_parts note) rest) ≡ done (deliver_note bus note)
unfolding handle_multipart_msg part_is eq_within
handle_multipart_msg-note nc bus note rest set n h = handle_publish-note bus note rest set n h

abbrev pub deliver_notes : Bus → List Note → Bus
deliver_notes bus notes = record bus { events = bus.events ++ map call_of notes }

delivered-notes :
    (bus : Bus) (notes : List Note) → delivered deliver_note bus notes ≡ deliver_notes bus notes
delivered-notes bus [] = ap (λ e. record bus { events = e }) (sym (append-nil (bus.events)))
delivered-notes bus (note ∷ notes) =
    delivered-notes (deliver_note bus note) notes
    ∙ ap (λ e. record bus { events = e })
        (append_assoc (bus.events) (call_of note ∷ []) (map call_of notes))

server_Handles :
    (mbuf_remove : ℕ → Mbuf → Mbuf) (nc : ℕ)
    → Handles mbuf_remove (handle_multipart_msg nc) deliver_note (λ b. b.user_cb ≡ true)
server_Handles mbuf_remove nc bus note rest set n h =
    (handle_multipart_msg-note nc bus note rest set n h, set)

-- The server is sent notes over a connection, and every byte of them was received: the callback is
-- called with the topic and the data of each in order, the loop returns, and no byte is left.
pub receive-notes :
    (mbuf_remove : ℕ → Mbuf → Mbuf) (fuel : ℕ) (bus : Bus) (nc : ℕ) (note : Note)
    (notes : List Note) (io : Mbuf)
    → Moves mbuf_remove
    → bus.user_cb ≡ true
    → Fits (note ∷ notes)
    → io.bytes ≡ notes_bytes (note ∷ notes)
    → (left : Mbuf) × (left.bytes ≡ [])
      × (receive mbuf_remove (length (note ∷ notes) + suc fuel) bus nc io
          ≡ done (some (deliver_notes (record bus { conn = some nc }) (note ∷ notes), left)))
unfolding receive
receive-notes mbuf_remove fuel bus nc note notes io moves set fits e =
    let start : Bus = record bus { conn = some nc } in
    let (left, none_left, ends) =
      recv_loop-all mbuf_remove (handle_multipart_msg nc) deliver_note (λ b. b.user_cb ≡ true) moves
        (server_Handles mbuf_remove nc) fuel note notes io 0 start set fits e in
    (left, none_left, ends ∙ ap (λ b. done (some (b, left))) (delivered-notes start (note ∷ notes)))
