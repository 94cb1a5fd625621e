-- ===== src/BusServer/Answers.antt =====
-- busserver.c: what the server sends to a client reaches the client's callback.
use jklibs.Common.{
  ℕ, suc, ◌+◌, ◌<◌, ◌≡◌, ◌∙◌, ap, sym, true, List, [], ◌∷◌, ◌++◌, some, map, length, append_assoc,
  append-nil,
}
use jklibs.Common.Outcome.{done}
use jklibs.Common.Text.{NoNul}
use jklibs.BusServer.Parse.{Mbuf, part_is, eq_within, multipart_bytes}
use jklibs.BusServer.Parts.{parts_in}
use jklibs.BusServer.Removal.{Moves}
use jklibs.BusServer.Notes.{
  Note, note_parts, notes_bytes, Fits, call_of, topic_text-part, bytes_of-part, delivered, Handles,
  recv_loop-all,
}
use jklibs.BusServer.Client.{
  Client, ev_recv, ev_handler_client, received, handle_publish_client, handle_multipart_msg_client,
}

abbrev pub take_note : Client → Note → Client
take_note client note = record client { events = client.events ++ (call_of note ∷ []) }

handle_publish_client-note :
    (client : Client) (note : Note) (rest : List ℕ)
    → client.client_cb ≡ true
    → NoNul (note.topic)
    → length (note.topic) < 1024
    → handle_publish_client client (parts_in (note_parts note) rest) ≡ done (take_note client note)
unfolding handle_publish_client
handle_publish_client-note client note rest set n h =
    let topic = topic_text-part (note.topic) (multipart_bytes (note.content ∷ []) ++ rest) n h in
    let content = bytes_of-part (note.content) (multipart_bytes [] ++ rest) in
    simp (set, topic, content)

client_Handles :
    (mbuf_remove : ℕ → Mbuf → Mbuf)
    → Handles mbuf_remove handle_multipart_msg_client take_note (λ c. c.client_cb ≡ true)
unfolding handle_multipart_msg_client part_is eq_within
client_Handles mbuf_remove client note rest set n h =
    (handle_publish_client-note client note rest set n h, set)

abbrev pub take_notes : Client → List Note → Client
take_notes client notes = record client { events = client.events ++ map call_of notes }

delivered-take_notes :
    (client : Client) (notes : List Note)
    → delivered take_note client notes ≡ take_notes client notes
delivered-take_notes client [] =
    ap (λ e. record client { events = e }) (sym (append-nil (client.events)))
delivered-take_notes client (note ∷ notes) =
    delivered-take_notes (take_note client note) notes
    ∙ ap (λ e. record client { events = e })
        (append_assoc (client.events) (call_of note ∷ []) (map call_of notes))

-- A client with a callback receives what the server wrote for a number of messages, whose topics
-- are below 1024 bytes and have no NUL: its callback is called with the topic and the data of
-- each in their order, and nothing else changes.
pub ev_handler_client-notes :
    (mbuf_remove : ℕ → Mbuf → Mbuf) (fuel : ℕ) (client : Client) (note : Note) (notes : List Note)
    (io : Mbuf)
    → Moves mbuf_remove
    → client.client_cb ≡ true
    → Fits (note ∷ notes)
    → io.bytes ≡ notes_bytes (note ∷ notes)
    → ev_handler_client mbuf_remove (length (note ∷ notes) + suc fuel) client (ev_recv io)
      ≡ done (some (take_notes client (note ∷ notes)))
unfolding ev_handler_client received
ev_handler_client-notes mbuf_remove fuel client note notes io moves set fits e =
    let (left, _, ends) =
      recv_loop-all mbuf_remove handle_multipart_msg_client take_note (λ c. c.client_cb ≡ true)
        moves (client_Handles mbuf_remove) fuel note notes io 0 client set fits e in
    ap received ends ∙ ap (λ c. done (some c)) (delivered-take_notes client (note ∷ notes))
