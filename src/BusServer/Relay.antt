-- ===== src/BusServer/Relay.antt =====
-- From a client to the callback of the server: what the client's calls write to its connection is
-- what the server's loop hands to the user.
use jklibs.Common.{
  ℕ, suc, ◌+◌, ◌≡◌, refl, ◌∙◌, ap, sym, true, List, [], ◌∷◌, ◌++◌, Bool-cases, inl, inr, some,
  arith, ◌==◌, if◌then◌else◌, length, append_assoc, append-nil,
}
use jklibs.Common.Outcome.{Outcome, done, ◌>>=◌}
use jklibs.BusServer.Parse.{Mbuf, multipart_bytes}
use jklibs.BusServer.Receive.{Event, sent, called}
use jklibs.BusServer.Removal.{Moves}
use jklibs.BusServer.Server.{Bus, receive}
use jklibs.BusServer.Client.{Client, send_on, busclient_send_msg}
use jklibs.BusServer.Notes.{Note, note_parts, notes_bytes, Fits}
use jklibs.BusServer.Deliver.{deliver_notes, receive-notes}

-- The bytes written to a connection, in their order.
abbrev pub written : ℕ → List Event → List ℕ
written nc [] = []
written nc (sent c bytes ∷ events) =
    let rest = written nc events in if c == nc then bytes ++ rest else rest
written nc (called topic data_ len ∷ events) = written nc events

-- One call of busclient_send_msg after the other.
unfoldable pub send_notes : Client → List Note → Outcome Client
send_notes client [] = done client
send_notes client (note ∷ notes) =
    busclient_send_msg client (some (note.topic)) (some (note.content)) >>= λ client.
    send_notes client notes

abbrev pub after_notes : Client → ℕ → List Note → Client
after_notes client nc [] = client
after_notes client nc (note ∷ notes) =
    after_notes
      (record client {
        events = client.events ++ (sent nc (multipart_bytes (note_parts note)) ∷ []);
      })
      nc notes

send_notes-after :
    (client : Client) (nc : ℕ) (notes : List Note)
    → client.conn_client ≡ some nc
    → send_notes client notes ≡ done (after_notes client nc notes)
unfolding send_notes busclient_send_msg send_on
send_notes-after client nc [] e = refl
send_notes-after client nc (note ∷ notes) e =
    ap (λ c. send_notes (send_on client c (note_parts note)) notes) e
    ∙ send_notes-after
        (record client {
          events = client.events ++ (sent nc (multipart_bytes (note_parts note)) ∷ []);
        })
        nc notes e

written-sent :
    (nc : ℕ) (events : List Event) (bytes : List ℕ)
    → written nc (events ++ (sent nc bytes ∷ [])) ≡ written nc events ++ bytes
written-sent nc [] bytes = let same : (nc == nc) ≡ true = ground arith in rw same (append-nil bytes)
written-sent nc (sent c b ∷ events) bytes =
    let rest = written-sent nc events bytes in
    elim (Bool-cases (c == nc)) [
      | inl e ↦ rw e (ap (λ w. b ++ w) rest ∙ sym (append_assoc b (written nc events) bytes))
      | inr e ↦ rw e rest
    ]
written-sent nc (called t d l ∷ events) bytes = written-sent nc events bytes

written-after :
    (client : Client) (nc : ℕ) (notes : List Note)
    → written nc ((after_notes client nc notes).events)
      ≡ written nc (client.events) ++ notes_bytes notes
written-after client nc [] = sym (append-nil _)
written-after client nc (note ∷ notes) =
    let bytes = multipart_bytes (note_parts note) in
    written-after (record client { events = client.events ++ (sent nc bytes ∷ []) }) nc notes
    ∙ (ap (λ w. w ++ notes_bytes notes) (written-sent nc (client.events) bytes)
        ∙ append_assoc (written nc (client.events)) bytes (notes_bytes notes))

-- A client with a connection publishes notes, and the server receives what was written to it: every call
-- succeeds, the callback is called with the topic and the data of each note in the order of the
-- calls, the loop returns, and no byte is left.
pub relay :
    (mbuf_remove : ℕ → Mbuf → Mbuf) (fuel : ℕ) (client : Client) (out : ℕ) (bus : Bus) (nc : ℕ)
    (note : Note) (notes : List Note) (io : Mbuf)
    → Moves mbuf_remove
    → client.conn_client ≡ some out
    → client.events ≡ []
    → bus.user_cb ≡ true
    → Fits (note ∷ notes)
    → io.bytes ≡ written out ((after_notes client out (note ∷ notes)).events)
    → (send_notes client (note ∷ notes) ≡ done (after_notes client out (note ∷ notes)))
      × (left : Mbuf) × (left.bytes ≡ [])
      × (receive mbuf_remove (length (note ∷ notes) + suc fuel) bus nc io
          ≡ done (some (deliver_notes (record bus { conn = some nc }) (note ∷ notes), left)))
relay mbuf_remove fuel client out bus nc note notes io moves open_ none_yet set fits e =
    let bytes =
      e
      ∙ (written-after client out (note ∷ notes)
          ∙ ap (λ es. written out es ++ notes_bytes (note ∷ notes)) none_yet) in
    let (left, none_left, ends) =
      receive-notes mbuf_remove fuel bus nc note notes io moves set fits bytes in
    (send_notes-after client out (note ∷ notes) open_, left, none_left, ends)
