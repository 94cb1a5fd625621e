-- ===== src/BusServer/Notes.antt =====
-- Published notes (a topic and its data) in the received bytes, and the loop that hands them one
-- after the other to a handler.
use jklibs.Common.{
  ℕ, suc, ◌+◌, ◌<◌, ◌≡◌, refl, ◌∙◌, ap, List, [], ◌∷◌, ◌++◌, some, arith, ◌==◌, length,
  append_assoc, append-nil, take_append_n,
}
use jklibs.Common.Int.{pos}
use jklibs.Common.Outcome.{Outcome, done}
use jklibs.Common.Text.{codes, NoNul, until_nul, until_nul_self}
use jklibs.BusServer.Parse.{BcStr, Mbuf, crlf, bytes_of, multipart_bytes, type_of, recv_topic}
use jklibs.BusServer.Parts.{part_in, parts_in}
use jklibs.BusServer.Receive.{Event, called, topic_text, recv_loop}
use jklibs.BusServer.Loop.{recv_loop-last, recv_loop-message}
use jklibs.BusServer.Removal.{removed}
use jklibs.BusServer.Removal.{Removes, Moves, Moves-Removes}
use jklibs.BusServer.Server.{publish}

-- A topic and its data.
pub record Note : Type 0 where
  pub topic : List ℕ
  pub content : List ℕ

abbrev pub note_parts : Note → List (List ℕ)
note_parts note = publish (note.topic) (note.content)

-- The bytes of the messages, one behind the other.
abbrev pub notes_bytes : List Note → List ℕ
notes_bytes [] = []
notes_bytes (note ∷ notes) = multipart_bytes (note_parts note) ++ notes_bytes notes

-- A topic is a C string that the buffer of the handler has room for.
abbrev pub Fits : List Note → Type 0
Fits [] = Unit {0}
Fits (note ∷ notes) = (NoNul (note.topic) × (length (note.topic) < 1024)) × Fits notes

abbrev pub call_of : Note → Event
call_of note = called (note.topic) (note.content) (pos (length (note.content)))

pub topic_text-part :
    (topic rest : List ℕ)
    → NoNul topic
    → length topic < 1024
    → topic_text (part_in topic rest) ≡ done topic
unfolding topic_text
topic_text-part topic rest n h =
    let whole = take_append_n (length topic) topic (13 ∷ (10 ∷ rest)) refl in
    let text = ap until_nul whole ∙ until_nul_self topic n in rw text (ground arith)

pub bytes_of-part : (data_ rest : List ℕ) → bytes_of (part_in data_ rest) ≡ data_
bytes_of-part data_ rest = take_append_n (length data_) data_ (13 ∷ (10 ∷ rest)) refl

type_of-publish : (rest : List ℕ) (type : ℕ) → type_of (codes "publish" ++ rest) type ≡ recv_topic
unfolding type_of
type_of-publish rest type = refl

-- The messages handled one after the other, and the type that the last leaves.
abbrev pub delivered {ℓ} : {S : Type ℓ} → (S → Note → S) → S → List Note → S
delivered deliver state [] = state
delivered deliver state (note ∷ notes) = delivered deliver (deliver state note) notes

module _ {ℓ} {S : Type ℓ} (mbuf_remove : ℕ → Mbuf → Mbuf) (handle : S → List BcStr → Outcome S)
    (deliver : S → Note → S) (Ready : S → Type ℓ) where
  -- The handler takes a note as it stands in memory, and is ready for the next.
  abbrev pub Handles : Type ℓ
  Handles =
      (state : S) (note : Note) (rest : List ℕ)
      → Ready state
      → NoNul (note.topic)
      → length (note.topic) < 1024
      → (handle state (parts_in (note_parts note) rest) ≡ done (deliver state note))
        × Ready (deliver state note)

  recv_loop-note :
      Handles
      → (fuel : ℕ) (note : Note) (io : Mbuf) (behind : List ℕ) (type : ℕ) (state : S) → Ready state
      → NoNul (note.topic)
      → length (note.topic) < 1024
      → io.bytes ≡ multipart_bytes (note_parts note) ++ behind
      → recv_loop mbuf_remove handle (suc fuel) io type state
        ≡ recv_loop mbuf_remove handle fuel
            (mbuf_remove (length (multipart_bytes (note_parts note))) io)
            recv_topic
            (deliver state note)
  recv_loop-note handles fuel note io behind type state ready n h front =
      let others = note.topic ∷ (note.content ∷ []) in
      let text = type_of-publish (crlf ++ (multipart_bytes others ++ (behind ++ io.behind))) type in
      let handled = handles state note (behind ++ io.behind) ready n h in
      recv_loop-message mbuf_remove handle fuel (codes "publish") others io behind type state
        (deliver state note) (omega arith) front (ap (λ t. t == 0) text) (handled.0)
      ∙ ap
          (λ t.
            recv_loop mbuf_remove handle fuel
              (mbuf_remove (length (multipart_bytes (note_parts note))) io) t (deliver state note))
          text

  -- The received notes go to the handler one after the other, and the loop goes on with the rest.
  pub recv_loop-notes :
      Removes mbuf_remove
      → Handles
      → (fuel : ℕ) (notes : List Note) (io : Mbuf) (rest : List ℕ) (type : ℕ) (state : S)
      → Ready state
      → Fits notes
      → io.bytes ≡ notes_bytes notes ++ rest
      → (left : Mbuf) × (left.bytes ≡ rest)
        × (last : ℕ) × (recv_loop mbuf_remove handle (length notes + fuel) io type state
            ≡ recv_loop mbuf_remove handle fuel left last (delivered deliver state notes))
  recv_loop-notes removes handles fuel [] io rest type state ready f e =
      let none_left : 0 + fuel ≡ fuel = omega arith in
      (io, e, type, ap (λ n. recv_loop mbuf_remove handle n io type state) none_left)
  recv_loop-notes removes handles fuel (note ∷ notes) io rest type state ready f e =
      let bytes = multipart_bytes (note_parts note) in
      let behind = notes_bytes notes ++ rest in
      let front = e ∙ append_assoc bytes (notes_bytes notes) rest in
      let gone = removed mbuf_remove removes bytes behind io front in
      let handled = handles state note [] ready (f.0.0) (f.0.1) in
      let (left, kept, last, later) =
        recv_loop-notes removes handles fuel notes (mbuf_remove (length bytes) io) rest recv_topic
          (deliver state note) (handled.1) (f.1) gone in
      let step =
        recv_loop-note handles (length notes + fuel) note io behind type state ready (f.0.0) (f.0.1)
          front in
      let one : length (note ∷ notes) + fuel ≡ suc (length notes + fuel) = omega arith in
      (
        left,
        kept,
        last,
        ap (λ n. recv_loop mbuf_remove handle n io type state) one ∙ (step ∙ later),
      )

  -- Notes with nothing behind them are handled to the last, and the loop returns.
  pub recv_loop-all :
      Moves mbuf_remove
      → Handles
      → (fuel : ℕ) (note : Note) (notes : List Note) (io : Mbuf) (type : ℕ) (state : S)
      → Ready state
      → Fits (note ∷ notes)
      → io.bytes ≡ notes_bytes (note ∷ notes)
      → (left : Mbuf) × (left.bytes ≡ [])
        × (recv_loop mbuf_remove handle (length (note ∷ notes) + suc fuel) io type state
            ≡ done (some (delivered deliver state (note ∷ notes), left)))
  recv_loop-all moves handles fuel note [] io type state ready f e =
      let others = note.topic ∷ (note.content ∷ []) in
      let text = type_of-publish (crlf ++ (multipart_bytes others ++ io.behind)) type in
      let handled = handles state note (io.behind) ready (f.0.0) (f.0.1) in
      let one : length (note ∷ []) + suc fuel ≡ suc (suc fuel) = omega arith in
      let (left, none_left, ends) =
        recv_loop-last mbuf_remove handle moves fuel (codes "publish") others io type state
          (deliver state note) (omega arith) (omega arith)
          (e ∙ append-nil (multipart_bytes (note_parts note))) (ap (λ t. t == 0) text)
          (handled.0) in
      (left, none_left, ap (λ n. recv_loop mbuf_remove handle n io type state) one ∙ ends)
  recv_loop-all moves handles fuel note (two ∷ notes) io type state ready f e =
      let bytes = multipart_bytes (note_parts note) in
      let behind = notes_bytes (two ∷ notes) in
      let gone = removed mbuf_remove (Moves-Removes moves) bytes behind io e in
      let handled = handles state note [] ready (f.0.0) (f.0.1) in
      let (left, kept, later) =
        recv_loop-all moves handles fuel two notes (mbuf_remove (length bytes) io) recv_topic
          (deliver state note) (handled.1) (f.1) gone in
      let step =
        recv_loop-note handles (length (two ∷ notes) + suc fuel) note io behind type state ready
          (f.0.0) (f.0.1) e in
      let one : length (note ∷ (two ∷ notes)) + suc fuel ≡ suc (length (two ∷ notes) + suc fuel) =
        omega arith in
      (left, kept, ap (λ n. recv_loop mbuf_remove handle n io type state) one ∙ (step ∙ later))
