-- ===== src/BusServer/Receive.antt =====
-- The loop over what a connection received (case MG_EV_RECV of ev_handler and ev_handler_client),
-- and what a message brings to a handler.
use jklibs.Common.{
  ℕ, zero, suc, ◌||◌, List, Option, none, some, ltb, ◌==◌, if◌then◌else◌, length, take, get_elem?,
}
use jklibs.Common.Int.{ℤ, to_size}
use jklibs.Common.Outcome.{Outcome, done, fault, ◌>>=◌}
use jklibs.Common.Text.{until_nul}
use jklibs.BusServer.Parse.{BcStr, Mbuf, parse_multipart_msg}

-- What the program does to the outside: the bytes written to a connection, and the calls of the
-- user's callback with the topic, the bytes of the data and their number.
pub data Event : Type 0 where
  sent : ℕ → List ℕ → Event
  called : List ℕ → List ℕ → ℤ → Event

-- msg->bm.part[i]; a part that the message has not was never written, or is of an older message.
abbrev pub part_of : List BcStr → ℕ → Outcome BcStr
part_of parts i = elim (get_elem? parts i) [ none ↦ fault | some part ↦ done part ]

-- The buffer of 1024 bytes that strncpy fills, as the callback reads it: without a NUL in it, the
-- callback reads on behind it.
unfoldable pub topic_text : BcStr → Outcome (List ℕ)
topic_text part =
    let n = to_size (part.len) in
    let text = until_nul (take n (part.text)) in
    if ltb 1024 n || (length text == 1024) then fault else done text

module _ {ℓ} {S : Type ℓ} (mbuf_remove : ℕ → Mbuf → Mbuf)
    (handle : S → List BcStr → Outcome S) where
  -- while (1), from the type that the earlier rounds left; `none` means that the fuel ran out.
  unfoldable pub recv_loop : ℕ → Mbuf → ℕ → S → Outcome (Option (S × Mbuf))
  recv_loop zero io type state = done none
  recv_loop (suc fuel) io type state = parse_multipart_msg io type >>= λ parsed. elim parsed [
    | none ↦ done (some (state, io))
    | some msg ↦
        let next =
          handle state (msg.parts) >>= recv_loop fuel (mbuf_remove (msg.size) io) (msg.type) in
        if msg.type == 0 then done (some (state, io)) else next
  ]
