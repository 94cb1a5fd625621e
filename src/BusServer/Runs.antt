-- ===== src/BusServer/Runs.antt =====
-- Messages on concrete bytes, as the parser and the handlers take them.
use jklibs.Common.{ℕ, ◌-◌, ◌≡◌, refl, true, List, [], ◌∷◌, ◌++◌, none, some, length, drop}
use jklibs.Common.Int.{negsuc}
use jklibs.Common.Decimal.{atoi, read_digits, print_nat, digits_fuel}
use jklibs.Common.Outcome.{done, fault}
use jklibs.Common.Text.{codes}
use jklibs.BusServer.Parse.{
  Mbuf, memory, find_in_str, crlf_at, type_of, part_at, next_part, message_of, first_text,
  parse_parts, parse_multipart_msg, part_bytes, multipart_bytes, eq_within, part_is,
}
use jklibs.BusServer.Parts.{part_in}
use jklibs.BusServer.Receive.{recv_loop}
use jklibs.BusServer.Removal.{Moves}
use jklibs.BusServer.Server.{
  Bus, bus_client_init, joins_as, handle_request, handle_multipart_msg, receive,
}
use jklibs.BusServer.Notes.{Note, note_parts}
use jklibs.BusServer.Registry.{set_conn_named, join_again, join_free}

-- What the library's function does.
abbrev pub mbuf_remove : ℕ → Mbuf → Mbuf
mbuf_remove n io = record {
  bytes = drop n (io.bytes);
  behind = drop (length (io.bytes) - n) (memory io);
}

pub mbuf_remove-Moves : Moves mbuf_remove
mbuf_remove-Moves n io h = refl

abbrev pub quiet : Bus
quiet = record { bus_clients = []; conn = none; user_cb = true; events = [] }

unfoldable pub bus : Bus
bus = bus_client_init quiet

abbrev pub note : Note
note = record { topic = codes "/move"; content = codes "left" }

abbrev pub holding : List ℕ → Mbuf
holding bytes = record { bytes = bytes; behind = [] }

-- The text of a message.
note_text :
    multipart_bytes (note_parts note) ≡ codes "7\r\npublish\r\n5\r\n/move\r\n4\r\nleft\r\n\r\n"
unfolding multipart_bytes part_bytes print_nat digits_fuel
note_text = refl

-- The start of a message is left for later, where a NUL stands behind it.
cut_message :
    parse_multipart_msg (record { bytes = codes "7\r\npubl"; behind = 0 ∷ [] }) 0 ≡ done none
unfolding parse_multipart_msg parse_parts next_part find_in_str part_at atoi read_digits crlf_at
cut_message = refl

-- A part of a negative length is taken: its bytes start behind it.
negative_length :
    parse_multipart_msg (record { bytes = codes "-2\r\n\r\nx"; behind = 0 ∷ [] }) 2
    ≡ done (
        some (record {
          parts = record { len = negsuc 1; text = codes "\r\nx" ++ (0 ∷ []) } ∷ [];
          type = 2;
          size = 6;
        }))
unfolding parse_multipart_msg parse_parts next_part find_in_str part_at atoi read_digits crlf_at
    message_of first_text type_of
negative_length = refl

-- An unknown first message is never taken off the received bytes.
unknown_message :
    receive mbuf_remove 9 quiet 3 (holding (codes "2\r\nno\r\n\r\n"))
    ≡ done (some (record quiet { conn = some 3 }, holding (codes "2\r\nno\r\n\r\n")))
unfolding receive recv_loop parse_multipart_msg parse_parts next_part find_in_str part_at atoi
    read_digits crlf_at message_of first_text type_of
unknown_message = refl

-- A request of one part is answered from what was never written.
short_request : handle_multipart_msg 3 quiet (part_in (codes "request") [] ∷ []) ≡ fault
unfolding handle_multipart_msg handle_request part_is eq_within
short_request = refl

-- A shorter name joins as a longer one.
short_name : joins_as (part_in (codes "a") []) ≡ some 4
unfolding joins_as part_is eq_within
short_name = refl

no_name : joins_as (part_in [] []) ≡ some 0
unfolding joins_as part_is eq_within
no_name = refl

-- In the table by names, a shorter name takes the place of a longer one.
taken_place :
    (set_conn_named
      (record {
        port = 0;
        clients = record { name = codes "demo1"; conn = some 4 } ∷ [];
        cb = true;
        events = [];
      })
      (codes "demo")
      7).clients
    ≡ record { name = codes "demo"; conn = some 7 } ∷ []
unfolding set_conn_named join_again join_free
taken_place = refl

-- An announced length whose sum no int holds, as in C from 2147483643 on.
overflowing :
    parse_multipart_msg (record { bytes = codes "2147483647\r\nx"; behind = 0 ∷ [] }) 0 ≡ fault
unfolding parse_multipart_msg parse_parts next_part find_in_str part_at atoi read_digits crlf_at
overflowing = refl
