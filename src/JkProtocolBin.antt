-- ===== src/JkProtocolBin.antt =====
-- jkprotocol/binary/jkprotocolbin.c in the form that is compiled, JK_USE_TEXT: headers as text in
-- the first 120 bytes. A C `int` or `long` is an integer, a `char` array the text before its NUL.
-- MD5 with its printing as text, the clock and the allocator are parameters.
pub mod State
pub mod Text
pub mod Codec
pub mod Memory
pub mod Validity
pub mod Sequence
pub mod RoundTrip
pub mod Exchange
mod Tests
