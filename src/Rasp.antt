-- ===== src/Rasp.antt =====
-- protocol/rasp/kfrasp.c with kfrasp.h and kfrasp_string.c: the commands of the router protocol
-- and the signed header of its JSON messages. The JSON library, MD5 with its printing as text, the
-- comparison `kf_string_compare`, the clock and `jk_time_string` are parameters. The bodies of
-- messages are parsed by the routines of kfrasp_parse_data.c.
pub mod Names
pub mod Header
pub mod Commands
pub mod Signing
pub mod Document
pub mod Body
pub mod Process
pub mod Receive
pub mod Generate
pub mod Bodies
pub mod Balance
mod Tests
