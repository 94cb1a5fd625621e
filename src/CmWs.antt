-- ===== src/CmWs.antt =====
-- common/cm_http.c and common/cm_conn_ws.c: the frames of a WebSocket, over a connection of
-- common/cm_conn_tcp.c.
pub mod Frame
pub mod Read
pub mod Send
pub mod Mask
pub mod Heads
pub mod Payload
pub mod Fragments
pub mod Sending
pub mod Exchange
pub mod Once
pub mod Closes
pub mod Cut
mod Tests
