-- ===== src/Handshake.antt =====
-- The inner handshake (rekaserdoba/src/main.rs): the cursor over a message, the messages of client
-- and server, the handshake records, and `inner_handshake` itself.
pub mod Cursor
pub mod Hello
pub mod Messages
pub mod Auth
pub mod Exchange
