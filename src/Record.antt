-- ===== src/Record.antt =====
-- The record layer (rekaserdoba/src/record.rs).
pub mod Header
pub mod Replay
pub mod Frames
pub mod Keys
pub mod Sender
pub mod Receiver
pub mod Layer
pub mod Delivery
pub mod Traffic
pub mod Exchange
