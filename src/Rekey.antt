-- ===== src/Rekey.antt =====
-- `RekeySession` (rekaserdoba/src/rekey.rs).
pub mod Auth
pub mod Session
pub mod Opening
pub mod Requests
pub mod Update
pub mod FullRekey
pub mod Keeping
pub mod Soundness
pub mod Invariant
pub mod Opened
pub mod Reachable
pub mod Deadlines
pub mod Commit
pub mod Confirm
pub mod Grace
pub mod Lasting
pub mod Late
