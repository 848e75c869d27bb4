-- ===== src/Continuation.antt =====
-- The Agent Continuation Protocol: durallm/continuation.
pub mod Model
pub mod Store
pub mod Epochs
pub mod Handshake
pub mod Waiting
mod Orderly
pub mod Opening
