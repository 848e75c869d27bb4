-- ===== src/Streaming.antt =====
-- Server-sent events: durallm/streaming/parser.py.
pub mod Utf8
pub mod Parser
pub mod Chunks
