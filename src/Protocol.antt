-- ===== src/Protocol.antt =====
-- protocol.py, a module for each family of its functions.
pub mod Channel
pub mod Encoding
pub mod Forward
pub mod Interval
pub mod Timestamp
