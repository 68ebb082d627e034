-- ===== src/Protocol.antt =====
-- internal/protocol: WebSocket frames and the messages that they carry.
pub mod Stream
pub mod Message
pub mod Reader
pub mod Frame
