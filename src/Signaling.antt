-- ===== src/Signaling.antt =====
-- The signaling sessions and the socket writer: internal/signaling and
-- pkg/dependencies/websocket/writer.go.
pub mod Message
pub mod Writer
pub mod Session
