-- ===== src/H264.antt =====
-- The H.264 reader and frame writer of cmd/go-ring.
pub mod Bits
pub mod Stream
pub mod Golomb
pub mod Rbsp
pub mod Payload
pub mod Writer
