-- ===== src/Tests.antt =====
-- The theorems at concrete inputs.
mod H264
mod Signaling
mod Session
mod Sdp
mod Live
mod Recording
mod Wire
mod Events
mod Device
mod Capture
mod Rest
mod Connection
