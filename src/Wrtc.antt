-- ===== src/Wrtc.antt =====
-- The package wrtc: the WebRTC stack below a call.
pub mod Ssrc
pub mod Stack
pub mod Monitor
pub mod Certs
pub mod Keys
pub mod Setup
pub mod Params
pub mod Factory
pub mod Track
mod Tests
