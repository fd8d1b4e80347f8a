-- ===== src/Instances.antt =====
-- The package instances: the state of one call, WebRTC or RTMP.
pub mod Group
pub mod Rtmp
