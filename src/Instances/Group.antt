-- ===== src/Instances/Group.antt =====
-- instances/group_call.go, the WebRTC call of one chat.
pub mod State
pub mod Ends
pub mod Start
pub mod Control
pub mod Source
pub mod Seek
pub mod Tasks
pub mod History
pub mod Coherence
pub mod Gates
pub mod Toggles
pub mod Eof
pub mod Seeking
pub mod Underflow
pub mod Lifecycle
mod Tests
