-- ===== src/Media.antt =====
-- The package media: where the encoded streams of a call come from.
pub mod Gate
pub mod Frames
pub mod Pace
pub mod Track
pub mod Tokens
pub mod Flags
pub mod SeekArgs
pub mod Shells
pub mod Opens
pub mod Single
pub mod Transcode
mod Tests
