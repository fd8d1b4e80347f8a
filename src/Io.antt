-- ===== src/Io.antt =====
-- The package io: the processes that the library starts.
pub mod Lines
pub mod Shell
mod Tests
