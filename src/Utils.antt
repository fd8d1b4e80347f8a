-- ===== src/Utils.antt =====
-- The package utils: the byte ring and the callback dispatcher.
pub mod Ring
pub mod Dispatcher
