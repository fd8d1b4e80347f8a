-- ===== src/Client.antt =====
-- gotgcall.go: the Client, over the interface of instances/call.go.
pub mod Options
pub mod Registry
pub mod Methods
pub mod Events
pub mod Tidy
pub mod Retire
pub mod Keeping
pub mod Shutdown
pub mod NoLeak
pub mod Failing
pub mod Races
pub mod Calls
pub mod Interface
pub mod Recovery
pub mod Heard
pub mod Info
mod Tests
