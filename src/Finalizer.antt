-- ===== src/Finalizer.antt =====
-- client/finalizer: collecting the voters' signatures and relaying the finalized message.
pub mod Payload
pub mod Policies
pub mod Submissions
pub mod Relay
pub mod Queue
pub mod Client
pub mod Context
pub mod Processor
pub mod Running
pub mod Listener
