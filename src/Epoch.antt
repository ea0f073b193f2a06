-- ===== src/Epoch.antt =====
-- client/epoch: registration and signing for the reward epochs, on the events of the contracts. `W` is
-- the outside world.
pub mod PolicyHash
pub mod Signing
pub mod Rewards
pub mod Registry
pub mod Client
pub mod Sent
pub mod Future
pub mod Listeners
