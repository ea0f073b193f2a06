-- ===== src/Utils.antt =====
-- utils: the helpers that the clients share.
pub mod Collections
pub mod DelayedQueue
pub mod Epochs
pub mod Ticker
pub mod Hex
pub mod Int64
pub mod Encoding
