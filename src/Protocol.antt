-- ===== src/Protocol.antt =====
-- client/protocol: fetching the data of the sub-protocols and submitting it on chain.
pub mod Response
pub mod Signatures
pub mod Written
pub mod RoundTrip
pub mod Waiting
pub mod Submitted
