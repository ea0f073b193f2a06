-- ===== src/Examples.antt =====
-- Concrete inputs: each theorem at values where its hypotheses hold.
pub mod Contexts
pub mod Databases
pub mod Programs
pub mod Sorting
pub mod Trees
pub mod Sets
pub mod Messages
pub mod Lists
pub mod Clients
pub mod Payloads
pub mod Caches
pub mod Transactions
pub mod Texts
pub mod EpochClients
pub mod Voting
pub mod Selections
pub mod Queues
pub mod Finalizing
pub mod Submitting
pub mod Listening
