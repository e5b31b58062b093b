-- ===== src/Tests.antt =====
-- Runs of the model at concrete inputs.
mod Data
pub mod Draws
pub mod Drafts
pub mod Moves
pub mod Payments
pub mod Chains
pub mod Forks
pub mod Pending
pub mod Adoption
pub mod Swaps
pub mod Trades
pub mod Pools
pub mod Syncing
pub mod Offers
