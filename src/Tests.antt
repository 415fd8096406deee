-- ===== src/Tests.antt =====
-- Runs on concrete inputs.
mod Pools
mod Windows
mod Retries
mod Streams
mod Fallbacks
mod Conversations
mod Tags
mod Stores
mod Routes
mod Queues
mod Natives
mod Tails
mod Updates
mod Branches
mod Indexes
