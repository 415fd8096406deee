-- ===== src/Sse.antt =====
-- The Anthropic event stream: core/anthropic/sse.py builds it, core/anthropic/stream_contracts.py
-- checks it.
pub mod Event
pub mod Blocks
pub mod Builder
pub mod Contract
pub mod Calls
pub mod Simulation
pub mod Moves
pub mod Tools
pub mod Starting
pub mod Emission
pub mod Composed
pub mod Closing
pub mod Endings
pub mod Conformance
