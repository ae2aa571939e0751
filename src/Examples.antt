-- ===== src/Examples.antt =====
-- Concrete runs: for the theorems with conditions, an input that meets them.
mod Messages
mod Channels
mod Conversations
mod Across
mod Crates
mod Access
mod Sessions
mod Clients
mod Agent
