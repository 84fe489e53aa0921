-- ===== src/Examples.antt =====
-- The theorems at concrete inputs.
mod Core
mod Nodes
mod Voting
mod Views
mod Chains
mod Stable
mod Stored
mod Water
mod Epochs
